-- ===== src/Compile/Transform/Keeps.antt =====
-- The transformer of packages/sqrl/src/ast/SqrlAstTransformer.ts keeps the slots of the parser state,
-- whatever the transforms of the functions ask for.
use sqrl.Prelude.{
  ℕ, zero, suc, String, List, [], ◌∷◌, Option, none, some, Result, ok, ◌>>=◌, Yields, halts, yields,
  Yields-bind, Yields-after, Yields-map,
}
use sqrl.Ast.{
  Ast, Asts, MaybeAst, constant, script, switch, switch_case, list_comprehension, binary_expr,
  boolean_expr, let_statement, feature, rules, rule, list, call, custom_call, registered_call,
  if_expr, state, when_cause, iterator, when, priority, assertion, include, negation, slot, nil,
  cons, absent, present,
}
use sqrl.Compile.Parser.{Parser, ensure_iterator}
use sqrl.Compile.Parser.Kept.{IsKept, IsKept-refl, IsKept-trans}
use sqrl.Compile.Parser.Commands.{ensure_iterator-IsKept}
use sqrl.Compile.Parser.Globals.{IsKeeping, IsKept-pair}
use sqrl.Compile.Parser.Helpers.{wrap_iterator}
use sqrl.Compile.Parser.Helpers.Kept.{wrap_iterator-IsKept}
use sqrl.Compile.Transform.Answers.{run_transform-IsKept}
use sqrl.Compile.Transform.{
  Run, Function, Language, Transform, full_args, function_at, ensure_other,
}
use sqrl.Compile.Transform.Nodes.{
  run_transform, transform_all, two, one, many, transform_cases, still_feature, transform_names,
  transform_again, custom_with, call_of, feature_of, switch_default, else_of, if_of,
  comprehension_of, transform_node, transform, language_tools,
}

-- A step that hands on a value, and what is done to it.
Kept-value :
    {A B : Type 0} (p : Parser) (step : Result (Parser × A)) (after : A → B)
    → Yields (λ r. IsKept p r.0) step
    → Yields (λ (r : Parser × B). IsKept p r.0) (step >>= λ r. ok (r.0, after r.1))
Kept-value p step after h = Yields-bind (λ r. IsKept p r.0) step _ h (λ r kept. yields kept)

module _ (language : Language) (transform : Transform)
    (keeping : (e : Ast) (p : Parser) → Yields (λ r. IsKept p r.0) (transform e p)) where
  one-IsKept :
      (build : Ast → Ast) (e : Ast) (p : Parser)
      → Yields (λ r. IsKept p r.0) (one language transform build e p)
  one-IsKept build e p = Kept-value p (transform e p) build (keeping e p)

  two-IsKept :
      (build : Ast → Ast → Ast) (a b : Ast) (p : Parser)
      → Yields (λ r. IsKept p r.0) (two language transform build a b p)
  two-IsKept build a b p =
      IsKept-pair p (transform a p) _ (keeping a p)
        (λ r. Kept-value r.0 (transform b r.0) (build r.1) (keeping b r.0))

  transform_all-IsKept :
      (es : Asts) (p : Parser) → Yields (λ r. IsKept p r.0) (transform_all language transform es p)
  unfolding transform_all
  transform_all-IsKept nil p = yields (IsKept-refl p)
  transform_all-IsKept (cons e es) p = IsKept-pair p (transform e p) _ (keeping e p) (λ r.
      Kept-value r.0 (transform_all language transform es r.0) (cons r.1)
        (transform_all-IsKept es r.0))

  many-IsKept :
      (build : Asts → Ast) (es : Asts) (p : Parser)
      → Yields (λ r. IsKept p r.0) (many language transform build es p)
  many-IsKept build es p = Kept-value p _ build (transform_all-IsKept es p)

  transform_cases-IsKept :
      (cases : Asts) (p : Parser)
      → Yields (λ r. IsKept p r.0) (transform_cases language transform cases p)
  unfolding transform_cases
  transform_cases-IsKept nil p = yields (IsKept-refl p)
  transform_cases-IsKept (cons (switch_case node e where_ast truth) cases) p =
      IsKept-pair p _ _
        (two-IsKept (λ after condition. switch_case node after condition truth) e where_ast p)
        (λ r.
          Kept-value r.0 (transform_cases language transform cases r.0) (cons r.1)
            (transform_cases-IsKept cases r.0))
  transform_cases-IsKept (cons _ cases) p = halts

  transform_names-IsKept :
      (names : List String) (p : Parser)
      → Yields (λ r. IsKept p r.0) (transform_names language transform names p)
  unfolding transform_names
  transform_names-IsKept [] p = yields (IsKept-refl p)
  transform_names-IsKept (name ∷ names) p =
      IsKept-pair p (transform (feature name) p) _ (keeping (feature name) p) (λ r.
        Yields-after (still_feature language transform r.1) _ (λ first.
          Kept-value r.0 (transform_names language transform names r.0) (λ rest. first ∷ rest)
            (transform_names-IsKept names r.0)))

  transform_again-IsKept :
      (func : String) (run : Run) (p : Parser)
      → Yields (λ r. IsKept p r.0) (transform_again language transform func run p)
  transform_again-IsKept func run p =
      IsKept-pair p (run_transform language transform run p) _
        (run_transform-IsKept language transform keeping run p)
        (λ r. Yields-after (ensure_other func r.1) _ (λ _. keeping r.1 r.0))

  custom_with-IsKept :
      (custom : Option (Ast → Run)) (e : Ast) (p : Parser)
      → Yields (λ r. IsKept p r.0) (custom_with language transform custom e p)
  custom_with-IsKept none e p = halts
  custom_with-IsKept (some custom) e p =
      IsKept-pair p (run_transform language transform (custom e) p) _
        (run_transform-IsKept language transform keeping (custom e) p) (λ r. keeping r.1 r.0)

  call_of-IsKept :
      (f : Function) (custom : Option (Ast → Run)) (build : Asts → Ast) (func : String)
      (args : Asts) (p : Parser)
      → Yields (λ r. IsKept p r.0) (call_of language transform f custom build func args p)
  call_of-IsKept f (some custom) build func args p =
      Yields-after (f.check_args args) _ (λ _. transform_again-IsKept func (custom (build args)) p)
  call_of-IsKept f none build func args p =
      Yields-after (f.check_args (full_args f args)) _
        (λ _. Kept-value p _ _ (transform_all-IsKept (full_args f args) p))

  feature_of-IsKept :
      (name : String) (parts : Option (String × String)) (p : Parser)
      → Yields (λ r. IsKept p r.0) (feature_of language transform name parts p)
  feature_of-IsKept name none p = yields (IsKept-refl p)
  feature_of-IsKept name (some (before, behind)) p = keeping _ p

  switch_default-IsKept :
      (cases : Asts) (default : MaybeAst) (p : Parser)
      → Yields (λ r. IsKept p r.0) (switch_default language transform cases default p)
  switch_default-IsKept cases absent p = halts
  switch_default-IsKept cases (present e) p = IsKept-pair p (transform e p) _ (keeping e p) (λ r.
      Kept-value r.0 (transform r.1 r.0) (λ twice. switch cases (present twice)) (keeping r.1 r.0))

  else_of-IsKept :
      (condition yes_ast : Ast) (no_ast : MaybeAst) (p : Parser)
      → Yields (λ r. IsKept p r.0) (else_of language transform condition yes_ast no_ast p)
  else_of-IsKept condition yes_ast absent p = halts
  else_of-IsKept condition yes_ast (present no_ast) p = one-IsKept _ no_ast p

  if_of-IsKept :
      (condition yes_ast : Ast) (no_ast : MaybeAst) (p : Parser)
      → Yields (λ r. IsKept p r.0) (if_of language transform condition yes_ast no_ast p)
  if_of-IsKept condition yes_ast no_ast p =
      IsKept-pair p (transform condition p) _ (keeping condition p) (λ r.
        IsKept-pair r.0 (transform yes_ast r.0) _ (keeping yes_ast r.0)
          (λ q. else_of-IsKept r.1 q.1 no_ast q.0))

  comprehension_of-IsKept :
      (output input : Ast) (name : String) (where_ast : Ast) (p : Parser)
      → Yields
          (λ r. IsKept p r.0)
          (comprehension_of language transform output input name where_ast p)
  comprehension_of-IsKept output input name where_ast p =
      IsKept-pair p (transform output p) _ (keeping output p)
        (λ r. two-IsKept _ input where_ast r.0)

  list_comprehension-IsKept :
      (output input : Ast) (name : String) (where_ast : Ast) (p : Parser)
      → Yields
          (λ r. IsKept p r.0)
          (ensure_iterator name p
            >>= wrap_iterator name
                (comprehension_of language transform output input name where_ast))
  list_comprehension-IsKept output input name where_ast p =
      Yields-bind (IsKept p) (ensure_iterator name p) _ (ensure_iterator-IsKept name p) (λ q kept.
        Yields-map _ (λ r k. IsKept-trans p q r.0 kept k)
          (wrap_iterator-IsKept name
            (comprehension_of language transform output input name where_ast) q
            (comprehension_of-IsKept output input name where_ast _)))

  transform_node-IsKept :
      (e : Ast) (p : Parser) → Yields (λ r. IsKept p r.0) (transform_node language transform e p)
  unfolding transform_node
  transform_node-IsKept (assertion e) p = one-IsKept _ e p
  transform_node-IsKept (binary_expr left op right) p = two-IsKept _ left right p
  transform_node-IsKept (boolean_expr left op right) p = two-IsKept _ left right p
  transform_node-IsKept (call func args) p =
      Yields-after (function_at language func) _
        (λ f. call_of-IsKept f f.transform_ast (call func) func args p)
  transform_node-IsKept (custom_call func source) p =
      Yields-after (function_at language func) _
        (λ f. custom_with-IsKept f.custom_transform (custom_call func source) p)
  transform_node-IsKept (feature name) p = feature_of-IsKept name (language.split_at_dot name) p
  transform_node-IsKept (if_expr condition yes_ast no_ast) p =
      if_of-IsKept condition yes_ast no_ast p
  transform_node-IsKept (let_statement final description e name default where_ast) p =
      two-IsKept _ e where_ast p
  transform_node-IsKept (list es) p = many-IsKept list es p
  transform_node-IsKept (list_comprehension output input name where_ast) p =
      list_comprehension-IsKept output input name where_ast p
  transform_node-IsKept (negation e) p = one-IsKept _ e p
  transform_node-IsKept (registered_call func args) p =
      Yields-after (function_at language func) _
        (λ f. call_of-IsKept f f.transform_ast (registered_call func) func args p)
  transform_node-IsKept (rule name description where_ast reason) p = one-IsKept _ where_ast p
  transform_node-IsKept (rules names) p = Kept-value p _ rules (transform_names-IsKept names p)
  transform_node-IsKept (script es) p = many-IsKept script es p
  transform_node-IsKept (switch cases default) p =
      IsKept-pair p (transform_cases language transform cases p) _ (transform_cases-IsKept cases p)
        (λ r. switch_default-IsKept r.1 default r.0)
  transform_node-IsKept (when names es) p =
      IsKept-pair p (transform_names language transform names p) _ (transform_names-IsKept names p)
        (λ r. many-IsKept (when r.1) es r.0)
  transform_node-IsKept (priority eager e) p = yields (IsKept-refl p)
  transform_node-IsKept (constant value) p = yields (IsKept-refl p)
  transform_node-IsKept (include filename where_ast) p = yields (IsKept-refl p)
  transform_node-IsKept (iterator name) p = yields (IsKept-refl p)
  transform_node-IsKept (slot name) p = yields (IsKept-refl p)
  transform_node-IsKept state p = yields (IsKept-refl p)
  transform_node-IsKept (when_cause cause) p = yields (IsKept-refl p)
  transform_node-IsKept _ p = halts

-- Every transformer keeps the slots.
pub language_tools-IsKeeping :
    (language : Language) (calls : ℕ) → IsKeeping (language_tools language calls)
unfolding transform
language_tools-IsKeeping language zero e p = halts
language_tools-IsKeeping language (suc calls) e p =
    transform_node-IsKept language (transform language calls)
      (language_tools-IsKeeping language calls) e p
