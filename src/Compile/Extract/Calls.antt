-- ===== src/Compile/Extract/Calls.antt =====
-- packages/sqrl/src/ast/AstExpr.ts: calls and operators on operands that list their slots.
use sqrl.Prelude.{
  String, Bool, true, false, ◌&&◌, ◌||◌, List, [], ◌∷◌, map, reverse, Option, none, some,
  if◌then◌else◌, all, Result, ensure, Yields, halts, yields, Yields-bind, Yields-after, Yields-if,
  ◌≡◌, refl, ap₂, both_true, str_eq, lookup,
}
use sqrl.Value.{Value}
use sqrl.Ast.{Ast}
use sqrl.Ast.Build.{is_constant_null}
use sqrl.Compile.Expr.{constant, call, Expr}
use sqrl.Compile.Fold.{state_expr}
use sqrl.Compile.Translate.{
  Compiler, binary_functions, expr_list, constant_values, waited_slots, plain_call, folded_call,
  call_expr, state_argument, is_null_expr, known_operator, operator_expr, one_operand,
}
use sqrl.Compile.Extract.Covered.{
  requested_in, Covered, AllCovered, AllCovered-none, AllCovered-more, AllCovered-head,
  node-Covered, constant_expr-Covered, state_expr-Covered, and_expr-Covered, or_expr-Covered,
}

-- Arguments whose expressions are covered.
abbrev pub ArgumentsCovered : List (Ast × Expr) → Type 0
ArgumentsCovered args = AllCovered (map (λ a. a.1) args)

all-reversed :
    (p : Expr → Bool) (args rest : List (Ast × Expr))
    → all p (map (λ a. a.1) args) ≡ true
    → all p (map (λ a. a.1) rest) ≡ true
    → all p (map (λ a. a.1) (mathlib.Core.List.reverse_aux args rest)) ≡ true
all-reversed p [] rest h k = k
all-reversed p ((a, e) ∷ args) rest h k =
    let (one, others) = both_true (p e) (all p (map (λ a. a.1) args)) h in
    all-reversed p args ((a, e) ∷ rest) others (ap₂ (λ b c. b && c) one k)

module _ (c : Compiler) where
  plain_call-Covered :
      (func : String) (args : List (Ast × Expr))
      → ArgumentsCovered args
      → Yields Covered (plain_call c func args)
  plain_call-Covered func args h =
      Yields-if (str_eq func "_slotWait") _ _
        (Yields-after (waited_slots args) _
          (λ names. yields (node-Covered (constant _) (some names) [] refl AllCovered-none)))
        (yields (node-Covered (call func) _ (map (λ a. a.1) args) refl h))

  pub call_expr-Covered :
      (func : String) (args : List (Ast × Expr))
      → ArgumentsCovered args
      → Yields Covered (call_expr c func args)
  unfolding call_expr
  call_expr-Covered func args h =
      Yields-if (c.is_pure func) _ _ (folded (constant_values (map (λ a. a.1) args)))
        (plain_call-Covered func args h)
    where
      folded : (vs : Option (List Value)) → Yields Covered (folded_call c func args vs)
      folded none = plain_call-Covered func args h
      folded (some vs) = yields (constant_expr-Covered _)

  is_null_expr-Covered :
      (op : String) (args : List (Ast × Expr))
      → ArgumentsCovered args
      → Yields Covered (is_null_expr c op args)
  unfolding is_null_expr
  is_null_expr-Covered op [] h = halts
  is_null_expr-Covered op (l ∷ []) h = halts
  is_null_expr-Covered op (l ∷ r ∷ []) h = Yields-after (ensure (is_constant_null r.0) _) _ (λ _.
      Yields-bind Covered (call_expr c "_isNull" (l ∷ [])) _
        (call_expr-Covered "_isNull" (l ∷ [])
          (AllCovered-more l.1 [] (AllCovered-head l.1 (r.1 ∷ []) h) AllCovered-none))
        (λ e he. yields (negated e (str_eq op "is not") he)))
    where
      negated :
          (e : Expr) (b : Bool)
          → Covered e
          → Covered (if b then expr_list (call "_not") false (e ∷ []) else e)
      negated e true he =
          node-Covered (call "_not") _ (e ∷ []) refl (AllCovered-more e [] he AllCovered-none)
      negated e false he = he
  is_null_expr-Covered op (l ∷ r ∷ x ∷ args) h = halts

  known_operator-Covered :
      (args : List (Ast × Expr)) (func : Option String)
      → ArgumentsCovered args
      → Yields Covered (known_operator c args func)
  known_operator-Covered args none h = halts
  known_operator-Covered args (some func) h = call_expr-Covered func args h

  pub operator_expr-Covered :
      (op : String) (args : List (Ast × Expr))
      → ArgumentsCovered args
      → Yields Covered (operator_expr c op args)
  unfolding operator_expr
  operator_expr-Covered op args h =
      let with_state = AllCovered-more state_expr (map (λ a. a.1) args) state_expr-Covered h in
      Yields-if (str_eq op "in") _ _
        (call_expr-Covered "_contains" (reverse args)
          (λ around. all-reversed (requested_in around) args [] (h around) refl))
        (Yields-if (str_eq op "/") _ _
          (call_expr-Covered "_divide" (state_argument ∷ args) with_state)
          (Yields-if (str_eq op "%") _ _
            (call_expr-Covered "_modulo" (state_argument ∷ args) with_state)
            (Yields-if (str_eq op "or") _ _ (or_expr-Covered c.costs (map (λ a. a.1) args) h) (
              Yields-if (str_eq op "and") _ _ (and_expr-Covered c.costs (map (λ a. a.1) args) h) (
                Yields-if (str_eq op "is" || str_eq op "is not") _ _
                  (is_null_expr-Covered op args h)
                  (known_operator-Covered args (lookup op binary_functions) h))))))

  pub one_operand-Covered :
      (a : Ast) (single : Result Expr)
      → Yields Covered single
      → Yields ArgumentsCovered (one_operand a single)
  one_operand-Covered a single h =
      Yields-bind Covered single _ h (λ e he. yields (AllCovered-more e [] he AllCovered-none))
