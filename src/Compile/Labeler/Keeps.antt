-- ===== src/Compile/Labeler/Keeps.antt =====
-- Whatever a script says, its compilation into the parser state of packages/sqrl/src/compile keeps the
-- slots that are there.
use sqrl.Prelude.{
  ℕ, zero, suc, String, true, List, [], ◌∷◌, none, some, Result, ok, invalid, ensure, lookup,
  str_eq, Yields, halts, yields, Yields-bind, Yields-after, Yields-value, ◌≡◌, refl, sym,
  Bool-cases, inl, inr, Yields-if,
}
use mathlib.Core.List.{append-nil}
use mathlib.Core.Path.{subst}
use sqrl.Value.{null, boolean, array}
use sqrl.Ast.{
  Ast, Asts, constant, list_comprehension, let_statement, execute, rule, list, call,
  registered_call, if_expr, when, assertion, include, nil, cons,
}
use sqrl.Ast.Build.{and_ast, branch}
use sqrl.Where.TruthTable.{reduce_truth_table}
use sqrl.Slots.Feature.{allow_replace}
use sqrl.Slots.Slot.{Content, feature_slot, Slot}
use sqrl.Compile.Parser.{Parser, reset_content, reset_slots, reset_replaceable_features, wrap_where}
use sqrl.Compile.Parser.Trees.{new_global}
use sqrl.Compile.Parser.Kept.{Keeps, Keeps-refl, KeepsSlots, IsKept, IsKept-refl}
use sqrl.Compile.Parser.Commands.{push_input-IsKept, push_rule-IsKept}
use sqrl.Compile.Parser.Globals.{
  IsKept-step, IsKeeping, IsKept-then, add_statement-IsKept, new_global-IsKept, push_let-IsKept,
}
use sqrl.Compile.Transform.{Language}
use sqrl.Compile.Transform.Nodes.{language_tools}
use sqrl.Compile.Transform.Keeps.{language_tools-IsKeeping}
use sqrl.Compile.Labeler.{
  Labeler, get_props, statement_feature, statement_call, nested_if, if_call, add_call_statement,
  push_if, push_comprehension, rule_features, names_value, when_statement, Push, push_when,
  compile_when_block,
}
use sqrl.Compile.Labeler.Pushing.{
  push_statements, push_files, labeler_push_statement, push_transformed, transform_push,
  is_input_call, push_with, push_statement, compile_statements,
}

reset_content-Keeps : (c : Content) → Keeps c (reset_content c)
unfolding allow_replace
reset_content-Keeps (feature_slot f) = ([], sym (append-nil f.definitions))
reset_content-Keeps c = Keeps-refl c

reset_slots-Keeps : (slots : List (String × Slot)) → KeepsSlots slots (reset_slots slots)
unfolding lookup
reset_slots-Keeps [] name s e = cc
reset_slots-Keeps ((other, t) ∷ slots) name s e = elim (Bool-cases (str_eq other name)) [
  | inl test ↦
      let at_name : some t ≡ some s = rw test at e in
      let same : t ≡ s = cc in
      (
        record t { content = reset_content t.content },
        rw test refl,
        subst (λ (x : Slot). Keeps x.content (reset_content t.content)) same
            (reset_content-Keeps t.content),
      )
  | inr test ↦
      let later : lookup name slots ≡ some s = rw test at e in
      rw test (reset_slots-Keeps slots name s later)
]

reset-IsKept : (p : Parser) → IsKept p (reset_replaceable_features p)
unfolding reset_replaceable_features
reset-IsKept p = record {
  slots = reset_slots-Keeps p.slots;
  global_where = refl;
  current_iterator = refl;
}

-- The where clause of a file is taken back behind it.
wrap_where-IsKept :
    (where_ast : Ast) (callback : Parser → Result Parser) (p : Parser)
    → ((q : Parser) → Yields (IsKept q) (callback q))
    → Yields (IsKept p) (wrap_where where_ast callback p)
wrap_where-IsKept where_ast callback p h = Yields-after (reduce_truth_table where_ast) _ (λ _.
    Yields-after (and_ast (p.global_where ∷ where_ast ∷ [])) _ (λ combined.
      Yields-bind (IsKept (record p { global_where = combined }))
        (callback (record p { global_where = combined })) _
        (h (record p { global_where = combined }))
        (λ q kept. yields (record {
          slots = kept.slots;
          global_where = refl;
          current_iterator = kept.current_iterator;
        }))))

push_statements-IsKept :
    (push : Push)
    → ((e : Ast) (p : Parser) → Yields (IsKept p) (push e p))
    → (es : List Ast) (p : Parser) → Yields (IsKept p) (push_statements push es p)
unfolding push_statements
push_statements-IsKept push pushing [] p = yields (IsKept-refl p)
push_statements-IsKept push pushing (e ∷ es) p =
    IsKept-step p (push e p) (push_statements push es) (pushing e p)
      (push_statements-IsKept push pushing es)

push_files-IsKept :
    (push : Push)
    → ((e : Ast) (p : Parser) → Yields (IsKept p) (push e p))
    → (files : List (Ast × List Ast)) (p : Parser) → Yields (IsKept p) (push_files push files p)
unfolding push_files
push_files-IsKept push pushing [] p = yields (IsKept-refl p)
push_files-IsKept push pushing ((where_ast, es) ∷ files) p =
    IsKept-step p (wrap_where where_ast (push_statements push es) p) (push_files push files)
      (wrap_where-IsKept where_ast (push_statements push es) p
        (push_statements-IsKept push pushing es))
      (push_files-IsKept push pushing files)

push_when-IsKept :
    (labeler : Labeler) (push : Push)
    → ((e : Ast) (p : Parser) → Yields (IsKept p) (push e p))
    → (cause : String) (es : Asts) (p : Parser)
    → Yields (IsKept p) (push_when labeler push cause es p)
unfolding push_when
push_when-IsKept labeler push pushing cause nil p = yields (IsKept-refl p)
push_when-IsKept labeler push pushing cause (cons e es) p =
    Yields-after (when_statement labeler cause e) _ (λ guarded.
      IsKept-step p (push guarded p) (push_when labeler push cause es) (pushing guarded p)
        (push_when-IsKept labeler push pushing cause es))

module _ (labeler : Labeler) (keeping : IsKeeping labeler.tools) where
  add_call_statement-IsKept :
      (e : Ast) (p : Parser) → Yields (IsKept p) (add_call_statement labeler e p)
  unfolding add_call_statement
  add_call_statement-IsKept e p = Yields-after (statement_call labeler e) _ (λ c.
      Yields-after (statement_feature labeler c.0) _
        (λ global. add_statement-IsKept labeler.tools keeping global (registered_call c.0 c.1) p))

  push_comprehension-IsKept :
      (output input : Ast) (name : String) (where_ast : Ast) (p : Parser)
      → Yields (IsKept p) (push_comprehension labeler output input name where_ast p)
  unfolding push_comprehension
  push_comprehension-IsKept output input name where_ast p =
      Yields-after (statement_call labeler output) _ (λ c.
        Yields-after (statement_feature labeler c.0) _ (λ global.
          add_statement-IsKept labeler.tools keeping global
            (list_comprehension (registered_call c.0 c.1) input name where_ast) p))

  push_if-IsKept : (e : Ast) (p : Parser) → Yields (IsKept p) (push_if labeler e p)
  unfolding push_if
  push_if-IsKept e p = Yields-after (nested_if (constant (boolean true)) e) _ (λ guarded.
      Yields-after (if_call guarded.1) _ (λ c. Yields-after (get_props labeler c.0) _ (λ props.
        Yields-after
          (ensure props.statement (invalid "Function '%s' was not registered as a statement")) _
          (λ _. Yields-after (statement_feature labeler c.0) _ (λ global.
            add_statement-IsKept labeler.tools keeping global
              (branch guarded.0 (registered_call c.0 c.1) (constant null)) p)))))

  module _ (push : Push) (pushing : (e : Ast) (p : Parser) → Yields (IsKept p) (push e p)) where
    compile_when_block-IsKept :
        (names : List String) (es : Asts) (p : Parser)
        → Yields (IsKept p) (compile_when_block labeler push names es p)
    unfolding compile_when_block
    compile_when_block-IsKept names es p = Yields-after (rule_features names p) _ (λ features.
        IsKept-then p
          (new_global labeler.tools
            (call "_buildWhenCause"
              (cons (constant (array (names_value names))) (cons (list features) nil)))
            none p)
          (λ r. push_when labeler push r.1 es r.0)
          (new_global-IsKept labeler.tools keeping
            (call "_buildWhenCause"
              (cons (constant (array (names_value names))) (cons (list features) nil)))
            none p)
          (λ r. push_when-IsKept labeler push pushing r.1 es r.0))

    labeler_push_statement-IsKept :
        (e : Ast) (p : Parser) → Yields (IsKept p) (labeler_push_statement labeler push e p)
    unfolding labeler_push_statement
    labeler_push_statement-IsKept (execute _ _) p = halts
    labeler_push_statement-IsKept (constant null) p = yields (IsKept-refl p)
    labeler_push_statement-IsKept (include filename where_ast) p =
        Yields-after (labeler.include_files filename) _ (λ files.
          wrap_where-IsKept where_ast (push_files push files) p
            (push_files-IsKept push pushing files))
    labeler_push_statement-IsKept (assertion e) p =
        Yields-after
          (ensure labeler.allow_assertions (invalid "Assertions are only valid in sqrl tests")) _
          (λ _. pushing (call "assert" (cons e nil)) p)
    labeler_push_statement-IsKept (if_expr condition yes_ast no_ast) p =
        push_if-IsKept (if_expr condition yes_ast no_ast) p
    labeler_push_statement-IsKept (call func args) p = add_call_statement-IsKept (call func args) p
    labeler_push_statement-IsKept (list_comprehension output input name where_ast) p =
        push_comprehension-IsKept output input name where_ast p
    labeler_push_statement-IsKept (when names es) p = compile_when_block-IsKept names es p
    labeler_push_statement-IsKept _ p = halts

    push_transformed-IsKept :
        (e : Ast) (p : Parser) → Yields (IsKept p) (push_transformed labeler push e p)
    unfolding push_transformed
    push_transformed-IsKept (let_statement final description e name default where_ast) p =
        push_let-IsKept labeler.tools keeping _ p
    push_transformed-IsKept (rule name description where_ast reason) p =
        push_rule-IsKept (rule name description where_ast reason) name reason where_ast p
    push_transformed-IsKept e p = labeler_push_statement-IsKept e p

    transform_push-IsKept :
        (e : Ast) (p : Parser) → Yields (IsKept p) (transform_push labeler push e p)
    transform_push-IsKept e p =
        IsKept-then p (labeler.tools.transform e p) (λ r. push_transformed labeler push r.1 r.0)
          (keeping e p) (λ r. push_transformed-IsKept r.1 r.0)

    push_with-IsKept : (e : Ast) (p : Parser) → Yields (IsKept p) (push_with labeler push e p)
    unfolding push_with
    push_with-IsKept (let_statement final description e name default where_ast) p =
        Yields-if (is_input_call e) _ _ (push_input-IsKept name p)
          (transform_push-IsKept (let_statement final description e name default where_ast) p)
    push_with-IsKept (call func nil) p =
        Yields-if (str_eq func "_resetReplaceableFeatures") _ _ (yields (reset-IsKept p))
          (transform_push-IsKept (call func nil) p)
    push_with-IsKept (call func (cons e es)) p =
        Yields-if (str_eq func "_resetReplaceableFeatures") _ _ halts
          (transform_push-IsKept (call func (cons e es)) p)
    push_with-IsKept e p = transform_push-IsKept e p

  push_statement-IsKept :
      (depth : ℕ) (e : Ast) (p : Parser) → Yields (IsKept p) (push_statement labeler depth e p)
  unfolding push_statement
  push_statement-IsKept zero e p = halts
  push_statement-IsKept (suc depth) e p =
      push_with-IsKept (push_statement labeler depth) (push_statement-IsKept depth) e p

-- Whatever the statements of a script and its includes are, and whatever the transforms of the functions
-- that they call ask of the compile state: a compilation that meets no error keeps every slot of the
-- parser state that it began with, and the where clause and the iterator. A rule, an iterator, a
-- finalized constant and a global keep what they hold; a constant that is not finalized stays one,
-- though a transform may change its value; a feature keeps its earlier definitions, in their order and
-- before the new ones; a statement still waits for all slots that it waited for; only an input and a
-- definition by default may become a feature, and an empty slot anything.
pub compile_statements-IsKept :
    (language : Language) (calls : ℕ) (labeler : Labeler) (depth : ℕ) (es : List Ast) (p q : Parser)
    → compile_statements (record labeler { tools = language_tools language calls }) depth es p
      ≡ ok q
    → IsKept p q
unfolding compile_statements
compile_statements-IsKept language calls labeler depth es p q e =
    let transforming : Labeler = record labeler { tools = language_tools language calls } in
    Yields-value
      (push_statements-IsKept (push_statement transforming depth)
        (push_statement-IsKept transforming (language_tools-IsKeeping language calls) depth) es p)
      e
