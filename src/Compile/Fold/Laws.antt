-- ===== src/Compile/Fold/Laws.antt =====
-- Folding and sorting in packages/sqrl/src/ast/AstExpr.ts and the meaning of the operands.
use sqrl.Prelude.{
  String, Bool, true, false, not, ◌&&◌, ◌||◌, List, [], ◌∷◌, ◌++◌, none, some, any, all, filter, ok,
  bind-eq-ok, ◌≡◌, refl, sym, ap, ◌∙◌, arith, Bool-cases, inl, inr,
}
use sqrl.Value.{Value, null, boolean, is_null, is_truthy, is_js_truthy}
use sqrl.Stdlib.Logic.{and_values, or_values}
use sqrl.Stdlib.Logic.Laws.{is_falsy, null-truthy}
use sqrl.Compile.Expr.{Expr, node, exprs_of, constant, call}
use sqrl.Compile.Fold.{
  Costs, sort_exprs_by_cost, bool_expr, is_constant, constant_value, is_false_value,
  sequential_expr, ordered_minimal_load, and_rest, and_expr, or_rest, or_expr, constant_expr,
  state_expr,
}
use sqrl.Compile.Fold.Meaning.{Runtime, eval, eval_all, call_function}
use sqrl.Compile.Fold.Sorting.{
  truthy_boolean, truthy_null, and_values-truthy, or_values-truthy, all-sort_exprs_by_cost,
  any-sort_exprs_by_cost,
}

module _ (rt : Runtime) where
  abbrev pub holds : Expr → Bool
  holds e = is_truthy (eval rt e)

  all-holds : (es : List Expr) → all is_truthy (eval_all rt (exprs_of es)) ≡ all holds es
  unfolding eval
  all-holds [] = refl
  all-holds (e ∷ es) = ap (λ b. holds e && b) (all-holds es)

  any-holds : (es : List Expr) → any is_truthy (eval_all rt (exprs_of es)) ≡ any holds es
  unfolding eval
  any-holds [] = refl
  any-holds (e ∷ es) = ap (λ b. holds e || b) (any-holds es)

  -- What a constant operand is can be read off its value.
  is_constant-eval : (p : Value → Bool) (e : Expr) → is_constant p e ≡ true → p (eval rt e) ≡ true
  unfolding eval
  is_constant-eval p (node (constant v) names exprs) h = h
  is_constant-eval p (node _ names exprs) h = cc

  bool_expr-holds : (e : Expr) → holds (bool_expr e) ≡ holds e
  unfolding eval call_function is_truthy is_js_truthy
  bool_expr-holds e = refl

  sequential_expr-is :
      (costs : Costs) (func : String) (es : List Expr) (e : Expr)
      → sequential_expr costs func es ≡ ok e
      → (names : List String) × (node
            (call func)
            (some names)
            (exprs_of (state_expr ∷ sort_exprs_by_cost costs es))
          ≡ e)
  unfolding sequential_expr
  sequential_expr-is costs func es e h =
      let (names, _, h') =
        bind-eq-ok (ordered_minimal_load (sort_exprs_by_cost costs es))
          (λ names.
            ok
              (node (call func) (some names) (exprs_of (state_expr ∷ sort_exprs_by_cost costs es))))
          h in
      (names, cc)

  sequential_and-holds :
      (costs : Costs) (es : List Expr) (e : Expr)
      → sequential_expr costs "_andSequential" es ≡ ok e
      → holds e ≡ all holds es
  unfolding eval call_function
  sequential_and-holds costs es e h =
      let (names, same) = sequential_expr-is costs "_andSequential" es e h in
      let sorted = sort_exprs_by_cost costs es in
      rw (← same) (
        and_values-truthy (eval_all rt (exprs_of sorted))
        ∙ all-holds sorted
        ∙ all-sort_exprs_by_cost costs holds es)

  sequential_or-holds :
      (costs : Costs) (es : List Expr) (e : Expr)
      → sequential_expr costs "_orSequential" es ≡ ok e
      → holds e ≡ any holds es
  unfolding eval call_function
  sequential_or-holds costs es e h =
      let (names, same) = sequential_expr-is costs "_orSequential" es e h in
      let sorted = sort_exprs_by_cost costs es in
      rw (← same) (
        or_values-truthy (eval_all rt (exprs_of sorted))
        ∙ any-holds sorted
        ∙ any-sort_exprs_by_cost costs holds es)

  constant_expr-holds : (v : Value) → holds (constant_expr v) ≡ is_truthy v
  unfolding eval
  constant_expr-holds v = refl

  constants_fail :
      (p : Value → Bool) (es : List Expr)
      → ((v : Value) → p v ≡ true → is_truthy v ≡ false)
      → any (is_constant p) es ≡ true
      → all holds es ≡ false
  constants_fail p [] fails h = cc
  constants_fail p (e ∷ es) fails h = elim (Bool-cases (is_constant p e)) [
    | inl here ↦ rw (fails (eval rt e) (is_constant-eval p e here)) refl
    | inr there ↦ rw (constants_fail p es fails (rw there at h)) (ground arith)
  ]

  constants_hold : (es : List Expr) → any (is_constant is_truthy) es ≡ true → any holds es ≡ true
  constants_hold [] h = cc
  constants_hold (e ∷ es) h = elim (Bool-cases (is_constant is_truthy e)) [
    | inl here ↦ rw (is_constant-eval is_truthy e here) refl
    | inr there ↦ rw (constants_hold es (rw there at h)) (ground arith)
  ]

  -- Operands that are left out do not matter.
  all_kept :
      (es : List Expr) → all holds (filter (λ e. not (is_constant is_truthy e)) es) ≡ all holds es
  all_kept [] = refl
  all_kept (e ∷ es) = elim (Bool-cases (is_constant is_truthy e)) [
    | inl drop ↦ rw (drop, is_constant-eval is_truthy e drop) (all_kept es)
    | inr keep ↦ rw keep (ap (λ b. holds e && b) (all_kept es))
  ]

  any_kept :
      (es : List Expr)
      → any holds (filter (λ e. not (is_constant (λ v. not (is_truthy v)) e)) es) ≡ any holds es
  any_kept [] = refl
  any_kept (e ∷ es) = elim (Bool-cases (is_constant (λ v. not (is_truthy v)) e)) [
    | inl drop ↦
        let fails = is_constant-eval (λ v. not (is_truthy v)) e drop in
        rw drop (any_kept es ∙ ground (arith, fails))
    | inr keep ↦ rw keep (ap (λ b. holds e || b) (any_kept es))
  ]

  and_rest-holds :
      (costs : Costs) (es : List Expr) (e : Expr)
      → and_rest costs es ≡ ok e
      → holds e ≡ all holds es
  and_rest-holds costs [] e h =
      let same : constant_expr (boolean true) ≡ e = cc in
      rw (← same) (constant_expr-holds (boolean true) ∙ truthy_boolean true)
  and_rest-holds costs (x ∷ []) e h =
      let same : bool_expr x ≡ e = cc in rw (← same) (bool_expr-holds x ∙ ground arith)
  and_rest-holds costs (x ∷ y ∷ es) e h = sequential_and-holds costs (x ∷ y ∷ es) e h

  any-append : (p : Expr → Bool) (xs ys : List Expr) → any p (xs ++ ys) ≡ (any p xs || any p ys)
  any-append p [] ys = refl
  any-append p (x ∷ xs) ys = ground (arith, any-append p xs ys)

  or_rest-holds :
      (costs : Costs) (had_null : Bool) (es : List Expr) (e : Expr)
      → or_rest costs had_null es ≡ ok e
      → holds e ≡ any holds es
  or_rest-holds costs true [] e h =
      let same : constant_expr null ≡ e = cc in rw (← same) (constant_expr-holds null ∙ truthy_null)
  or_rest-holds costs false [] e h =
      let same : constant_expr (boolean false) ≡ e = cc in
      rw (← same) (constant_expr-holds (boolean false) ∙ truthy_boolean false)
  or_rest-holds costs true (x ∷ es) e h =
      sequential_or-holds costs ((x ∷ es) ++ constant_expr null ∷ []) e h
      ∙ any-append holds (x ∷ es) (constant_expr null ∷ [])
      ∙ ground (arith, constant_expr-holds null, truthy_null)
  or_rest-holds costs false (x ∷ []) e h =
      let same : bool_expr x ≡ e = cc in rw (← same) (bool_expr-holds x ∙ ground arith)
  or_rest-holds costs false (x ∷ y ∷ es) e h = sequential_or-holds costs (x ∷ y ∷ es) e h

  and_expr-holds :
      (costs : Costs) (es : List Expr) (e : Expr)
      → and_expr costs es ≡ ok e
      → holds e ≡ all holds es
  unfolding and_expr
  and_expr-holds costs es e h = elim (Bool-cases (any (is_constant is_false_value) es)) [
    | inl f ↦
        let same : constant_expr (boolean false) ≡ e = cc (rw f at h) in
        rw (← same, constants_fail is_false_value es (λ v k. ground arith) f)
          (constant_expr-holds (boolean false) ∙ truthy_boolean false)
    | inr f ↦ elim (Bool-cases (any (is_constant is_null) es)) [
      | inl n ↦
          let same : constant_expr null ≡ e = cc (rw (f, n) at h) in
          rw (← same, constants_fail is_null es null-truthy n)
            (constant_expr-holds null ∙ truthy_null)
      | inr n ↦
          and_rest-holds costs (filter (λ e. not (is_constant is_truthy e)) es) e (rw (f, n) at h)
          ∙ all_kept es
    ]
  ]

  or_expr-holds :
      (costs : Costs) (es : List Expr) (e : Expr) → or_expr costs es ≡ ok e → holds e ≡ any holds es
  unfolding or_expr
  or_expr-holds costs es e h = elim (Bool-cases (any (is_constant is_truthy) es)) [
    | inl t ↦
        let same : constant_expr (boolean true) ≡ e = cc (rw t at h) in
        rw (← same, constants_hold es t) (constant_expr-holds (boolean true) ∙ truthy_boolean true)
    | inr t ↦
        or_rest-holds costs (any (is_constant is_null) es)
          (filter (λ e. not (is_constant (λ v. not (is_truthy v)) e)) es) e (rw t at h)
        ∙ any_kept es
  ]

-- The expression that `andExpr` builds is truthy exactly when `_and` of the operands' values is, and
-- the one that `orExpr` builds exactly when `_or` is, whatever is folded and however it is sorted.
pub folded_truth :
    (rt : Runtime) (costs : Costs) (es : List Expr) (both some_of : Expr)
    → and_expr costs es ≡ ok both
    → or_expr costs es ≡ ok some_of
    → (is_truthy (eval rt both) ≡ is_truthy (and_values (eval_all rt (exprs_of es))))
      × (is_truthy (eval rt some_of) ≡ is_truthy (or_values (eval_all rt (exprs_of es))))
folded_truth rt costs es both some_of h k = (
  and_expr-holds rt costs es both h
      ∙ sym (and_values-truthy (eval_all rt (exprs_of es)) ∙ all-holds rt es),
  or_expr-holds rt costs es some_of k
      ∙ sym (or_values-truthy (eval_all rt (exprs_of es)) ∙ any-holds rt es),
)

-- With a constant null, the and of a falsy operand that is no constant is folded to null, where `_and`
-- of the values is false.
pub and_expr-null :
    (rt : Runtime) (costs : Costs) (e : Expr)
    → constant_value e ≡ none
    → is_falsy (eval rt e) ≡ true
    → (and_expr costs (constant_expr null ∷ e ∷ []) ≡ ok (constant_expr null))
      × (and_values (eval_all rt (exprs_of (constant_expr null ∷ e ∷ []))) ≡ boolean false)
unfolding and_expr eval and_values is_truthy is_js_truthy
and_expr-null rt costs e plain falsy = (rw plain refl, ground arith)
