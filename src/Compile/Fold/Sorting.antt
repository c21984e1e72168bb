-- ===== src/Compile/Fold/Sorting.antt =====
-- packages/sqrl/src/ast/AstExpr.ts: sorting by cost keeps the operands, and when a connective is truthy.
use sqrl.Prelude.{
  Bool, true, false, not, ◌&&◌, ◌||◌, List, [], ◌∷◌, if◌then◌else◌, any, all, ◌≡◌, refl, ap, ◌∙◌,
  arith,
}
use sqrl.Value.{Value, null, boolean, is_null, is_truthy, is_js_truthy}
use sqrl.Stdlib.Logic.{and_values, or_values, null_or}
use sqrl.Stdlib.Logic.Laws.{connectives, is_falsy, null-truthy}
use sqrl.Compile.Expr.{Expr}
use sqrl.Compile.Fold.{Costs, insert_by_cost, sort_exprs_by_cost}

pub truthy_boolean : (b : Bool) → is_truthy (boolean b) ≡ b
unfolding is_truthy is_js_truthy
truthy_boolean b = refl

pub truthy_null : is_truthy null ≡ false
unfolding is_truthy is_js_truthy
truthy_null = refl

pub truthy_when :
    (b c : Bool) → is_truthy (if b then boolean false else null_or c true) ≡ (not b && not c)
unfolding is_truthy is_js_truthy
truthy_when b c = ground arith

pub truthy_where : (b c : Bool) → is_truthy (if b then boolean true else null_or c false) ≡ b
unfolding is_truthy is_js_truthy
truthy_where b c = ground arith

pub all_truthy :
    (vs : List Value) → (not (any is_falsy vs) && not (any is_null vs)) ≡ all is_truthy vs
all_truthy [] = refl
all_truthy (v ∷ vs) = ground (arith, all_truthy vs, null-truthy v)

pub and_values-truthy : (vs : List Value) → is_truthy (and_values vs) ≡ all is_truthy vs
and_values-truthy vs =
    ap is_truthy (connectives vs).0 ∙ truthy_when (any is_falsy vs) (any is_null vs) ∙ all_truthy vs

pub or_values-truthy : (vs : List Value) → is_truthy (or_values vs) ≡ any is_truthy vs
or_values-truthy vs =
    ap is_truthy (connectives vs).1 ∙ truthy_where (any is_truthy vs) (any is_null vs)

module _ (costs : Costs) (p : Expr → Bool) where
  all-insert_by_cost :
      (e : Expr) (es : List Expr) → all p (insert_by_cost costs e es) ≡ (p e && all p es)
  unfolding insert_by_cost
  all-insert_by_cost e [] = refl
  all-insert_by_cost e (x ∷ xs) = ground (arith, all-insert_by_cost e xs)

  any-insert_by_cost :
      (e : Expr) (es : List Expr) → any p (insert_by_cost costs e es) ≡ (p e || any p es)
  unfolding insert_by_cost
  any-insert_by_cost e [] = refl
  any-insert_by_cost e (x ∷ xs) = ground (arith, any-insert_by_cost e xs)

  pub all-sort_exprs_by_cost : (es : List Expr) → all p (sort_exprs_by_cost costs es) ≡ all p es
  unfolding sort_exprs_by_cost
  all-sort_exprs_by_cost [] = refl
  all-sort_exprs_by_cost (e ∷ es) =
      all-insert_by_cost e (sort_exprs_by_cost costs es)
      ∙ ap (λ b. p e && b) (all-sort_exprs_by_cost es)

  pub any-sort_exprs_by_cost : (es : List Expr) → any p (sort_exprs_by_cost costs es) ≡ any p es
  unfolding sort_exprs_by_cost
  any-sort_exprs_by_cost [] = refl
  any-sort_exprs_by_cost (e ∷ es) =
      any-insert_by_cost e (sort_exprs_by_cost costs es)
      ∙ ap (λ b. p e || b) (any-sort_exprs_by_cost es)
