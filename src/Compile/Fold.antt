-- ===== src/Compile/Fold.antt =====
-- packages/sqrl/src/ast/AstExpr.ts, the functions that build one node: constant parts are folded and
-- the operands of a connective are sorted by cost. The costs of slots and functions are parameters.
pub mod Meaning
pub mod Sorting
pub mod Laws
pub mod Tests
use sqrl.Prelude.{
  ℕ, ◌+◌, String, Bool, true, false, not, ◌&&◌, ◌||◌, List, [], ◌∷◌, ◌++◌, Option, none, some, leb,
  if◌then◌else◌, add_all, any, all, filter, Result, ok, err, failed, ◌>>=◌,
}
use sqrl.Value.{Value, null, boolean, is_null, is_truthy}
use sqrl.Compile.Expr.{
  Kind, state, branch, constant, value, iterator, call, Expr, node, Exprs, kind, loaded, or_empty,
  exprs_of, walk_expr,
}

-- What costs are read from: `getSlotCost(name).recursiveCost` and `getCost(func)`.
pub record Costs : Type 0 where
  pub slot_cost : String → ℕ
  pub func_cost : String → ℕ

abbrev pub cost_of_kind : Costs → Kind → ℕ
cost_of_kind costs (value name) = costs.slot_cost name
cost_of_kind costs (call func) = costs.func_cost func
cost_of_kind costs _ = 1

-- `costForExpr`.
abbrev pub cost_for_expr : Costs → Expr → ℕ
cost_for_expr costs e = cost_of_kind costs (kind e)

-- `sortExprsByCostAsc`; JavaScript's sort is stable.
unfoldable pub insert_by_cost : Costs → Expr → List Expr → List Expr
insert_by_cost costs e [] = e ∷ []
insert_by_cost costs e (x ∷ xs) =
    if leb (cost_for_expr costs e) (cost_for_expr costs x)
    then e ∷ x ∷ xs
    else x ∷ insert_by_cost costs e xs

unfoldable pub sort_exprs_by_cost : Costs → List Expr → List Expr
unfolding insert_by_cost
sort_exprs_by_cost costs [] = []
sort_exprs_by_cost costs (e ∷ es) = insert_by_cost costs e (sort_exprs_by_cost costs es)

-- `constantExpr`.
abbrev pub constant_expr : Value → Expr
constant_expr v = node (constant v) none Exprs.nil

abbrev pub branch_of : Kind → Expr → Expr → Expr → Expr
branch_of (constant v) condition true_expr false_expr =
    if is_truthy v then true_expr else false_expr
branch_of _ condition true_expr false_expr =
    node branch (loaded condition) (exprs_of (condition ∷ true_expr ∷ false_expr ∷ []))

-- `ifExpr`.
unfoldable pub if_expr : Expr → Expr → Expr → Expr
if_expr condition true_expr false_expr = branch_of (kind condition) condition true_expr false_expr

-- `exprLoad`, from the set so far on.
unfoldable pub expr_load_from : List Expr → List String → List String
expr_load_from [] load = load
expr_load_from (e ∷ es) load = expr_load_from es (add_all (or_empty (loaded e)) load)

abbrev pub expr_load : List Expr → List String
expr_load es = expr_load_from es []

-- `boolExpr`.
abbrev pub bool_expr : Expr → Expr
bool_expr e = node (call "bool") (loaded e) (exprs_of (e ∷ []))

abbrev pub is_iterator : Kind → Bool
is_iterator (iterator name) = true
is_iterator _ = false

abbrev pub has_iterator : List Expr → Bool
has_iterator es = any (λ e. any (λ n. is_iterator (kind n)) (walk_expr e)) es

-- `expr.load.forEach`, which fails where there is no `load`.
unfoldable pub all_loads : List Expr → List String → Result (List String)
all_loads [] load = ok load
all_loads (e ∷ es) load = elim (loaded e) [
  | none ↦ err (failed "Cannot read property 'forEach' of undefined")
  | some names ↦ all_loads es (add_all names load)
]

abbrev pub first_load : List Expr → Result (List String)
first_load [] = err (failed "Cannot read property 'load' of undefined")
first_load (e ∷ es) = ok (or_empty (loaded e))

-- `exprOrderedMinimalLoad`.
unfoldable pub ordered_minimal_load : List Expr → Result (List String)
unfolding all_loads
ordered_minimal_load es = if has_iterator es then all_loads es [] else first_load es

abbrev pub constant_value : Expr → Option Value
constant_value (node (constant v) load exprs) = some v
constant_value _ = none

abbrev pub test_constant : (Value → Bool) → Option Value → Bool
test_constant p none = false
test_constant p (some v) = p v

-- Whether an operand is a constant of a kind.
abbrev pub is_constant : (Value → Bool) → Expr → Bool
is_constant p e = test_constant p (constant_value e)

abbrev pub is_false_value : Value → Bool
is_false_value v = not (is_null v) && not (is_truthy v)

abbrev pub state_expr : Expr
state_expr = node state none Exprs.nil

-- A call of a sequential connective on operands sorted by cost.
unfoldable pub sequential_expr : Costs → String → List Expr → Result Expr
unfolding sort_exprs_by_cost ordered_minimal_load
sequential_expr costs func es = do
  let sorted = sort_exprs_by_cost costs es
  load ← ordered_minimal_load sorted
  ok (node (call func) (some load) (exprs_of (state_expr ∷ sorted)))

abbrev pub and_rest : Costs → List Expr → Result Expr
and_rest costs [] = ok (constant_expr (boolean true))
and_rest costs (e ∷ []) = ok (bool_expr e)
and_rest costs es = sequential_expr costs "_andSequential" es

-- `andExpr`, on the expressions of its operands.
unfoldable pub and_expr : Costs → List Expr → Result Expr
unfolding sequential_expr
and_expr costs es =
    if any (is_constant is_false_value) es
    then ok (constant_expr (boolean false))
    else if any (is_constant is_null) es
    then ok (constant_expr null)
    else and_rest costs (filter (λ e. not (is_constant is_truthy e)) es)

abbrev pub or_rest : Costs → Bool → List Expr → Result Expr
or_rest costs had_null [] = ok (constant_expr (if had_null then null else boolean false))
or_rest costs true es = sequential_expr costs "_orSequential" (es ++ constant_expr null ∷ [])
or_rest costs false (e ∷ []) = ok (bool_expr e)
or_rest costs false es = sequential_expr costs "_orSequential" es

-- `orExpr`, on the expressions of its operands.
unfoldable pub or_expr : Costs → List Expr → Result Expr
unfolding sequential_expr
or_expr costs es =
    if any (is_constant is_truthy) es
    then ok (constant_expr (boolean true))
    else or_rest costs (any (is_constant is_null) es)
        (filter (λ e. not (is_constant (λ v. not (is_truthy v)) e)) es)
