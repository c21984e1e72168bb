-- ===== src/Compile/Cost.antt =====
-- packages/sqrl/src/compile/SqrlCompiledOutput.ts, the costs of slots: a slot is visited with all
-- slots that it loads. The expressions of the slots and the costs of functions are parameters.
pub mod Reach
pub mod Table
pub mod Visit
pub mod Laws
pub mod Tests
use sqrl.Prelude.{
  ℕ, zero, suc, ◌+◌, String, Bool, true, false, List, [], ◌∷◌, ◌++◌, Option, none, some,
  if◌then◌else◌, contains, add, add_all, lookup, insert, Result, ok, err, failed, ◌>>=◌,
}
use sqrl.Compile.Expr.{Kind, call, Expr, kind, loaded, or_empty, walk_expr}

pub record Slots : Type 0 where
  pub expr_for_slot : String → Expr
  pub func_cost : String → ℕ

-- What `cost`, `recursiveCost` and `load` hold of a slot that is done.
pub record Entry : Type 0 where
  pub cost : ℕ
  pub recursive_cost : ℕ
  pub load : List String

-- The three dictionaries, which get a slot's values together; `none` is the `null` that `cost` holds
-- while the slot is in calculation.
abbrev pub CostTable : Type 0
CostTable = List (String × Option Entry)

abbrev pub node_cost : Slots → Kind → ℕ
node_cost slots (call func) = slots.func_cost func
node_cost slots _ = 0

unfoldable pub nodes_cost : Slots → List Expr → ℕ
nodes_cost slots [] = 0
nodes_cost slots (e ∷ es) = node_cost slots (kind e) + nodes_cost slots es

unfoldable pub nodes_load : List Expr → List String
nodes_load [] = []
nodes_load (e ∷ es) = or_empty (loaded e) ++ nodes_load es

-- What a walk through the slot's expression adds up, and the slots that it loads, in order.
unfoldable pub own_cost : Slots → String → ℕ
unfolding nodes_cost walk_expr
own_cost slots name = nodes_cost slots (walk_expr (slots.expr_for_slot name))

unfoldable pub uses : Slots → String → List String
unfolding nodes_load walk_expr
uses slots name = nodes_load (walk_expr (slots.expr_for_slot name))

abbrev pub entry_load : Option (Option Entry) → Result (List String)
entry_load (some (some e)) = ok e.load
entry_load _ = err (failed "Cannot read property 'forEach' of undefined")

-- The callback on a slot that is loaded: `go` is `recurseSlot`.
unfoldable pub visit_load :
    (String → CostTable → Result CostTable)
    → String
    → List String
    → CostTable
    → Result (List String × CostTable)
unfolding lookup contains add add_all
visit_load go name load table =
    if contains load name
    then ok (load, table)
    else (go name table >>= λ table'.
        entry_load (lookup name table') >>= λ inner. ok (add_all inner (add name load), table'))

unfoldable pub visit_loads :
    (String → CostTable → Result CostTable)
    → List String
    → List String
    → CostTable
    → Result (List String × CostTable)
unfolding visit_load
visit_loads go [] load table = ok (load, table)
visit_loads go (name ∷ names) load table =
    visit_load go name load table >>= λ visited. visit_loads go names visited.0 visited.1

-- `this.cost[name]`, where `null` counts as 0 and a missing cost makes the sum no number.
abbrev pub entry_cost : Option (Option Entry) → Result ℕ
entry_cost (some (some e)) = ok e.cost
entry_cost (some none) = ok 0
entry_cost none = err (failed "NaN")

unfoldable pub add_costs : List String → CostTable → ℕ → Result ℕ
unfolding lookup
add_costs [] table total = ok total
add_costs (name ∷ names) table total = do
  c ← entry_cost (lookup name table)
  add_costs names table (total + c)

-- A slot without a cost yet.
unfoldable pub calculate_slot :
    Slots → (String → CostTable → Result CostTable) → String → CostTable → Result CostTable
unfolding visit_loads add_costs own_cost uses insert
calculate_slot slots go name table =
    visit_loads go (uses slots name) [] (insert name none table) >>= λ visited.
    add_costs visited.0 visited.1 (own_cost slots name) >>= λ total. ok (
      insert name
        (some (record { cost = own_cost slots name; recursive_cost = total; load = visited.0 }))
        visited.1)

-- What becomes of a slot, by its entry.
abbrev pub recurse_by : CostTable → Result CostTable → Option (Option Entry) → Result CostTable
recurse_by table calculated none = calculated
recurse_by table calculated (some none) = err (failed "Loop while calculating slotCost")
recurse_by table calculated (some (some e)) = ok table

-- `recurseSlot`; the fuel bounds the depth of the recursion.
unfoldable pub recurse_slot : Slots → ℕ → String → CostTable → Result CostTable
unfolding calculate_slot lookup
recurse_slot slots zero name table = err (failed "Maximum call stack size exceeded")
recurse_slot slots (suc fuel) name table =
    let calculated = calculate_slot slots (recurse_slot slots fuel) name table in
    recurse_by table calculated (lookup name table)

-- `recurseAllSlots`, on the names in use.
unfoldable pub recurse_slots : Slots → ℕ → List String → CostTable → Result CostTable
unfolding recurse_slot
recurse_slots slots fuel [] table = ok table
recurse_slots slots fuel (name ∷ names) table =
    recurse_slot slots fuel name table >>= λ table'. recurse_slots slots fuel names table'

abbrev pub both_costs : Option (Option Entry) → Result (ℕ × ℕ)
both_costs (some (some e)) = ok (e.cost, e.recursive_cost)
both_costs _ = err (failed "No cost")

-- `getSlotCost`.
unfoldable pub get_slot_cost : Slots → ℕ → String → CostTable → Result ((ℕ × ℕ) × CostTable)
unfolding recurse_slot lookup
get_slot_cost slots fuel name table = recurse_slot slots fuel name table >>= λ table'.
    both_costs (lookup name table') >>= λ costs. ok (costs, table')
