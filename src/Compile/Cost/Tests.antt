-- ===== src/Compile/Cost/Tests.antt =====
-- The costs of three slots with packages/sqrl/src/compile/SqrlCompiledOutput.ts, and of a loop.
use sqrl.Prelude.{
  ℕ, ◌+◌, ◌<◌, String, Bool, true, false, List, [], ◌∷◌, some, contains, ok, err, failed, ◌≡◌, inl,
  inr, refl, sym, arith, str_eq, eq_iff, or_cases,
}
use sqrl.Compile.Expr.{call, Expr, node, Exprs, walk_expr}
use sqrl.Compile.Cost.{Slots, CostTable, own_cost, uses, recurse_slot, recurse_slots, get_slot_cost}
use sqrl.Compile.Cost.Reach.{Reach, distinct, total_cost}
use sqrl.Compile.Cost.Laws.{get_slot_cost-total}

-- A call with the slots that it loads.
abbrev loading : List String → Expr
loading names = node (call "f") (some names) Exprs.nil

-- "Top" loads the other two, and "Middle" loads "Bottom".
abbrev expr_by : Bool → Bool → Expr
expr_by true middle = loading ("Middle" ∷ "Bottom" ∷ [])
expr_by false true = loading ("Bottom" ∷ [])
expr_by false false = loading []

abbrev rank_by : Bool → Bool → ℕ
rank_by true middle = 2
rank_by false true = 1
rank_by false false = 0

abbrev slots : Slots
slots = record {
  expr_for_slot = λ name. expr_by (str_eq name "Top") (str_eq name "Middle");
  func_cost = λ func. 10;
}

abbrev rank : String → ℕ
rank name = rank_by (str_eq name "Top") (str_eq name "Middle")

abbrev uses_by : Bool → Bool → List String
uses_by true middle = "Middle" ∷ "Bottom" ∷ []
uses_by false true = "Bottom" ∷ []
uses_by false false = []

uses-slots : (name : String) → uses slots name ≡ uses_by (str_eq name "Top") (str_eq name "Middle")
unfolding uses
uses-slots name = by_cases (str_eq name "Top") (str_eq name "Middle")
  where
    by_cases :
        (top middle : Bool)
        → sqrl.Compile.Cost.nodes_load (walk_expr (expr_by top middle)) ≡ uses_by top middle
    by_cases true middle = refl
    by_cases false true = refl
    by_cases false false = refl

lower_rank :
    (top middle : Bool) (b : String)
    → contains (uses_by top middle) b ≡ true
    → rank b < rank_by top middle
unfolding contains
lower_rank true middle b h = elim (or_cases (str_eq "Middle" b) _ h) [
  | inl same ↦ rw (sym ((eq_iff "Middle" b).0 same)) (omega arith)
  | inr other ↦ elim (or_cases (str_eq "Bottom" b) _ other) [
    | inl same ↦ rw (sym ((eq_iff "Bottom" b).0 same)) (omega arith)
    | inr impossible ↦ cc
  ]
]
lower_rank false true b h = elim (or_cases (str_eq "Bottom" b) _ h) [
  | inl same ↦ rw (sym ((eq_iff "Bottom" b).0 same)) (omega arith)
  | inr impossible ↦ cc
]
lower_rank false false b h = cc

acyclic : (a b : String) → contains (uses slots a) b ≡ true → rank b < rank a
acyclic a b h = lower_rank (str_eq a "Top") (str_eq a "Middle") b (rw (uses-slots a) at h)

shallow : (k : String) → contains ("Top" ∷ "Bottom" ∷ []) k ≡ true → rank k < 3
shallow k h = by_cases (str_eq k "Top") (str_eq k "Middle")
  where
    by_cases : (top middle : Bool) → rank_by top middle < 3
    by_cases true middle = omega arith
    by_cases false true = omega arith
    by_cases false false = omega arith

get_slot_cost_test :
    get_slot_cost slots 3 "Top" []
    ≡ ok (
      (10, 30),
      ("Top", some (record { cost = 10; recursive_cost = 30; load = "Middle" ∷ "Bottom" ∷ [] }))
          ∷ ("Middle", some (record { cost = 10; recursive_cost = 20; load = "Bottom" ∷ [] }))
          ∷ ("Bottom", some (record { cost = 10; recursive_cost = 10; load = [] }))
          ∷ [],
    )
unfolding get_slot_cost
get_slot_cost_test = refl

loop_test :
    recurse_slot
      (record { expr_for_slot = λ name. loading ("Again" ∷ []); func_cost = λ func. 1 })
      9
      "Again"
      []
    ≡ err (failed "Loop while calculating slotCost")
unfolding recurse_slot
loop_test = refl

top_inside : contains ("Top" ∷ "Bottom" ∷ []) "Top" ≡ true
unfolding contains
top_inside = refl

get_slot_cost-total_example :
    (t : CostTable) × (load : List String) × (recurse_slots slots 3 ("Top" ∷ "Bottom" ∷ []) []
      ≡ ok t)
    × (get_slot_cost slots 3 "Top" t
        ≡ ok ((own_cost slots "Top", own_cost slots "Top" + total_cost slots load), t))
    × (distinct load ≡ true)
    × ((k : String) → Reach slots "Top" k → contains load k ≡ true)
    × ((k : String) → contains load k ≡ true → Reach slots "Top" k)
get_slot_cost-total_example =
    get_slot_cost-total slots rank 3 ("Top" ∷ "Bottom" ∷ []) "Top" acyclic shallow top_inside
