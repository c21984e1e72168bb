-- ===== src/Slots/Feature/Laws.antt =====
-- What a feature slot (packages/sqrl/src/slot/SqrlFeatureSlot.ts) promises over its definitions.
use sqrl.Prelude.{
  Bool, true, false, not, List, [], ◌∷◌, Option, none, some, Result, ok, ensure, bind-eq-ok, ◌>>=◌,
  if◌then◌else◌, ◌≡◌, refl, Bool-cases, inl, inr, Error,
}
use sqrl.Ast.{Ast}
use sqrl.Ast.Build.{is_constant_true}
use sqrl.Where.Overlap.{ast_intersects}
use sqrl.Slots.Feature.{
  Let, Case, Switch, FeatureSlot, old_switch, replaced_switch, open_slot, merge_default, merge_case,
  merge_branch, merge_global, case_wheres, this_case,
}
use sqrl.Slots.Feature.Merged.{merge_global-IsMerged}

-- No two cases of the switch overlap, as far as `astIntersects` tells.
abbrev pub IsApart : Switch → Type 0
IsApart e = ast_intersects (case_wheres e.cases) ≡ ok false

abbrev pub IsSlotApart : FeatureSlot → Type 0
IsSlotApart s = (e : Switch) → s.slot_ast ≡ some e → IsApart e

no_case_overlaps : ast_intersects [] ≡ ok false
unfolding ast_intersects
no_case_overlaps = refl

one_case_overlaps : (where_ast : Ast) → ast_intersects (where_ast ∷ []) ≡ ok false
unfolding ast_intersects
one_case_overlaps where_ast = refl

replaced_switch-IsApart : (o : Option Switch) → IsApart (replaced_switch o)
replaced_switch-IsApart none = no_case_overlaps
replaced_switch-IsApart (some e) = no_case_overlaps

old_switch-IsApart :
    (o : Option Switch) → ((e : Switch) → o ≡ some e → IsApart e) → IsApart (old_switch o)
old_switch-IsApart none h = no_case_overlaps
old_switch-IsApart (some e) h = h e refl

open_slot-IsApart : (s : FeatureSlot) → IsSlotApart s → IsApart (open_slot s).1
unfolding open_slot
open_slot-IsApart s h = elim (Bool-cases s.replaceable) [
  | inl t ↦ rw t (replaced_switch-IsApart s.slot_ast)
  | inr t ↦ rw t (old_switch-IsApart s.slot_ast h)
]

merge_default-IsApart :
    (l : Let) (global : Ast) (b : Bool) (old merged : Switch)
    → IsApart old
    → merge_default l global b old ≡ ok merged
    → IsApart merged
unfolding merge_default
merge_default-IsApart l global b old merged h e =
    let answer = ok (record old { default_case = some l.value }) in
    let (_, _, e1) =
      bind-eq-ok (ensure (is_constant_true global) _) (λ _. ensure b _ >>= λ _. answer) e in
    let (_, _, e2) = bind-eq-ok (ensure b _) (λ _. answer) e1 in
    let m : record old { default_case = some l.value } ≡ merged = cc in rw (← m) h

-- What is left of a merge once the overlap has been tested.
settled_case-IsApart :
    (cases : List Case) (c : Case) (b hit : Bool) (default_case : Option Ast) (problem : Error)
    (merged : Switch)
    → ast_intersects (case_wheres cases) ≡ ok hit
    → (ensure (not hit) problem >>= λ _. ok (
        if b
        then record { cases = c ∷ []; default_case = none }
        else record { cases = cases; default_case = default_case }))
      ≡ ok merged
    → IsApart merged
settled_case-IsApart cases c b true default_case problem merged tested e = cc
settled_case-IsApart cases c true false default_case problem merged tested e =
    let m : record { cases = c ∷ []; default_case = none } ≡ merged = cc in
    rw (← m) (one_case_overlaps c.truth_table_where)
settled_case-IsApart cases c false false default_case problem merged tested e =
    let m : record { cases = cases; default_case = default_case } ≡ merged = cc in rw (← m) tested

merge_case-IsApart :
    (combine_wheres : Ast → Ast → Result (Ast × Ast)) (l : Let) (global : Ast) (old merged : Switch)
    → merge_case combine_wheres l global old ≡ ok merged
    → IsApart merged
unfolding merge_case
merge_case-IsApart combine_wheres l global old merged e =
    let ((combined, where_ast), _, e1) = bind-eq-ok (combine_wheres l.where_ast global) _ e in
    let (hit, tested, e2) = bind-eq-ok (ast_intersects _) _ e1 in
    settled_case-IsApart _ (this_case l combined where_ast) (is_constant_true where_ast) hit
      old.default_case _ merged tested e2

either_branch :
    {P : Type 0} (b : Bool) (x y : Result Switch) (merged : Switch)
    → (if b then x else y) ≡ ok merged
    → (x ≡ ok merged → P)
    → (y ≡ ok merged → P)
    → P
either_branch true x y merged e f g = f e
either_branch false x y merged e f g = g e

merge_branch-IsApart :
    (combine_wheres : Ast → Ast → Result (Ast × Ast)) (l : Let) (global : Ast) (b : Bool)
    (old merged : Switch)
    → IsApart old
    → merge_branch combine_wheres l global b old ≡ ok merged
    → IsApart merged
merge_branch-IsApart combine_wheres l global b old merged h e =
    either_branch l.is_default_case (merge_default l global b old)
      (merge_case combine_wheres l global old) merged e
      (merge_default-IsApart l global b old merged h)
      (merge_case-IsApart combine_wheres l global old merged)

-- A merge that succeeds leaves cases that do not overlap.
pub merge_global-IsSlotApart :
    (combine_wheres : Ast → Ast → Result (Ast × Ast)) (l : Let) (global : Ast)
    (s after : FeatureSlot)
    → IsSlotApart s
    → merge_global combine_wheres l global s ≡ ok after
    → IsSlotApart after
merge_global-IsSlotApart combine_wheres l global s after h e switch_ast found =
    let done = merge_global-IsMerged combine_wheres l global s after e in
    let same : done.merged ≡ switch_ast = cc done.slot_ast in
    rw (← same) (
      merge_branch-IsApart combine_wheres l global _ (open_slot s).1 done.merged
        (open_slot-IsApart s h) done.branch_taken)
