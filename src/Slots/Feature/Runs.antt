-- ===== src/Slots/Feature/Runs.antt =====
-- The life of a feature slot (packages/sqrl/src/slot/SqrlFeatureSlot.ts): definitions, openings and
-- readings in any order.
use sqrl.Prelude.{
  Bool, true, false, ◌||◌, List, [], ◌∷◌, none, some, Result, ok, bind-eq-ok, ◌>>=◌, ◌≡◌, refl, ap,
  ◌∙◌, arith, ◌++◌, any, ◌≢◌, Bool-cases, inl, inr,
}
use sqrl.Value.{boolean}
use sqrl.Ast.{Ast, constant}
use sqrl.Ast.Build.{is_constant_true}
use sqrl.Slots.Feature.{
  Let, Switch, FeatureSlot, new_slot, allow_replace, included_where, set_ast, add_definition,
  open_slot, merge_default, merge_global, finalized_ast, finalized_ast_of, let_node,
}
use sqrl.Slots.Feature.Merged.{merge_global-IsMerged}
use sqrl.Slots.Feature.Laws.{IsSlotApart, merge_global-IsSlotApart}

pub data Step : Type 0 where
  define : Let → Ast → Step
  allow : Step
  read : Step

abbrev pub take_step : (Ast → Ast → Result (Ast × Ast)) → Step → FeatureSlot → Result FeatureSlot
take_step combine_wheres (define l global) s = merge_global combine_wheres l global s
take_step combine_wheres allow s = ok (allow_replace s)
take_step combine_wheres read s = finalized_ast s >>= λ r. ok r.0

unfoldable pub run : (Ast → Ast → Result (Ast × Ast)) → List Step → FeatureSlot → Result FeatureSlot
run combine_wheres [] s = ok s
run combine_wheres (step ∷ steps) s = take_step combine_wheres step s >>= run combine_wheres steps

-- What holds of every slot that a run reaches.
abbrev IsSound : FeatureSlot → Type 0
IsSound s = IsSlotApart s × ((s.replaceable || s.default_replaceable) ≡ true)

finalized_ast-ok :
    (s after : FeatureSlot) (e : Ast)
    → finalized_ast s ≡ ok (after, e)
    → record s { finalized = true } ≡ after
unfolding finalized_ast
finalized_ast-ok s after e h =
    let (x, _, h') = bind-eq-ok (finalized_ast_of s.slot_where s.slot_ast) _ h in
    let pair : ◌≡◌ {A = FeatureSlot × Ast} (record s { finalized = true }, x) (after, e) = cc in
    ap (λ p. p.0) pair

take_step-IsSound :
    (combine_wheres : Ast → Ast → Result (Ast × Ast)) (step : Step) (s after : FeatureSlot)
    → IsSound s
    → take_step combine_wheres step s ≡ ok after
    → IsSound after
unfolding allow_replace
take_step-IsSound combine_wheres (define l global) s after (apart, can) h =
    let done = merge_global-IsMerged combine_wheres l global s after h in
    (
      merge_global-IsSlotApart combine_wheres l global s after apart h,
      rw (done.replaceable.0, done.replaceable.1) can,
    )
take_step-IsSound combine_wheres allow s after (apart, can) h =
    let same : record s { replaceable = true } ≡ after = cc in rw (← same) (apart, refl)
take_step-IsSound combine_wheres read s after (apart, can) h =
    let ((final, e), ending, h') = bind-eq-ok (finalized_ast s) (λ r. ok r.0) h in
    let same : record s { finalized = true } ≡ after = finalized_ast-ok s final e ending ∙ cc in
    rw (← same) (apart, can)

run-IsSound :
    (combine_wheres : Ast → Ast → Result (Ast × Ast)) (steps : List Step) (s after : FeatureSlot)
    → IsSound s
    → run combine_wheres steps s ≡ ok after
    → IsSound after
unfolding run
run-IsSound combine_wheres [] s after sound h = let same : s ≡ after = cc in rw (← same) sound
run-IsSound combine_wheres (step ∷ steps) s after sound h =
    let (next, taken, h') =
      bind-eq-ok (take_step combine_wheres step s) (run combine_wheres steps) h in
    run-IsSound combine_wheres steps next after
      (take_step-IsSound combine_wheres step s next sound taken) h'

new_slot-IsSound : IsSound new_slot
new_slot-IsSound = (λ e h. cc, refl)

-- Over every run of definitions, openings and readings that meets no error, with any way to combine
-- where clauses: the cases of the slot never overlap, as far as `astIntersects` tells.
pub run-IsSlotApart :
    (combine_wheres : Ast → Ast → Result (Ast × Ast)) (steps : List Step) (s : FeatureSlot)
    → run combine_wheres steps new_slot ≡ ok s
    → IsSlotApart s
run-IsSlotApart combine_wheres steps s h =
    (run-IsSound combine_wheres steps new_slot s new_slot-IsSound h).0

-- A slot that is not final and not read takes a default case at any time, whatever default it has
-- already, outside files included with a where clause.
pub merge_global-default :
    (combine_wheres : Ast → Ast → Result (Ast × Ast)) (steps : List Step) (s : FeatureSlot)
    (l : Let) (global : Ast)
    → run combine_wheres steps new_slot ≡ ok s
    → s.is_final ≡ false
    → s.finalized ≡ false
    → l.is_default_case ≡ true
    → is_constant_true global ≡ true
    → (after : FeatureSlot) × (e : Switch) × (merge_global combine_wheres l global s ≡ ok after)
      × (after.slot_ast ≡ some e)
      × (e.default_case ≡ some l.value)
unfolding merge_global merge_default set_ast add_definition included_where open_slot
merge_global-default combine_wheres steps s l global h unfinal unread is_default outside =
    let can = (run-IsSound combine_wheres steps new_slot s new_slot-IsSound h).1 in
    let (opened, old) = open_slot s in
    let merged : Switch = record old { default_case = some l.value } in
    (
      record opened {
        slot_ast = some merged;
        slot_where = some (constant (boolean true));
        definitions = opened.definitions ++ (let_node l, none) ∷ [];
        is_final = opened.is_final || l.is_final;
      },
      merged,
      elim (Bool-cases s.replaceable) [
        | inl t ↦ rw (t, unfinal, is_default, outside, unread) refl
        | inr t ↦
            let can' : s.default_replaceable ≡ true = rw t at can in
            rw (t, unfinal, is_default, outside, can', unread) refl
      ],
      refl,
      refl,
    )

abbrev pub is_define : Step → Bool
is_define (define l global) = true
is_define _ = false

closed_step :
    (combine_wheres : Ast → Ast → Result (Ast × Ast)) (step : Step) (s after : FeatureSlot)
    → (s.is_final || s.finalized) ≡ true
    → take_step combine_wheres step s ≡ ok after
    → (is_define step ≡ false) × ((after.is_final || after.finalized) ≡ true)
unfolding allow_replace
closed_step combine_wheres (define l global) s after closed h =
    let done = merge_global-IsMerged combine_wheres l global s after h in
    cc (rw (done.was_open.0, done.was_open.1) at closed)
closed_step combine_wheres allow s after closed h =
    let same : record s { replaceable = true } ≡ after = cc in (refl, rw (← same) closed)
closed_step combine_wheres read s after closed h =
    let ((final, e), ending, h') = bind-eq-ok (finalized_ast s) (λ r. ok r.0) h in
    let same : record s { finalized = true } ≡ after = finalized_ast-ok s final e ending ∙ cc in
    (refl, rw (← same) (ground arith))

closed_run :
    (combine_wheres : Ast → Ast → Result (Ast × Ast)) (steps : List Step) (s later : FeatureSlot)
    → (s.is_final || s.finalized) ≡ true
    → any is_define steps ≡ true
    → run combine_wheres steps s ≢ ok later
unfolding run
closed_run combine_wheres [] s later closed defines h = cc
closed_run combine_wheres (step ∷ steps) s later closed defines h =
    let (next, taken, h') =
      bind-eq-ok (take_step combine_wheres step s) (run combine_wheres steps) h in
    let (other, still) = closed_step combine_wheres step s next closed taken in
    closed_run combine_wheres steps next later still (rw other at defines) h'

-- A run with a definition at some time after one that is marked final, or after a reading, meets an
-- error.
pub run-closed :
    (combine_wheres : Ast → Ast → Result (Ast × Ast)) (l : Let) (global : Ast) (steps : List Step)
    (s later : FeatureSlot)
    → l.is_final ≡ true
    → any is_define steps ≡ true
    → (run combine_wheres (define l global ∷ steps) s ≢ ok later)
      × (run combine_wheres (read ∷ steps) s ≢ ok later)
unfolding run
run-closed combine_wheres l global steps s later final defines = (
  λ h.
      let (next, taken, h') =
        bind-eq-ok (merge_global combine_wheres l global s) (run combine_wheres steps) h in
      let done = merge_global-IsMerged combine_wheres l global s next taken in
      closed_run combine_wheres steps next later (rw (done.is_final, final) refl) defines h',
  λ h.
      let (next, taken, h') =
        bind-eq-ok (take_step combine_wheres read s) (run combine_wheres steps) h in
      let ((r, e), ending, h2) = bind-eq-ok (finalized_ast s) (λ r. ok r.0) taken in
      let same : record s { finalized = true } ≡ next = finalized_ast-ok s r e ending ∙ cc in
      closed_run combine_wheres steps next later (rw (← same) (ground arith)) defines h',
)
