-- ===== src/Slots/Feature/Merged.antt =====
-- What a successful mergeGlobal of packages/sqrl/src/slot/SqrlFeatureSlot.ts has done.
use sqrl.Prelude.{
  String, Bool, true, false, not, ◌||◌, List, [], ◌∷◌, ◌++◌, Option, some, Result, ok, ensure,
  bind-eq-ok, ◌≡◌, refl, sym, ap, ◌∙◌, arith, Bool-cases, inl, inr,
}
use sqrl.Value.{boolean}
use sqrl.Ast.{Ast, constant}
use sqrl.Where.Overlap.Sets.{ensured}
use sqrl.Slots.Feature.{
  Let, Switch, FeatureSlot, included_where, set_ast, add_definition, open_slot, merge_branch,
  merge_global, let_node,
}

set_ast-ok :
    (e : Switch) (where_ast : Ast) (s after : FeatureSlot)
    → set_ast e where_ast s ≡ ok after
    → (s.finalized ≡ false) × (record s { slot_ast = some e; slot_where = some where_ast } ≡ after)
unfolding set_ast
set_ast-ok e where_ast s after h = elim (Bool-cases s.finalized) [
  | inl t ↦ cc (rw t at h)
  | inr t ↦ (t, cc (rw t at h))
]

add_definition-ok :
    (l : Let) (global : Ast) (s after : FeatureSlot)
    → add_definition l global s ≡ ok after
    → (text : Option String) × (record s { definitions = s.definitions ++ (let_node l, text) ∷ [] }
        ≡ after)
unfolding add_definition
add_definition-ok l global s after h =
    let (text, _, e) =
      bind-eq-ok (included_where global)
        (λ text. ok (record s { definitions = s.definitions ++ (let_node l, text) ∷ [] })) h in
    (text, cc)

-- What a merge that succeeds does.
pub record IsMerged (combine_wheres : Ast → Ast → Result (Ast × Ast)) (l : Let) (global : Ast)
    (s after : FeatureSlot) : Type 0 where
  pub merged : Switch
  pub branch_taken :
      merge_branch combine_wheres l global (open_slot s).0.default_replaceable (open_slot s).1
      ≡ ok merged
  pub slot_ast : after.slot_ast ≡ some merged
  pub slot_where : after.slot_where ≡ some (constant (boolean true))
  pub was_open : (s.is_final ≡ false) × (s.finalized ≡ false)
  pub replaceable :
      (after.replaceable ≡ false)
      × (after.default_replaceable ≡ (s.replaceable || s.default_replaceable))
  pub is_final : after.is_final ≡ l.is_final
  pub finalized : after.finalized ≡ false
  pub definitions :
      (text : Option String) × (after.definitions ≡ s.definitions ++ (let_node l, text) ∷ [])

unset_flag : (b : Bool) → not b ≡ true → b ≡ false
unset_flag b h = ground arith

open_slot_lem :
    (s : FeatureSlot)
    → ((open_slot s).0.replaceable ≡ false)
      × ((open_slot s).0.default_replaceable ≡ (s.replaceable || s.default_replaceable))
      × ((open_slot s).0.is_final ≡ s.is_final)
      × ((open_slot s).0.finalized ≡ s.finalized)
unfolding open_slot
open_slot_lem s = elim (Bool-cases s.replaceable) [
  | inl t ↦ rw t (refl, refl, refl, refl)
  | inr t ↦ rw t (refl, refl, refl, refl)
]

open_slot-definitions : (s : FeatureSlot) → (open_slot s).0.definitions ≡ s.definitions
unfolding open_slot
open_slot-definitions s = elim (Bool-cases s.replaceable) [ inl t ↦ rw t refl | inr t ↦ rw t refl ]

pub merge_global-IsMerged :
    (combine_wheres : Ast → Ast → Result (Ast × Ast)) (l : Let) (global : Ast)
    (s after : FeatureSlot)
    → merge_global combine_wheres l global s ≡ ok after
    → IsMerged combine_wheres l global s after
unfolding merge_global
merge_global-IsMerged combine_wheres l global s after h =
    let (_, opened, h1) = bind-eq-ok (ensure (not s.is_final) _) _ h in
    let (merged, taken, h2) =
      bind-eq-ok
        (merge_branch combine_wheres l global (open_slot s).0.default_replaceable (open_slot s).1) _
        h1 in
    let (set, setting, h3) =
      bind-eq-ok (set_ast merged (constant (boolean true)) (open_slot s).0) _ h2 in
    let (defined, defining, h4) = bind-eq-ok (add_definition l global set) _ h3 in
    let (unread, e1) = set_ast-ok merged (constant (boolean true)) (open_slot s).0 set setting in
    let (text, e2) = add_definition-ok l global set defined defining in
    let unfinal = ensured (not s.is_final) _ opened in
    let e3 : record defined { is_final = defined.is_final || l.is_final } ≡ after = cc in
    let kept : defined.is_final ≡ false =
      ap (λ x. x.is_final) (sym e2)
      ∙ ap (λ x. x.is_final) (sym e1)
      ∙ (open_slot_lem s).2
      ∙ unset_flag s.is_final unfinal in
    let (closed, can_default, same_final, same_finalized) = open_slot_lem s in
    record {
      merged = merged;
      branch_taken = taken;
      slot_ast =
          ap (λ x. x.slot_ast) (sym e3)
          ∙ ap (λ x. x.slot_ast) (sym e2)
          ∙ ap (λ x. x.slot_ast) (sym e1);
      slot_where =
          ap (λ x. x.slot_where) (sym e3)
          ∙ ap (λ x. x.slot_where) (sym e2)
          ∙ ap (λ x. x.slot_where) (sym e1);
      was_open = (unset_flag s.is_final unfinal, sym same_finalized ∙ unread);
      replaceable = (
        ap (λ x. x.replaceable) (sym e3)
            ∙ ap (λ x. x.replaceable) (sym e2)
            ∙ ap (λ x. x.replaceable) (sym e1)
            ∙ closed,
        ap (λ x. x.default_replaceable) (sym e3)
            ∙ ap (λ x. x.default_replaceable) (sym e2)
            ∙ ap (λ x. x.default_replaceable) (sym e1)
            ∙ can_default,
      );
      is_final = ap (λ x. x.is_final) (sym e3) ∙ rw kept refl;
      finalized =
          ap (λ x. x.finalized) (sym e3)
          ∙ ap (λ x. x.finalized) (sym e2)
          ∙ ap (λ x. x.finalized) (sym e1)
          ∙ unread;
      definitions = (
        text,
        ap (λ x. x.definitions) (sym e3)
            ∙ ap (λ x. x.definitions) (sym e2)
            ∙ ap (λ (ds : List (Ast × Option String)). ds ++ (let_node l, text) ∷ [])
                (ap (λ x. x.definitions) (sym e1) ∙ open_slot-definitions s),
      );
    }
