-- ===== src/Slots/Slot/Serial.antt =====
-- Storing and restoring slots (packages/sqrl/src/slot/SerializedSlot.ts and the classes of slots).
use sqrl.Prelude.{
  ℕ, String, false, List, [], Option, none, some, Result, ok, err, contains, bind-eq-ok, ◌≡◌, refl,
  ap,
}
use sqrl.Ast.{Ast}
use sqrl.Where.Text.{sort, contains-sort}
use sqrl.Where.Text.Order.{sort-sort}
use sqrl.Slots.Slot.{
  Content, iterator_slot, empty_slot, input_slot, statement_slot, constant_slot, fixed_slot,
  feature_slot, rule_slot, Slot, finalized_ast, present_ast, serialized_iterator, serialized_empty,
  serialized_input, serialized_constant, serialized_feature, serialized_rule, serialized_statement,
  serialized_fixed, Serialized, serialize, deserialize,
}

-- The slots that a statement slot waits for; other slots wait for none.
abbrev pub waits_of : Content → List String
waits_of (statement_slot _ names) = names
waits_of _ = []

-- The slots that a statement waits for, in the order of the stored data.
abbrev pub sorted : Content → Content
sorted (statement_slot finalized names) = statement_slot finalized (sort names)
sorted content = content

-- Stored data that forgot that a definition by default may be replaced.
abbrev pub forget_replaceable : Serialized → Serialized
forget_replaceable (serialized_fixed name slot_ast _) = serialized_fixed name slot_ast false
forget_replaceable stored = stored

-- The tree that the rest of the compilation gets.
abbrev pub tree_of : Result (Slot × Ast) → Result Ast
tree_of (err problem) = err problem
tree_of (ok (_, e)) = ok e

abbrev pub final_tree : Slot → Result Ast
final_tree s = tree_of (finalized_ast s)

abbrev IsRestored : Slot → Serialized → Type 0
IsRestored s stored =
    ((deserialize stored).name ≡ s.name)
    × ((deserialize stored).index ≡ none)
    × (final_tree (deserialize stored) ≡ final_tree (record s { content = sorted s.content }))
    × ((name : String)
        → contains (waits_of (deserialize stored).content) name
          ≡ contains (waits_of s.content) name)
    × (serialize (deserialize stored) ≡ ok (forget_replaceable stored))

present {ℓ} : {A : Type ℓ} (o : Option A) (e : A) → present_ast o ≡ ok e → o ≡ some e
present none e h = cc
present (some x) e h = let same : x ≡ e = cc in ap some same

restored :
    (name : String) (index : Option ℕ) (content : Content) (stored : Serialized)
    → serialize (record { name = name; index = index; content = content }) ≡ ok stored
    → IsRestored (record { name = name; index = index; content = content }) stored
unfolding serialize deserialize finalized_ast
restored name index iterator_slot stored e =
    let same : serialized_iterator name ≡ stored = cc in
    rw (← same) (refl, refl, refl, λ k. refl, refl)
restored name index empty_slot stored e =
    let same : serialized_empty name ≡ stored = cc in
    rw (← same) (refl, refl, refl, λ k. refl, refl)
restored name index input_slot stored e =
    let same : serialized_input name ≡ stored = cc in
    rw (← same) (refl, refl, refl, λ k. refl, refl)
restored name index (statement_slot finalized names) stored e =
    let same : serialized_statement name (sort names) ≡ stored = cc in
    rw (← same) (refl, refl, refl, λ k. contains-sort names k, rw (sort-sort names) refl)
restored name index (constant_slot finalized value) stored e =
    let same : serialized_constant name value ≡ stored = cc in
    rw (← same) (refl, refl, refl, λ k. refl, refl)
restored name index (fixed_slot slot_ast replaceable) stored e =
    let same : serialized_fixed name slot_ast replaceable ≡ stored = cc in
    rw (← same) (refl, refl, refl, λ k. refl, refl)
restored name index (feature_slot s) stored e =
    let (slot_ast, has_ast, e1) = bind-eq-ok (present_ast s.slot_ast) _ e in
    let (slot_where, has_where, e2) = bind-eq-ok (present_ast s.slot_where) _ e1 in
    let same : serialized_feature name s.definitions s.is_final slot_ast slot_where ≡ stored = cc in
    let is_ast = present s.slot_ast slot_ast has_ast in
    let is_where = present s.slot_where slot_where has_where in
    rw (← same) (refl, refl, rw (is_ast, is_where) refl, λ k. refl, refl)
restored name index (rule_slot s) stored e =
    let (slot_ast, has_ast, e1) = bind-eq-ok (present_ast s.slot_ast) _ e in
    let (slot_where, has_where, e2) = bind-eq-ok (present_ast s.slot_where) _ e1 in
    let same : serialized_rule name s.definition slot_ast slot_where s.rule_spec ≡ stored = cc in
    let is_ast = present s.slot_ast slot_ast has_ast in
    let is_where = present s.slot_where slot_where has_where in
    rw (← same) (refl, refl, rw (is_ast, is_where) refl, λ k. refl, refl)

-- A slot that is stored and restored has its name and no index, and brings the tree that it would
-- bring otherwise, a statement with the slots that it waits for in sorted order and with no other
-- slots; stored again it gives the same data, but for the mark of a fixed slot that it may be replaced,
-- which is lost.
pub deserialize-serialize :
    (s : Slot) (stored : Serialized)
    → serialize s ≡ ok stored
    → ((deserialize stored).name ≡ s.name)
      × ((deserialize stored).index ≡ none)
      × (final_tree (deserialize stored) ≡ final_tree (record s { content = sorted s.content }))
      × ((name : String)
          → contains (waits_of (deserialize stored).content) name
            ≡ contains (waits_of s.content) name)
      × (serialize (deserialize stored) ≡ ok (forget_replaceable stored))
deserialize-serialize s stored e = restored s.name s.index s.content stored e
