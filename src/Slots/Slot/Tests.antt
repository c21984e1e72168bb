-- ===== src/Slots/Slot/Tests.antt =====
-- Tests and witnesses for slots and their stored data.
use sqrl.Prelude.{String, true, false, [], ◌∷◌, none, some, ok, err, failed, contains, ◌≡◌, refl}
use sqrl.Value.{boolean}
use sqrl.Ast.{constant, call, cons, nil, slot}
use sqrl.Where.Text.{sort}
use sqrl.Slots.Slot.{
  Slot, statement_slot, fixed_slot, new_slot, set_index, add_wait, serialized_statement,
  serialized_fixed, serialize, deserialize, finalized_ast,
}
use sqrl.Slots.Slot.Serial.{final_tree, waits_of, sorted, deserialize-serialize}

abbrev waiting : Slot
waiting = new_slot "Statements" (statement_slot true ("b" ∷ "a" ∷ []))

index_test :
    set_index 3 (record waiting { index = some 1 })
    ≡ err (failed "Can only set slot index once:: %s")
unfolding set_index
index_test = refl

late_wait_test : add_wait "c" true [] ≡ err (failed "Slot cannot be set after it is read: %s")
unfolding add_wait
late_wait_test = refl

waits_test :
    finalized_ast waiting ≡ ok (waiting, call "_slotWait" (cons (slot "b") (cons (slot "a") nil)))
unfolding finalized_ast
waits_test = refl

-- A definition by default is restored as one that cannot be replaced.
fixed_test :
    deserialize (serialized_fixed "SqrlMutate" (constant (boolean true)) true)
    ≡ new_slot "SqrlMutate" (fixed_slot (constant (boolean true)) false)
unfolding deserialize
fixed_test = refl

deserialize-serialize_example :
    ((deserialize (serialized_statement "Statements" ("a" ∷ "b" ∷ []))).name ≡ "Statements")
    × ((deserialize (serialized_statement "Statements" ("a" ∷ "b" ∷ []))).index ≡ none)
    × (final_tree (deserialize (serialized_statement "Statements" ("a" ∷ "b" ∷ [])))
        ≡ final_tree (record waiting { content = sorted waiting.content }))
    × ((name : String)
        → contains
            (waits_of (deserialize (serialized_statement "Statements" ("a" ∷ "b" ∷ []))).content)
            name
          ≡ contains ("b" ∷ "a" ∷ []) name)
    × (serialize (deserialize (serialized_statement "Statements" ("a" ∷ "b" ∷ [])))
        ≡ ok (serialized_statement "Statements" ("a" ∷ "b" ∷ [])))
unfolding serialize sort
deserialize-serialize_example =
    deserialize-serialize waiting (serialized_statement "Statements" ("a" ∷ "b" ∷ [])) refl
