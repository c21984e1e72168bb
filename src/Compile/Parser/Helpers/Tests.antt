-- ===== src/Compile/Parser/Helpers/Tests.antt =====
-- Tests for the constructor and for what compilers of functions ask.
use sqrl.Prelude.{true, false, [], ◌∷◌, none, some, ok, err, failed, invalid, map, ◌>>=◌, ◌≡◌, refl}
use sqrl.Value.{boolean, string, number}
use sqrl.Ast.{constant, list, cons, nil}
use sqrl.Slots.Slot.{deserialize, serialized_fixed, empty_slot, new_slot}
use sqrl.Compile.Parser.{Parser}
use sqrl.Compile.Parser.Helpers.{
  first_state, new_parser_state, ensure_all_slots, get_feature_slot, wrap_iterator,
  extract_list_constant_strings,
}

abbrev begun : Parser
begun = first_state [] false none

new_parser_state_test :
    (new_parser_state ("SqrlAssertionStatements" ∷ "Statements" ∷ []) begun >>= λ p.
    ok (map (λ (name, s). name) p.slots))
    ≡ ok (
        "SqrlMutate" ∷ "SqrlIsClassify" ∷ "SqrlClock" ∷ "SqrlExecutionComplete"
        ∷ "SqrlAssertionStatements" ∷ "Statements" ∷ [])
unfolding new_parser_state
new_parser_state_test = refl

-- A parser state that is restored has the slots that the constructor defines.
restored_test :
    new_parser_state [] (
      first_state [] false
        (some (("SqrlMutate", serialized_fixed "SqrlMutate" (constant (boolean true)) true) ∷ [])))
    ≡ err (failed "Slot was already defined: %s")
unfolding new_parser_state deserialize
restored_test = refl

empty_test : (ensure_all_slots ("A" ∷ "A" ∷ []) begun).slots ≡ ("A", new_slot "A" empty_slot) ∷ []
unfolding ensure_all_slots
empty_test = refl

feature_test : get_feature_slot "A" begun ≡ err (invalid "Could not find feature: %s")
unfolding get_feature_slot
feature_test = refl

iterator_test :
    wrap_iterator {A = Parser} "x" (λ p. wrap_iterator "y" (λ q. ok (q, p)) p) begun
    ≡ err (failed "Multiple levels of iterators are not supported.")
iterator_test = refl

strings_test :
    extract_list_constant_strings
      (list (cons (constant (string "a")) (cons (constant (number 1)) nil)))
    ≡ err (invalid "Expected constant string here")
unfolding extract_list_constant_strings
strings_test = refl
