-- ===== src/Compile/Parser/Tests.antt =====
-- Tests and witnesses for the parser state.
use sqrl.Prelude.{true, false, [], ◌∷◌, none, Result, ok, err, invalid, failed, ◌≡◌, refl}
use sqrl.Value.{boolean, number, null}
use sqrl.Ast.{Ast, constant, feature, negation, slot}
use sqrl.Ast.Build.{and_ast}
use sqrl.Ast.Walk.{json_ast}
use sqrl.Where.Text.{sort}
use sqrl.Where.TruthTable.{
  reduce_truth_table, reduce_clause, ensure_valid_ast, extract_features, build_truth_table,
  feature_combinations, calculate,
}
use sqrl.Slots.Slot.{input_slot, new_slot}
use sqrl.Compile.Parser.{Parser, get_slot, set_default_value, ensure_iterator, add_statement_slot}
use sqrl.Compile.Parser.Trees.{Tools, Combined, where_bool_name, combine_with_global_where}
use sqrl.Compile.Parser.Kept.{IsKept-refl}
use sqrl.Compile.Parser.Share.{combine_with_global_where-shared}

abbrev tools : Tools
tools = record { stringify = λ _. "v"; hash = λ text. text; transform = λ e p. ok (p, e) }

abbrev begun : Parser
begun = record {
  slots = ("Age", new_slot "Age" input_slot) ∷ [];
  global_where = constant (boolean true);
  current_iterator = none;
  remaining_inputs = ("Name", number 3) ∷ [];
  allow_replace_input = false;
}

missing_test : get_slot "Name" begun ≡ err (failed "Could not find named slot:: %s")
unfolding get_slot
missing_test = refl

default_test :
    set_default_value "Age" (constant null) begun ≡ err (failed "Slot was already defined: %s")
unfolding set_default_value
default_test = refl

iterator_test :
    ensure_iterator "Age" begun
    ≡ err (invalid "Iterators cannot have the same name as a feature or rule")
unfolding ensure_iterator
iterator_test = refl

wait_test :
    add_statement_slot "Statements" "Age" begun
    ≡ err (failed "Could not find global for statement:: %s")
unfolding add_statement_slot
wait_test = refl

-- A clause and the negation of its negation.
abbrev clause : Ast
clause = feature "Age"

abbrev negated_twice : Ast
negated_twice = negation (negation clause)

abbrev combined_state : Result (Parser × Combined) → Parser
combined_state (ok (p, c)) = p
combined_state (err e) = begun

abbrev combined_with : Ast → Combined
combined_with e = record {
  combined_ast = e;
  where_ast = slot "bool(Age:01)";
  table = record { features = "Age" ∷ []; truth_table = false ∷ true ∷ [] };
}

abbrev after_clause : Parser
unfolding combine_with_global_where reduce_clause ensure_valid_ast extract_features
    build_truth_table feature_combinations sort calculate and_ast json_ast reduce_truth_table
after_clause =
    combined_state (combine_with_global_where tools clause (constant (boolean true)) begun)

combine_with_global_where-shared_example :
    (slot "bool(Age:01)" ≡ slot (where_bool_name (combined_with clause).table))
    × (slot "bool(Age:01)" ≡ slot "bool(Age:01)")
    × (after_clause ≡ after_clause)
unfolding combine_with_global_where reduce_clause ensure_valid_ast extract_features
    build_truth_table feature_combinations sort calculate and_ast json_ast reduce_truth_table
combine_with_global_where-shared_example =
    combine_with_global_where-shared tools clause (constant (boolean true)) negated_twice
      (constant (boolean true)) begun after_clause after_clause after_clause (combined_with clause)
      (combined_with negated_twice) refl (IsKept-refl after_clause) refl refl
