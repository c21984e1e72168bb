-- ===== src/Compile/Labeler/Tests.antt =====
-- Tests and witnesses for statements.
use sqrl.Prelude.{
  true, false, List, [], ◌∷◌, map, none, some, Result, ok, err, invalid, ◌≡◌, refl, lookup, str_eq,
  if◌then◌else◌,
}
use sqrl.Value.{boolean, number, null}
use sqrl.Ast.{Ast, constant, call, feature, let_statement, assertion, slot, nil, cons}
use sqrl.Ast.Build.{and_ast}
use sqrl.Ast.Walk.{json_ast}
use sqrl.Where.TruthTable.{reduce_truth_table}
use sqrl.Where.Overlap.{ast_intersects}
use sqrl.Slots.Slot.{statement_slot, fixed_slot, constant_slot, new_slot}
use sqrl.Compile.Parser.{Parser}
use sqrl.Compile.Parser.Kept.{IsKept}
use sqrl.Compile.Transform.{Function, Language, returns, asks, set_constant_slot, set_constant}
use sqrl.Compile.Transform.Nodes.{language_tools, transform}
use sqrl.Compile.Labeler.{Labeler}
use sqrl.Compile.Labeler.Pushing.{push_statement, compile_statements}
use sqrl.Compile.Labeler.Keeps.{compile_statements-IsKept}

abbrev plain : Function
plain = record {
  custom_transform = none;
  transform_ast = none;
  state_arg = false;
  when_cause_arg = false;
  check_args = λ _. ok tt;
  pure_function = none;
}

-- A function that keeps a number in a constant slot, and changes it behind its first value.
abbrev counting : Function
counting = record plain {
  transform_ast = some (λ _.
      asks (set_constant_slot "Counter" (number 1))
        (λ _. asks (set_constant "Counter" (number 2)) (λ _. returns (slot "Counter"))));
}

abbrev language : Language
language = record {
  functions = λ func. if str_eq func "counter" then some counting else some plain;
  stringify = λ _. "v";
  hash = λ text. text;
  hash_json = λ _. "v";
  split_at_dot = λ _. none;
}

-- Every function is a statement that "Statements" waits for.
abbrev labeler : Labeler
labeler = record {
  tools = language_tools language 4;
  registry = λ _. some (record {
    statement = true;
    statement_feature = some "Statements";
    state_arg = true;
    when_cause_arg = true;
    has_args = true;
  });
  include_files = λ _. ok [];
  allow_assertions = false;
}

abbrev begun : Parser
begun = record {
  slots =
      ("Statements", new_slot "Statements" (statement_slot false []))
      ∷ ("Actor", new_slot "Actor" (fixed_slot (constant null) true))
      ∷ [];
  global_where = constant (boolean true);
  current_iterator = none;
  remaining_inputs = [];
  allow_replace_input = false;
}

abbrev input_statement : Ast
input_statement = let_statement false none (call "input" nil) "Age" false (constant (boolean true))

abbrev actor_statement : Ast
actor_statement =
    let_statement false none (constant (number 1)) "Actor" false (constant (boolean true))

abbrev script : List Ast
script = input_statement ∷ actor_statement ∷ call "log" (cons (call "counter" nil) nil) ∷ []

assert_test :
    push_statement labeler 2 (assertion (feature "Age")) begun
    ≡ err (invalid "Assertions are only valid in sqrl tests")
unfolding push_statement transform
assert_test = refl

-- An input is defined once.
input_test :
    compile_statements labeler 1 (input_statement ∷ input_statement ∷ []) begun
    ≡ err (invalid "Multiple definitions of feature")
unfolding compile_statements
input_test = refl

-- A feature cannot have the name of a statement.
name_test :
    push_statement labeler 1
      (let_statement false none (constant null) "Statements" false (constant (boolean true)))
      begun
    ≡ err (invalid "Feature was previously defined")
unfolding push_statement transform
name_test = refl

abbrev state_after : Result Parser → Parser
state_after (ok p) = p
state_after (err e) = begun

abbrev final_state : Parser
unfolding compile_statements transform and_ast reduce_truth_table ast_intersects json_ast
final_state = state_after (compile_statements labeler 1 script begun)

-- The input is filled, and the definition by default of the actor has given way to a feature.
names_test :
    map (λ (name, s). name) final_state.slots
    ≡ "Statements" ∷ "Actor" ∷ "Age" ∷ "bool(:)" ∷ "Counter"
      ∷ "ast:{\"type\":\"registeredCall\",\"args\":[{\"type\":\"slot\",\"slotName\":v}],\"func\":v}"
      ∷ []
unfolding compile_statements transform and_ast reduce_truth_table ast_intersects json_ast
names_test = refl

-- The transform has changed the constant.
counter_test :
    lookup "Counter" final_state.slots ≡ some (new_slot "Counter" (constant_slot false (number 2)))
unfolding compile_statements transform and_ast reduce_truth_table ast_intersects json_ast lookup
counter_test = refl

compile_statements-IsKept_example : IsKept begun final_state
unfolding compile_statements transform and_ast reduce_truth_table ast_intersects json_ast
compile_statements-IsKept_example =
    compile_statements-IsKept language 4 labeler 1 script begun final_state refl
