-- ===== src/Slots/Feature/Tests.antt =====
-- Tests and witnesses for feature slots.
use sqrl.Prelude.{
  String, Bool, true, false, List, [], ◌∷◌, none, some, Result, ok, err, invalid, ◌≡◌, ◌≢◌, refl,
  lookup, insert, add_all, add, contains,
}
use sqrl.Value.{string, boolean}
use sqrl.Ast.{Ast, constant, feature, binary_expr}
use sqrl.Ast.Build.{or_ast, or_loop, is_constant_true}
use sqrl.Where.Overlap.{
  ast_intersects, search_overlap, extract_sets, merge, set_combinations, each_value, count_true,
  calculate,
}
use sqrl.Slots.Feature.{
  Let, FeatureSlot, Switch, new_slot, let_node, this_case, open_slot, merge_case, set_ast,
  add_definition, included_where, merge_global,
}
use sqrl.Slots.Feature.Laws.{IsSlotApart}
use sqrl.Slots.Feature.Runs.{
  Step, define, read, run, run-IsSlotApart, merge_global-default, run-closed,
}

abbrev always : Ast
always = constant (boolean true)

abbrev color_is : String → Ast
color_is s = binary_expr (feature "Color") "=" (constant (string s))

abbrev plain_let : (is_final is_default_case : Bool) (value : String) (where_ast : Ast) → Let
plain_let is_final is_default_case value where_ast = record {
  is_final = is_final;
  description = none;
  value = constant (string value);
  name = "Mood";
  is_default_case = is_default_case;
  where_ast = where_ast;
}

-- A callback that leaves out the global clause.
abbrev own_where : Ast → Ast → Result (Ast × Ast)
own_where where_ast global = ok (where_ast, where_ast)

abbrev calm : Let
calm = plain_let false false "calm" (color_is "blue")

abbrev angry : Let
angry = plain_let false false "angry" (color_is "red")

abbrev two_definitions : List Step
two_definitions = define calm always ∷ define angry always ∷ []

abbrev two_cases : FeatureSlot
two_cases = record {
  slot_ast = some (record {
    cases =
        this_case calm (color_is "blue") (color_is "blue")
        ∷ this_case angry (color_is "red") (color_is "red")
        ∷ [];
    default_case = none;
  });
  slot_where = some always;
  definitions = (let_node calm, none) ∷ (let_node angry, none) ∷ [];
  finalized = false;
  is_final = false;
  replaceable = false;
  default_replaceable = true;
}

two_cases_test : run own_where two_definitions new_slot ≡ ok two_cases
unfolding run merge_global open_slot merge_case set_ast add_definition included_where
    is_constant_true ast_intersects search_overlap or_ast or_loop extract_sets merge lookup insert
    set_combinations each_value count_true calculate add_all add contains
two_cases_test = refl

again_test :
    merge_global own_where calm always two_cases ≡ err (invalid "Multiple definitions of %s")
unfolding merge_global open_slot merge_case is_constant_true ast_intersects search_overlap or_ast
    or_loop extract_sets merge lookup insert set_combinations each_value count_true calculate
    add_all add contains
again_test = refl

run-IsSlotApart_example : IsSlotApart two_cases
run-IsSlotApart_example = run-IsSlotApart own_where two_definitions two_cases two_cases_test

merge_global-default_example :
    (after : FeatureSlot) × (e : Switch) × (merge_global own_where
        (plain_let false true "none" always)
        always
        two_cases
      ≡ ok after)
    × (after.slot_ast ≡ some e)
    × (e.default_case ≡ some (constant (string "none")))
unfolding is_constant_true
merge_global-default_example =
    merge_global-default own_where two_definitions two_cases (plain_let false true "none" always)
      always two_cases_test refl refl refl refl

run-closed_example :
    (run own_where (define (plain_let true false "calm" always) always ∷ two_definitions) new_slot
      ≢ ok two_cases)
    × (run own_where (read ∷ two_definitions) new_slot ≢ ok two_cases)
run-closed_example =
    run-closed own_where (plain_let true false "calm" always) always two_definitions new_slot
      two_cases refl refl
