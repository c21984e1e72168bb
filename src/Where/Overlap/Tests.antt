-- ===== src/Where/Overlap/Tests.antt =====
-- Tests and witnesses for the overlap of where clauses.
use sqrl.Prelude.{
  Bool, true, false, List, [], ◌∷◌, ◌≡◌, refl, ok, lookup, insert, add_all, add, contains, err,
  invalid,
}
use sqrl.Value.{string}
use sqrl.Ast.{Ast, feature, constant, negation, binary_expr, boolean_expr}
use sqrl.Ast.Build.{or_ast, or_loop, is_constant_true}
use sqrl.Where.TruthTable.{ensure_valid_ast}
use sqrl.Where.Overlap.{
  Sets, booleans, texts, text, ast_intersects, search_overlap, extract_sets, merge,
  set_combinations, each_value, count_true, calculate,
}
use sqrl.Where.Overlap.Calculate.{Env}
use sqrl.Where.Overlap.Assignments.{overlaps}
use sqrl.Where.Overlap.Laws.{IsTried, ast_intersects-overlaps}
use sqrl.Where.Overlap.Gap.{differs, ast_intersects-differs}

abbrev is_x : Ast
is_x = binary_expr (feature "A") "=" (constant (string "x"))

abbrev is_y : Ast
is_y = binary_expr (feature "A") "=" (constant (string "y"))

abbrev clauses : List Ast
clauses = is_x ∷ boolean_expr (negation is_y) "and" (feature "B") ∷ []

abbrev joined_clauses : Ast
joined_clauses = boolean_expr is_x "or" (boolean_expr (negation is_y) "and" (feature "B"))

abbrev clause_sets : Sets
clause_sets = ("A", texts ("x" ∷ "y" ∷ [])) ∷ ("B", booleans) ∷ []

joined_clauses_test : or_ast clauses ≡ ok joined_clauses
unfolding or_ast or_loop
joined_clauses_test = refl

clause_sets_test : extract_sets joined_clauses ≡ ok clause_sets
unfolding extract_sets merge lookup insert add_all add contains
clause_sets_test = refl

apart_test : ast_intersects (is_x ∷ is_y ∷ []) ≡ ok false
unfolding ast_intersects search_overlap is_constant_true or_ast or_loop extract_sets merge lookup
    insert set_combinations each_value count_true calculate add_all add contains
apart_test = refl

mixed_use_test :
    ast_intersects (is_x ∷ feature "A" ∷ [])
    ≡ err (invalid "Invalid where: feature must be defined as boolean or equality")
unfolding ast_intersects search_overlap is_constant_true or_ast or_loop extract_sets merge lookup
    insert
mixed_use_test = refl

ast_intersects-overlaps_example :
    (answer : Bool) × (ast_intersects clauses ≡ ok answer)
    × (answer ≡ true → (env : Env) × IsTried env clause_sets × (overlaps clauses env ≡ true))
    × ((env : Env) → IsTried env clause_sets → overlaps clauses env ≡ true → answer ≡ true)
unfolding ensure_valid_ast
ast_intersects-overlaps_example =
    ast_intersects-overlaps clauses joined_clauses clause_sets refl (refl, (refl, tt))
      joined_clauses_test clause_sets_test

ast_intersects-differs_example :
    (ast_intersects (differs "A" "x" ∷ differs "A" "y" ∷ []) ≡ ok false)
    × (overlaps (differs "A" "x" ∷ differs "A" "y" ∷ []) (λ _. text "z") ≡ true)
ast_intersects-differs_example = ast_intersects-differs "A" "x" "y" "z" refl refl refl
