-- ===== src/Where/Tests.antt =====
-- Clauses over two features, and the theorems of the where clauses at them.
use sqrl.Prelude.{
  ◌≢◌, ◌^◌, String, Bool, true, false, not, List, [], ◌∷◌, ◌↔◌, ◌≡◌, refl, inl, inr, some, ok, all,
  any, length, get_elem?, contains, str_eq, add_all, lookup, insert,
}
use sqrl.Value.{null, boolean, string}
use sqrl.Ast.{Ast, constant, feature, negation, boolean_expr, binary_expr}
use sqrl.Ast.Build.{and_ast, or_ast}
use sqrl.Ast.Build.Laws.{holds-and_ast, holds-or_ast, IsWhere, and_ast-IsWhere}
use sqrl.Where.TruthTable.{
  TruthTable, ensure_valid_ast, extract_features, binary_feature_name, calculate,
  feature_combinations, build_truth_table, reduce_clause, reduce_truth_table, stringify_where_ast,
}
use sqrl.Where.Text.{◌⧺◌, sort, json_string}
use sqrl.Where.TruthTable.Rows.{holds, row_index}
use sqrl.Where.TruthTable.Laws.{reduce_truth_table-holds, reduce_truth_table-injective}
use sqrl.Where.Stringify.{comparison, stringify_where_ast_iff, stringify_where_ast-not_equal}

reducing : Unit {0}
unfolding reduce_truth_table reduce_clause ensure_valid_ast extract_features binary_feature_name
    calculate feature_combinations build_truth_table sort add_all json_string lookup insert
reducing = tt

-- B and not (A = "x").
abbrev clause : Ast
clause =
    boolean_expr (feature "B") "and"
      (negation (binary_expr (feature "A") "=" (constant (string "x"))))

-- not (A = "x" or not B), which has the same table.
abbrev other : Ast
other = negation (
    boolean_expr (binary_expr (feature "A") "=" (constant (string "x"))) "or"
      (negation (feature "B")))

abbrev table : TruthTable
table = record { features = "A=\"x\"" ∷ "B" ∷ []; truth_table = false ∷ true ∷ false ∷ false ∷ [] }

table_of_clause : reduce_truth_table clause ≡ ok table
unfolding reducing
table_of_clause = refl

table_of_other : reduce_truth_table other ≡ ok table
unfolding reducing
table_of_other = refl

clause_valid : ensure_valid_ast clause ≡ ok true
unfolding ensure_valid_ast
clause_valid = refl

abbrev only_b : String → Bool
only_b name = str_eq name "B"

reduce_truth_table-holds_example :
    (t : TruthTable) × (names : List String) × (reduce_truth_table clause ≡ ok t)
    × (extract_features clause ≡ ok names)
    × ((k : String) → contains t.features k ≡ contains names k)
    × (length t.truth_table ≡ 2 ^ length t.features)
    × ((env : String → Bool)
        → get_elem? t.truth_table (row_index t.features env) ≡ some (holds env clause))
reduce_truth_table-holds_example = reduce_truth_table-holds clause clause_valid

reduce_truth_table-injective_example : holds only_b clause ≡ holds only_b other
reduce_truth_table-injective_example =
    reduce_truth_table-injective clause other table table_of_clause table_of_other only_b

abbrev parts : List Ast
parts = constant (boolean true) ∷ feature "B" ∷ clause ∷ []

abbrev joined : Ast
joined = boolean_expr (feature "B") "and" clause

conjunction_built : and_ast parts ≡ ok joined
unfolding and_ast
conjunction_built = refl

holds-and_ast_example : holds only_b joined ≡ all (holds only_b) parts
holds-and_ast_example = holds-and_ast parts joined only_b conjunction_built

abbrev choices : List Ast
choices = constant null ∷ feature "B" ∷ clause ∷ []

disjunction_built : or_ast choices ≡ ok (boolean_expr (feature "B") "or" clause)
unfolding or_ast
disjunction_built = refl

holds-or_ast_example :
    holds only_b (boolean_expr (feature "B") "or" clause) ≡ any (holds only_b) choices
holds-or_ast_example =
    holds-or_ast choices (boolean_expr (feature "B") "or" clause) only_b disjunction_built

feature_valid : ensure_valid_ast (feature "B") ≡ ok true
unfolding ensure_valid_ast
feature_valid = refl

and_ast-IsWhere_example : IsWhere joined
and_ast-IsWhere_example =
    and_ast-IsWhere parts joined (inl refl, (inr feature_valid, (inr clause_valid, tt)))
      conjunction_built

stringify_where_ast_iff_example :
    ((t : TruthTable) × (reduce_truth_table clause ≡ ok t))
    ↔ ((text : String) × (stringify_where_ast clause ≡ ok text))
stringify_where_ast_iff_example = stringify_where_ast_iff clause

stringify_where_ast-not_equal_example :
    (stringify_where_ast (comparison "A" "=" "x") ≡ ok ("A" ⧺ "=" ⧺ json_string "x"))
    × (stringify_where_ast (comparison "A" "!=" "x") ≡ ok ("A" ⧺ "=" ⧺ json_string "x"))
    × ((t u : TruthTable) × (reduce_truth_table (comparison "A" "=" "x") ≡ ok t)
        × (reduce_truth_table (comparison "A" "!=" "x") ≡ ok u)
        × (t ≢ u))
    × ((env : String → Bool)
        → holds env (comparison "A" "!=" "x") ≡ not (holds env (comparison "A" "=" "x")))
stringify_where_ast-not_equal_example = stringify_where_ast-not_equal "A" "x"
