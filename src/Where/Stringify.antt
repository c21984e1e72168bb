-- ===== src/Where/Stringify.antt =====
-- What `stringifyWhereAst` of packages/sqrl/src/compile/SqrlTruthTable.ts keeps of a clause.
use sqrl.Prelude.{
  String, not, ◌↔◌, ◌≡◌, refl, ok, bind-eq-ok, Bool, true, false, ◌≢◌, ap, ◌∙◌, inl, inr,
}
use sqrl.Value.{string, boolean}
use sqrl.Ast.{Ast, constant, feature, negation, boolean_expr, binary_expr}
use sqrl.Where.Text.{◌⧺◌, json_string}
use sqrl.Where.TruthTable.{
  TruthTable, reduce_truth_table, ensure_valid_ast, binary_feature_name, stringify_valid_ast,
  stringify_clause, stringify_where_ast,
}
use sqrl.Where.TruthTable.Calculate.{ensure_valid_ast-true, equality_parts, boolean_parts}
use sqrl.Where.TruthTable.Laws.{
  reduce_truth_table-holds, reduce_truth_table-accepts, reduce_truth_table-injective,
}
use sqrl.Where.TruthTable.Rows.{holds}

stringify_valid_ast_total :
    (ast : Ast)
    → ensure_valid_ast ast ≡ ok true
    → (text : String) × (stringify_valid_ast ast ≡ ok text)
unfolding stringify_valid_ast ensure_valid_ast
stringify_valid_ast_total (binary_expr l op r) h =
    let (name, named, _, _) = equality_parts l r op h in (name, named)
stringify_valid_ast_total (boolean_expr l op r) h =
    let (_, valid_l, valid_r) = boolean_parts l r op h in
    let (a, left) = stringify_valid_ast_total l valid_l in
    let (b, right) = stringify_valid_ast_total r valid_r in
    ("(" ⧺ a ⧺ " " ⧺ op ⧺ " " ⧺ b ⧺ ")", rw (left, right))
stringify_valid_ast_total (negation e) h =
    let (a, text) = stringify_valid_ast_total e h in ("NOT " ⧺ a, rw text)
stringify_valid_ast_total (feature f) h = (f, refl)
stringify_valid_ast_total (constant _) h = cc
stringify_valid_ast_total _ h = cc

stringify_clause_valid :
    (ast : Ast)
    → ensure_valid_ast ast ≡ ok true
    → (text : String) × (stringify_clause ast ≡ ok text)
unfolding stringify_clause
stringify_clause_valid ast h = let (text, e) = stringify_valid_ast_total ast h in (text, rw h e)

stringify_where_ast_valid :
    (ast : Ast)
    → ensure_valid_ast ast ≡ ok true
    → (text : String) × (stringify_where_ast ast ≡ ok text)
unfolding stringify_where_ast ensure_valid_ast
stringify_where_ast_valid (constant v) h = cc
stringify_where_ast_valid (feature f) h = stringify_clause_valid (feature f) h
stringify_where_ast_valid ast h = stringify_clause_valid ast h

stringify_where_ast-accepts :
    (ast : Ast) {text : String}
    → stringify_where_ast ast ≡ ok text
    → (t : TruthTable) × (reduce_truth_table ast ≡ ok t)
unfolding stringify_where_ast stringify_clause reduce_truth_table
stringify_where_ast-accepts (constant (boolean true)) h = (_, refl)
stringify_where_ast-accepts (constant v) h = cc
stringify_where_ast-accepts ast h =
    let (b, valid, _) = bind-eq-ok (ensure_valid_ast ast) _ h in
    let valid' = valid ∙ ap ok (ensure_valid_ast-true ast b valid) in
    let (t, _, reduced, _, _, _, _) = reduce_truth_table-holds ast valid' in (t, reduced)

-- `stringifyWhereAst` prints a clause exactly when `reduceTruthTable` reduces it.
pub stringify_where_ast_iff :
    (ast : Ast)
    → ((t : TruthTable) × (reduce_truth_table ast ≡ ok t))
      ↔ ((text : String) × (stringify_where_ast ast ≡ ok text))
unfolding stringify_where_ast
stringify_where_ast_iff ast = (
  λ (t, h). elim (reduce_truth_table-accepts ast h) [
    | inl (e, _) ↦ ("true", rw e)
    | inr valid ↦ stringify_where_ast_valid ast valid
  ],
  λ (text, h). stringify_where_ast-accepts ast h,
)

-- A feature compared with a text.
abbrev pub comparison : String → String → String → Ast
comparison f op s = binary_expr (feature f) op (constant (string s))

not-fixed : (b : Bool) → b ≡ not b → ⊥
not-fixed true e = cc
not-fixed false e = cc

comparison-negated :
    (f s : String) (env : String → Bool)
    → holds env (comparison f "!=" s) ≡ not (holds env (comparison f "=" s))
unfolding holds
comparison-negated f s env = refl

-- The two comparisons of a feature with a text are both printed, and alike: as the name of the test for
-- equality. Yet they are reduced to different tables, since one holds exactly when the other does not.
pub stringify_where_ast-not_equal :
    (f s : String)
    → (stringify_where_ast (comparison f "=" s) ≡ ok (f ⧺ "=" ⧺ json_string s))
      × (stringify_where_ast (comparison f "!=" s) ≡ ok (f ⧺ "=" ⧺ json_string s))
      × ((t u : TruthTable) × (reduce_truth_table (comparison f "=" s) ≡ ok t)
          × (reduce_truth_table (comparison f "!=" s) ≡ ok u)
          × (t ≢ u))
      × ((env : String → Bool)
          → holds env (comparison f "!=" s) ≡ not (holds env (comparison f "=" s)))
unfolding stringify_where_ast stringify_clause stringify_valid_ast ensure_valid_ast
    binary_feature_name
stringify_where_ast-not_equal f s =
    let (t, _, is_t, _, _, _, _) = reduce_truth_table-holds (comparison f "=" s) refl in
    let (u, _, is_u, _, _, _, _) = reduce_truth_table-holds (comparison f "!=" s) refl in
    let one_table : t ≡ u → ⊥ = λ same.
      let is_t' : reduce_truth_table (comparison f "!=" s) ≡ ok t = rw same is_u in
      let alike =
        reduce_truth_table-injective (comparison f "=" s) (comparison f "!=" s) t is_t is_t'
          (λ _. true) in
      not-fixed (holds (λ _. true) (comparison f "=" s))
        (alike ∙ comparison-negated f s (λ _. true)) in
    (refl, refl, (t, u, is_t, is_u, one_table), comparison-negated f s)
