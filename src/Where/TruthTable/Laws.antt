-- ===== src/Where/TruthTable/Laws.antt =====
-- `reduceTruthTable`: the table holds the meaning of the clause, row by row.
use sqrl.Prelude.{
  ℕ, zero, suc, ◌<◌, ◌^◌, String, Bool, true, false, List, [], ◌∷◌, ◌++◌, length, get_elem?, some,
  contains, lookup, insert, lookup-insert, ◌≡◌, refl, sym, ap, ◌∙◌, arith, ◌⊎◌, ok, bind-eq-ok, inl,
  inr,
}
use native.Mathlib.Nat.{two-pow-succ}
use mathlib.Core.List.{append_assoc}
use sqrl.Value.{boolean, is_js_truthy}
use sqrl.Ast.{Ast, feature, constant}
use sqrl.Where.Text.{sort, contains-sort}
use sqrl.Where.TruthTable.{
  Row, TruthTable, ensure_valid_ast, extract_features, feature_combinations, add_bit,
  build_truth_table, reduce_clause, reduce_truth_table, nonempty_table,
}
use sqrl.Where.TruthTable.Rows.{
  holds, rows, update, overlay, overlay_lem, row_index, get_elem?-rows, length-rows,
}
use sqrl.Where.TruthTable.Calculate.{
  ensure_valid_ast-true, extract_features_total, calculate-holds, holds_of_names,
}

module _ (ast : Ast) (names : List String) (valid : ensure_valid_ast ast ≡ ok true)
    (extracted : extract_features ast ≡ ok names) where
  -- The row agrees with the assignment on the names that are not still to be set.
  abbrev Agrees : List String → Row → (String → Bool) → Type 0
  Agrees fs values env =
      (k : String)
      → contains names k ≡ true
      → contains fs k ≡ false
      → lookup k values ≡ some (env k)

  Agrees-insert :
      (f : String) (fs : List String) (values : Row) (env : String → Bool) (b : Bool)
      → Agrees (f ∷ fs) values env
      → Agrees fs (insert f b values) (update env f b)
  unfolding contains
  Agrees-insert f fs values env b h k used unset =
      rw (lookup-insert f k b values) (ground (arith, h k))

  Agrees-update :
      (f : String) (fs : List String) (values : Row) (env : String → Bool) (b : Bool)
      → Agrees fs values (update env f b)
      → Agrees (f ∷ fs) values env
  unfolding contains
  Agrees-update f fs values env b h k used unset = ground (arith, h k)

  -- Running through all assignments of `fs` adds the rows of `fs` to the table.
  feature_combinations-rows :
      (fs : List String) (values : Row) (env : String → Bool) (table : List Bool)
      → Agrees fs values env
      → (values' : Row) × (feature_combinations (add_bit ast) fs values table
          ≡ ok (values', table ++ rows (λ e. holds e ast) fs env))
        × Agrees fs values' env
  unfolding feature_combinations rows contains
  feature_combinations-rows [] values env table h = (
    values,
    rw (calculate-holds ast names values env valid extracted (λ k used. h k used refl)),
    h,
  )
  feature_combinations-rows (f ∷ fs) values env table h =
      let (values1, first, after1) =
        feature_combinations-rows fs (insert f false values) (update env f false) table
          (Agrees-insert f fs values env false h) in
      let (values2, second, after2) =
        feature_combinations-rows fs (insert f true values1) (update env f true)
          (table ++ rows (λ e. holds e ast) fs (update env f false))
          (Agrees-insert f fs values1 env true (Agrees-update f fs values1 env false after1)) in
      (values2, rw (first, second) (rw append_assoc), Agrees-update f fs values2 env true after2)

  -- The whole table, from the empty object.
  build_truth_table-rows :
      (features : List String) (env : String → Bool)
      → ((k : String) → contains names k ≡ true → contains features k ≡ true)
      → build_truth_table ast features ≡ ok (rows (λ e. holds e ast) features env)
  unfolding build_truth_table
  build_truth_table-rows features env all =
      let (values, run, _) =
        feature_combinations-rows features [] env [] (λ k used unset. cc (all k used)) in
      rw run

  -- The row that an assignment selects holds the clause's meaning, whatever the base.
  rows-holds :
      (env base : String → Bool)
      → get_elem? (rows (λ e. holds e ast) (sort names) base) (row_index (sort names) env)
        ≡ some (holds env ast)
  rows-holds env base =
      get_elem?-rows (λ e. holds e ast) (sort names) env base
      ∙ ap some (
          holds_of_names ast names (overlay (sort names) env base) env extracted
            (λ k used. overlay_lem (sort names) env base k ∙ rw (contains-sort names k, used)))

nonempty_table_of :
    (features : List String) (table : List Bool)
    → 0 < length table
    → nonempty_table features table ≡ ok (record { features = features; truth_table = table })
nonempty_table_of features [] h = absurd (omega arith)
nonempty_table_of features (b ∷ bs) h = refl

one_le_pow : (n : ℕ) → 0 < 2 ^ n
one_le_pow zero = omega arith
one_le_pow (suc n) = omega (arith, one_le_pow n, two-pow-succ n)

reduce-reduce_clause :
    (ast : Ast) → ensure_valid_ast ast ≡ ok true → reduce_truth_table ast ≡ reduce_clause ast
unfolding reduce_truth_table ensure_valid_ast
reduce-reduce_clause (constant v) h = cc
reduce-reduce_clause (feature f) h = refl
reduce-reduce_clause _ h = refl

module _ (ast : Ast) (names : List String) (valid : ensure_valid_ast ast ≡ ok true)
    (extracted : extract_features ast ≡ ok names) where
  abbrev table_of : List Bool
  table_of = rows (λ e. holds e ast) (sort names) (λ _. false)

  length-table_of : length table_of ≡ 2 ^ length (sort names)
  length-table_of = length-rows (λ e. holds e ast) (sort names) (λ _. false)

  reduce_clause_ok :
      reduce_clause ast ≡ ok (record { features = sort names; truth_table = table_of })
  unfolding reduce_clause
  reduce_clause_ok =
      rw
        (
          valid,
          extracted,
          build_truth_table-rows ast names valid extracted (sort names) (λ _. false)
              (λ k used. contains-sort names k ∙ used),
        )
        (nonempty_table_of (sort names) table_of
          (rw length-table_of (one_le_pow (length (sort names)))))

-- A clause that `ensureValidAst` accepts is reduced: the features are the names of its tests, the
-- table has a bit for each assignment of truth values to them, and the bit at the row of any
-- assignment is the meaning of the clause under it.
pub reduce_truth_table-holds :
    (ast : Ast)
    → ensure_valid_ast ast ≡ ok true
    → (t : TruthTable) × (names : List String) × (reduce_truth_table ast ≡ ok t)
      × (extract_features ast ≡ ok names)
      × ((k : String) → contains t.features k ≡ contains names k)
      × (length t.truth_table ≡ 2 ^ length t.features)
      × ((env : String → Bool)
          → get_elem? t.truth_table (row_index t.features env) ≡ some (holds env ast))
reduce_truth_table-holds ast valid =
    let (names, extracted) = extract_features_total ast valid in
    (
      record { features = sort names; truth_table = table_of ast names valid extracted },
      names,
      reduce-reduce_clause ast valid ∙ reduce_clause_ok ast names valid extracted,
      extracted,
      contains-sort names,
      length-table_of ast names valid extracted,
      λ env. rows-holds ast names valid extracted env (λ _. false),
    )

-- What `reduceTruthTable` accepts: a constant true, or a clause that `ensureValidAst` accepts.
pub reduce_truth_table-accepts :
    (ast : Ast) {t : TruthTable}
    → reduce_truth_table ast ≡ ok t
    → ((ast ≡ constant (boolean true)) × (t.truth_table ≡ [])) ⊎ (ensure_valid_ast ast ≡ ok true)
unfolding reduce_truth_table reduce_clause
reduce_truth_table-accepts (constant (boolean true)) h = inl (refl, cc)
reduce_truth_table-accepts (constant v) h = cc
reduce_truth_table-accepts ast h =
    let (b, valid, _) = bind-eq-ok (ensure_valid_ast ast) _ h in
    inr (valid ∙ ap ok (ensure_valid_ast-true ast b valid))

-- A reduced clause can be read off its table, and a constant true has an empty table.
pub reduced_meaning :
    (ast : Ast) (t : TruthTable)
    → reduce_truth_table ast ≡ ok t
    → (env : String → Bool)
    → ((t.truth_table ≡ []) × (holds env ast ≡ true))
      ⊎ (get_elem? t.truth_table (row_index t.features env) ≡ some (holds env ast))
unfolding holds is_js_truthy
reduced_meaning ast t h env = elim (reduce_truth_table-accepts ast h) [
  | inl (e, empty) ↦ inl (empty, rw e refl)
  | inr valid ↦
      let (t', _, h', _, _, _, reads) = reduce_truth_table-holds ast valid in
      let same : t' ≡ t = cc in inr (rw (← same) (reads env))
]

-- Two clauses that are reduced to the same features and the same table have the same meaning, so
-- one slot named by them can stand for both.
pub reduce_truth_table-injective :
    (a b : Ast) (t : TruthTable)
    → reduce_truth_table a ≡ ok t
    → reduce_truth_table b ≡ ok t
    → (env : String → Bool) → holds env a ≡ holds env b
reduce_truth_table-injective a b t ha hb env = elim (reduced_meaning a t ha env) [
  | inl (empty, true_a) ↦ elim (reduced_meaning b t hb env) [
    | inl (_, true_b) ↦ true_a ∙ sym true_b
    | inr read_b ↦ cc (rw empty at read_b)
  ]
  | inr read_a ↦ elim (reduced_meaning b t hb env) [
    | inl (empty, _) ↦ cc (rw empty at read_a)
    | inr read_b ↦ cc
  ]
]
