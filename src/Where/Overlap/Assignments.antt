-- ===== src/Where/Overlap/Assignments.antt =====
-- `setCombinations` of packages/sqrl/src/ast/astIntersects.ts: the search over all assignments of
-- the values that are tried.
use sqrl.Prelude.{
  String, Bool, true, false, List, [], ◌∷◌, ◌||◌, none, some, if◌then◌else◌, lookup, insert,
  lookup-insert, str_eq, ◌≡◌, refl, ap, ◌∙◌, arith, eq_iff, Bool-cases, inl, inr, ok, Result, All,
  any, filter, length, ltb,
}
use sqrl.Ast.{Ast}
use sqrl.Where.Overlap.{
  Datum, ValueSet, booleans, texts, Sets, Row, extract_sets, data_of, choices, each_value,
  set_combinations, count_true, note_overlap,
}
use sqrl.Where.Overlap.Sets.{is_booleans, Included, Distinct}
use sqrl.Where.Overlap.Calculate.{
  Env, is_truth, holds_at, Ready, Ready-Included, calculate-holds_at,
}

abbrev pub set_datum : Env → String → Datum → Env
set_datum env f d k = if str_eq f k then d else env k

-- Whether more than one clause holds.
unfoldable pub overlaps : List Ast → Env → Bool
overlaps asts env = ltb 1 (length (filter (holds_at env) asts))

-- Whether some choice of a value for each key of the sets reaches a goal.
unfoldable pub some_assignment : (Env → Bool) → Sets → Env → Bool
some_assignment goal [] env = goal env
some_assignment goal ((key, set) ∷ sets) env =
    any (λ d. some_assignment goal sets (set_datum env key d)) (choices set)

-- The sets of a clause are among those that are searched.
abbrev pub Covered : Sets → Ast → Type 0
Covered sets ast = (own : Sets) × (extract_sets ast ≡ ok own) × Included own sets

count_true-filter :
    (asts : List Ast) (sets : Sets) (values : Row) (env : Env)
    → All (Covered sets) asts
    → Ready sets values env
    → count_true asts values ≡ ok (filter (holds_at env) asts)
unfolding count_true
count_true-filter [] sets values env covered ready = refl
count_true-filter (ast ∷ asts) sets values env ((own, extracted, included), covered) ready =
    rw
      (
        calculate-holds_at ast own values env extracted
            (Ready-Included own sets values env included ready),
        count_true-filter asts sets values env covered ready,
      )
      refl

note_overlap-overlaps :
    (asts : List Ast) (sets : Sets) (values : Row) (env : Env) (b : Bool)
    → All (Covered sets) asts
    → Ready sets values env
    → note_overlap asts values b ≡ ok (b || overlaps asts env)
unfolding overlaps
note_overlap-overlaps asts sets values env true covered ready = refl
note_overlap-overlaps asts sets values env false covered ready =
    rw (count_true-filter asts sets values env covered ready) refl

data_kind : (ss : List String) → All (λ d. is_truth d ≡ false) (data_of ss)
data_kind [] = tt
data_kind (s ∷ ss) = (refl, data_kind ss)

choices_kind : (set : ValueSet) → All (λ d. is_truth d ≡ is_booleans set) (choices set)
choices_kind booleans = (refl, (refl, tt))
choices_kind (texts ss) = data_kind ss

module _ (asts : List Ast) (all : Sets) (covered : All (Covered all) asts) where
  -- The keys that are not still to be set have the environment's values.
  abbrev Known : Sets → Row → Env → Type 0
  Known todo values env =
      (f : String) (vs : ValueSet)
      → lookup f all ≡ some vs
      → lookup f todo ≡ none
      → (lookup f values ≡ some (env f)) × (is_truth (env f) ≡ is_booleans vs)

  abbrev Fits : Sets → Type 0
  Fits todo = (f : String) (vs : ValueSet) → lookup f todo ≡ some vs → lookup f all ≡ some vs

  module _ (key : String) (set : ValueSet) (todo : Sets) (found : lookup key all ≡ some set) where
    Known-insert :
        (values : Row) (env : Env) (d : Datum)
        → is_truth d ≡ is_booleans set
        → Known ((key, set) ∷ todo) values env
        → Known todo (insert key d values) (set_datum env key d)
    unfolding lookup
    Known-insert values env d kind known f vs e unset = elim (Bool-cases (str_eq key f)) [
      | inl same ↦
          let e' : key ≡ f = (eq_iff key f).0 same in
          let v : set ≡ vs = cc (rw e' at found) in
          (rw (lookup-insert key f d values, same) refl, rw same (kind ∙ ap is_booleans v))
      | inr other ↦
          let (old, old_kind) = known f vs e (rw other unset) in
          (rw (lookup-insert key f d values, other) old, rw other old_kind)
    ]

    Known-update :
        (values : Row) (env : Env) (d : Datum)
        → Known todo values (set_datum env key d)
        → Known ((key, set) ∷ todo) values env
    unfolding lookup
    Known-update values env d known f vs e unset = elim (Bool-cases (str_eq key f)) [
      | inl same ↦ cc (rw same at unset)
      | inr other ↦
          let (old, old_kind) = known f vs e (rw other at unset) in
          (rw other at old, rw other at old_kind)
    ]

    -- The loop over the values of one key, where the loop inside finds what `goal` says.
    module _ (inner : Row → Bool → Result (Row × Bool)) (goal : Env → Bool)
        (search : (values : Row) (env : Env) (b : Bool)
          → Known todo values env
          → (values' : Row) × (inner values b ≡ ok (values', b || goal env))
            × Known todo values' env) where
      each_value-any :
          (ds : List Datum) (values : Row) (env : Env) (b : Bool)
          → All (λ d. is_truth d ≡ is_booleans set) ds
          → Known ((key, set) ∷ todo) values env
          → (values' : Row) × (each_value inner key ds values b
              ≡ ok (values', b || any (λ d. goal (set_datum env key d)) ds))
            × Known ((key, set) ∷ todo) values' env
      unfolding each_value
      each_value-any [] values env b kinds known = (values, ground arith, known)
      each_value-any (d ∷ ds) values env b (kind, kinds) known =
          let (values1, first, known1) =
            search (insert key d values) (set_datum env key d) b
              (Known-insert values env d kind known) in
          let (values2, second, known2) =
            each_value-any ds values1 env (b || goal (set_datum env key d)) kinds
              (Known-update values1 env d known1) in
          (values2, rw (first, second) (ground arith), known2)

  Fits-rest :
      (key : String) (set : ValueSet) (todo : Sets)
      → Fits ((key, set) ∷ todo)
      → Distinct ((key, set) ∷ todo)
      → (lookup key all ≡ some set) × Fits todo
  unfolding lookup
  Fits-rest key set todo fits (apart, _) = (
    fits key set (rw ((eq_iff key key).1 refl) refl),
    λ f vs e. elim (Bool-cases (str_eq key f)) [
      | inl same ↦ cc ((eq_iff key f).0 same)
      | inr other ↦ fits f vs (rw other e)
    ],
  )

  -- The whole search.
  pub set_combinations-some_assignment :
      (todo : Sets) (values : Row) (env : Env) (b : Bool)
      → Fits todo
      → Distinct todo
      → Known todo values env
      → (values' : Row) × (set_combinations (note_overlap asts) todo values b
          ≡ ok (values', b || some_assignment (overlaps asts) todo env))
        × Known todo values' env
  unfolding set_combinations some_assignment lookup
  set_combinations-some_assignment [] values env b fits distinct known = (
    values,
    rw (note_overlap-overlaps asts all values env b covered (λ f vs e. known f vs e refl)) refl,
    known,
  )
  set_combinations-some_assignment ((key, set) ∷ todo) values env b fits distinct known =
      let (found, fits') = Fits-rest key set todo fits distinct in
      each_value-any key set todo found (λ v a. set_combinations (note_overlap asts) todo v a)
        (some_assignment (overlaps asts) todo)
        (λ v e a k. set_combinations-some_assignment todo v e a fits' distinct.1 k) (choices set)
        values env b (choices_kind set) known
