-- ===== src/Where/Overlap/Laws.antt =====
-- The answer of `astIntersects` (packages/sqrl/src/ast/astIntersects.ts) and the values that it tries.
use sqrl.Prelude.{
  String, Bool, true, false, List, [], ◌∷◌, none, lookup, str_eq, contains, ◌≡◌, refl, sym, ◌∙◌,
  arith, eq_iff, Bool-cases, inl, inr, ok, All, any, length, ltb,
}
use mathlib.Core.Path.{fun_ext}
use sqrl.Ast.{Ast, constant, switch}
use sqrl.Ast.Build.{or_ast, is_constant_true}
use sqrl.Where.TruthTable.{ensure_valid_ast}
use sqrl.Where.Overlap.{
  Datum, truth, text, ValueSet, booleans, texts, Sets, extract_sets, data_of, choices,
  search_overlap, ast_intersects,
}
use sqrl.Where.Overlap.Sets.{Distinct}
use sqrl.Where.Overlap.Calculate.{Env}
use sqrl.Where.Overlap.Assignments.{
  set_datum, overlaps, some_assignment, set_combinations-some_assignment,
}
use sqrl.Where.Overlap.Clauses.{IsValid, extract_sets-Distinct, or_ast-Covered}

-- Whether a value is one of those that are tried for a feature.
unfoldable pub is_tried : Datum → ValueSet → Bool
is_tried (truth b) booleans = true
is_tried (text s) (texts ss) = contains ss s
is_tried _ _ = false

-- An environment that gives each feature a value that is tried for it.
abbrev pub IsTried : Env → Sets → Type 0
IsTried env [] = Unit
IsTried env ((f, vs) ∷ sets) = (is_tried (env f) vs ≡ true) × IsTried env sets

any-data_of :
    (p : Datum → Bool) (s : String) (ss : List String)
    → contains ss s ≡ true
    → p (text s) ≡ true
    → any p (data_of ss) ≡ true
unfolding contains
any-data_of p s [] h e = cc
any-data_of p s (t ∷ ss) h e = elim (Bool-cases (str_eq t s)) [
  | inl same ↦ let k : t ≡ s = (eq_iff t s).0 same in rw (k, e) (ground arith)
  | inr other ↦ rw (any-data_of p s ss (rw other at h) e) (ground arith)
]

any-choices :
    (p : Datum → Bool) (d : Datum) (set : ValueSet)
    → is_tried d set ≡ true
    → p d ≡ true
    → any p (choices set) ≡ true
unfolding is_tried
any-choices p (truth true) booleans h e = rw e (ground arith)
any-choices p (truth false) booleans h e = rw e refl
any-choices p (text s) (texts ss) h e = any-data_of p s ss h e
any-choices p (truth b) (texts ss) h e = cc
any-choices p (text s) booleans h e = cc

data_of-any :
    (p : Datum → Bool) (ss : List String)
    → any p (data_of ss) ≡ true
    → (s : String) × (contains ss s ≡ true) × (p (text s) ≡ true)
unfolding contains
data_of-any p [] h = cc
data_of-any p (t ∷ ss) h = elim (Bool-cases (p (text t))) [
  | inl holds ↦ (t, rw ((eq_iff t t).1 refl) refl, holds)
  | inr fails ↦
      let (s, found, holds) = data_of-any p ss (rw fails at h) in
      (s, rw found (ground arith), holds)
]

choices-any :
    (p : Datum → Bool) (set : ValueSet)
    → any p (choices set) ≡ true
    → (d : Datum) × (is_tried d set ≡ true) × (p d ≡ true)
unfolding is_tried
choices-any p booleans h = elim (Bool-cases (p (truth false))) [
  | inl holds ↦ (truth false, refl, holds)
  | inr fails ↦ (truth true, refl, ground arith)
]
choices-any p (texts ss) h = let (s, found, holds) = data_of-any p ss h in (text s, found, holds)

set_datum_same : (env : Env) (f : String) → set_datum env f (env f) ≡ env
set_datum_same env f = fun_ext (λ k. elim (Bool-cases (str_eq f k)) [
  | inl same ↦ let e : f ≡ k = (eq_iff f k).0 same in rw (same, e) refl
  | inr other ↦ rw other refl
])

-- An environment of tried values that reaches the goal is found.
some_assignment-found :
    (goal : Env → Bool) (sets : Sets) (env : Env)
    → IsTried env sets
    → goal env ≡ true
    → some_assignment goal sets env ≡ true
unfolding some_assignment
some_assignment-found goal [] env tried h = h
some_assignment-found goal ((f, vs) ∷ sets) env (tried, more) h =
    any-choices (λ d. some_assignment goal sets (set_datum env f d)) (env f) vs tried
      (rw (set_datum_same env f) (some_assignment-found goal sets env more h))

-- What is found is an environment of tried values that reaches the goal.
found-some_assignment :
    (goal : Env → Bool) (sets : Sets) (base : Env)
    → Distinct sets
    → some_assignment goal sets base ≡ true
    → (env : Env) × IsTried env sets
      × (goal env ≡ true)
      × ((f : String) → lookup f sets ≡ none → env f ≡ base f)
unfolding some_assignment lookup
found-some_assignment goal [] base d h = (base, tt, h, λ f _. refl)
found-some_assignment goal ((f, vs) ∷ sets) base (apart, d) h =
    let (v, tried, found) =
      choices-any (λ v. some_assignment goal sets (set_datum base f v)) vs h in
    let (env, more, reached, kept) = found-some_assignment goal sets (set_datum base f v) d found in
    let here : env f ≡ v = kept f apart ∙ rw ((eq_iff f f).1 refl) refl in
    (
      env,
      (rw here tried, more),
      reached,
      λ k unset. elim (Bool-cases (str_eq f k)) [
        | inl same ↦ cc (rw same at unset)
        | inr other ↦ kept k (rw other at unset) ∙ rw other refl
      ],
    )

valid-is_constant_true : (ast : Ast) → IsValid ast → is_constant_true ast ≡ false
unfolding ensure_valid_ast is_constant_true
valid-is_constant_true (constant v) valid = cc
valid-is_constant_true (switch cases default_case) valid = cc
valid-is_constant_true _ valid = refl

valid_not_true : (asts : List Ast) → All IsValid asts → any is_constant_true asts ≡ false
valid_not_true [] valid = refl
valid_not_true (ast ∷ asts) (valid, more) =
    rw (valid-is_constant_true ast valid) (valid_not_true asts more)

module _ (asts : List Ast) (joined : Ast) (sets : Sets) (valid : All IsValid asts)
    (disjunction : or_ast asts ≡ ok joined) (extracted : extract_sets joined ≡ ok sets) where
  search_overlap-some_assignment :
      (base : Env) → search_overlap asts ≡ ok (some_assignment (overlaps asts) sets base)
  unfolding search_overlap lookup
  search_overlap-some_assignment base =
      let (values, run, _) =
        set_combinations-some_assignment asts sets
          (or_ast-Covered asts joined sets valid disjunction extracted) sets [] base false
          (λ f vs e. e) (extract_sets-Distinct joined sets extracted) (λ f vs e n. cc) in
      rw (disjunction, extracted, run) refl

-- For two or more clauses that `ensureValidAst` accepts, where the sets of their disjunction can be
-- extracted: `astIntersects` returns, its answer is true only if some values that it tries make
-- more than one clause hold, and true whenever there are such values.
pub ast_intersects-overlaps :
    (asts : List Ast) (joined : Ast) (sets : Sets)
    → ltb 1 (length asts) ≡ true
    → All IsValid asts
    → or_ast asts ≡ ok joined
    → extract_sets joined ≡ ok sets
    → (answer : Bool) × (ast_intersects asts ≡ ok answer)
      × (answer ≡ true → (env : Env) × IsTried env sets × (overlaps asts env ≡ true))
      × ((env : Env) → IsTried env sets → overlaps asts env ≡ true → answer ≡ true)
unfolding ast_intersects
ast_intersects-overlaps asts joined sets many valid disjunction extracted =
    let base : Env = λ _. truth false in
    let answer = some_assignment (overlaps asts) sets base in
    let run = search_overlap-some_assignment asts joined sets valid disjunction extracted in
    (
      answer,
      rw (many, valid_not_true asts valid) (run base),
      λ yes.
          let (env, tried, reached, _) =
            found-some_assignment (overlaps asts) sets base
              (extract_sets-Distinct joined sets extracted) yes in
          (env, tried, reached),
      λ env tried reached.
          let found = some_assignment-found (overlaps asts) sets env tried reached in
          let same : ok answer ≡ ok (some_assignment (overlaps asts) sets env) =
            sym (run base) ∙ run env in
          cc,
    )
