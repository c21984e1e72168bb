-- ===== src/Where/Overlap/Clauses.antt =====
-- Why the sets that `astIntersects` extracts from the disjunction of all clauses serve each clause.
use sqrl.Prelude.{
  String, true, false, List, [], ◌∷◌, lookup, insert, lookup-insert, str_eq, ◌≡◌, refl, arith,
  eq_iff, Bool-cases, inl, inr, ok, ensure, bind-eq-ok, ◌>>=◌, All, reverse,
}
use mathlib.Core.Path.{subst}
use mathlib.Core.List.{reverse-reverse}
use sqrl.Value.{string, boolean}
use sqrl.Ast.{Ast, constant, feature, negation, boolean_expr, binary_expr}
use sqrl.Ast.Build.{is_constant_bool, join_or, or_loop, or_ast}
use sqrl.Ast.Build.Laws.{All-reverse}
use sqrl.Where.TruthTable.{is_one_of, ensure_valid_ast}
use sqrl.Where.Overlap.{
  ValueSet, booleans, texts, Sets, merge, merged_set, extract_sets, comparison_sets,
}
use sqrl.Where.Overlap.Sets.{Distinct, Included-trans, extract_parts}
use sqrl.Where.Overlap.Assignments.{Covered}

insert-Distinct :
    (f : String) (vs : ValueSet) (sets : Sets) → Distinct sets → Distinct (insert f vs sets)
unfolding insert lookup
insert-Distinct f vs [] d = (refl, tt)
insert-Distinct f vs ((g, old) ∷ sets) (apart, d) = elim (Bool-cases (str_eq g f)) [
  | inl same ↦ rw same (apart, d)
  | inr other ↦ rw other (
    rw (lookup-insert f g vs sets) (ground (arith, eq_iff f g, eq_iff g f)),
    insert-Distinct f vs sets d,
  )
]

merge-Distinct :
    (results sub out : Sets) → Distinct results → merge results sub ≡ ok out → Distinct out
unfolding merge
merge-Distinct results [] out d h = let e : results ≡ out = cc in rw (← e) d
merge-Distinct results ((f, values) ∷ sub) out d h =
    let (joined, _, h') =
      bind-eq-ok (merged_set (lookup f results) values) (λ j. merge (insert f j results) sub) h in
    merge-Distinct (insert f joined results) sub out (insert-Distinct f joined results d) h'

comparison_sets-Distinct : (l r : Ast) (sets : Sets) → comparison_sets l r ≡ ok sets → Distinct sets
unfolding lookup
comparison_sets-Distinct (feature f) (constant (string s)) sets h =
    let e : (f, texts (s ∷ [])) ∷ [] ≡ sets = cc in rw (← e) (refl, tt)
comparison_sets-Distinct (feature f) _ sets h = cc
comparison_sets-Distinct _ _ sets h = cc

pub extract_sets-Distinct : (ast : Ast) (sets : Sets) → extract_sets ast ≡ ok sets → Distinct sets
unfolding extract_sets lookup
extract_sets-Distinct (feature f) sets h =
    let e : (f, booleans) ∷ [] ≡ sets = cc in rw (← e) (refl, tt)
extract_sets-Distinct (negation e) sets h = extract_sets-Distinct e sets h
extract_sets-Distinct (boolean_expr l op r) sets h =
    let rest = λ (results : Sets). extract_sets r >>= λ b. merge results b in
    let both = extract_sets l >>= λ a. merge [] a >>= rest in
    let (_, _, h1) = bind-eq-ok (ensure (is_one_of op "and" "or") _) (λ _. both) h in
    let (a, _, h2) = bind-eq-ok (extract_sets l) (λ a. merge [] a >>= rest) h1 in
    let (results, first, h3) = bind-eq-ok (merge [] a) rest h2 in
    let (b, _, second) = bind-eq-ok (extract_sets r) (λ b. merge results b) h3 in
    merge-Distinct results b sets (merge-Distinct [] a results tt first) second
extract_sets-Distinct (binary_expr l op r) sets h =
    let (_, _, h1) = bind-eq-ok (ensure (is_one_of op "=" "!=") _) (λ _. comparison_sets l r) h in
    comparison_sets-Distinct l r sets h1
extract_sets-Distinct _ sets h = cc

-- The sets of the whole serve a clause that is a part of it.
Covered-join_or :
    (ast r : Ast) (sets : Sets)
    → Covered sets (join_or ast r)
    → Covered sets ast × (is_constant_bool false r ≡ false → Covered sets r)
Covered-join_or ast r sets covered = elim (Bool-cases (is_constant_bool false r)) [
  | inl t ↦ (rw t at covered, λ n. cc)
  | inr t ↦
      let (own, extracted, included) : Covered sets (boolean_expr ast "or" r) = rw t at covered in
      let (_, a, b, left, right, in_a, in_b) = extract_parts ast r "or" own extracted in
      (
        (a, left, Included-trans a own sets in_a included),
        λ n. (b, right, Included-trans b own sets in_b included),
      )
]

not_constant : (ast : Ast) → ensure_valid_ast ast ≡ ok true → is_constant_bool false ast ≡ false
unfolding ensure_valid_ast
not_constant (constant v) h = cc
not_constant _ h = refl

valid_not_constant :
    (ast r : Ast) → ensure_valid_ast ast ≡ ok true → is_constant_bool false (join_or ast r) ≡ false
valid_not_constant ast r h = elim (Bool-cases (is_constant_bool false r)) [
  | inl t ↦ rw t (not_constant ast h)
  | inr t ↦ rw t refl
]

abbrev pub IsValid : Ast → Type 0
IsValid ast = ensure_valid_ast ast ≡ ok true

or_loop-Covered :
    (asts : List Ast) (r : Ast) (sets : Sets)
    → All IsValid asts
    → extract_sets (or_loop asts r) ≡ ok sets
    → All (Covered sets) asts × (is_constant_bool false r ≡ false → Covered sets r)
unfolding or_loop ensure_valid_ast
or_loop-Covered [] r sets valid h = (tt, λ _. (sets, h, λ f vs e. (vs, e, refl)))
or_loop-Covered (constant v ∷ asts) r sets (valid, _) h = cc
or_loop-Covered (ast ∷ asts) r sets (valid, more) h =
    let (rest, joined) = or_loop-Covered asts (join_or ast r) sets more h in
    let (here, before) = Covered-join_or ast r sets (joined (valid_not_constant ast r valid)) in
    ((here, rest), before)

All-unreverse : (P : Ast → Type 0) (asts : List Ast) → All P (reverse asts) → All P asts
All-unreverse P asts h = subst (All P) (reverse-reverse asts) (All-reverse P (reverse asts) h)

pub or_ast-Covered :
    (asts : List Ast) (joined : Ast) (sets : Sets)
    → All IsValid asts
    → or_ast asts ≡ ok joined
    → extract_sets joined ≡ ok sets
    → All (Covered sets) asts
unfolding or_ast
or_ast-Covered [] joined sets valid e h = tt
or_ast-Covered (ast ∷ asts) joined sets valid e h =
    let same : or_loop (reverse (ast ∷ asts)) (constant (boolean false)) ≡ joined = cc in
    let (covered, _) =
      or_loop-Covered (reverse (ast ∷ asts)) (constant (boolean false)) sets
        (All-reverse IsValid (ast ∷ asts) valid) (rw same h) in
    All-unreverse (Covered sets) (ast ∷ asts) covered
