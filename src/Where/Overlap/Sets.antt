-- ===== src/Where/Overlap/Sets.antt =====
-- `extractFeatureValueSets` of packages/sqrl/src/ast/astIntersects.ts: the sets of a clause's parts
-- are among the sets of the clause.
use sqrl.Prelude.{
  String, Bool, true, false, [], ◌∷◌, Option, none, some, lookup, insert, lookup-insert, add_all,
  str_eq, ◌≡◌, refl, ◌∙◌, eq_iff, Bool-cases, inl, inr, ok, ensure, bind-eq-ok, ◌>>=◌, Error,
}
use sqrl.Ast.{Ast, boolean_expr}
use sqrl.Where.TruthTable.{is_one_of}
use sqrl.Where.Overlap.{ValueSet, booleans, texts, Sets, merge, merged_set, extract_sets}

-- No key has two sets.
abbrev pub Distinct : Sets → Type 0
Distinct [] = Unit
Distinct ((f, vs) ∷ sets) = (lookup f sets ≡ none) × Distinct sets

abbrev pub is_booleans : ValueSet → Bool
is_booleans booleans = true
is_booleans (texts ss) = false

-- The sets of a part are sets of the whole, of the same kinds.
abbrev pub Included : Sets → Sets → Type 0
Included sub sets =
    (f : String) (vs : ValueSet)
    → lookup f sub ≡ some vs
    → (ws : ValueSet) × (lookup f sets ≡ some ws) × (is_booleans ws ≡ is_booleans vs)

pub Included-trans : (a b c : Sets) → Included a b → Included b c → Included a c
Included-trans a b c h k f vs e =
    let (ws, found, same) = h f vs e in
    let (us, found', same') = k f ws found in (us, found', same' ∙ same)

merged_kind :
    (old : Option ValueSet) (values joined : ValueSet)
    → merged_set old values ≡ ok joined
    → (is_booleans joined ≡ is_booleans values)
      × ((o : ValueSet) → old ≡ some o → is_booleans joined ≡ is_booleans o)
merged_kind none values joined h = (cc, λ o e. cc)
merged_kind (some booleans) booleans joined h = (cc, λ o e. cc)
merged_kind (some (texts xs)) (texts ys) joined h =
    let e : texts (add_all ys xs) ≡ joined = cc in
    (rw (← e) refl, λ o k. let k' : texts xs ≡ o = cc in rw (← e, ← k') refl)
merged_kind (some booleans) (texts ys) joined h = cc
merged_kind (some (texts xs)) booleans joined h = cc

merge-Included :
    (results sub out : Sets) → merge results sub ≡ ok out → Included results out × Included sub out
unfolding merge lookup
merge-Included results [] out h =
    let e : results ≡ out = cc in (λ f vs k. (vs, rw e at k, refl), λ f vs k. cc)
merge-Included results ((f, values) ∷ sub) out h =
    let (joined, joins, h') =
      bind-eq-ok (merged_set (lookup f results) values) (λ j. merge (insert f j results) sub) h in
    let (old, new) = merge-Included (insert f joined results) sub out h' in
    let (kind, kind_old) = merged_kind (lookup f results) values joined joins in
    (
      λ k vs e. elim (Bool-cases (str_eq f k)) [
        | inl same ↦
            let e' : f ≡ k = (eq_iff f k).0 same in
            let (ws, found, kinds) =
              old f joined (rw (lookup-insert f f joined results, (eq_iff f f).1 refl) refl) in
            (ws, rw (← e') found, kinds ∙ kind_old vs (rw e' e))
        | inr other ↦ old k vs (rw (lookup-insert f k joined results, other) e)
      ],
      λ k vs e. elim (Bool-cases (str_eq f k)) [
        | inl same ↦
            let e' : f ≡ k = (eq_iff f k).0 same in
            let (ws, found, kinds) =
              old f joined (rw (lookup-insert f f joined results, (eq_iff f f).1 refl) refl) in
            let v : values ≡ vs = cc (rw same at e) in (ws, rw (← e') found, kinds ∙ rw (← v) kind)
        | inr other ↦ new k vs (rw other at e)
      ],
    )

pub ensured : (c : Bool) (problem : Error) {u : Unit {0}} → ensure c problem ≡ ok u → c ≡ true
ensured true problem h = refl
ensured false problem h = cc

-- The parts of a boolean expression have sets, which the whole includes.
pub extract_parts :
    (l r : Ast) (op : String) (sets : Sets)
    → extract_sets (boolean_expr l op r) ≡ ok sets
    → (is_one_of op "and" "or" ≡ true)
      × (a : Sets) × (b : Sets) × (extract_sets l ≡ ok a)
      × (extract_sets r ≡ ok b)
      × Included a sets
      × Included b sets
unfolding extract_sets
extract_parts l r op sets h =
    let rest = λ (results : Sets). extract_sets r >>= λ b. merge results b in
    let both = extract_sets l >>= λ a. merge [] a >>= rest in
    let (_, checked, h1) = bind-eq-ok (ensure (is_one_of op "and" "or") _) (λ _. both) h in
    let (a, left, h2) = bind-eq-ok (extract_sets l) (λ a. merge [] a >>= rest) h1 in
    let (results, first, h3) = bind-eq-ok (merge [] a) rest h2 in
    let (b, right, second) = bind-eq-ok (extract_sets r) (λ b. merge results b) h3 in
    let (_, in_results) = merge-Included [] a results first in
    let (kept, added) = merge-Included results b sets second in
    (
      ensured (is_one_of op "and" "or") _ checked,
      a,
      b,
      left,
      right,
      Included-trans a results sets in_results kept,
      added,
    )
