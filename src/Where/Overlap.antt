-- ===== src/Where/Overlap.antt =====
-- packages/sqrl/src/ast/astIntersects.ts: do two of the where clauses of a feature hold together for
-- some values of the features that they name?
pub mod Sets
pub mod Calculate
pub mod Assignments
pub mod Clauses
pub mod Laws
pub mod Gap
pub mod Tests
use sqrl.Prelude.{
  String, Bool, true, false, not, List, [], ◌∷◌, ◌||◌, Option, none, some, if◌then◌else◌, lookup,
  insert, add_all, str_eq, ltb, length, any, Result, ok, err, invalid, failed, ◌>>=◌, ◌>>◌, ensure,
}
use sqrl.Value.{Value, string}
use sqrl.Ast.{Ast, constant, feature, negation, boolean_expr, binary_expr}
use sqrl.Ast.Build.{or_ast, is_constant_true}
use sqrl.Where.TruthTable.{is_one_of}

-- The value of a feature: a Boolean, or a text.
pub data Datum : Type 0 where
  truth : Bool → Datum
  text : String → Datum

-- The values tried for a feature: `booleanSet`, or the texts that it is compared with.
pub data ValueSet : Type 0 where
  booleans : ValueSet
  texts : List String → ValueSet

abbrev pub Sets : Type 0
Sets = List (String × ValueSet)

abbrev pub Row : Type 0
Row = List (String × Datum)

abbrev pub compare_constant : String → Value → Bool
compare_constant s (string t) = str_eq s t
compare_constant s _ = false

abbrev pub read_truth : Row → String → Result Bool
read_truth values f = elim (lookup f values) [
  | some (truth b) ↦ ok b
  | _ ↦ err (failed "Expected feature to be set")
]

abbrev pub read_text : Row → String → Value → Result Bool
read_text values f v = elim (lookup f values) [
  | some (text s) ↦ ok (compare_constant s v)
  | _ ↦ err (failed "Expected non-boolean value")
]

abbrev pub compare_sides : Ast → Ast → Row → Result Bool
compare_sides (feature f) (constant v) values = read_text values f v
compare_sides (feature f) _ values = err (failed "Expected constant on right hand side")
compare_sides _ _ values = err (failed "Expected feature on left hand side")

-- `calculate`.
unfoldable pub calculate : Ast → Row → Result Bool
calculate (feature f) values = read_truth values f
calculate (negation e) values = do b ← calculate e values; ok (not b)
calculate (boolean_expr l op r) values =
    let right = calculate r values in
    if str_eq op "and"
    then (calculate l values >>= λ b. if b then right else ok false)
    else if str_eq op "or"
    then (calculate l values >>= λ b. if b then ok true else right)
    else err (failed "Unknown ast operator during calculate step")
calculate (binary_expr l op r) values = do
  b ← compare_sides l r values
  if str_eq op "="
      then ok b
      else if str_eq op "!="
      then ok (not b)
      else err (failed "Unknown binary_expr operator")
calculate _ values = err (failed "Unexpected ast type during truth table calculate step")

abbrev pub mixed_use : Result ValueSet
mixed_use = err (invalid "Invalid where: feature must be defined as boolean or equality")

-- Two sets for one feature. `booleanSet` is one shared object, told apart by identity.
abbrev pub join_sets : ValueSet → ValueSet → Result ValueSet
join_sets booleans booleans = ok booleans
join_sets (texts xs) (texts ys) = ok (texts (add_all ys xs))
join_sets _ _ = mixed_use

abbrev pub merged_set : Option ValueSet → ValueSet → Result ValueSet
merged_set none values = ok values
merged_set (some old) values = join_sets old values

-- The loop over the sets of one side.
unfoldable pub merge : Sets → Sets → Result Sets
merge results [] = ok results
merge results ((f, values) ∷ sub) = do
  joined ← merged_set (lookup f results) values
  merge (insert f joined results) sub

abbrev pub comparison_sets : Ast → Ast → Result Sets
comparison_sets (feature f) (constant (string s)) = ok ((f, texts (s ∷ [])) ∷ [])
comparison_sets (feature f) _ =
    err (invalid "Counter where clause equality right-hand side must be a constant string")
comparison_sets _ _ = err (invalid "Counter where clause equality left-hand side must be a feature")

-- `extractFeatureValueSets`.
unfoldable pub extract_sets : Ast → Result Sets
extract_sets (feature f) = ok ((f, booleans) ∷ [])
extract_sets (negation e) = extract_sets e
extract_sets (boolean_expr l op r) = do
  ensure (is_one_of op "and" "or") (invalid "Only and/or operators are allowed in where clause")
  left_sets ← extract_sets l
  results ← merge [] left_sets
  right_sets ← extract_sets r
  merge results right_sets
extract_sets (binary_expr l op r) = do
  ensure (is_one_of op "=" "!=") (invalid op)
  comparison_sets l r
extract_sets _ = err (invalid "Only and/or/not and constant equality allowed in where clause")

abbrev pub data_of : List String → List Datum
data_of [] = []
data_of (s ∷ ss) = text s ∷ data_of ss

abbrev pub choices : ValueSet → List Datum
choices booleans = truth false ∷ truth true ∷ []
choices (texts ss) = data_of ss

-- The loop over the values of one key.
unfoldable pub each_value {ℓ} :
    {T : Type ℓ} → (Row → T → Result (Row × T)) → String → List Datum → Row → T → Result (Row × T)
each_value inner key [] values acc = ok (values, acc)
each_value inner key (v ∷ vs) values acc = do
  (values', acc') ← inner (insert key v values) acc
  each_value inner key vs values' acc'

-- `setCombinations`, on the one object `values` that is changed in place.
unfoldable pub set_combinations {ℓ} :
    {T : Type ℓ} → (Row → T → Result T) → Sets → Row → T → Result (Row × T)
unfolding each_value
set_combinations callback [] values acc = do acc' ← callback values acc; ok (values, acc')
set_combinations callback ((key, set) ∷ sets) values acc =
    each_value (λ v a. set_combinations callback sets v a) key (choices set) values acc

-- How many clauses hold in a row: `asts.filter((ast) => calculate(ast, values)).length`.
unfoldable pub count_true : List Ast → Row → Result (List Ast)
count_true [] values = ok []
count_true (ast ∷ asts) values = do
  b ← calculate ast values
  rest ← count_true asts values
  ok (if b then ast ∷ rest else rest)

abbrev pub note_overlap : List Ast → Row → Bool → Result Bool
note_overlap asts values true = ok true
note_overlap asts values false = do matching ← count_true asts values; ok (ltb 1 (length matching))

-- The part of `astIntersects` for at least two clauses, none of them a constant true.
unfoldable pub search_overlap : List Ast → Result Bool
search_overlap asts = do
  joined ← or_ast asts
  sets ← extract_sets joined
  (values, intersected) ← set_combinations (note_overlap asts) sets [] false
  ok intersected

-- `astIntersects`.
unfoldable pub ast_intersects : List Ast → Result Bool
ast_intersects asts =
    if ltb 1 (length asts)
    then (if any is_constant_true asts then ok true else search_overlap asts)
    else ok false
