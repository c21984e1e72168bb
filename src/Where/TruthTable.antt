-- ===== src/Where/TruthTable.antt =====
-- packages/sqrl/src/compile/SqrlTruthTable.ts: where clauses are checked, and reduced to the sorted
-- names of their tests with one bit for each assignment of truth values to those names.
pub mod Rows
pub mod Calculate
pub mod Laws
use sqrl.Prelude.{
  String, Bool, true, false, not, List, [], ◌∷◌, ◌++◌, ◌||◌, Option, none, some, if◌then◌else◌,
  lookup, insert, add_all, str_eq, Error, Result, ok, err, invalid, failed, ◌>>=◌, ◌>>◌, ensure,
}
use sqrl.Value.{Value, boolean, string}
use sqrl.Ast.{Ast, constant, feature, negation, boolean_expr, binary_expr}
use sqrl.Where.Text.{◌⧺◌, json_string, sort}

-- The object that maps the name of each test to its truth value.
abbrev pub Row : Type 0
Row = List (String × Bool)

abbrev pub is_feature : Ast → Bool
is_feature (feature _) = true
is_feature _ = false

abbrev pub is_string_constant : Ast → Bool
is_string_constant (constant (string _)) = true
is_string_constant _ = false

abbrev pub is_one_of : String → String → String → Bool
is_one_of op a b = str_eq op a || str_eq op b

-- `ensureValidAst`.
unfoldable pub ensure_valid_ast : Ast → Result Bool
ensure_valid_ast (binary_expr l op r) = do
  ensure (is_one_of op "=" "!=") (invalid "Binary operator %s not valid in counter where clause")
  ensure (is_feature l) (invalid "Counter where clause equality left-hand side must be a feature")
  ensure (is_string_constant r)
      (invalid "Counter where clause equality right-hand side must be a constant string")
  ok true
ensure_valid_ast (boolean_expr l op r) = do
  ensure (is_one_of op "and" "or") (invalid "Only and/or/not operators are valid in a where clause")
  left_valid ← ensure_valid_ast l
  if left_valid then ensure_valid_ast r else ok false
ensure_valid_ast (negation e) = ensure_valid_ast e
ensure_valid_ast (feature _) = ok true
ensure_valid_ast _ = err (invalid "Only and/or/not and constant equality allowed in where clause")

-- The name of an equality test whose shape was checked; the last case cannot be met.
abbrev pub equality_name : Ast → Ast → Result String
equality_name (feature f) (constant (string s)) = ok (f ⧺ "=" ⧺ json_string s)
equality_name _ _ = err (failed "Not an equality of a feature and a string")

-- `binaryFeatureName`.
unfoldable pub binary_feature_name : Ast → String → Ast → Result String
binary_feature_name l op r = do _ ← ensure_valid_ast (binary_expr l op r); equality_name l r

abbrev pub read_test : Row → String → String → Result Bool
read_test values name message = elim (lookup name values) [
  | none ↦ err (failed message)
  | some b ↦ ok b
]

-- `calculate`: the value of a clause in one row. The right side is only read where JavaScript
-- reads it.
unfoldable pub calculate : Ast → Row → Result Bool
calculate (feature f) values = read_test values f "Expected feature to be set"
calculate (negation e) values = do b ← calculate e values; ok (not b)
calculate (boolean_expr l op r) values =
    let right = calculate r values in
    if str_eq op "and"
    then (calculate l values >>= λ b. if b then right else ok false)
    else if str_eq op "or"
    then (calculate l values >>= λ b. if b then ok true else right)
    else err (failed "Unknown ast operator during calculate step")
calculate (binary_expr l op r) values = do
  name ← binary_feature_name l op r
  b ← read_test values name "Expected value to be set"
  if str_eq op "="
      then ok b
      else if str_eq op "!="
      then ok (not b)
      else err (failed "Unknown binary_expr operator")
calculate _ _ = err (failed "Unexpected ast type during truth table calculate step")

-- `extractFeatures`: the set of the names of a clause's tests.
unfoldable pub extract_features : Ast → Result (List String)
extract_features (feature f) = ok (f ∷ [])
extract_features (negation e) = extract_features e
extract_features (boolean_expr l op r) = do
  ensure (is_one_of op "and" "or") (invalid "Only and/or operators are allowed in where clause")
  left_names ← extract_features l
  right_names ← extract_features r
  ok (add_all right_names left_names)
extract_features (binary_expr l op r) = do name ← binary_feature_name l op r; ok (name ∷ [])
extract_features _ = err (invalid "Only and/or/not and constant equality allowed in where clause")

-- `featureCombinations`: the callback is run for each assignment, on the one object `values` that
-- is changed in place; `T` is what the callback accumulates.
unfoldable pub feature_combinations {ℓ} :
    {T : Type ℓ} → (Row → T → Result T) → List String → Row → T → Result (Row × T)
feature_combinations callback [] values acc = do acc' ← callback values acc; ok (values, acc')
feature_combinations callback (f ∷ fs) values acc = do
  (values', acc') ← feature_combinations callback fs (insert f false values) acc
  feature_combinations callback fs (insert f true values') acc'

-- The callback of `buildTruthTable`, which adds one character, "1" or "0".
abbrev pub add_bit : Ast → Row → List Bool → Result (List Bool)
add_bit ast values table = do b ← calculate ast values; ok (table ++ b ∷ [])

-- `buildTruthTable`; the string of "1" and "0" is a list of bits.
unfoldable pub build_truth_table : Ast → List String → Result (List Bool)
build_truth_table ast features = do
  (values, table) ← feature_combinations (add_bit ast) features [] []
  ok table

pub record TruthTable : Type 0 where
  pub features : List String
  pub truth_table : List Bool

abbrev pub nonempty_table : List String → List Bool → Result TruthTable
nonempty_table features [] = err (failed "Did not expect empty truth table")
nonempty_table features (b ∷ bs) = ok (record { features = features; truth_table = b ∷ bs })

abbrev pub is_true_value : Value → Bool
is_true_value (boolean b) = b
is_true_value _ = false

-- The part of `reduceTruthTable` that a clause other than a constant goes through.
unfoldable pub reduce_clause : Ast → Result TruthTable
reduce_clause ast = do
  valid ← ensure_valid_ast ast
  ensure valid (failed "ensureValidAst() should not return false")
  names ← extract_features ast
  let features = sort names
  table ← build_truth_table ast features
  nonempty_table features table

-- `reduceTruthTable`.
unfoldable pub reduce_truth_table : Ast → Result TruthTable
reduce_truth_table (constant value) = do
  ensure (is_true_value value) (invalid "Counter where clauses should not be constant")
  ok (record { features = []; truth_table = [] })
reduce_truth_table ast = reduce_clause ast

-- `stringifyValidAst`.
unfoldable pub stringify_valid_ast : Ast → Result String
stringify_valid_ast (binary_expr l op r) = binary_feature_name l op r
stringify_valid_ast (boolean_expr l op r) = do
  left_text ← stringify_valid_ast l
  right_text ← stringify_valid_ast r
  ok ("(" ⧺ left_text ⧺ " " ⧺ op ⧺ " " ⧺ right_text ⧺ ")")
stringify_valid_ast (negation e) = do text ← stringify_valid_ast e; ok ("NOT " ⧺ text)
stringify_valid_ast (feature f) = ok f
stringify_valid_ast _ = err (failed "Unknown ast type for stringify")

-- The part of `stringifyWhereAst` that a clause other than a constant goes through.
unfoldable pub stringify_clause : Ast → Result String
stringify_clause ast = do
  valid ← ensure_valid_ast ast
  ensure valid (failed "ensureValidAst() should not return false")
  stringify_valid_ast ast

-- `stringifyWhereAst`.
unfoldable pub stringify_where_ast : Ast → Result String
stringify_where_ast (constant value) = do
  ensure (is_true_value value) (invalid "Counter where clauses should not be constant")
  ok "true"
stringify_where_ast ast = stringify_clause ast
