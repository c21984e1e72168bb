-- ===== src/Where/TruthTable/Calculate.antt =====
-- `ensureValidAst`, `extractFeatures` and `calculate` together: a valid clause has names, and its
-- value in a row is its meaning.
use sqrl.Prelude.{
  String, Bool, true, false, not, ap, List, ◌||◌, some, contains, contains-add_all, add_all, [],
  ◌∷◌, lookup, str_eq, ◌≡◌, refl, arith, eq_iff, ok, err, ensure, bind-eq-ok, ◌>>=◌, if◌then◌else◌,
  ◌&&◌, failed,
}
use sqrl.Value.{string}
use sqrl.Ast.{Ast, constant, feature, negation, boolean_expr, binary_expr}
use sqrl.Where.TruthTable.{
  Row, ensure_valid_ast, equality_name, binary_feature_name, extract_features, calculate, is_one_of,
  read_test, is_feature, is_string_constant,
}
use sqrl.Where.TruthTable.Rows.{holds}

-- `ensureValidAst` never returns false.
pub ensure_valid_ast-true : (ast : Ast) (b : Bool) → ensure_valid_ast ast ≡ ok b → b ≡ true
unfolding ensure_valid_ast
ensure_valid_ast-true (binary_expr l op r) b h = ground arith
ensure_valid_ast-true (boolean_expr l op r) b h =
    ground (arith, ensure_valid_ast-true l false, ensure_valid_ast-true r b)
ensure_valid_ast-true (negation e) b h = ensure_valid_ast-true e b h
ensure_valid_ast-true (feature f) b h = ground arith
ensure_valid_ast-true _ b h = cc

-- The parts of a valid conjunction or disjunction are valid.
pub boolean_parts :
    (l r : Ast) (op : String)
    → ensure_valid_ast (boolean_expr l op r) ≡ ok true
    → (is_one_of op "and" "or" ≡ true)
      × (ensure_valid_ast l ≡ ok true)
      × (ensure_valid_ast r ≡ ok true)
unfolding ensure_valid_ast
boolean_parts l r op h = (ground arith, ground arith, ground arith)

equality_name_of :
    (l r : Ast)
    → is_feature l ≡ true
    → is_string_constant r ≡ true
    → (name : String) × (equality_name l r ≡ ok name)
equality_name_of (feature f) (constant (string s)) h k = (_, refl)
equality_name_of _ _ h k = cc

equality_checks :
    (l r : Ast) (op : String)
    → ensure_valid_ast (binary_expr l op r) ≡ ok true
    → (is_one_of op "=" "!=" ≡ true) × (is_feature l ≡ true) × (is_string_constant r ≡ true)
unfolding ensure_valid_ast
equality_checks l r op h = (ground arith, ground arith, ground arith)

-- A valid equality test has a name.
pub equality_parts :
    (l r : Ast) (op : String)
    → ensure_valid_ast (binary_expr l op r) ≡ ok true
    → (name : String) × (binary_feature_name l op r ≡ ok name)
      × (equality_name l r ≡ ok name)
      × (is_one_of op "=" "!=" ≡ true)
unfolding binary_feature_name
equality_parts l r op h =
    let (known_op, is_test, is_text) = equality_checks l r op h in
    let (name, named) = equality_name_of l r is_test is_text in (name, rw h named, named, known_op)

-- `extractFeatures` returns names for every valid clause.
pub extract_features_total :
    (ast : Ast)
    → ensure_valid_ast ast ≡ ok true
    → (names : List String) × (extract_features ast ≡ ok names)
unfolding extract_features ensure_valid_ast
extract_features_total (binary_expr l op r) h =
    let (name, named, _, _) = equality_parts l r op h in (name ∷ [], rw named)
extract_features_total (boolean_expr l op r) h =
    let (valid_op, valid_l, valid_r) = boolean_parts l r op h in
    let (ls, left) = extract_features_total l valid_l in
    let (rs, right) = extract_features_total r valid_r in
    (add_all rs ls, rw (valid_op, left, right))
extract_features_total (negation e) h = extract_features_total e h
extract_features_total (feature f) h = (_, refl)
extract_features_total _ h = cc

-- Inversion of `extractFeatures`.
boolean_names :
    (l r : Ast) (op : String) (names : List String)
    → extract_features (boolean_expr l op r) ≡ ok names
    → (ls rs : List String) × (extract_features l ≡ ok ls)
      × (extract_features r ≡ ok rs)
      × (names ≡ add_all rs ls)
unfolding extract_features
boolean_names l r op names h =
    let both = λ (ls : List String). extract_features r >>= λ rs. ok (add_all rs ls) in
    let (_, checked, h') =
      bind-eq-ok (ensure (is_one_of op "and" "or") _) (λ _. extract_features l >>= both) h in
    let (ls, left, h'') = bind-eq-ok (extract_features l) both h' in
    let (rs, right, e) = bind-eq-ok (extract_features r) (λ rs. ok (add_all rs ls)) h'' in
    (ls, rs, left, right, cc e)

equality_names :
    (l r : Ast) (op : String) (names : List String)
    → extract_features (binary_expr l op r) ≡ ok names
    → (name : String) × (equality_name l r ≡ ok name) × (names ≡ name ∷ [])
unfolding extract_features binary_feature_name
equality_names l r op names h =
    let (name, named, e) = bind-eq-ok (binary_feature_name l op r) (λ name. ok (name ∷ [])) h in
    let (_, _, named') =
      bind-eq-ok (ensure_valid_ast (binary_expr l op r)) (λ _. equality_name l r) named in
    (name, named', cc e)

contains_self : (k : String) → contains (k ∷ []) k ≡ true
unfolding contains
contains_self k = ground (arith, eq_iff k k)

module _ (ls rs names : List String) (k : String) (joined : names ≡ add_all rs ls) where
  contains_left : contains ls k ≡ true → contains names k ≡ true
  contains_left h = rw (joined, contains-add_all rs k ls, h) (ground arith)

  contains_right : contains rs k ≡ true → contains names k ≡ true
  contains_right h = rw (joined, contains-add_all rs k ls, h) (ground arith)

-- The meaning of a clause depends on its names alone.
pub holds_of_names :
    (ast : Ast) (names : List String) (env base : String → Bool)
    → extract_features ast ≡ ok names
    → ((k : String) → contains names k ≡ true → env k ≡ base k)
    → holds env ast ≡ holds base ast
unfolding extract_features holds
holds_of_names (feature f) names env base h same =
    let e : f ∷ [] ≡ names = cc in same f (rw (← e) (contains_self f))
holds_of_names (negation e) names env base h same = ap not (holds_of_names e names env base h same)
holds_of_names (boolean_expr l op r) names env base h same =
    let (ls, rs, left, right, joined) = boolean_names l r op names h in
    let on_left =
      holds_of_names l ls env base left (λ k m. same k (contains_left ls rs names k joined m)) in
    let on_right =
      holds_of_names r rs env base right (λ k m. same k (contains_right ls rs names k joined m)) in
    rw (on_left, on_right)
holds_of_names (binary_expr l op r) names env base h same =
    let (name, named, e) = equality_names l r op names h in
    rw (named, same name (rw e (contains_self name)), holds)
holds_of_names _ names env base h same = cc

pub boolean_value :
    (a b : Bool) (op : String)
    → is_one_of op "and" "or" ≡ true
    → (if str_eq op "and"
        then (if a then ok b else ok false)
        else if str_eq op "or"
        then (if a then ok true else ok b)
        else err (failed "Unknown ast operator during calculate step"))
      ≡ ok (if str_eq op "and" then a && b else a || b)
boolean_value a b op h = ground arith

read_test_known :
    (values : Row) (k message : String) (b : Bool)
    → lookup k values ≡ some b
    → read_test values k message ≡ ok b
read_test_known values k message b h = rw (h, read_test)

pub equality_value :
    (b : Bool) (op : String)
    → is_one_of op "=" "!=" ≡ true
    → (if str_eq op "="
        then ok b
        else if str_eq op "!="
        then ok (not b)
        else err (failed "Unknown binary_expr operator"))
      ≡ ok (if str_eq op "=" then b else not b)
equality_value b op h = ground arith

-- In a row that has every name of a valid clause, `calculate` returns the clause's meaning.
pub calculate-holds :
    (ast : Ast) (names : List String) (values : Row) (env : String → Bool)
    → ensure_valid_ast ast ≡ ok true
    → extract_features ast ≡ ok names
    → ((k : String) → contains names k ≡ true → lookup k values ≡ some (env k))
    → calculate ast values ≡ ok (holds env ast)
unfolding calculate holds ensure_valid_ast extract_features
calculate-holds (feature f) names values env valid h known =
    let e : f ∷ [] ≡ names = cc in
    read_test_known values f _ (env f) (known f (rw (← e) (contains_self f)))
calculate-holds (negation e) names values env valid h known =
    rw (calculate-holds e names values env valid h known)
calculate-holds (boolean_expr l op r) names values env valid h known =
    let (ls, rs, left, right, joined) = boolean_names l r op names h in
    let (known_op, valid_l, valid_r) = boolean_parts l r op valid in
    let on_left =
      calculate-holds l ls values env valid_l left
        (λ k m. known k (contains_left ls rs names k joined m)) in
    let on_right =
      calculate-holds r rs values env valid_r right
        (λ k m. known k (contains_right ls rs names k joined m)) in
    rw (on_left, on_right) (boolean_value (holds env l) (holds env r) op known_op)
calculate-holds (binary_expr l op r) names values env valid h known =
    let (name, named, e) = equality_names l r op names h in
    let (name', found, named', known_op) = equality_parts l r op valid in
    let same : name' ≡ name = cc in
    let read =
      read_test_known values name "Expected value to be set" (env name)
        (known name (rw e (contains_self name))) in
    rw (found, same, read, named, holds) (equality_value (env name) op known_op)
calculate-holds _ names values env valid h known = cc
