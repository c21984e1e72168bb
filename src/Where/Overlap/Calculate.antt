-- ===== src/Where/Overlap/Calculate.antt =====
-- `calculate` of packages/sqrl/src/ast/astIntersects.ts: in a row with a value of the right kind for
-- each feature, a clause has its meaning.
use sqrl.Prelude.{
  String, Bool, true, false, not, [], ◌∷◌, ◌&&◌, ◌||◌, some, if◌then◌else◌, lookup, str_eq, ◌≡◌,
  refl, ◌∙◌, eq_iff, ok, ensure, bind-eq-ok,
}
use sqrl.Value.{Value, string}
use sqrl.Ast.{Ast, constant, feature, negation, boolean_expr, binary_expr}
use sqrl.Where.TruthTable.{is_one_of}
use sqrl.Where.Overlap.{
  Datum, truth, text, ValueSet, booleans, texts, Sets, Row, compare_constant, read_truth, read_text,
  compare_sides, calculate, extract_sets, comparison_sets,
}
use sqrl.Where.TruthTable.Calculate.{boolean_value, equality_value}
use sqrl.Where.Overlap.Sets.{is_booleans, Included, extract_parts, ensured}

abbrev pub Env : Type 0
Env = String → Datum

abbrev pub as_truth : Datum → Bool
as_truth (truth b) = b
as_truth (text s) = false

abbrev pub is_text_of : Datum → Value → Bool
is_text_of (truth b) v = false
is_text_of (text s) v = compare_constant s v

-- Whether a comparison's two sides agree.
abbrev pub sides_equal : Env → Ast → Ast → Bool
sides_equal env (feature f) (constant v) = is_text_of (env f) v
sides_equal env _ _ = false

-- What a where clause means when each feature has a value.
unfoldable pub holds_at : Env → Ast → Bool
holds_at env (feature f) = as_truth (env f)
holds_at env (negation e) = not (holds_at env e)
holds_at env (boolean_expr l op r) =
    if str_eq op "and" then holds_at env l && holds_at env r else holds_at env l || holds_at env r
holds_at env (binary_expr l op r) =
    if str_eq op "=" then sides_equal env l r else not (sides_equal env l r)
holds_at env _ = false

abbrev pub is_truth : Datum → Bool
is_truth (truth b) = true
is_truth (text s) = false

-- Each key of the sets has the environment's value in the row, and of the right kind.
abbrev pub Ready : Sets → Row → Env → Type 0
Ready sets values env =
    (f : String) (vs : ValueSet)
    → lookup f sets ≡ some vs
    → (lookup f values ≡ some (env f)) × (is_truth (env f) ≡ is_booleans vs)

pub Ready-Included :
    (sub sets : Sets) (values : Row) (env : Env)
    → Included sub sets
    → Ready sets values env
    → Ready sub values env
Ready-Included sub sets values env h ready f vs e =
    let (ws, found, same) = h f vs e in let (set, kind) = ready f ws found in (set, kind ∙ same)

read_truth-as_truth :
    (values : Row) (f : String) (d : Datum)
    → lookup f values ≡ some d
    → is_truth d ≡ true
    → read_truth values f ≡ ok (as_truth d)
read_truth-as_truth values f (truth b) e h = rw (e, read_truth)
read_truth-as_truth values f (text s) e h = cc

read_text-is_text_of :
    (values : Row) (f : String) (d : Datum) (v : Value)
    → lookup f values ≡ some d
    → is_truth d ≡ false
    → read_text values f v ≡ ok (is_text_of d v)
read_text-is_text_of values f (truth b) v e h = cc
read_text-is_text_of values f (text s) v e h = rw (e, read_text)

lookup_single : (f : String) (vs : ValueSet) → lookup f ((f, vs) ∷ []) ≡ some vs
unfolding lookup
lookup_single f vs = rw ((eq_iff f f).1 refl) refl

compare_sides-sides_equal :
    (l r : Ast) (sets : Sets) (values : Row) (env : Env)
    → comparison_sets l r ≡ ok sets
    → Ready sets values env
    → compare_sides l r values ≡ ok (sides_equal env l r)
compare_sides-sides_equal (feature f) (constant (string s)) sets values env h ready =
    let e : (f, texts (s ∷ [])) ∷ [] ≡ sets = cc in
    let (set, kind) = ready f (texts (s ∷ [])) (rw (← e) (lookup_single f (texts (s ∷ [])))) in
    read_text-is_text_of values f (env f) (string s) set kind
compare_sides-sides_equal (feature f) _ sets values env h ready = cc
compare_sides-sides_equal _ _ sets values env h ready = cc

equality_parts :
    (l r : Ast) (op : String) (sets : Sets)
    → extract_sets (binary_expr l op r) ≡ ok sets
    → (is_one_of op "=" "!=" ≡ true) × (comparison_sets l r ≡ ok sets)
unfolding extract_sets
equality_parts l r op sets h =
    let (_, checked, h1) =
      bind-eq-ok (ensure (is_one_of op "=" "!=") _) (λ _. comparison_sets l r) h in
    (ensured (is_one_of op "=" "!=") _ checked, h1)

-- `calculate` gives a clause's meaning.
pub calculate-holds_at :
    (ast : Ast) (sets : Sets) (values : Row) (env : Env)
    → extract_sets ast ≡ ok sets
    → Ready sets values env
    → calculate ast values ≡ ok (holds_at env ast)
unfolding calculate holds_at extract_sets
calculate-holds_at (feature f) sets values env h ready =
    let e : (f, booleans) ∷ [] ≡ sets = cc in
    let (set, kind) = ready f booleans (rw (← e) (lookup_single f booleans)) in
    read_truth-as_truth values f (env f) set kind
calculate-holds_at (negation e) sets values env h ready =
    rw (calculate-holds_at e sets values env h ready)
calculate-holds_at (boolean_expr l op r) sets values env h ready =
    let (known_op, a, b, left, right, in_a, in_b) = extract_parts l r op sets h in
    let on_left =
      calculate-holds_at l a values env left (Ready-Included a sets values env in_a ready) in
    let on_right =
      calculate-holds_at r b values env right (Ready-Included b sets values env in_b ready) in
    rw (on_left, on_right) (boolean_value (holds_at env l) (holds_at env r) op known_op)
calculate-holds_at (binary_expr l op r) sets values env h ready =
    let (known_op, compared) = equality_parts l r op sets h in
    rw (compare_sides-sides_equal l r sets values env compared ready)
      (equality_value (sides_equal env l r) op known_op)
calculate-holds_at _ sets values env h ready = cc
