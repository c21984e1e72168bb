-- ===== src/Where/TruthTable/Rows.antt =====
-- The rows of a truth table, read as a tree: row by row for the assignments in binary order.
use native.Mathlib.Nat.{pow-suc, zero-add}
use sqrl.Prelude.{
  ℕ, ◌+◌, ◌^◌, ◌<◌, String, Bool, true, false, not, List, [], ◌∷◌, ◌++◌, ◌&&◌, ◌||◌, if◌then◌else◌,
  length, length-append, get_elem?, get_elem?-append_left, get_elem?-append_right, some, contains,
  str_eq, eq_iff, ◌≡◌, refl, arith, ◌∙◌, Bool-cases, inl, inr,
}
use sqrl.Value.{is_js_truthy}
use sqrl.Ast.{Ast, constant, feature, negation, boolean_expr, binary_expr}
use sqrl.Where.TruthTable.{equality_name}
use sqrl.Prelude.{ok, err}

-- What a where clause means when each test, known by its name, has a truth value. A constant
-- is its truth value.
unfoldable pub holds : (String → Bool) → Ast → Bool
holds env (feature f) = env f
holds env (negation e) = not (holds env e)
holds env (boolean_expr l op r) =
    if str_eq op "and" then holds env l && holds env r else holds env l || holds env r
holds env (binary_expr l op r) = elim (equality_name l r) [
  | ok name ↦ if str_eq op "=" then env name else not (env name)
  | err _ ↦ false
]
holds env (constant v) = is_js_truthy v
holds env _ = false

abbrev pub update : (String → Bool) → String → Bool → String → Bool
update env f b k = if str_eq f k then b else env k

-- The table by recursion on the names, the first name being the most significant bit.
unfoldable pub rows : ((String → Bool) → Bool) → List String → (String → Bool) → List Bool
rows value [] env = value env ∷ []
rows value (f ∷ fs) env = rows value fs (update env f false) ++ rows value fs (update env f true)

-- The number of the row that an assignment selects.
unfoldable pub row_index : List String → (String → Bool) → ℕ
row_index [] env = 0
row_index (f ∷ fs) env = (if env f then 2 ^ length fs else 0) + row_index fs env

pub length-rows :
    (value : (String → Bool) → Bool) (fs : List String) (env : String → Bool)
    → length (rows value fs env) ≡ 2 ^ length fs
unfolding rows
length-rows value [] env = refl
length-rows value (f ∷ fs) env = omega (
  arith,
  length-append (rows value fs (update env f false)) (rows value fs (update env f true)),
  length-rows value fs (update env f false),
  length-rows value fs (update env f true),
  pow-suc 2 (length fs),
)

pub row_index-lt : (fs : List String) (env : String → Bool) → row_index fs env < 2 ^ length fs
unfolding row_index
row_index-lt [] env = omega arith
row_index-lt (f ∷ fs) env = ground (arith, row_index-lt fs env)

-- An assignment laid over another at the given names.
abbrev pub overlay : List String → (String → Bool) → (String → Bool) → String → Bool
overlay [] env base = base
overlay (f ∷ fs) env base = overlay fs env (update base f (env f))

pub overlay_lem :
    (fs : List String) (env base : String → Bool) (k : String)
    → overlay fs env base k ≡ (if contains fs k then env k else base k)
unfolding contains
overlay_lem [] env base k = refl
overlay_lem (f ∷ fs) env base k =
    overlay_lem fs env (update base f (env f)) k ∙ ground (arith, eq_iff f k)

-- The row that an assignment selects holds its value.
pub get_elem?-rows :
    (value : (String → Bool) → Bool) (fs : List String) (env base : String → Bool)
    → get_elem? (rows value fs base) (row_index fs env) ≡ some (value (overlay fs env base))
unfolding rows row_index
get_elem?-rows value [] env base = refl
get_elem?-rows value (f ∷ fs) env base = elim (Bool-cases (env f)) [
  | inl t ↦ rw (t) (
      get_elem?-append_right (rows value fs (update base f false))
        (rows value fs (update base f true)) (2 ^ length fs) (row_index fs env)
        (length-rows value fs (update base f false))
      ∙ get_elem?-rows value fs env (update base f true))
  | inr t ↦
      rw (t, zero-add)
        (get_elem?-append_left (rows value fs (update base f false))
            (rows value fs (update base f true)) (row_index fs env)
            (rw (length-rows value fs (update base f false)) (row_index-lt fs env))
          ∙ get_elem?-rows value fs env (update base f false))
]
