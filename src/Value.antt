-- ===== src/Value.antt =====
-- JavaScript values as constants and function arguments hold them (the `any` of
-- packages/sqrl/src/api/ast.ts and packages/sqrl-common/src/SqrlObject.ts). Numbers are the
-- non-negative integers; instances of SqrlObject are not among the values.
pub mod Tests
use Prim.Native.String
use sqrl.Prelude.{ℕ, zero, String, Bool, true, false, List, [], ◌∷◌, ◌||◌, not}

mutual
  pub data Value : Type 0 where
    null : Value
    boolean : Bool → Value
    number : ℕ → Value
    string : String → Value
    buffer : List ℕ → Value
    array : Values → Value
    set : Values → Value
    object : Fields → Value

  pub data Values : Type 0 where
    nil : Values
    cons : Value → Values → Values

  pub data Fields : Type 0 where
    end : Fields
    field : String → Value → Fields → Fields

-- `value === null`.
abbrev pub is_null : Value → Bool
is_null null = true
is_null _ = false

-- JavaScript's own truth test, as in `if (value)`.
unfoldable pub is_js_truthy : Value → Bool
is_js_truthy null = false
is_js_truthy (boolean b) = b
is_js_truthy (number zero) = false
is_js_truthy (string String.[]) = false
is_js_truthy _ = true

-- `arr.some((v) => v !== null)`.
unfoldable pub some_not_null : Values → Bool
some_not_null nil = false
some_not_null (cons v vs) = not (is_null v) || some_not_null vs

-- `SqrlObject.isTruthy`.
unfoldable pub is_truthy : Value → Bool
unfolding is_js_truthy some_not_null
is_truthy (buffer []) = false
is_truthy (buffer (_ ∷ _)) = true
is_truthy (array vs) = some_not_null vs
is_truthy (set nil) = false
is_truthy (set (cons _ _)) = true
is_truthy (object end) = false
is_truthy (object (field _ _ _)) = true
is_truthy v = is_js_truthy v
