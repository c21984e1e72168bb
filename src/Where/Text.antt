-- ===== src/Where/Text.antt =====
-- What the where clauses use of JavaScript's texts: JSON.stringify of a string, and the order of
-- Array.prototype.sort (by code points here, which differs from UTF-16 only above U+FFFF).
pub mod Order
use Prim.Native.Char.{Char, code}
use Prim.Native.Nat.{Ordering}
use Prim.Native.String
use Prim.Native.String.{compare}
use sqrl.Prelude.{
  ℕ, ◌%◌, String, Bool, true, false, List, [], ◌∷◌, ◌||◌, ◌==◌, ltb, if◌then◌else◌, get_elem?, none,
  some, contains, str_eq, ◌≡◌, refl, arith,
}

infixr 66 ◌⧺◌
abbrev pub ◌⧺◌ : String → String → String
s ⧺ t = String.◌++◌ s t

hex_digits : List String
hex_digits =
    "0" ∷ "1" ∷ "2" ∷ "3" ∷ "4" ∷ "5" ∷ "6" ∷ "7" ∷ "8" ∷ "9" ∷ "a" ∷ "b" ∷ "c" ∷ "d" ∷ "e" ∷ "f"
    ∷ []

hex_digit : ℕ → String
hex_digit n = elim (get_elem? hex_digits n) [ none ↦ "" | some d ↦ d ]

json_char : Char → String
unfolding hex_digit hex_digits
json_char c =
    if code c == b'"'
    then "\\\""
    else if code c == 92
    then "\\\\"
    else if code c == 8
    then "\\b"
    else if code c == 9
    then "\\t"
    else if code c == 10
    then "\\n"
    else if code c == 12
    then "\\f"
    else if code c == 13
    then "\\r"
    else if ltb (code c) 16
    then "\\u000" ⧺ hex_digit (code c)
    else if ltb (code c) 32
    then "\\u001" ⧺ hex_digit (code c % 16)
    else String.◌∷◌ c String.[]

json_chars : String → String
unfolding json_char
json_chars String.[] = ""
json_chars (String.◌∷◌ c s) = json_char c ⧺ json_chars s

-- `JSON.stringify` of a string.
unfoldable pub json_string : String → String
unfolding json_chars
json_string s = "\"" ⧺ json_chars s ⧺ "\""

abbrev str_le : String → String → Bool
str_le s t = elim (compare s t) [ Ordering.gt ↦ false | _ ↦ true ]

sort_insert : String → List String → List String
sort_insert s [] = s ∷ []
sort_insert s (t ∷ ts) = if str_le s t then s ∷ t ∷ ts else t ∷ sort_insert s ts

-- `sort()` of an array of strings.
unfoldable pub sort : List String → List String
unfolding sort_insert
sort [] = []
sort (s ∷ ts) = sort_insert s (sort ts)

contains-sort_insert :
    (s k : String) (ts : List String)
    → contains (sort_insert s ts) k ≡ (str_eq s k || contains ts k)
unfolding sort_insert contains
contains-sort_insert s k [] = refl
contains-sort_insert s k (t ∷ ts) = ground (arith, contains-sort_insert s k ts)

-- Sorting keeps the members.
pub contains-sort : (ts : List String) (k : String) → contains (sort ts) k ≡ contains ts k
unfolding sort contains
contains-sort [] k = refl
contains-sort (s ∷ ts) k = ground (arith, contains-sort_insert s k (sort ts), contains-sort ts k)

json_tests : (json_string "a\"b" ≡ "\"a\\\"b\"") × (sort ("b" ∷ "a" ∷ []) ≡ "a" ∷ "b" ∷ [])
unfolding json_string sort
json_tests = (refl, refl)
