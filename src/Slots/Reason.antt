-- ===== src/Slots/Reason.antt =====
-- The reasons of rules: packages/sqrl/src/slot/SqrlRuleSlot.ts finds the features that a reason names,
-- as in `${User}`, by REASON_FEATURE_REGEX, and packages/sqrl/src/function/WhenFunctions.ts puts their
-- values in their places. A value is the text that `toString` makes of it, or null.
pub mod Laws
pub mod Tests
use Prim.Native.Char.{Char, code}
use Prim.Native.String
use sqrl.Prelude.{
  ℕ, String, Bool, true, false, List, [], ◌∷◌, ◌++◌, ◌&&◌, ◌||◌, Option, none, some, leb, ◌==◌,
  if◌then◌else◌, Result, ok, err, failed, ◌>>=◌, lookup,
}

abbrev pub chars : String → List Char
chars String.[] = []
chars (String.◌∷◌ c s) = c ∷ chars s

abbrev pub text_of : List Char → String
text_of [] = String.[]
text_of (c ∷ cs) = String.◌∷◌ c (text_of cs)

-- The class `[A-Za-z0-9_.]`.
unfoldable pub is_name_char : Char → Bool
is_name_char c =
    leb b'A' (code c) && leb (code c) b'Z'
    || (leb b'a' (code c) && leb (code c) b'z'
        || (leb b'0' (code c) && leb (code c) b'9' || (code c == b'_' || code c == b'.')))

-- What REASON_FEATURE_REGEX finds in a text: the name in a match, or a character outside all matches.
pub data Piece : Type 0 where
  plain : Char → Piece
  named : List Char → Piece

-- Where the search stands: outside a match, after `$`, or after `${` and some characters of a name.
pub data Mode : Type 0 where
  outside after_dollar : Mode
  within : List Char → Mode

abbrev pub plain_all : List Char → List Piece
plain_all [] = []
plain_all (c ∷ cs) = plain c ∷ plain_all cs

-- The text that the search has read and not yet given out.
abbrev pub held : Mode → List Char
held outside = []
held after_dollar = "$" ∷ []
held (within name) = "$" ∷ "{" ∷ name

-- A character that begins no name: the search goes on behind it.
abbrev pub restart : List Char → Char → List Piece × Mode
restart before c =
    if code c == b'$'
    then (plain_all before, after_dollar)
    else (plain_all before ++ plain c ∷ [], outside)

abbrev pub close_name : List Char → Char → List Piece × Mode
close_name [] c = restart ("$" ∷ "{" ∷ []) c
close_name (n ∷ name) c =
    if code c == b'}' then (named (n ∷ name) ∷ [], outside) else restart ("$" ∷ "{" ∷ n ∷ name) c

unfoldable pub read_char : Mode → Char → List Piece × Mode
unfolding is_name_char
read_char outside c = restart [] c
read_char after_dollar c = if code c == b'{' then ([], within []) else restart ("$" ∷ []) c
read_char (within name) c =
    if is_name_char c then ([], within (name ++ c ∷ [])) else close_name name c

unfoldable pub split_reason : Mode → List Char → List Piece
unfolding read_char
split_reason mode [] = plain_all (held mode)
split_reason mode (c ∷ cs) = let (pieces, next) = read_char mode c in pieces ++ split_reason next cs

abbrev pub names_in : List Piece → List (List Char)
names_in [] = []
names_in (plain c ∷ pieces) = names_in pieces
names_in (named name ∷ pieces) = name ∷ names_in pieces

abbrev pub texts : List (List Char) → List String
texts [] = []
texts (name ∷ names) = text_of name ∷ texts names

-- `getFeaturesFromReason`.
unfoldable pub features_of_reason : String → List String
unfolding split_reason
features_of_reason reason = texts (names_in (split_reason outside (chars reason)))

-- `ruleFeatures[ruleIdx][featureIdx++].toString()`, and what follows it.
abbrev pub next_value : List (Option String) → Result (List Char × List (Option String))
next_value [] = err (failed "Cannot read property 'toString' of undefined")
next_value (none ∷ values) = err (failed "Cannot read property 'toString' of null")
next_value (some value ∷ values) = ok (chars value, values)

-- `spec.reason.replace(REASON_FEATURE_REGEX, …)` on the pieces.
unfoldable pub replace_names : List (Option String) → List Piece → Result (List Char)
replace_names values [] = ok []
replace_names values (plain c ∷ pieces) = do rest ← replace_names values pieces; ok (c ∷ rest)
replace_names values (named name ∷ pieces) = do
  (value, others) ← next_value values
  rest ← replace_names others pieces
  ok (value ++ rest)

unfoldable pub fill_reason : List (Option String) → String → Result String
unfolding split_reason replace_names
fill_reason values reason = do
  filled ← replace_names values (split_reason outside (chars reason))
  ok (text_of filled)

-- `FiredRule`.
pub record FiredRule : Type 0 where
  pub name : String
  pub reason : String

abbrev pub spec_reason : Option String → Result String
spec_reason none = err (failed "Cannot read property 'reason' of undefined")
spec_reason (some reason) = ok reason

-- The loop of `_buildWhenCause`: rules with their features, null where a rule did not fire, and the
-- reasons of `ruleSpecs`. An empty reason is filled with nothing.
unfoldable pub fired_rules :
    List (String × String) → List (String × Option (List (Option String))) → Result (List FiredRule)
unfolding fill_reason lookup
fired_rules specs [] = ok []
fired_rules specs ((name, none) ∷ rules) = fired_rules specs rules
fired_rules specs ((name, some values) ∷ rules) = do
  reason ← spec_reason (lookup name specs)
  filled ← fill_reason values reason
  rest ← fired_rules specs rules
  ok (record { name = name; reason = filled } ∷ rest)

abbrev pub cause_of : List FiredRule → Option (List FiredRule)
cause_of [] = none
cause_of (rule ∷ rules) = some (rule ∷ rules)

-- `_buildWhenCause`: null where no rule fired.
unfoldable pub build_when_cause :
    List (String × String)
    → List (String × Option (List (Option String)))
    → Result (Option (List FiredRule))
unfolding fired_rules
build_when_cause specs rules = do fired ← fired_rules specs rules; ok (cause_of fired)
