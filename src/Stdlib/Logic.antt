-- ===== src/Stdlib/Logic.antt =====
-- packages/sqrl/src/function/BoolFunctions.ts: logic with null for an unknown value. A callback is
-- a function on the state that its evaluation may change; a promise is the value that it brings.
pub mod Laws
pub mod Completion
pub mod Tests
use sqrl.Prelude.{
  ℕ, zero, suc, ◌-◌, Bool, true, false, not, List, [], ◌∷◌, ◌&&◌, Option, none, some, ◌==◌,
  if◌then◌else◌,
}
use sqrl.Value.{Value, null, boolean, is_null, is_truthy}

-- `seenNull ? null : b`.
abbrev pub null_or : Bool → Bool → Value
null_or seen_null b = if seen_null then null else boolean b

pub and_from : Bool → List Value → Value
and_from seen_null [] = null_or seen_null true
and_from seen_null (arg ∷ args) =
    let skip_null = and_from true args in
    let rest = and_from seen_null args in
    if is_null arg then skip_null else if is_truthy arg then rest else boolean false

-- `_and`.
unfoldable pub and_values : List Value → Value
unfolding and_from
and_values args = and_from false args

-- `_not`.
unfoldable pub not_value : Value → Value
not_value null = null
not_value v = boolean (not (is_truthy v))

-- `_andSequential`: the result, and the state after the callbacks that were called.
and_sequential_from {ℓ} : {S : Type ℓ} → Bool → List (S → Value × S) → S → Value × S
and_sequential_from seen_null [] s = (null_or seen_null true, s)
and_sequential_from seen_null (callback ∷ callbacks) s =
    let (arg, s') = callback s in
    let skip_null = and_sequential_from true callbacks s' in
    let rest = and_sequential_from seen_null callbacks s' in
    if is_null arg then skip_null else if is_truthy arg then rest else (boolean false, s')

unfoldable pub and_sequential {ℓ} : {S : Type ℓ} → List (S → Value × S) → S → Value × S
unfolding and_sequential_from
and_sequential callbacks s = and_sequential_from false callbacks s

-- `_isNull`.
unfoldable pub is_null_value : Value → Value
is_null_value v = boolean (is_null v)

-- `choice` on promises: the first truthy value, otherwise the last. With no argument there is none.
unfoldable pub choice : List Value → Option Value
choice [] = none
choice (p ∷ []) = some p
choice (p ∷ q ∷ ps) = let rest = choice (q ∷ ps) in if is_truthy p then some p else rest

-- `coalesce`.
unfoldable pub coalesce : List Value → Value
coalesce [] = null
coalesce (arg ∷ args) = let rest = coalesce args in if is_null arg then rest else arg

pub or_from : Bool → List Value → Value
or_from had_null [] = null_or had_null false
or_from had_null (arg ∷ args) =
    let skip_null = or_from true args in
    let rest = or_from had_null args in
    if is_truthy arg then boolean true else if is_null arg then skip_null else rest

-- `_or`.
unfoldable pub or_values : List Value → Value
unfolding or_from
or_values args = or_from false args

or_sequential_from {ℓ} : {S : Type ℓ} → Bool → List (S → Value × S) → S → Value × S
or_sequential_from had_null [] s = (null_or had_null false, s)
or_sequential_from had_null (callback ∷ callbacks) s =
    let (arg, s') = callback s in
    let skip_null = or_sequential_from true callbacks s' in
    let rest = or_sequential_from had_null callbacks s' in
    if is_truthy arg then (boolean true, s') else if is_null arg then skip_null else rest

-- `_orSequential`.
unfoldable pub or_sequential {ℓ} : {S : Type ℓ} → List (S → Value × S) → S → Value × S
unfolding or_sequential_from
or_sequential callbacks s = or_sequential_from false callbacks s

-- The variables that the callbacks of `_orParallel` share, and what its promise was resolved with.
pub record Parallel : Type 0 where
  pub remaining : ℕ
  pub had_null : Bool
  -- Whether `resolve` is still set.
  pub can_resolve : Bool
  pub answer : Option Value
  -- Whether `resolve` was called after it was set to null.
  pub faulted : Bool

-- The callback of one promise of `_orParallel`.
unfoldable pub on_result : Value → Parallel → Parallel
on_result result p =
    if p.can_resolve && is_truthy result
    then record p { answer = some (boolean true); can_resolve = false }
    else let had_null' = if is_null result then true else p.had_null in
      if p.remaining == 1
      then (if p.can_resolve
          then record p {
            remaining = p.remaining - 1;
            had_null = had_null';
            answer = some (null_or had_null' false);
          }
          else record p { remaining = p.remaining - 1; had_null = had_null'; faulted = true })
      else record p { remaining = p.remaining - 1; had_null = had_null' }

-- The results in the order in which they come.
unfoldable pub deliver : List Value → Parallel → Parallel
unfolding on_result
deliver [] p = p
deliver (v ∷ vs) p = deliver vs (on_result v p)

-- `_orParallel` of that many promises, before any has come.
abbrev pub start_parallel : ℕ → Parallel
start_parallel n = record {
  remaining = n;
  had_null = false;
  can_resolve = true;
  answer = none;
  faulted = false;
}
