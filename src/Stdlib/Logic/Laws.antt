-- ===== src/Stdlib/Logic/Laws.antt =====
-- The connectives of packages/sqrl/src/function/BoolFunctions.ts against a table of three values.
use sqrl.Prelude.{
  Bool, true, false, not, List, [], ◌∷◌, ◌++◌, ◌⊎◌, ◌&&◌, ◌||◌, some, map, any, ◌≡◌, refl, arith,
  ap, ap₂, sym, if◌then◌else◌, ◌∙◌, Bool-cases, inl, inr,
}
use sqrl.Value.{Value, null, boolean, is_null, is_truthy, is_js_truthy}
use sqrl.Stdlib.Logic.{
  and_from, and_values, not_value, or_from, or_values, null_or, and_sequential_from, and_sequential,
  or_sequential_from, or_sequential, choice, coalesce,
}

-- A value that is neither null nor truthy.
abbrev pub is_falsy : Value → Bool
is_falsy v = not (is_null v) && not (is_truthy v)

pub null_is_falsy_not_truthy : is_truthy null ≡ false
unfolding is_truthy is_js_truthy
null_is_falsy_not_truthy = refl

pub null-truthy : (v : Value) → is_null v ≡ true → is_truthy v ≡ false
unfolding is_truthy is_js_truthy
null-truthy null h = refl
null-truthy _ h = cc

and_from_lem :
    (seen : Bool) (args : List Value)
    → and_from seen args
      ≡ (if any is_falsy args then boolean false else null_or (seen || any is_null args) true)
unfolding and_from
and_from_lem seen [] = ground arith
and_from_lem seen (arg ∷ args) =
    ground (arith, null-truthy arg, and_from_lem true args, and_from_lem seen args)

pub or_from_lem :
    (had : Bool) (args : List Value)
    → or_from had args
      ≡ (if any is_truthy args then boolean true else null_or (had || any is_null args) false)
unfolding or_from
or_from_lem had [] = ground arith
or_from_lem had (arg ∷ args) =
    ground (arith, null-truthy arg, or_from_lem true args, or_from_lem had args)

-- `_and` is false if some value is falsy and not null; otherwise null if some value is null;
-- otherwise true. `_or` is true if some value is truthy; otherwise null if some value is null;
-- otherwise false.
pub connectives :
    (args : List Value)
    → (and_values args
        ≡ (if any is_falsy args then boolean false else null_or (any is_null args) true))
      × (or_values args
          ≡ (if any is_truthy args then boolean true else null_or (any is_null args) false))
unfolding and_values or_values
connectives args = (and_from_lem false args, or_from_lem false args)

not_value_lem :
    (v : Value)
    → (is_truthy (not_value v) ≡ is_falsy v)
      × (is_null (not_value v) ≡ is_null v)
      × (is_falsy (not_value v) ≡ is_truthy v)
unfolding not_value is_truthy is_js_truthy
not_value_lem null = (refl, refl, refl)
not_value_lem v = ground arith

map-not_value :
    (args : List Value)
    → (any is_truthy (map not_value args) ≡ any is_falsy args)
      × (any is_null (map not_value args) ≡ any is_null args)
map-not_value [] = (refl, refl)
map-not_value (v ∷ args) = (
  ap₂ ◌||◌ (not_value_lem v).0 (map-not_value args).0,
  ap₂ ◌||◌ (not_value_lem v).1 (map-not_value args).1,
)

negated :
    (b c : Bool)
    → not_value (if b then boolean false else null_or c true)
      ≡ (if b then boolean true else null_or c false)
unfolding not_value is_truthy is_js_truthy
negated b c = ground arith

-- The negation of a conjunction is the disjunction of the negations, also where values are null.
pub not_value-and_values :
    (args : List Value) → not_value (and_values args) ≡ or_values (map not_value args)
not_value-and_values args =
    ap not_value (connectives args).0
    ∙ negated (any is_falsy args) (any is_null args)
    ∙ sym
        ((connectives (map not_value args)).1 ∙ rw ((map-not_value args).0, (map-not_value args).1))

module _ {ℓ} {S : Type ℓ} where
  -- What all the callbacks would bring, each with the state after it.
  abbrev pub run_all : List (S → Value × S) → S → List (Value × S)
  run_all [] s = []
  run_all (callback ∷ callbacks) s = callback s ∷ run_all callbacks (callback s).1

  -- The state after the first result with the property, or after all.
  abbrev pub state_at_first : (Value → Bool) → S → List (Value × S) → S
  state_at_first p s [] = s
  state_at_first p s ((v, s') ∷ results) = if p v then s' else state_at_first p s' results

  and_sequential_from_lem :
      (seen : Bool) (callbacks : List (S → Value × S)) (s : S)
      → ((and_sequential_from seen callbacks s).0
          ≡ and_from seen (map (λ r. r.0) (run_all callbacks s)))
        × ((and_sequential_from seen callbacks s).1
            ≡ state_at_first is_falsy s (run_all callbacks s))
  unfolding and_sequential_from and_from
  and_sequential_from_lem seen [] s = (refl, refl)
  and_sequential_from_lem seen (callback ∷ callbacks) s =
      elim (Bool-cases (is_null (callback s).0)) [
        | inl n ↦ rw (n, is_falsy) (and_sequential_from_lem true callbacks (callback s).1)
        | inr n ↦ elim (Bool-cases (is_truthy (callback s).0)) [
          | inl t ↦ rw (n, t, is_falsy) (and_sequential_from_lem seen callbacks (callback s).1)
          | inr t ↦ rw (n, t, is_falsy) (refl, refl)
        ]
      ]

  or_sequential_from_lem :
      (had : Bool) (callbacks : List (S → Value × S)) (s : S)
      → ((or_sequential_from had callbacks s).0
          ≡ or_from had (map (λ r. r.0) (run_all callbacks s)))
        × ((or_sequential_from had callbacks s).1
            ≡ state_at_first is_truthy s (run_all callbacks s))
  unfolding or_sequential_from or_from
  or_sequential_from_lem had [] s = (refl, refl)
  or_sequential_from_lem had (callback ∷ callbacks) s =
      elim (Bool-cases (is_truthy (callback s).0)) [
        | inl t ↦ rw t (refl, refl)
        | inr t ↦ elim (Bool-cases (is_null (callback s).0)) [
          | inl n ↦ rw (t, n) (or_sequential_from_lem true callbacks (callback s).1)
          | inr n ↦ rw (t, n) (or_sequential_from_lem had callbacks (callback s).1)
        ]
      ]

-- The sequential connectives give what the plain ones give on the results of the callbacks, and
-- call no callback after the first result that settles the answer: the state is the one after it.
pub sequential-plain {ℓ} :
    {S : Type ℓ} (callbacks : List (S → Value × S)) (s : S)
    → ((and_sequential callbacks s).0 ≡ and_values (map (λ r. r.0) (run_all callbacks s)))
      × ((and_sequential callbacks s).1 ≡ state_at_first is_falsy s (run_all callbacks s))
      × ((or_sequential callbacks s).0 ≡ or_values (map (λ r. r.0) (run_all callbacks s)))
      × ((or_sequential callbacks s).1 ≡ state_at_first is_truthy s (run_all callbacks s))
unfolding and_sequential or_sequential and_values or_values
sequential-plain callbacks s =
    let (a, b) = and_sequential_from_lem false callbacks s in
    let (c, d) = or_sequential_from_lem false callbacks s in (a, b, c, d)

-- The value, where it stands among the arguments: those before it do not have the property, and it has
-- the property itself or is the last one.
pub record IsFirst (has : Value → Bool) (args : List Value) (v : Value) : Type 0 where
  pub before : List Value
  pub after : List Value
  pub place : args ≡ before ++ v ∷ after
  pub earlier : any has before ≡ false
  pub found : (has v ≡ true) ⊎ (after ≡ [])

choice-IsFirst :
    (p : Value) (ps : List Value)
    → (v : Value) × (choice (p ∷ ps) ≡ some v) × IsFirst is_truthy (p ∷ ps) v
unfolding choice
choice-IsFirst p [] =
    (p, refl, record { before = []; after = []; place = refl; earlier = refl; found = inr refl })
choice-IsFirst p (q ∷ ps) = elim (Bool-cases (is_truthy p)) [
  | inl holds ↦ (
    p,
    rw holds,
    record { before = []; after = q ∷ ps; place = refl; earlier = refl; found = inl holds },
  )
  | inr fails ↦
      let (v, e, first) = choice-IsFirst q ps in
      (
        v,
        rw (fails, choice) e,
        record {
          before = p ∷ first.before;
          after = first.after;
          place = ap (λ (l : List Value). p ∷ l) first.place;
          earlier = rw fails first.earlier;
          found = first.found;
        },
      )
]

abbrev pub is_given : Value → Bool
is_given v = not (is_null v)

null_of : (v : Value) → is_null v ≡ true → v ≡ null
null_of null h = refl
null_of v h = cc

coalesce-IsFirst :
    (args : List Value)
    → ((any is_given args ≡ false) × (coalesce args ≡ null))
      ⊎ (IsFirst is_given args (coalesce args) × (is_given (coalesce args) ≡ true))
unfolding coalesce
coalesce-IsFirst [] = inl (refl, refl)
coalesce-IsFirst (arg ∷ args) = elim (Bool-cases (is_null arg)) [
  | inl missing ↦ elim (coalesce-IsFirst args) [
    | inl (none_given, e) ↦ inl (rw missing none_given, rw missing e)
    | inr (first, given) ↦
        let all_missing : any is_given (arg ∷ first.before) ≡ false = rw missing first.earlier in
        rw missing (
          inr (
            record {
              before = arg ∷ first.before;
              after = first.after;
              place = ap (λ (l : List Value). arg ∷ l) first.place;
              earlier = all_missing;
              found = first.found;
            },
            given,
          ))
  ]
  | inr given ↦ rw given (
      inr (
        record {
          before = [];
          after = args;
          place = refl;
          earlier = refl;
          found = inl (rw given refl);
        },
        rw given refl,
      ))
]

-- `choice` brings one of its arguments, before which no argument is truthy, and which is truthy or the
-- last one. `coalesce` brings null where all its arguments are null, and otherwise the one that is not
-- null and has only nulls before it.
pub choice-coalesce :
    (p : Value) (ps : List Value)
    → ((v : Value) × (choice (p ∷ ps) ≡ some v) × IsFirst is_truthy (p ∷ ps) v)
      × (((any is_given (p ∷ ps) ≡ false) × (coalesce (p ∷ ps) ≡ null))
          ⊎ (IsFirst is_given (p ∷ ps) (coalesce (p ∷ ps)) × (is_given (coalesce (p ∷ ps)) ≡ true)))
choice-coalesce p ps = (choice-IsFirst p ps, coalesce-IsFirst (p ∷ ps))
