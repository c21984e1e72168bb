-- ===== src/Redis/RateLimit/Laws.antt =====
-- What the token bucket promises, request by request and over a run of requests.
use sqrl.Prelude.{
  ℕ, ◌+◌, ◌-◌, ◌*◌, ◌/◌, ◌≤◌, ◌<◌, min, max, List, [], ◌∷◌, Option, none, some, ltb, ◌==◌, ◌≡◌,
  refl, arith, inl, inr, Bool-cases,
}
use native.Mathlib.Nat.{div-mul-le_self, le-div_iff_mul-le, lt-div-mul-add}
use sqrl.Redis.RateLimit.{
  Bucket, Limits, read_bucket, request_time, refills_due, refill, take_tokens, rate_limit_fetch,
  expiry, ceil_div, keep_unless,
}

-- A bucket never holds more than the limit.
abbrev pub IsBucket : Limits → Option Bucket → Type 0
IsBucket limits none = Unit
IsBucket limits (some b) = b.tokens ≤ limits.max_amount

-- Every request keeps the bucket within the limit and answers with an amount within the limit; one
-- that takes nothing changes nothing and answers with the tokens stored.
pub rate_limit_fetch-IsBucket :
    (limits : Limits) (take at : ℕ) (current : Option Bucket)
    → IsBucket limits current
    → IsBucket limits (rate_limit_fetch limits take at current).0
      × ((rate_limit_fetch limits take at current).1 ≤ limits.max_amount)
      × (rate_limit_fetch limits 0 at current ≡ (current, (read_bucket limits at current).tokens))
unfolding rate_limit_fetch
rate_limit_fetch-IsBucket limits take at none h = (ground arith, ground arith, refl)
rate_limit_fetch-IsBucket limits take at (some b) h = (ground arith, ground arith, refl)

-- The tokens that a request with this answer really takes.
abbrev pub taken : ℕ → ℕ → ℕ
taken take answer = min take answer

-- One request: what it takes comes from the bucket and from the refills that it makes, and the
-- refills fit between the last refill and the stored one.
pub record IsPaid (limits : Limits) (take at : ℕ) (b : Bucket) (after : Bucket) (answer : ℕ)
    : Type 0 where
  pub refills : ℕ
  pub paid : taken take answer + after.tokens ≤ b.tokens + refills * limits.refill_amount
  pub timely : b.last_refill + refills * limits.refill_time ≤ after.last_refill
  pub current : after.last_refill ≤ max b.last_refill at

refill_room : (a b c : ℕ) → 0 < c → b ≤ a → b + (a - b) / c * c ≤ a
refill_room a b c h k = omega (arith, div-mul-le_self (a - b) c)

refill_lem :
    (limits : Limits) (take now : ℕ) (b : Bucket)
    → 0 < limits.refill_time
    → b.last_refill ≤ now
    → (refills : ℕ) × ((refill limits take now b).tokens
        ≤ b.tokens + refills * limits.refill_amount)
      × (b.last_refill + refills * limits.refill_time ≤ (refill limits take now b).last_refill)
      × ((refill limits take now b).last_refill ≤ now)
unfolding refill
refill_lem limits take now b pos le = elim (Bool-cases (ltb b.tokens take)) [
  | inl few ↦ rw few (
    refills_due limits now b,
    omega arith,
    omega arith,
    refill_room now b.last_refill limits.refill_time pos le,
  )
  | inr enough ↦ rw enough (0, omega arith, omega arith, le)
]

-- A request that takes something, from the bucket `r` that it has refilled.
take_lem :
    (limits : Limits) (take at now refills : ℕ) (b r : Bucket)
    → now ≡ request_time at b
    → r.tokens ≤ b.tokens + refills * limits.refill_amount
    → b.last_refill + refills * limits.refill_time ≤ r.last_refill
    → r.last_refill ≤ now
    → (after : Bucket) × (keep_unless (some b) (take_tokens limits take now r).0 ≡ some after)
      × IsPaid limits take at b after (take_tokens limits take now r).1
unfolding take_tokens
take_lem limits take at now refills b r n t l c = elim (Bool-cases (r.tokens == 0)) [
  | inl empty ↦ elim (Bool-cases limits.strict) [
    | inl strict ↦
        rw (empty, strict)
          (
            record r { last_refill = now },
            refl,
            record {
              refills = refills;
              paid = ground arith;
              timely = ground arith;
              current = ground arith;
            },
          )
    | inr lax ↦
        rw (empty, lax)
          (
            b,
            refl,
            record {
              refills = 0;
              paid = ground arith;
              timely = ground arith;
              current = ground arith;
            },
          )
  ]
  | inr some_left ↦ rw some_left (
    record r { tokens = r.tokens - take },
    refl,
    record {
      refills = refills;
      paid = ground arith;
      timely = ground arith;
      current = ground arith;
    },
  )
]

IsPaid-rate_limit_fetch :
    (limits : Limits) (take at : ℕ) (b : Bucket)
    → 0 < limits.refill_time
    → (after : Bucket) × ((rate_limit_fetch limits take at (some b)).0 ≡ some after)
      × IsPaid limits take at b after (rate_limit_fetch limits take at (some b)).1
unfolding rate_limit_fetch
IsPaid-rate_limit_fetch limits take at b pos = elim (Bool-cases (take == 0)) [
  | inl nothing ↦ rw nothing (
    b,
    refl,
    record { refills = 0; paid = ground arith; timely = ground arith; current = ground arith },
  )
  | inr something ↦
      let now = request_time at b in
      let (refills, t, l, c) = refill_lem limits take now b pos (ground arith) in
      rw something (take_lem limits take at now refills b (refill limits take now b) refl t l c)
]

-- A run of requests on one key, each with what it asks for and its time: the key's content and the
-- tokens taken.
unfoldable pub run : Limits → List (ℕ × ℕ) → Option Bucket → Option Bucket × ℕ
run limits [] current = (current, 0)
run limits ((take, at) ∷ requests) current =
    let (next, answer) = rate_limit_fetch limits take at current in
    let (final, total) = run limits requests next in (final, taken take answer + total)

-- The latest time of a run.
abbrev pub latest : ℕ → List (ℕ × ℕ) → ℕ
latest t [] = t
latest t ((take, at) ∷ requests) = latest (max t at) requests

latest_mono : (s t : ℕ) (requests : List (ℕ × ℕ)) → s ≤ t → latest s requests ≤ latest t requests
latest_mono s t [] h = h
latest_mono s t ((take, at) ∷ requests) h = latest_mono (max s at) (max t at) requests (omega arith)

-- Over any run of requests on a stored bucket, in any order of times, the tokens taken and those
-- left come from the first bucket and from a number of refills, and these refills take no more
-- time than passed from the bucket's last refill to the latest request.
pub run-paid :
    (limits : Limits) (requests : List (ℕ × ℕ)) (b : Bucket)
    → 0 < limits.refill_time
    → (final : Bucket) × (refills : ℕ) × ((run limits requests (some b)).0 ≡ some final)
      × ((run limits requests (some b)).1 + final.tokens
          ≤ b.tokens + refills * limits.refill_amount)
      × (b.last_refill + refills * limits.refill_time ≤ final.last_refill)
      × (final.last_refill ≤ latest b.last_refill requests)
unfolding run
run-paid limits [] b pos = (b, 0, refl, omega arith, omega arith, omega arith)
run-paid limits ((take, at) ∷ requests) b pos =
    let (next, stored, first) = IsPaid-rate_limit_fetch limits take at b pos in
    let (final, refills, e, paid, timely, current) = run-paid limits requests next pos in
    let late = latest_mono next.last_refill (max b.last_refill at) requests first.current in
    rw stored (
      final,
      first.refills + refills,
      e,
      omega (arith, first.paid, paid),
      omega (arith, first.timely, timely),
      omega (arith, late),
    )

ceil_div_covers : (x a : ℕ) → 0 < a → x ≤ ceil_div x a * a
ceil_div_covers x a h = omega (arith, lt-div-mul-add {a = x + a - 1} h)

mul_le_right : (x y a : ℕ) → x ≤ y → x * a ≤ y * a
mul_le_right x y a h = grind arith

-- When the expiry of a stored bucket has passed, the refills that are due by then fill it, so that
-- dropping the key gives no one more than waiting does.
pub expiry-fills :
    (limits : Limits) (b : Bucket) (stored_at at : ℕ)
    → 0 < limits.refill_time
    → 0 < limits.refill_amount
    → b.last_refill ≤ stored_at
    → stored_at + expiry limits b ≤ at
    → limits.max_amount ≤ b.tokens + refills_due limits at b * limits.refill_amount
unfolding expiry
expiry-fills limits b stored_at at pos amount past gone =
    let rounds = ceil_div (limits.max_amount - b.tokens) limits.refill_amount in
    let enough : limits.max_amount - b.tokens ≤ rounds * limits.refill_amount =
      ceil_div_covers (limits.max_amount - b.tokens) limits.refill_amount amount in
    let due : rounds ≤ refills_due limits at b = (le-div_iff_mul-le pos).1 (omega arith) in
    let more = mul_le_right rounds (refills_due limits at b) limits.refill_amount due in omega arith
