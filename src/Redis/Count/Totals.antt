-- ===== src/Redis/Count/Totals.antt =====
-- Totals over a history of bumps, and the arithmetic of buckets, for RedisCountService
-- (packages/sqrl-redis-functions).
use sqrl.Prelude.{
  ℕ, suc, ◌+◌, ◌*◌, ◌/◌, ◌≤◌, ◌<◌, Bool, true, List, [], ◌∷◌, ◌&&◌, ◌≡◌, refl, if◌then◌else◌, ltb,
  leb, ◌==◌, arith, All,
}
use native.Mathlib.Nat.{
  le-div_iff_mul-le, lt-div-mul-add, mul-le-mul_left, mod-add-div', div-lt_iff_lt-mul,
}
use sqrl.Redis.Count.{num_buckets, get_bucket_time, round_div}

-- The bumps of a key: when, and by how much.
abbrev pub History : Type 0
History = List (ℕ × ℕ)

-- The bumps at the times that a test accepts.
abbrev pub total : (ℕ → Bool) → History → ℕ
total p [] = 0
total p ((at, by) ∷ h) = (if p at then by else 0) + total p h

abbrev pub in_buckets : (q count t : ℕ) → Bool
in_buckets q count t = leb q t && ltb t (q + count)

pub total_split :
    (f : ℕ → ℕ) (q count : ℕ) (h : History)
    → total (λ t. in_buckets q (suc count) (f t)) h
      ≡ total (λ t. f t == q) h + total (λ t. in_buckets (suc q) count (f t)) h
total_split f q count [] = refl
total_split f q count ((at, by) ∷ h) = ground (arith, total_split f q count h)

pub total_empty : (f : ℕ → ℕ) (q : ℕ) (h : History) → total (λ t. in_buckets q 0 (f t)) h ≡ 0
total_empty f q [] = refl
total_empty f q ((at, by) ∷ h) = ground (arith, total_empty f q h)

pub total_ext : (p r : ℕ → Bool) (h : History) → ((t : ℕ) → p t ≡ r t) → total p h ≡ total r h
total_ext p r [] same = refl
total_ext p r ((at, by) ∷ h) same = rw (same at, total_ext p r h same)

pub total_mono :
    (p r : ℕ → Bool) (h : History)
    → All (λ b. p b.0 ≡ true → r b.0 ≡ true) h
    → total p h ≤ total r h
total_mono p r [] _ = omega arith
total_mono p r ((at, by) ∷ h) (here, more) = ground (arith, total_mono p r h more)

pub bucket_time_lem : (t size : ℕ) → get_bucket_time t size ≡ t / size * size
unfolding get_bucket_time
bucket_time_lem t size = omega (arith, mod-add-div' t size)

pub eq_of_test : (a b : ℕ) → (a == b) ≡ true → a ≡ b
eq_of_test a b h = ground arith

mul_lt : (a b c : ℕ) → 0 < c → a < b → a * c + c ≤ b * c
mul_lt a b c pos lt = grind arith

pub bucket_test : (t size q : ℕ) → 0 < size → (get_bucket_time t size == q * size) ≡ (t / size == q)
bucket_test t size q pos =
    rw (bucket_time_lem t size)
      (grind (arith, mul_lt (t / size) q size pos, mul_lt q (t / size) size pos))

round_div_low : (a b n : ℕ) → 0 < b → n * b ≤ a → n ≤ round_div a b
round_div_low a b n pos le =
    let p : 0 < 2 * b = omega arith in (le-div_iff_mul-le p).1 (grind arith)

round_div_high : (a b n : ℕ) → 0 < b → a ≤ n * b → round_div a b ≤ n
round_div_high a b n pos le =
    let p : 0 < 2 * b = omega arith in
    let below : round_div a b < n + 1 = (div-lt_iff_lt-mul p).1 (grind arith) in omega arith

pub in_later_buckets :
    (t at start size window_ms : ℕ)
    → 0 < size
    → window_ms ≡ num_buckets * size
    → at ≡ start + window_ms
    → t ≤ at
    → leb (start / size * size + size) t ≡ true
    → in_buckets (suc (start / size)) 10 (t / size) ≡ true
in_later_buckets t at start size window_ms pos w a le late =
    let from : suc (start / size) ≤ t / size = (le-div_iff_mul-le pos).1 (grind arith) in
    let room : start < start / size * size + size = lt-div-mul-add pos in
    let until : t / size < suc (start / size) + 10 = (div-lt_iff_lt-mul pos).1 (grind arith) in
    ground arith

pub first_bucket :
    (t q size : ℕ) → 0 < size → in_buckets q 11 (t / size) ≡ true → leb (q * size) t ≡ true
first_bucket t q size pos h =
    let le : q ≤ t / size = ground arith in
    let le' : q * size ≤ t = (le-div_iff_mul-le pos).0 le in ground arith

pub round_bounds :
    (first kept rest size : ℕ)
    → 0 < size
    → kept ≤ size
    → (rest ≤ round_div (first * kept + size * rest) size)
      × (round_div (first * kept + size * rest) size ≤ first + rest)
round_bounds first kept rest size pos le = (
  round_div_low (first * kept + size * rest) size rest pos (grind arith),
  round_div_high (first * kept + size * rest) size (first + rest) pos
      (grind (arith, mul-le-mul_left first le)),
)
