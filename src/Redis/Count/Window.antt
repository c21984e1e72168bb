-- ===== src/Redis/Count/Window.antt =====
-- The counts of RedisCountService (packages/sqrl-redis-functions): which bumps a window counts, and
-- that its buckets are still there.
use sqrl.Prelude.{
  ℕ, suc, ◌+◌, ◌-◌, ◌*◌, ◌/◌, ◌%◌, ◌≤◌, ◌<◌, String, true, List, [], ◌∷◌, ◌≡◌, ◌==◌, leb, arith,
  All,
}
use native.Mathlib.Nat.{lt-div-mul-add}
use sqrl.Redis.Count.{
  Redis, num_buckets, get_bucket_size, get_bucket_time, get_expiry_seconds, fetch_key,
}
use sqrl.Redis.Count.Totals.{
  History, total, in_buckets, total_split, total_mono, bucket_time_lem, in_later_buckets,
  first_bucket, round_bounds,
}
use sqrl.Redis.Count.Laws.{bump_all, fetch_key-round_div}

tenth_of :
    (size window_ms : ℕ)
    → window_ms ≡ num_buckets * size
    → get_bucket_size window_ms num_buckets ≡ size
unfolding get_bucket_size
tenth_of size window_ms w = rw w (omega arith)

later_bumps_fit :
    (at start size window_ms : ℕ) (h : History)
    → 0 < size
    → window_ms ≡ num_buckets * size
    → at ≡ start + window_ms
    → All (λ b. b.0 ≤ at) h
    → All
        (λ b.
          leb (start / size * size + size) b.0 ≡ true
          → in_buckets (suc (start / size)) 10 (b.0 / size) ≡ true)
        h
later_bumps_fit at start size window_ms [] pos w a past = tt
later_bumps_fit at start size window_ms ((t, by) ∷ h) pos w a (le, past) = (
  λ late. in_later_buckets t at start size window_ms pos w a le late,
  later_bumps_fit at start size window_ms h pos w a past,
)

oldest_bumps_fit :
    (q size : ℕ) (h : History)
    → 0 < size
    → All (λ b. in_buckets q 11 (b.0 / size) ≡ true → leb (q * size) b.0 ≡ true) h
oldest_bumps_fit q size [] pos = tt
oldest_bumps_fit q size ((t, by) ∷ h) pos =
    (λ e. first_bucket t q size pos e, oldest_bumps_fit q size h pos)

-- For a window of ten buckets, where no bump is later than the request and no two buckets of the key
-- share a redis key: what `fetch` answers after the bumps, in whatever order they came, is at least
-- the bumps after the oldest bucket and at most those with the oldest bucket.
pub fetch_key-window :
    (redis : Redis) (redis_key : String → List ℕ → String) (window_ms : ℕ) (key : String) (size : ℕ)
    (h : History) (at : ℕ)
    → ((a b : ℕ) → redis_key key (window_ms ∷ a ∷ []) ≡ redis_key key (window_ms ∷ b ∷ []) → a ≡ b)
    → 0 < size
    → window_ms ≡ num_buckets * size
    → window_ms ≤ at
    → All (λ b. b.0 ≤ at) h
    → (total (λ t. leb (get_bucket_time (at - window_ms) size + size) t) h
        ≤ fetch_key redis redis_key at window_ms key
            (bump_all redis redis_key window_ms key h redis.empty))
      × (fetch_key redis redis_key at window_ms key
            (bump_all redis redis_key window_ms key h redis.empty)
          ≤ total (λ t. leb (get_bucket_time (at - window_ms) size) t) h)
fetch_key-window redis redis_key window_ms key size h at apart pos w le past =
    let start = at - window_ms in
    let q = start / size in
    let (kept, less, answer) =
      fetch_key-round_div redis redis_key window_ms key apart size pos (tenth_of size window_ms w) h
        at in
    let oldest = total (λ t. t / size == q) h in
    let later = total (λ t. in_buckets (suc q) 10 (t / size)) h in
    let (low, high) = round_bounds oldest kept later size pos less in
    let split = total_split (λ t. t / size) q 10 h in
    let from_later =
      total_mono (λ t. leb (q * size + size) t) (λ t. in_buckets (suc q) 10 (t / size)) h
        (later_bumps_fit at start size window_ms h pos w (omega arith) past) in
    let to_first =
      total_mono (λ t. in_buckets q 11 (t / size)) (λ t. leb (q * size) t) h
        (oldest_bumps_fit q size h pos) in
    rw (answer, bucket_time_lem start size) (omega arith, omega arith)

-- A bucket lives as long as a request may read it: from a bump on, the expiry in seconds lasts until
-- every request whose oldest bucket is not later than the bucket of the bump.
pub get_expiry_seconds-lasts :
    (at t window_ms size : ℕ)
    → 0 < size
    → get_bucket_time (at - window_ms) size ≤ get_bucket_time t size
    → at < t + 1000 * get_expiry_seconds window_ms size
unfolding get_expiry_seconds get_bucket_time
get_expiry_seconds-lasts at t window_ms size pos le =
    let room : at - window_ms < (at - window_ms) / size * size + size = lt-div-mul-add pos in
    let same = bucket_time_lem (at - window_ms) size in
    let bucket : t - t % size ≤ t = omega arith in
    let first : (at - window_ms) / size * size ≤ t = omega (arith, same) in omega arith
