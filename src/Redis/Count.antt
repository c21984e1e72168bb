-- ===== src/Redis/Count.antt =====
-- packages/sqrl-redis-functions/src/services/RedisCountService.ts and BucketedKeys.ts: counts over a
-- window, kept in redis in buckets of a tenth of the window. Redis itself and the hash that makes
-- its keys are parameters. Times are counted from an origin before every window, fractions are
-- exact, and a window of less than 10 milliseconds, whose buckets have no length, is left out.
pub mod Totals
pub mod Laws
pub mod Window
pub mod Tests
use sqrl.Prelude.{
  ℕ, zero, suc, ◌+◌, ◌-◌, ◌*◌, ◌/◌, ◌%◌, String, List, [], ◌∷◌, map, Option, none, some, ◌≡◌,
  str_eq, if◌then◌else◌,
}
use sqrl.Redis.RateLimit.{ceil_div}

abbrev pub or_zero : Option ℕ → ℕ
or_zero none = 0
or_zero (some n) = n

-- What the services use of redis (`RedisInterface`), with the documented behaviour of INCRBY, which
-- starts a missing key at 0, and of MGET.
pub record Redis : Type 1 where
  pub Store : Type 0
  pub empty : Store
  pub get : String → Store → Option ℕ
  pub increment : String → ℕ → Store → Store
  pub mget_numbers : List String → Store → List (Option ℕ)
  pub get-empty : (k : String) → get k empty ≡ none
  pub get-increment :
      (k asked : String) (n : ℕ) (s : Store)
      → or_zero (get asked (increment k n s))
        ≡ or_zero (get asked s) + (if str_eq k asked then n else 0)
  pub mget-map : (ks : List String) (s : Store) → mget_numbers ks s ≡ map (λ k. get k s) ks

abbrev pub num_buckets : ℕ
num_buckets = 10

-- `getBucketSize`.
unfoldable pub get_bucket_size : (window_ms num : ℕ) → ℕ
get_bucket_size window_ms num = window_ms / num

-- `getBucketTimeForTimeMs`.
unfoldable pub get_bucket_time : (time_ms bucket_size : ℕ) → ℕ
get_bucket_time time_ms bucket_size = time_ms - time_ms % bucket_size

-- `getCurrentBucketExpirySeconds`.
unfoldable pub get_expiry_seconds : (window_ms bucket_size : ℕ) → ℕ
get_expiry_seconds window_ms bucket_size = ceil_div (window_ms + bucket_size) 1000

-- `getWindowStart`.
unfoldable pub get_window_start : (time_ms window_ms : ℕ) → ℕ
get_window_start time_ms window_ms = time_ms - window_ms

-- `Math.round` of a quotient.
abbrev pub round_div : ℕ → ℕ → ℕ
round_div a b = (2 * a + b) / (2 * b)

abbrev pub sum : List (Option ℕ) → ℕ
sum [] = 0
sum (v ∷ vs) = or_zero v + sum vs

-- The first value counts for the part of its bucket that lies in the window.
unfoldable pub weigh : (kept bucket_size : ℕ) → List (Option ℕ) → ℕ
weigh kept bucket_size [] = 0
weigh kept bucket_size (v ∷ vs) = round_div (or_zero v * kept + bucket_size * sum vs) bucket_size

-- `redis_key` is `createRedisKey` with the data set and the prefix of the service: the hash of a key
-- and of the numbers that follow it.
module _ (redis : Redis) (redis_key : String → List ℕ → String) where
  -- `Array.from` of `getAllBucketKeys`, from the bucket `i` on.
  unfoldable pub bucket_keys : (key : String) (window_ms start size i count : ℕ) → List String
  bucket_keys key window_ms start size i zero = []
  bucket_keys key window_ms start size i (suc count) =
      redis_key key (window_ms ∷ (start + i * size) ∷ [])
      ∷ bucket_keys key window_ms start size (suc i) count

  -- `getAllBucketKeys`.
  unfoldable pub get_all_bucket_keys : (key : String) (time_ms window_ms num : ℕ) → List String
  unfolding bucket_keys
  get_all_bucket_keys key time_ms window_ms num =
      let size = get_bucket_size window_ms num in
      let start = get_bucket_time (get_window_start time_ms window_ms) size in
      bucket_keys key window_ms start size 0 (num + 1)

  -- What `bump` does for one key.
  unfoldable pub bump_key :
      (at : ℕ) (window_ms : Option ℕ) (by : ℕ) (key : String) → redis.Store → redis.Store
  bump_key at none by key s = redis.increment (redis_key key []) by s
  bump_key at (some window_ms) by key s =
      let bucket = get_bucket_time at (get_bucket_size window_ms num_buckets) in
      redis.increment (redis_key key (window_ms ∷ bucket ∷ [])) by s

  -- `bump`.
  unfoldable pub bump :
      (at : ℕ) (window_ms : Option ℕ) (by : ℕ) (keys : List String) → redis.Store → redis.Store
  unfolding bump_key
  bump at window_ms by [] s = s
  bump at window_ms by (key ∷ keys) s = bump at window_ms by keys (bump_key at window_ms by key s)

  -- What `fetch` does for one key and a window.
  unfoldable pub fetch_key : (at window_ms : ℕ) (key : String) → redis.Store → ℕ
  unfolding get_all_bucket_keys weigh
  fetch_key at window_ms key s =
      let size = get_bucket_size window_ms num_buckets in
      let start_time = get_window_start at window_ms in
      let excluded = start_time - get_bucket_time start_time size in
      weigh (size - excluded) size
        (redis.mget_numbers (get_all_bucket_keys key at window_ms num_buckets) s)

  -- `fetch`; a missing total is null.
  unfoldable pub fetch :
      (at : ℕ) (window_ms : Option ℕ) (keys : List String) → redis.Store → List (Option ℕ)
  unfolding fetch_key
  fetch at none keys s = redis.mget_numbers (map (λ key. redis_key key []) keys) s
  fetch at (some window_ms) keys s = map (λ key. some (fetch_key at window_ms key s)) keys
