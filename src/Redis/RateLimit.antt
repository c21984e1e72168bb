-- ===== src/Redis/RateLimit.antt =====
-- packages/sqrl-redis-functions/src/lua/rateLimitFetchLua.ts: the token bucket of `rateLimitFetchLua`
-- and of its in-memory replica `mockRateLimitFetch`. Amounts and times are non-negative integers,
-- and a refill time of 0, at which JavaScript's division gives no number, is left out.
pub mod Laws
pub mod Tests
use sqrl.Prelude.{ℕ, ◌+◌, ◌-◌, ◌*◌, ◌/◌, min, Bool, Option, none, some, ltb, ◌==◌, if◌then◌else◌}

-- What is stored under a key.
pub record Bucket : Type 0 where
  pub tokens : ℕ
  pub last_refill : ℕ

pub record Limits : Type 0 where
  pub max_amount : ℕ
  pub refill_time : ℕ
  pub refill_amount : ℕ
  pub strict : Bool

-- The bucket that a request starts from: a missing key is a full bucket.
abbrev pub read_bucket : Limits → ℕ → Option Bucket → Bucket
read_bucket limits at none = record { tokens = limits.max_amount; last_refill = at }
read_bucket limits at (some b) = b

-- The time of the request, no earlier than the last refill.
abbrev pub request_time : ℕ → Bucket → ℕ
request_time at b = if ltb at b.last_refill then b.last_refill else at

-- How many refills are due.
abbrev pub refills_due : Limits → ℕ → Bucket → ℕ
refills_due limits at b = (at - b.last_refill) / limits.refill_time

-- Tokens are added only where there are too few.
unfoldable pub refill : Limits → ℕ → ℕ → Bucket → Bucket
refill limits take at b =
    if ltb b.tokens take
    then record {
      tokens = min limits.max_amount (b.tokens + refills_due limits at b * limits.refill_amount);
      last_refill = b.last_refill + refills_due limits at b * limits.refill_time;
    }
    else b

-- The end of the function: what is stored (`none` where nothing is written) and the answer.
unfoldable pub take_tokens : Limits → ℕ → ℕ → Bucket → Option Bucket × ℕ
take_tokens limits take at b =
    if b.tokens == 0
    then (if limits.strict then (some (record b { last_refill = at }), 0) else (none, 0))
    else (some (record b { tokens = b.tokens - take }), b.tokens)

abbrev pub keep_unless {ℓ} : {A : Type ℓ} → Option A → Option A → Option A
keep_unless old none = old
keep_unless old (some b) = some b

-- `mockRateLimitFetch` on what its key holds: the key's new content and the answer.
unfoldable pub rate_limit_fetch : Limits → ℕ → ℕ → Option Bucket → Option Bucket × ℕ
unfolding refill take_tokens
rate_limit_fetch limits take at current =
    let b = read_bucket limits at current in
    let now = request_time at b in
    if take == 0
    then (current, b.tokens)
    else let (stored, answer) = take_tokens limits take now (refill limits take now b) in
      (keep_unless current stored, answer)

-- The expiry that the Lua script sets with the value, in milliseconds: the time in which the
-- bucket is full again. `ceil_div` is `math.ceil` of a quotient.
abbrev pub ceil_div : ℕ → ℕ → ℕ
ceil_div a b = (a + b - 1) / b

unfoldable pub expiry : Limits → Bucket → ℕ
expiry limits b = ceil_div (limits.max_amount - b.tokens) limits.refill_amount * limits.refill_time
