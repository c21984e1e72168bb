-- ===== src/Redis/RateLimit/Tests.antt =====
-- Requests on a bucket of five tokens, with one refilled every ten milliseconds.
use sqrl.Prelude.{ℕ, ◌+◌, ◌*◌, ◌≡◌, ◌≤◌, false, List, [], ◌∷◌, some, refl, arith}
use sqrl.Redis.RateLimit.{Bucket, Limits, refills_due, expiry, rate_limit_fetch}
use sqrl.Redis.RateLimit.Laws.{
  IsBucket, rate_limit_fetch-IsBucket, run, latest, run-paid, expiry-fills,
}

abbrev five : Limits
five = record { max_amount = 5; refill_time = 10; refill_amount = 1; strict = false }

abbrev low : Bucket
low = record { tokens = 1; last_refill = 100 }

-- Two refills are due; the bucket keeps the rest of the time for the next one.
fetch_test :
    rate_limit_fetch five 3 129 (some low) ≡ (some (record { tokens = 0; last_refill = 120 }), 3)
unfolding rate_limit_fetch
fetch_test = refl

rate_limit_fetch-IsBucket_example :
    IsBucket five (rate_limit_fetch five 3 129 (some low)).0
    × ((rate_limit_fetch five 3 129 (some low)).1 ≤ 5)
    × (rate_limit_fetch five 0 129 (some low) ≡ (some low, 1))
rate_limit_fetch-IsBucket_example = rate_limit_fetch-IsBucket five 3 129 (some low) (omega arith)

abbrev requests : List (ℕ × ℕ)
requests = (3, 129) ∷ (1, 90) ∷ (2, 150) ∷ []

run-paid_example :
    (final : Bucket) × (refills : ℕ) × ((run five requests (some low)).0 ≡ some final)
    × ((run five requests (some low)).1 + final.tokens ≤ low.tokens + refills * five.refill_amount)
    × (low.last_refill + refills * five.refill_time ≤ final.last_refill)
    × (final.last_refill ≤ latest low.last_refill requests)
run-paid_example = run-paid five requests low (omega arith)

short : 129 + expiry five low ≤ 200
unfolding expiry
short = omega arith

expiry-fills_example : five.max_amount ≤ low.tokens + refills_due five 200 low * five.refill_amount
expiry-fills_example = expiry-fills five low 129 200 (omega arith) (omega arith) (omega arith) short
