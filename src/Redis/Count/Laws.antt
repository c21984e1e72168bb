-- ===== src/Redis/Count/Laws.antt =====
-- What `fetch` of RedisCountService (packages/sqrl-redis-functions) counts.
use sqrl.Prelude.{
  ℕ, zero, suc, ◌+◌, ◌-◌, ◌*◌, ◌/◌, ◌≤◌, ◌<◌, String, List, [], ◌∷◌, map, Option, some, ◌≡◌, refl,
  sym, ap, ◌∙◌, str_eq, ◌==◌, arith, eq_iff, Bool-cases, inl, inr,
}
use sqrl.Redis.Count.{
  Redis, or_zero, num_buckets, get_bucket_size, get_bucket_time, get_window_start, round_div, sum,
  weigh, bucket_keys, get_all_bucket_keys, bump_key, fetch_key,
}
use sqrl.Redis.Count.Totals.{
  History, total, in_buckets, total_split, total_empty, total_ext, eq_of_test, bucket_time_lem,
  bucket_test,
}

-- All bumps of a history.
abbrev pub bump_all :
    (redis : Redis) → (String → List ℕ → String) → ℕ → String → History → redis.Store → redis.Store
bump_all redis redis_key window_ms key [] s = s
bump_all redis redis_key window_ms key ((at, by) ∷ h) s =
    bump_all redis redis_key window_ms key h (bump_key redis redis_key at (some window_ms) by key s)

module _ (redis : Redis) (redis_key : String → List ℕ → String) (window_ms : ℕ) (key : String)
    (apart : (a b : ℕ)
      → redis_key key (window_ms ∷ a ∷ []) ≡ redis_key key (window_ms ∷ b ∷ [])
      → a ≡ b) where
  key_test :
      (a b : ℕ)
      → str_eq (redis_key key (window_ms ∷ a ∷ [])) (redis_key key (window_ms ∷ b ∷ [])) ≡ (a == b)
  key_test a b =
      elim (Bool-cases
        (str_eq (redis_key key (window_ms ∷ a ∷ [])) (redis_key key (window_ms ∷ b ∷ [])))) [
          | inl same ↦
              let e : a ≡ b = apart a b ((eq_iff _ _).0 same) in rw (same, e) (ground arith)
          | inr other ↦ elim (Bool-cases (a == b)) [
            | inl t ↦
                let e : a ≡ b = eq_of_test a b t in
                cc ((eq_iff _ _).1 (ap (λ b. redis_key key (window_ms ∷ b ∷ [])) e))
            | inr t ↦ rw (other, t) refl
          ]
        ]

  -- What a bucket holds after a history.
  bump_all-get :
      (h : History) (bucket : ℕ) (s : redis.Store)
      → or_zero (
          redis.get
            (redis_key key (window_ms ∷ bucket ∷ []))
            (bump_all redis redis_key window_ms key h s))
        ≡ or_zero (redis.get (redis_key key (window_ms ∷ bucket ∷ [])) s)
          + total (λ t. get_bucket_time t (get_bucket_size window_ms num_buckets) == bucket) h
  unfolding bump_key
  bump_all-get [] bucket s = omega arith
  bump_all-get ((at, by) ∷ h) bucket s =
      let now = get_bucket_time at (get_bucket_size window_ms num_buckets) in
      bump_all-get h bucket (bump_key redis redis_key at (some window_ms) by key s)
      ∙ rw
          (
            redis.get-increment (redis_key key (window_ms ∷ now ∷ []))
                (redis_key key (window_ms ∷ bucket ∷ [])) by s,
            key_test now bucket,
          )
          (omega arith)

  module _ (size : ℕ) (pos : 0 < size) (tenth : get_bucket_size window_ms num_buckets ≡ size)
      (h : History) where
    abbrev values : List String → List (Option ℕ)
    values ks = map (λ k. redis.get k (bump_all redis redis_key window_ms key h redis.empty)) ks

    -- The bucket of a number holds the bumps of its time.
    bucket_value :
        (q : ℕ)
        → or_zero (
            redis.get
              (redis_key key (window_ms ∷ (q * size) ∷ []))
              (bump_all redis redis_key window_ms key h redis.empty))
          ≡ total (λ t. t / size == q) h
    bucket_value q =
        bump_all-get h (q * size) redis.empty
        ∙ rw (redis.get-empty (redis_key key (window_ms ∷ (q * size) ∷ [])), tenth)
            (omega (
              arith,
              total_ext (λ t. get_bucket_time t size == q * size) (λ t. t / size == q) h
                  (λ t. bucket_test t size q pos),
            ))

    bucket_keys-sum :
        (q i count : ℕ)
        → sum (values (bucket_keys redis redis_key key window_ms (q * size) size i count))
          ≡ total (λ t. in_buckets (q + i) count (t / size)) h
    unfolding bucket_keys
    bucket_keys-sum q i zero = sym (total_empty (λ t. t / size) (q + i) h)
    bucket_keys-sum q i (suc count) =
        let place : q * size + i * size ≡ (q + i) * size = grind arith in
        let next : q + suc i ≡ suc (q + i) = omega arith in
        rw (place, bucket_value (q + i), bucket_keys-sum q (suc i) count, next)
          (sym (total_split (λ t. t / size) (q + i) count h))

    weigh_keys :
        (q kept count : ℕ)
        → weigh kept size (
            redis.mget_numbers
              (bucket_keys redis redis_key key window_ms (q * size) size 0 (suc count))
              (bump_all redis redis_key window_ms key h redis.empty))
          ≡ round_div
              (total (λ t. t / size == q) h * kept
                + size * total (λ t. in_buckets (suc q) count (t / size)) h)
              size
    unfolding weigh bucket_keys
    weigh_keys q kept count =
        let place : q * size + 0 * size ≡ q * size = grind arith in
        let next : q + 1 ≡ suc q = omega arith in
        rw
          (
            redis.mget-map (bucket_keys redis redis_key key window_ms (q * size) size 0 (suc count))
                (bump_all redis redis_key window_ms key h redis.empty),
            place,
            bucket_value q,
            bucket_keys-sum q 1 count,
            next,
          )
          refl

    -- The oldest bucket's share and the other ten buckets.
    pub fetch_key-round_div :
        (at : ℕ)
        → (kept : ℕ) × (kept ≤ size)
          × (fetch_key redis redis_key at window_ms key
                (bump_all redis redis_key window_ms key h redis.empty)
              ≡ round_div
                  (total (λ t. t / size == (at - window_ms) / size) h * kept
                    + size
                      * total (λ t. in_buckets (suc ((at - window_ms) / size)) 10 (t / size)) h)
                  size)
    unfolding fetch_key get_all_bucket_keys get_window_start
    fetch_key-round_div at =
        let q = (at - window_ms) / size in
        let first : get_bucket_time (at - window_ms) size ≡ q * size =
          bucket_time_lem (at - window_ms) size in
        (
          size - (at - window_ms - q * size),
          omega arith,
          rw (tenth, first) (weigh_keys q (size - (at - window_ms - q * size)) 10),
        )
