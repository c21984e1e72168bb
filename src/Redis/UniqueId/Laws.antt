-- ===== src/Redis/UniqueId/Laws.antt =====
-- Calls of `fetch` for one key and the numbers of ids, of RedisUniqueId.ts
-- (packages/sqrl-redis-functions).
use sqrl.Prelude.{
  ℕ, zero, suc, ◌-◌, ◌^◌, ◌≤◌, ◌<◌, List, [], ◌∷◌, ◌&&◌, Option, none, some, Result, ok, ensure,
  bind-eq-ok, ltb, leb, get_elem?, set, ◌≡◌, ◌≢◌, ◌>>=◌, refl, arith, All,
}
use sqrl.Where.Overlap.Sets.{ensured}
use sqrl.Redis.UniqueId.{
  timestamp_bits, timestamp_epoch, remainder_bits, SimpleId, new_simple_id, get_big_int, Fetcher,
  starting, created, raced, finished, broken, fetch_step, Fetch, move, move_found, interleave,
}

-- A call has ended only with the id that is saved, and a refused SET means that one is.
abbrev pub Agrees : Option SimpleId → Fetcher → Type 0
Agrees saved starting = Unit
Agrees saved (created id) = Unit
Agrees saved raced = (id : SimpleId) × (saved ≡ some id)
Agrees saved (finished id) = saved ≡ some id
Agrees saved broken = ⊥

fetch_step-Agrees :
    (fresh : SimpleId) (saved : Option SimpleId) (f : Fetcher)
    → Agrees saved f
    → Agrees (fetch_step fresh saved f).0 (fetch_step fresh saved f).1
unfolding fetch_step
fetch_step-Agrees fresh none starting h = tt
fetch_step-Agrees fresh (some saved) starting h = refl
fetch_step-Agrees fresh none (created id) h = refl
fetch_step-Agrees fresh (some saved) (created id) h = (saved, refl)
fetch_step-Agrees fresh none raced (id, h) = cc
fetch_step-Agrees fresh (some saved) raced h = refl
fetch_step-Agrees fresh saved (finished id) h = h
fetch_step-Agrees fresh saved broken h = h

-- A step of one call leaves the others right: an id that is saved stays.
fetch_step-Agrees_beside :
    (fresh : SimpleId) (saved : Option SimpleId) (f g : Fetcher)
    → Agrees saved g
    → Agrees (fetch_step fresh saved f).0 g
unfolding fetch_step
fetch_step-Agrees_beside fresh saved f starting h = tt
fetch_step-Agrees_beside fresh saved f (created id) h = tt
fetch_step-Agrees_beside fresh none f raced (id, h) = cc
fetch_step-Agrees_beside fresh (some saved) starting raced h = h
fetch_step-Agrees_beside fresh (some saved) (created id) raced h = h
fetch_step-Agrees_beside fresh (some saved) raced raced h = h
fetch_step-Agrees_beside fresh (some saved) (finished id) raced h = h
fetch_step-Agrees_beside fresh (some saved) broken raced h = h
fetch_step-Agrees_beside fresh none f (finished id) h = cc
fetch_step-Agrees_beside fresh (some saved) starting (finished id) h = h
fetch_step-Agrees_beside fresh (some saved) (created other) (finished id) h = h
fetch_step-Agrees_beside fresh (some saved) raced (finished id) h = h
fetch_step-Agrees_beside fresh (some saved) (finished other) (finished id) h = h
fetch_step-Agrees_beside fresh (some saved) broken (finished id) h = h
fetch_step-Agrees_beside fresh saved f broken h = h

fetch_step-All :
    (fresh : SimpleId) (saved : Option SimpleId) (f : Fetcher) (fs : List Fetcher)
    → All (Agrees saved) fs
    → All (Agrees (fetch_step fresh saved f).0) fs
fetch_step-All fresh saved f [] h = tt
fetch_step-All fresh saved f (g ∷ fs) (here, more) =
    (fetch_step-Agrees_beside fresh saved f g here, fetch_step-All fresh saved f fs more)

All-set :
    (P : Fetcher → Type 0) (fs : List Fetcher) (i : ℕ) (f : Fetcher)
    → All P fs
    → P f
    → All P (set fs i f)
All-set P [] i f h p = tt
All-set P (g ∷ fs) zero f (here, more) p = (p, more)
All-set P (g ∷ fs) (suc i) f (here, more) p = (here, All-set P fs i f more p)

All_at :
    (P : Fetcher → Type 0) (fs : List Fetcher) (i : ℕ) (f : Fetcher)
    → All P fs
    → get_elem? fs i ≡ some f
    → P f
All_at P [] i f h e = cc
All_at P (g ∷ fs) zero f (here, more) e = let same : g ≡ f = cc in rw (← same) here
All_at P (g ∷ fs) (suc i) f (here, more) e = All_at P fs i f more e

move_found-Agrees :
    (fresh : SimpleId) (i : ℕ) (found : Option Fetcher) (w : Fetch)
    → get_elem? w.fetchers i ≡ found
    → All (Agrees w.saved) w.fetchers
    → All (Agrees (move_found fresh i found w).saved) (move_found fresh i found w).fetchers
move_found-Agrees fresh i none w e h = h
move_found-Agrees fresh i (some f) w e h =
    All-set (Agrees (fetch_step fresh w.saved f).0) w.fetchers i (fetch_step fresh w.saved f).1
      (fetch_step-All fresh w.saved f w.fetchers h)
      (fetch_step-Agrees fresh w.saved f (All_at (Agrees w.saved) w.fetchers i f h e))

interleave-Agrees :
    (moves : List (SimpleId × ℕ)) (w : Fetch)
    → All (Agrees w.saved) w.fetchers
    → All (Agrees (interleave moves w).saved) (interleave moves w).fetchers
unfolding interleave
interleave-Agrees [] w h = h
interleave-Agrees ((fresh, i) ∷ moves) w h =
    interleave-Agrees moves (move fresh i w)
      (move_found-Agrees fresh i (get_elem? w.fetchers i) w refl h)

starting_agree :
    (saved : Option SimpleId) (fs : List Fetcher)
    → All (λ f. f ≡ starting) fs
    → All (Agrees saved) fs
starting_agree saved [] h = tt
starting_agree saved (f ∷ fs) (here, more) = (rw here tt, starting_agree saved fs more)

-- From calls that have not begun, in whatever order their commands reach redis: no call meets the
-- broken invariant, and any two calls that have ended bring the same id.
pub interleave-agree :
    (moves : List (SimpleId × ℕ)) (w : Fetch)
    → All (λ f. f ≡ starting) w.fetchers
    → ((k : ℕ) → get_elem? (interleave moves w).fetchers k ≢ some broken)
      × ((i j : ℕ) (a b : SimpleId)
          → get_elem? (interleave moves w).fetchers i ≡ some (finished a)
          → get_elem? (interleave moves w).fetchers j ≡ some (finished b)
          → a ≡ b)
interleave-agree moves w fresh =
    let agree = interleave-Agrees moves w (starting_agree w.saved w.fetchers fresh) in
    let after = interleave moves w in
    (
      λ k e. All_at (Agrees after.saved) after.fetchers k broken agree e,
      λ i j a b at_i at_j.
          let saved_a = All_at (Agrees after.saved) after.fetchers i (finished a) agree at_i in
          let saved_b = All_at (Agrees after.saved) after.fetchers j (finished b) agree at_j in cc,
    )

new_simple_id-ok :
    (t r : ℕ) (id : SimpleId)
    → new_simple_id t r ≡ ok id
    → (timestamp_epoch ≤ t)
      × (r < 2 ^ remainder_bits)
      × (record { time_ms = t; remainder = r } ≡ id)
unfolding new_simple_id
new_simple_id-ok t r id h =
    let answer : Result SimpleId = ok (record { time_ms = t; remainder = r }) in
    let (_, late, h1) =
      bind-eq-ok
        (ensure (leb timestamp_epoch t && ltb (t - timestamp_epoch) (2 ^ timestamp_bits)) _)
        (λ _. ensure (ltb r (2 ^ remainder_bits)) _ >>= λ _. answer) h in
    let (_, small, h2) = bind-eq-ok (ensure (ltb r (2 ^ remainder_bits)) _) (λ _. answer) h1 in
    let late' =
      ensured (leb timestamp_epoch t && ltb (t - timestamp_epoch) (2 ^ timestamp_bits)) _ late in
    let small' = ensured (ltb r (2 ^ remainder_bits)) _ small in (ground arith, ground arith, cc)

-- Two ids that the constructor accepts have different numbers, unless they are the same; and each
-- number needs more than the 64 bits of the buffer that it is written to.
pub get_big_int-injective :
    (t u r s : ℕ) (a b : SimpleId)
    → new_simple_id t r ≡ ok a
    → new_simple_id u s ≡ ok b
    → (get_big_int a ≡ get_big_int b → a ≡ b) × (2 ^ 64 ≤ get_big_int a)
unfolding get_big_int
get_big_int-injective t u r s a b h k =
    let (late_a, small_a, is_a) = new_simple_id-ok t r a h in
    let (late_b, small_b, is_b) = new_simple_id-ok u s b k in
    rw (← is_a, ← is_b)
      (
        λ e.
            let same_t : t ≡ u = omega arith in
            let same_r : r ≡ s = omega arith in rw (same_t, same_r) refl,
        omega arith,
      )
