-- ===== src/Semaphore/Laws.antt =====
-- What the semaphore keeps over every run.
use sqrl.Prelude.{
  ℕ, suc, ◌+◌, ◌-◌, ◌<◌, ◌≤◌, false, List, [], ◌∷◌, ◌++◌, Option, some, ◌≡◌, ◌≢◌, arith, refl, ap,
  Bool-cases, inl, inr,
}
use sqrl.Semaphore.{
  ℤ, pos, incr, Semaphore, Event, change, resume, reached_zero, increment, decrement, set_max,
  admit, new_semaphore, below_max,
}
use sqrl.Semaphore.System.{
  System, enter, begin, fail, leave, deliver, Step, entering, beginning, failing, leaving,
  timing_out, Reach, here, next, start,
}

-- The places taken: by calls and coroutines, and those that nobody gives back.
abbrev pub lost_places : System → ℕ
lost_places w = w.abandoned + w.leaked

abbrev pub taken_places : System → ℕ
taken_places w = w.entered + w.running + lost_places w

-- The count is the number of places taken; no more than the limit are; and whoever waits waits
-- because the limit is reached.
pub record IsSound (m : ℕ) (w : System) : Type 0 where
  pub counted : w.semaphore.count ≡ pos (taken_places w)
  pub limited : w.semaphore.max ≡ some m
  pub within : taken_places w ≤ m
  pub waiting : w.semaphore.resolvers ≢ [] → taken_places w ≡ m

enter-IsSound : (m p : ℕ) (w : System) → IsSound m w → IsSound m (enter p w)
unfolding enter
enter-IsSound m p w h = record {
  counted = ground arith;
  limited = ground arith;
  within = ground arith;
  waiting = ground arith;
}

leave-IsSound : (m : ℕ) (w : System) → IsSound m w → 0 < w.running → IsSound m (leave w)
unfolding leave
leave-IsSound m w h r = leave_by m w w.semaphore.resolvers refl h r
  where
    leave_by :
        (m : ℕ) (w : System) (waiters : List ℕ)
        → w.semaphore.resolvers ≡ waiters
        → IsSound m w
        → 0 < w.running
        → IsSound m (leave w)
    leave_by m w [] e h r = record {
      counted = ground arith;
      limited = ground arith;
      within = ground arith;
      waiting = ground arith;
    }
    leave_by m w (p ∷ ps) e h r = record {
      counted = ground arith;
      limited = ground arith;
      within = ground arith;
      waiting = ground arith;
    }

begin-IsSound : (m : ℕ) (w : System) → IsSound m w → 0 < w.entered → IsSound m (begin w)
unfolding begin
begin-IsSound m w h r = record {
  counted = ground arith;
  limited = h.limited;
  within = ground arith;
  waiting = ground arith;
}

fail-IsSound : (m : ℕ) (w : System) → IsSound m w → 0 < w.entered → IsSound m (fail w)
unfolding fail
fail-IsSound m w h r = record {
  counted = ground arith;
  limited = h.limited;
  within = ground arith;
  waiting = ground arith;
}

Step-IsSound : (m : ℕ) {w v : System} → Step w v → IsSound m w → IsSound m v
Step-IsSound m {w} (entering p) h = enter-IsSound m p w h
Step-IsSound m {w} (beginning r) h = begin-IsSound m w h r
Step-IsSound m {w} (failing r) h = fail-IsSound m w h r
Step-IsSound m {w} (leaving r) h = leave-IsSound m w h r
Step-IsSound m (timing_out p) h = record {
  counted = h.counted;
  limited = h.limited;
  within = h.within;
  waiting = h.waiting;
}

Reach-IsSound : (m : ℕ) {w v : System} → Reach w v → IsSound m w → IsSound m v
Reach-IsSound m here h = h
Reach-IsSound m (next r st) h = Step-IsSound m st (Reach-IsSound m r h)

start-IsSound : (m : ℕ) → IsSound (suc m) (start (new_semaphore (some (suc m))))
unfolding new_semaphore
start-IsSound m = record {
  counted = refl;
  limited = refl;
  within = omega arith;
  waiting = λ h. absurd (h refl);
}

-- Over every run of `withLock` calls, coroutines that throw or bring no promise, and timeouts, on a
-- new semaphore with a positive limit: the coroutines that run are never more than the limit; the
-- count is the calls that were let in and have not called their coroutine, plus the coroutines that
-- run, plus the places lost to coroutines that threw or brought no promise and to promises that had
-- timed out; and a promise waits only while the limit is reached.
pub with_lock-IsSound :
    (m : ℕ) {w : System}
    → Reach (start (new_semaphore (some (suc m)))) w
    → (w.running ≤ suc m) × IsSound (suc m) w
with_lock-IsSound m r = let h = Reach-IsSound (suc m) r (start-IsSound m) in (ground arith, h)

deliver-lost : (es : List Event) (w : System) → lost_places w ≤ lost_places (deliver es w)
unfolding deliver
deliver-lost [] w = omega arith
deliver-lost (resume p ∷ es) w = ground (
  arith,
  deliver-lost es (record w { leaked = w.leaked + 1 }),
  deliver-lost es (record w { entered = w.entered + 1 }),
)
deliver-lost (change _ ∷ es) w = deliver-lost es w
deliver-lost (reached_zero ∷ es) w = deliver-lost es w

leave-lost : (w : System) → lost_places w ≤ lost_places (leave w)
unfolding leave
leave-lost w =
    let (s, events) = decrement w.semaphore in
    deliver-lost events (record w { semaphore = s; running = w.running - 1 })

Step-lost : {w v : System} → Step w v → lost_places w ≤ lost_places v
unfolding enter begin fail
Step-lost {w} (entering p) = ground arith
Step-lost {w} (beginning r) = omega arith
Step-lost {w} (failing r) = omega arith
Step-lost {w} (leaving r) = leave-lost w
Step-lost (timing_out p) = omega arith

Reach-lost : {w v : System} → Reach w v → lost_places w ≤ lost_places v
Reach-lost here = omega arith
Reach-lost (next r st) = omega (arith, Reach-lost r, Step-lost st)

Reach-trans : {w v u : System} → Reach w v → Reach v u → Reach w u
Reach-trans r here = r
Reach-trans r (next q st) = next (Reach-trans r q) st

-- Once as many places are lost as the limit allows, be it to promises that had timed out or to
-- coroutines that threw or brought no promise: nothing runs and no call is let in in any later state,
-- and a new `increment` is made to wait.
pub leaked_semaphore_blocks :
    (m p : ℕ) {w v : System}
    → Reach (start (new_semaphore (some (suc m)))) w
    → lost_places w ≡ suc m
    → Reach w v
    → (v.running ≡ 0) × (v.entered ≡ 0) × ((increment p v.semaphore).2 ≡ false)
unfolding increment
leaked_semaphore_blocks m p {w} {v} r lost later =
    let h = Reach-IsSound (suc m) (Reach-trans r later) (start-IsSound m) in
    let kept = Reach-lost later in
    let none_runs : v.running ≡ 0 = omega (arith, h.within) in
    let none_enters : v.entered ≡ 0 = omega (arith, h.within) in
    (none_runs, none_enters, ground (arith, h.counted, h.limited, h.within))

-- Who is admitted when the limit changes.
abbrev pub advance : ℤ → List ℕ → ℤ
advance count [] = count
advance count (r ∷ rs) = advance (incr count) rs

abbrev pub admissions : ℤ → List ℕ → List Event
admissions count [] = []
admissions count (r ∷ rs) = resume r ∷ change (incr count) ∷ admissions (incr count) rs

admit_lem :
    (limit : Option ℕ) (count : ℤ) (rs : List ℕ)
    → (taken : List ℕ) × (rs ≡ taken ++ (admit limit count rs).1)
      × ((admit limit count rs).0 ≡ advance count taken)
      × ((admit limit count rs).2 ≡ admissions count taken)
      × ((admit limit count rs).1 ≢ [] → below_max (advance count taken) limit ≡ false)
unfolding admit
admit_lem limit count [] = ([], refl, refl, refl, λ h. absurd (h refl))
admit_lem limit count (r ∷ rs) = elim (Bool-cases (below_max count limit)) [
  | inl t ↦
      let (taken, split, counted, told, full) = admit_lem limit (incr count) rs in
      rw t (
        r ∷ taken,
        ap (λ l. r ∷ l) split,
        counted,
        ap (λ l. resume r ∷ change (incr count) ∷ l) told,
        full,
      )
  | inr t ↦ rw t ([], refl, refl, refl, λ _. t)
]

-- `setMax` lets the oldest waiters in, in their order and each with its own announcement, and the
-- others wait only if the new limit is reached by then.
pub set_max_lem :
    (limit : Option ℕ) (s : Semaphore)
    → (taken : List ℕ) × (s.resolvers ≡ taken ++ (set_max limit s).0.resolvers)
      × ((set_max limit s).0.count ≡ advance s.count taken)
      × ((set_max limit s).1 ≡ admissions s.count taken)
      × ((set_max limit s).0.max ≡ limit)
      × ((set_max limit s).0.resolvers ≢ [] → below_max (set_max limit s).0.count limit ≡ false)
unfolding set_max
set_max_lem limit s =
    let (taken, split, counted, told, full) = admit_lem limit s.count s.resolvers in
    (taken, split, counted, told, refl, λ h. rw counted (full h))
