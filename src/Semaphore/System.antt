-- ===== src/Semaphore/System.antt =====
-- The semaphore of packages/sqrl/src/jslib/Semaphore.ts under the use that `withLock` makes of it,
-- with the timeout of the promises that `increment` hands out: bluebird rejects the promise, and
-- the semaphore keeps its resolver.
use sqrl.Prelude.{ℕ, ◌+◌, ◌-◌, ◌<◌, Bool, false, List, [], ◌∷◌, ◌||◌, ◌==◌, if◌then◌else◌, Option}
use sqrl.Semaphore.{Semaphore, Event, change, resume, reached_zero, increment, decrement, set_max}

pub record System : Type 0 where
  pub semaphore : Semaphore
  -- How many calls of `withLock` have a place and have not called their coroutine yet.
  pub entered : ℕ
  -- How many coroutines of `withLock` run.
  pub running : ℕ
  -- How many coroutines threw or brought no promise when they were called: nothing is attached to
  -- their end, and their places are never given back.
  pub abandoned : ℕ
  -- The promises that timed out; no coroutine is started for them.
  pub expired : List ℕ
  -- How many places went to promises that had timed out.
  pub leaked : ℕ

unfoldable pub is_expired : List ℕ → ℕ → Bool
is_expired [] p = false
is_expired (q ∷ qs) p = q == p || is_expired qs p

-- What the events of an operation start: resuming a live promise goes on to its coroutine, resuming a
-- promise that timed out runs nothing, so that nothing will give the place back.
unfoldable pub deliver : List Event → System → System
unfolding is_expired
deliver [] w = w
deliver (resume p ∷ es) w = deliver es (
    if is_expired w.expired p
    then record w { leaked = w.leaked + 1 }
    else record w { entered = w.entered + 1 })
deliver (change _ ∷ es) w = deliver es w
deliver (reached_zero ∷ es) w = deliver es w

-- `withLock` up to the call of the coroutine, or to the wait.
unfoldable pub enter : ℕ → System → System
unfolding increment
enter p w =
    let (s, _, granted) = increment p w.semaphore in
    if granted
    then record w { semaphore = s; entered = w.entered + 1 }
    else record w { semaphore = s }

-- The coroutine is called, and brings a promise.
unfoldable pub begin : System → System
begin w = record w { entered = w.entered - 1; running = w.running + 1 }

-- The coroutine is called, and throws or brings no promise.
unfoldable pub fail : System → System
fail w = record w { entered = w.entered - 1; abandoned = w.abandoned + 1 }

-- The end of the promise of a coroutine.
unfoldable pub leave : System → System
unfolding decrement deliver
leave w =
    let (s, events) = decrement w.semaphore in
    deliver events (record w { semaphore = s; running = w.running - 1 })

unfoldable pub change_max : Option ℕ → System → System
unfolding set_max deliver
change_max limit w =
    let (s, events) = set_max limit w.semaphore in deliver events (record w { semaphore = s })

pub data Step (w : System) : System → Type 0 where
  entering : (p : ℕ) → Step w (enter p w)
  beginning : 0 < w.entered → Step w (begin w)
  failing : 0 < w.entered → Step w (fail w)
  leaving : 0 < w.running → Step w (leave w)
  timing_out : (p : ℕ) → Step w (record w { expired = p ∷ w.expired })

-- Runs in which the limit stays as it is.
pub data Reach (w : System) : System → Type 0 where
  here : Reach w w
  next : {v u : System} → Reach w v → Step v u → Reach w u

abbrev pub start : Semaphore → System
start s = record {
  semaphore = s;
  entered = 0;
  running = 0;
  abandoned = 0;
  expired = [];
  leaked = 0;
}
