-- ===== src/Semaphore.antt =====
-- packages/sqrl/src/jslib/Semaphore.ts. The promises that `increment` hands out while the limit is
-- reached are numbers; what an operation emits or resolves is the list of its events, in order.
pub mod System
pub mod Laws
pub mod Tests
use sqrl.Prelude.{
  ℕ, zero, suc, ◌+◌, ◌-◌, Bool, true, false, List, [], ◌∷◌, ◌++◌, ◌&&◌, Option, none, some, ltb,
  leb, length, if◌then◌else◌,
}

-- `count` may be any integer; `negsuc n` is -(n + 1).
pub data ℤ : Type 0 where
  pos negsuc : ℕ → ℤ

abbrev pub incr : ℤ → ℤ
incr (pos n) = pos (suc n)
incr (negsuc zero) = pos zero
incr (negsuc (suc n)) = negsuc n

abbrev pub decr : ℤ → ℤ
decr (pos zero) = negsuc zero
decr (pos (suc n)) = pos n
decr (negsuc n) = negsuc (suc n)

abbrev pub is_zero : ℤ → Bool
is_zero (pos zero) = true
is_zero _ = false

-- `max === null || count < max`, and the same with `<=`.
abbrev pub below_max : ℤ → Option ℕ → Bool
below_max count none = true
below_max (negsuc n) (some m) = true
below_max (pos n) (some m) = ltb n m

abbrev pub within_max : ℤ → Option ℕ → Bool
within_max count none = true
within_max (negsuc n) (some m) = true
within_max (pos n) (some m) = leb n m

pub data Event : Type 0 where
  change : ℤ → Event
  resume : ℕ → Event
  reached_zero : Event

pub record Semaphore : Type 0 where
  pub count : ℤ
  pub max : Option ℕ
  -- `_resolvers`, the oldest first.
  pub resolvers : List ℕ
  -- Whether `_zeroPromiseResolver` is set.
  pub zero_awaited : Bool

-- The constructor: a limit of 0 is no limit (`options.max || null`).
unfoldable pub new_semaphore : Option ℕ → Semaphore
new_semaphore none = record { count = pos 0; max = none; resolvers = []; zero_awaited = false }
new_semaphore (some zero) = record {
  count = pos 0;
  max = none;
  resolvers = [];
  zero_awaited = false;
}
new_semaphore (some (suc m)) = record {
  count = pos 0;
  max = some (suc m);
  resolvers = [];
  zero_awaited = false;
}

-- `increment`, where `promise` is the new promise if one is needed; the answer is whether the
-- caller may go on at once.
unfoldable pub increment : ℕ → Semaphore → Semaphore × List Event × Bool
increment promise s =
    if below_max s.count s.max
    then (record s { count = incr s.count }, change (incr s.count) ∷ [], true)
    else (record s { resolvers = s.resolvers ++ promise ∷ [] }, [], false)

-- The rest of `decrement`, when no waiter takes the place over.
unfoldable pub release_place : Semaphore → Semaphore × List Event
release_place s =
    if is_zero (decr s.count) && s.zero_awaited
    then (
      record s { count = decr s.count; zero_awaited = false },
      change (decr s.count) ∷ reached_zero ∷ [],
    )
    else (record s { count = decr s.count }, change (decr s.count) ∷ [])

abbrev pub pass_place : List ℕ → Semaphore → Semaphore × List Event
pass_place [] s = release_place s
pass_place (r ∷ rs) s =
    if within_max s.count s.max
    then (record s { resolvers = rs }, resume r ∷ [])
    else release_place s

-- `decrement`.
unfoldable pub decrement : Semaphore → Semaphore × List Event
unfolding release_place
decrement s = pass_place s.resolvers s

-- The loop of `setMax`, on the waiters: the new count, who still waits, and the events.
unfoldable pub admit : Option ℕ → ℤ → List ℕ → ℤ × List ℕ × List Event
admit limit count [] = (count, [], [])
admit limit count (r ∷ rs) =
    let rest = admit limit (incr count) rs in
    if below_max count limit
    then (rest.0, rest.1, resume r ∷ change (incr count) ∷ rest.2)
    else (count, r ∷ rs, [])

-- `setMax`.
unfoldable pub set_max : Option ℕ → Semaphore → Semaphore × List Event
unfolding admit
set_max limit s =
    let (count, waiting, events) = admit limit s.count s.resolvers in
    (record s { count = count; max = limit; resolvers = waiting }, events)

-- `getRequestedCount`.
unfoldable pub get_requested_count : Semaphore → ℤ
get_requested_count s = elim s.count [
  | pos n ↦ pos (n + length s.resolvers)
  | negsuc n ↦
      if ltb n (length s.resolvers)
      then pos (length s.resolvers - suc n)
      else negsuc (n - length s.resolvers)
]

-- `waitForZero`: whether the count is zero already; if not, its reaching zero is awaited.
unfoldable pub wait_for_zero : Semaphore → Semaphore × Bool
wait_for_zero s = if is_zero s.count then (s, true) else (record s { zero_awaited = true }, false)
