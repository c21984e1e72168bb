-- ===== src/Semaphore/Tests.antt =====
-- A semaphore with one place: the second caller times out, the first one ends, and the place is lost.
use sqrl.Prelude.{ℕ, ◌≡◌, ◌≤◌, refl, some, [], ◌∷◌, false, arith, ◌≢◌, ◌++◌, List}
use sqrl.Semaphore.{Semaphore, new_semaphore, pos, increment, set_max, below_max}
use sqrl.Semaphore.System.{
  System, start, enter, begin, fail, leave, Reach, here, next, entering, beginning, leaving,
  timing_out,
}
use sqrl.Semaphore.Laws.{
  IsSound, lost_places, with_lock-IsSound, leaked_semaphore_blocks, set_max_lem, advance,
  admissions,
}

abbrev one_place : System
one_place = start (new_semaphore (some 1))

abbrev waiting : System
waiting = enter 8 (begin (enter 7 one_place))

abbrev timed_out : System
timed_out = record waiting { expired = 8 ∷ waiting.expired }

entered_one : (enter 7 one_place).entered ≡ 1
unfolding enter new_semaphore
entered_one = refl

waiting_reached : Reach one_place timed_out
waiting_reached =
    next
      (next (next (next here (entering 7)) (beginning (omega (arith, entered_one)))) (entering 8))
      (timing_out 8)

timed_out_runs : timed_out.running ≡ 1
unfolding enter begin new_semaphore
timed_out_runs = refl

lost_reached : Reach one_place (leave timed_out)
lost_reached = next waiting_reached (leaving (omega (arith, timed_out_runs)))

lost : lost_places (leave timed_out) ≡ 1
unfolding enter begin leave new_semaphore
lost = refl

-- The one place is lost as well when the coroutine throws.
thrown_test : lost_places (fail (enter 7 one_place)) ≡ 1
unfolding enter fail new_semaphore
thrown_test = refl

with_lock-IsSound_example : (timed_out.running ≤ 1) × IsSound 1 timed_out
with_lock-IsSound_example = with_lock-IsSound 0 waiting_reached

leaked_semaphore_blocks_example :
    ((leave timed_out).running ≡ 0)
    × ((leave timed_out).entered ≡ 0)
    × ((increment 9 (leave timed_out).semaphore).2 ≡ false)
leaked_semaphore_blocks_example = leaked_semaphore_blocks 0 9 lost_reached lost here

abbrev crowded : Semaphore
crowded = record { count = pos 2; max = some 2; resolvers = 4 ∷ 5 ∷ []; zero_awaited = false }

set_max_lem_example :
    (taken : List ℕ) × (crowded.resolvers ≡ taken ++ (set_max (some 3) crowded).0.resolvers)
    × ((set_max (some 3) crowded).0.count ≡ advance crowded.count taken)
    × ((set_max (some 3) crowded).1 ≡ admissions crowded.count taken)
    × ((set_max (some 3) crowded).0.max ≡ some 3)
    × ((set_max (some 3) crowded).0.resolvers ≢ []
        → below_max (set_max (some 3) crowded).0.count (some 3) ≡ false)
set_max_lem_example = set_max_lem (some 3) crowded

set_max_test : (set_max (some 3) crowded).0.resolvers ≡ 5 ∷ []
unfolding set_max
set_max_test = refl
