-- ===== src/Redis/UniqueId/Tests.antt =====
-- Tests and witnesses for unique ids.
use sqrl.Prelude.{ℕ, ◌^◌, ◌≤◌, List, [], ◌∷◌, none, some, err, failed, get_elem?, ◌≡◌, ◌≢◌, refl}
use sqrl.Redis.UniqueId.{
  SimpleId, new_simple_id, get_big_int, starting, finished, broken, Fetch, fetch_step, interleave,
}
use sqrl.Redis.UniqueId.Laws.{interleave-agree, get_big_int-injective}

abbrev first_id : SimpleId
first_id = record { time_ms = 1600000000000; remainder = 1 }

abbrev second_id : SimpleId
second_id = record { time_ms = 1600000000000; remainder = 2 }

abbrev two_calls : Fetch
two_calls = record { saved = none; fetchers = starting ∷ starting ∷ [] }

-- Both calls find nothing, and the second one saves first.
abbrev race : List (SimpleId × ℕ)
race = (first_id, 0) ∷ (second_id, 1) ∷ (second_id, 1) ∷ (first_id, 0) ∷ (first_id, 0) ∷ []

race_test :
    interleave race two_calls
    ≡ record { saved = some second_id; fetchers = finished second_id ∷ finished second_id ∷ [] }
unfolding interleave fetch_step
race_test = refl

early_test : new_simple_id 1000 1 ≡ err (failed "timeMs value is invalid")
unfolding new_simple_id
early_test = refl

interleave-agree_example :
    ((k : ℕ) → get_elem? (interleave race two_calls).fetchers k ≢ some broken)
    × ((i j : ℕ) (a b : SimpleId)
        → get_elem? (interleave race two_calls).fetchers i ≡ some (finished a)
        → get_elem? (interleave race two_calls).fetchers j ≡ some (finished b)
        → a ≡ b)
interleave-agree_example = interleave-agree race two_calls (refl, (refl, tt))

get_big_int-injective_example :
    (get_big_int first_id ≡ get_big_int second_id → first_id ≡ second_id)
    × (2 ^ 64 ≤ get_big_int first_id)
unfolding new_simple_id
get_big_int-injective_example =
    get_big_int-injective 1600000000000 1600000000000 1 2 first_id second_id refl refl
