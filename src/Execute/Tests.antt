-- ===== src/Execute/Tests.antt =====
-- Tests and witnesses for executions.
use sqrl.Prelude.{
  ℕ, zero, suc, ◌<◌, ◌≤◌, true, false, List, [], ◌∷◌, none, some, ok, err, failed, ◌≡◌, ◌⊎◌, refl,
  arith,
}
use sqrl.Value.{Value, number}
use sqrl.Execute.{
  Program, State, given, calculated, is_set, set_slot, callback_at, new_state, try_wait,
}
use sqrl.Execute.Running.{
  Running, advance, leave, resume, request, Move, advancing, leaving, resuming, Reach, here, moving,
  requesting, Moves, start,
}
use sqrl.Execute.Sound.{mem, distinct, total_cost, IsRanked}
use sqrl.Execute.Laws.{Reach-called_once}
use sqrl.Execute.Ends.{Reach-ends}
use sqrl.Execute.Ends.Weight.{weight}

-- An input, a feature that loads it, and one that loads both.
abbrev program : Program
program = record {
  names = "A" ∷ "B" ∷ "C" ∷ [];
  callbacks = none ∷ some (0 ∷ []) ∷ some (0 ∷ 1 ∷ []) ∷ [];
  slot_costs = some (1 ∷ 5 ∷ 7 ∷ []);
}

abbrev first_state : State
first_state = record {
  slots = set_slot 0 (given (number 4)) (λ _. none);
  current_cost = 0;
  called = [];
}

program-IsRanked : IsRanked (λ i. i) program
program-IsRanked zero loads e = cc
program-IsRanked (suc zero) loads e =
    let same : 0 ∷ [] ≡ loads = cc in rw (← same) ((omega arith, tt), (omega arith, tt))
program-IsRanked (suc (suc zero)) loads e =
    let same : 0 ∷ 1 ∷ [] ≡ loads = cc in
    rw (← same) ((omega arith, (omega arith, tt)), (omega arith, (omega arith, tt)))
program-IsRanked (suc (suc (suc i))) loads e = cc

begun : new_state program (("A", number 4) ∷ []) ≡ ok first_state
unfolding new_state
begun = refl

required_test : new_state program [] ≡ err (failed "Slot %s required for execution")
unfolding new_state
required_test = refl

twice_test :
    new_state program (("A", number 4) ∷ ("A", number 5) ∷ [])
    ≡ err (failed "setFeatures() cannot overwrite loaded slots")
unfolding new_state
twice_test = refl

-- The first slot is never waited for.
try_wait_test : try_wait program "A" ≡ []
unfolding try_wait
try_wait_test = refl

-- The third slot is asked for, its loop pauses before the second slot, and goes on.
abbrev last_state : State
last_state = record {
  slots =
      set_slot 1 (calculated 1)
        (set_slot 2 (calculated 2) (set_slot 0 (given (number 4)) (λ _. none)));
  current_cost = 12;
  called = 1 ∷ 2 ∷ [];
}

abbrev last : Running
last = record { state = last_state; stack = []; paused = []; asked = 0 ∷ 0 ∷ 1 ∷ 2 ∷ [] }

ran : Reach program (start first_state) last
unfolding advance leave resume request
ran =
    moving
      (moving
        (moving
          (moving
            (moving
              (moving
                (moving
                  (moving
                    (moving (requesting (2 ∷ []) here (omega arith, tt) refl) (advancing refl))
                    (advancing refl))
                  (leaving refl))
                (leaving refl))
              (resuming 0 refl))
            (advancing refl))
          (advancing refl))
        (leaving refl))
      (leaving refl)

Reach-called_once_example :
    (distinct last_state.called ≡ true)
    × (last_state.current_cost ≡ total_cost program last_state.called)
    × ((i : ℕ) (v : Value)
        → first_state.slots i ≡ some (given v)
        → (last_state.slots i ≡ some (given v)) × (mem i last_state.called ≡ false))
    × ((i : ℕ)
        → i < 3
        → last_state.slots i ≡ none
        → (loads : List ℕ) × (callback_at program.callbacks i ≡ some loads))
Reach-called_once_example =
    Reach-called_once program (λ i. i) (("A", number 4) ∷ []) first_state last program-IsRanked
      begun ran

Reach-ends_example :
    ((n : ℕ) (v : Running) → Moves program n last v → n ≤ weight program last)
    × (((v : Running) × Move program last v)
        ⊎ (last.stack ≡ [])
          × (last.paused ≡ [])
          × ((i : ℕ) → mem i last.asked ≡ true → is_set (last_state.slots i) ≡ true))
Reach-ends_example =
    Reach-ends program (λ i. i) (("A", number 4) ∷ []) first_state last program-IsRanked begun ran
