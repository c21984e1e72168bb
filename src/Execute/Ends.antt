-- ===== src/Execute/Ends.antt =====
-- An execution (packages/sqrl/src/execute/SqrlExecutionState.ts) comes to rest, with all slots that
-- were asked for.
pub mod Weight
use sqrl.Prelude.{
  ℕ, zero, suc, ◌+◌, ◌*◌, ◌<◌, ◌≤◌, true, false, List, [], ◌∷◌, ◌++◌, Option, none, String, some,
  length, ◌≡◌, ap, ◌∙◌, ◌⊎◌, refl, arith, ok, Bool-cases, if◌then◌else◌, Option-cases, inl, inr,
}
use mathlib.Core.Path.{subst, ap₂}
use sqrl.Execute.Sound.Keeps.{unset-uncalled}
use sqrl.Value.{Value}
use sqrl.Execute.{Program, Promise, State, is_set, callback_at, slot_cost, fetch_slot, new_state}
use sqrl.Execute.Running.{
  Frame, frame, Running, advance, advance_stack, leave, leave_stack, resume, resume_taken, take_out,
  Move, advancing, leaving, resuming, Reach, start, Moves, still, step,
}
use sqrl.Execute.Sound.{mem, IsRanked, IsSound, IsSoundAt}
use sqrl.Execute.Laws.{new_state-IsSound}
use sqrl.Execute.Sound.Steps.{Move-IsSound, Reach-IsSound}
use sqrl.Execute.Ends.Weight.{weight, Move-weight}

module _ (p : Program) (rank : ℕ → ℕ) (initial : ℕ → Option Promise) where
  pub Moves-weight :
      IsRanked rank p
      → {n : ℕ} {w v : Running} → IsSoundAt p rank initial w
      → Moves p n w v
      → n ≤ weight p w
  Moves-weight ranked h still = omega arith
  Moves-weight ranked h (step m ms) = omega (
    arith,
    Move-weight p rank initial h m,
    Moves-weight ranked (Move-IsSound p rank initial ranked m h) ms,
  )

  -- What runs can go on: a slot that is to be fetched has a callback.
  stack_progress :
      (w : Running) (f : Frame) (rest : List Frame)
      → w.stack ≡ f ∷ rest
      → IsSound p rank initial w.state (f ∷ rest) w.paused w.asked
      → (v : Running) × Move p w v
  unfolding fetch_slot advance leave
  stack_progress w (frame for_slot [] advanced) rest e h =
      (_, leaving (ap (λ (stack : List Frame). leave_stack stack w) e))
  stack_progress w (frame for_slot (i ∷ left) advanced) rest e h =
      elim (Bool-cases (is_set (w.state.slots i))) [
        | inl set ↦ (
          record w { stack = frame for_slot left true ∷ rest },
          advancing (ap (λ (stack : List Frame). advance_stack p stack w) e ∙ rw set refl),
        )
        | inr unset ↦ elim (Option-cases (callback_at p.callbacks i)) [
          | inl no_callback ↦
              let set : is_set (w.state.slots i) ≡ true = h.provided i h.range.0.0 no_callback in cc
          | inr (loads, calls) ↦ (
            record w {
              state = record w.state {
                current_cost = w.state.current_cost + slot_cost p.slot_costs i;
                called = i ∷ w.state.called;
              };
              stack = frame (some i) loads true ∷ frame for_slot left true ∷ rest;
              asked = loads ++ w.asked;
            },
            advancing
                (ap (λ (stack : List Frame). advance_stack p stack w) e ∙ rw (unset, calls) refl),
          )
        ]
      ]

  pub progress :
      (w : Running) (stack : List Frame) (paused : List (List ℕ))
      → w.stack ≡ stack
      → w.paused ≡ paused
      → IsSoundAt p rank initial w
      → ((v : Running) × Move p w v)
        ⊎ (w.stack ≡ [])
          × (w.paused ≡ [])
          × ((i : ℕ) → mem i w.asked ≡ true → is_set (w.state.slots i) ≡ true)
  unfolding resume
  progress w (f ∷ rest) paused e held h = inl (
      stack_progress w f rest e
        (subst (λ (st : List Frame). IsSound p rank initial w.state st w.paused w.asked) e h))
  progress w [] (left ∷ paused) e held h = inl (
    _,
    resuming 0 (
        ap₂ (λ (stack : List Frame) (held : List (List ℕ)). resume_taken w stack (take_out 0 held))
          e held),
  )
  progress w [] [] e held h = inr (e, held, λ i asked. let r = h.ready i asked in ground arith)

-- Where every slot has a higher rank than those that it loads first: from every state that an
-- execution gets to, its steps come to an end unless more is asked for, after at most `weight` of
-- them; and where there is no further step, nothing waits, and every slot that was asked for, be it
-- from outside or by a slot that loads it first, has its promise.
pub Reach-ends :
    (p : Program) (rank : ℕ → ℕ) (features : List (String × Value)) (s : State) (w : Running)
    → IsRanked rank p
    → new_state p features ≡ ok s
    → Reach p (start s) w
    → ((n : ℕ) (v : Running) → Moves p n w v → n ≤ weight p w)
      × (((v : Running) × Move p w v)
          ⊎ (w.stack ≡ [])
            × (w.paused ≡ [])
            × ((i : ℕ) → mem i w.asked ≡ true → is_set (w.state.slots i) ≡ true))
Reach-ends p rank features s w ranked e r =
    let h = Reach-IsSound p rank s.slots ranked r (new_state-IsSound p rank features s e) in
    (
      λ n v moves. Moves-weight p rank s.slots ranked h moves,
      progress p rank s.slots w w.stack w.paused refl refl h,
    )
