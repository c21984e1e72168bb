-- ===== src/Execute/Sound/Steps.antt =====
-- Every step and every run of an execution (packages/sqrl/src/execute/SqrlExecutionState.ts) keeps what
-- holds of it.
use sqrl.Prelude.{
  ℕ, zero, suc, ◌<◌, true, false, List, [], ◌∷◌, Option, none, some, length, All-append, All-split,
  ◌≡◌, refl, arith, Bool-cases, Option-cases, ◌||◌, inl, inr,
}
use mathlib.Core.Path.{subst}
use sqrl.Execute.{Program, Promise, is_set, callback_at, fetch_slot}
use sqrl.Execute.Running.{
  Frame, frame, Running, InRange, advance, advance_stack, leave, leave_stack, resume, resume_taken,
  take_out, request, request_on, Move, advancing, leaving, resuming, Reach, here, moving,
  requesting,
}
use sqrl.Execute.Sound.{mem, all_paused, IsRanked, IsSound, IsSoundAt, mem-append}
use sqrl.Execute.Sound.Keeps.{
  skip-IsSound, call-IsSound, leave-IsSound, resume-IsSound, request-IsSound,
}

take_out-parts :
    (p : Program) (n : ℕ) (paused : List (List ℕ)) (left : List ℕ) (others : List (List ℕ))
    → take_out n paused ≡ some (left, others)
    → InRange p (all_paused paused)
    → ((k : ℕ) → mem k (all_paused paused) ≡ (mem k left || mem k (all_paused others)))
      × InRange p left
      × InRange p (all_paused others)
take_out-parts p n [] left others e h = cc
take_out-parts p zero (x ∷ xs) left others e h =
    let same_left : x ≡ left = cc in
    let same_others : xs ≡ others = cc in
    let (these, those) = All-split (λ k. k < length p.callbacks) x (all_paused xs) h in
    rw (← same_left, ← same_others) (λ k. mem-append k x (all_paused xs), these, those)
take_out-parts p (suc n) (x ∷ xs) left others e h =
    let (these, those) = All-split (λ k. k < length p.callbacks) x (all_paused xs) h in
    elim (Option-cases (take_out n xs)) [
      | inl nothing ↦
          let none_left : ◌≡◌ {A = Option (List ℕ × List (List ℕ))} none (some (left, others)) =
            rw nothing at e in
          cc
      | inr ((y, ys), found) ↦
          let whole : ◌≡◌ {A = Option (List ℕ × List (List ℕ))} (some (y, x ∷ ys))
              (some (left, others)) =
            rw found at e in
          let same_left : y ≡ left = cc in
          let same_others : x ∷ ys ≡ others = cc in
          let (mems, left_in, ys_in) = take_out-parts p n xs y ys found those in
          rw (← same_left, ← same_others)
            (
              λ k.
                  ground
                    (arith, mems k, mem-append k x (all_paused xs), mem-append k x (all_paused ys)),
              left_in,
              All-append _ x (all_paused ys) these ys_in,
            )
    ]

module _ (p : Program) (rank : ℕ → ℕ) (initial : ℕ → Option Promise)
    (ranked : IsRanked rank p) where
  arrive :
      (w v : Running)
      → ◌≡◌ {A = Option Running} (some w) (some v)
      → IsSoundAt p rank initial w
      → IsSoundAt p rank initial v
  arrive w v e h = let same : w ≡ v = cc in subst (IsSoundAt p rank initial) same h

  advance_stack-IsSound :
      (stack : List Frame) (w v : Running)
      → advance_stack p stack w ≡ some v
      → IsSound p rank initial w.state stack w.paused w.asked
      → IsSoundAt p rank initial v
  unfolding fetch_slot
  advance_stack-IsSound [] w v e h = cc
  advance_stack-IsSound (frame for_slot [] advanced ∷ rest) w v e h = cc
  advance_stack-IsSound (frame for_slot (i ∷ left) advanced ∷ rest) w v e h =
      elim (Bool-cases (is_set (w.state.slots i))) [
        | inl set ↦ arrive _ v (rw set at e) (
            skip-IsSound p rank initial w.state for_slot i left advanced rest w.paused w.asked set
              h)
        | inr unset ↦ elim (Option-cases (callback_at p.callbacks i)) [
          | inl no_callback ↦ let stuck : none ≡ some v = rw (unset, no_callback) at e in cc
          | inr (loads, calls) ↦ arrive _ v (rw (unset, calls) at e) (
              call-IsSound p rank initial ranked w.state for_slot i left advanced rest w.paused
                w.asked loads unset calls h)
        ]
      ]

  leave_stack-IsSound :
      (stack : List Frame) (w v : Running)
      → leave_stack stack w ≡ some v
      → IsSound p rank initial w.state stack w.paused w.asked
      → IsSoundAt p rank initial v
  leave_stack-IsSound [] w v e h = cc
  leave_stack-IsSound (frame for_slot [] advanced ∷ rest) w v e h = arrive _ v e (
      leave-IsSound p rank initial w.state for_slot [] advanced rest w.paused w.paused w.asked refl
        h)
  leave_stack-IsSound (frame for_slot (i ∷ left) false ∷ rest) w v e h = cc
  leave_stack-IsSound (frame for_slot (i ∷ left) true ∷ rest) w v e h = arrive _ v e (
      leave-IsSound p rank initial w.state for_slot (i ∷ left) true rest w.paused
        ((i ∷ left) ∷ w.paused) w.asked refl h)

  resume_taken-IsSound :
      (n : ℕ) (stack : List Frame) (w v : Running) (taken : Option (List ℕ × List (List ℕ)))
      → take_out n w.paused ≡ taken
      → resume_taken w stack taken ≡ some v
      → IsSound p rank initial w.state stack w.paused w.asked
      → IsSoundAt p rank initial v
  resume_taken-IsSound n (_ ∷ _) w v taken found e h = cc
  resume_taken-IsSound n [] w v none found e h = cc
  resume_taken-IsSound n [] w v (some (left, others)) found e h =
      let (mems, left_in, others_in) = take_out-parts p n w.paused left others found h.range.1 in
      arrive _ v e (
        resume-IsSound p rank initial w.state left w.paused others w.asked mems left_in others_in h)

  request_on-IsSound :
      (stack : List Frame) (indexes : List ℕ) (w v : Running)
      → InRange p indexes
      → request_on stack indexes w ≡ some v
      → IsSound p rank initial w.state stack w.paused w.asked
      → IsSoundAt p rank initial v
  request_on-IsSound (_ ∷ _) indexes w v in_range e h = cc
  request_on-IsSound [] indexes w v in_range e h =
      arrive _ v e (request-IsSound p rank initial w.state indexes w.paused w.asked in_range h)

  pub Move-IsSound :
      {w v : Running} → Move p w v → IsSoundAt p rank initial w → IsSoundAt p rank initial v
  unfolding advance leave resume
  Move-IsSound {w} {v} (advancing e) h = advance_stack-IsSound w.stack w v e h
  Move-IsSound {w} {v} (leaving e) h = leave_stack-IsSound w.stack w v e h
  Move-IsSound {w} {v} (resuming n e) h =
      resume_taken-IsSound n w.stack w v (take_out n w.paused) refl e h

  pub Reach-IsSound :
      {w v : Running} → Reach p w v → IsSoundAt p rank initial w → IsSoundAt p rank initial v
  unfolding request
  Reach-IsSound here h = h
  Reach-IsSound (moving r m) h = Move-IsSound m (Reach-IsSound r h)
  Reach-IsSound {v = u} (requesting indexes {v} r in_range e) h =
      request_on-IsSound v.stack indexes v u in_range e (Reach-IsSound r h)
