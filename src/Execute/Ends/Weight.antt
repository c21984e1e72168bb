-- ===== src/Execute/Ends/Weight.antt =====
-- Every step of an execution (packages/sqrl/src/execute/SqrlExecutionState.ts) leaves less to be done.
use sqrl.Prelude.{
  ℕ, zero, suc, ◌+◌, ◌*◌, ◌<◌, true, false, List, [], ◌∷◌, Option, none, some, length, ◌≡◌, refl,
  arith, Bool-cases, if◌then◌else◌, Option-cases, inl, inr,
}
use mathlib.Core.Path.{subst}
use sqrl.Execute.Sound.Keeps.{unset-uncalled}
use sqrl.Execute.{Program, Promise, is_set, callback_at, fetch_slot}
use sqrl.Execute.Running.{
  Frame, frame, Running, advance, advance_stack, leave, leave_stack, resume, resume_taken, take_out,
  Move, advancing, leaving, resuming,
}
use sqrl.Execute.Sound.{mem, IsSound, IsSoundAt}

-- The work that the calls of callbacks can still bring, from the slot `k` on.
unfoldable pub to_call : ℕ → List (Option (List ℕ)) → List ℕ → ℕ
to_call k [] called = 0
to_call k (none ∷ callbacks) called = to_call (suc k) callbacks called
to_call k (some loads ∷ callbacks) called =
    (if mem k called then 0 else 3 * length loads + 3) + to_call (suc k) callbacks called

abbrev pub on_stack : List Frame → ℕ
on_stack [] = 0
on_stack (frame for_slot left advanced ∷ rest) =
    3 * length left + (if advanced then 3 else 1) + on_stack rest

abbrev pub on_hold : List (List ℕ) → ℕ
on_hold [] = 0
on_hold (left ∷ paused) = 3 * length left + 2 + on_hold paused

-- A bound on the steps to come, unless more is asked for.
abbrev pub weight : Program → Running → ℕ
weight p w = to_call 0 p.callbacks w.state.called + on_stack w.stack + on_hold w.paused

to_call-later :
    (j k : ℕ) (callbacks : List (Option (List ℕ))) (called : List ℕ)
    → j < k
    → to_call k callbacks (j ∷ called) ≡ to_call k callbacks called
unfolding to_call
to_call-later j k [] called h = refl
to_call-later j k (none ∷ callbacks) called h =
    to_call-later j (suc k) callbacks called (omega arith)
to_call-later j k (some loads ∷ callbacks) called h =
    ground (arith, to_call-later j (suc k) callbacks called)

-- A call takes the weight of its slot off.
to_call-called :
    (k i j : ℕ) (callbacks : List (Option (List ℕ))) (called loads : List ℕ)
    → j ≡ k + i
    → callback_at callbacks i ≡ some loads
    → mem j called ≡ false
    → to_call k callbacks called ≡ to_call k callbacks (j ∷ called) + (3 * length loads + 3)
unfolding to_call
to_call-called k i j [] called loads same e h = cc
to_call-called k zero j (none ∷ callbacks) called loads same e h = cc
to_call-called k zero j (some loads' ∷ callbacks) called loads same e h =
    let here : j ≡ k = omega arith in
    let its_loads : loads' ≡ loads = cc in
    let later = to_call-later j (suc k) callbacks called (omega arith) in
    let new : mem k called ≡ false = rw here at h in rw (later, its_loads) (ground arith)
to_call-called k (suc i) j (none ∷ callbacks) called loads same e h =
    to_call-called (suc k) i j callbacks called loads (omega arith) e h
to_call-called k (suc i) j (some loads' ∷ callbacks) called loads same e h =
    let rest = to_call-called (suc k) i j callbacks called loads (omega arith) e h in ground arith

module _ (p : Program) (rank : ℕ → ℕ) (initial : ℕ → Option Promise) where
  arrive_lighter :
      (bound : ℕ) (u v : Running)
      → ◌≡◌ {A = Option Running} (some u) (some v)
      → weight p u < bound
      → weight p v < bound
  arrive_lighter bound u v e h =
      let same : u ≡ v = cc in subst (λ (x : Running). weight p x < bound) same h

  advance_stack-weight :
      (stack : List Frame) (w v : Running)
      → advance_stack p stack w ≡ some v
      → IsSound p rank initial w.state stack w.paused w.asked
      → weight p v < to_call 0 p.callbacks w.state.called + on_stack stack + on_hold w.paused
  unfolding fetch_slot
  advance_stack-weight [] w v e h = cc
  advance_stack-weight (frame for_slot [] advanced ∷ rest) w v e h = cc
  advance_stack-weight (frame for_slot (i ∷ left) advanced ∷ rest) w v e h =
      let bound =
        to_call 0 p.callbacks w.state.called
        + on_stack (frame for_slot (i ∷ left) advanced ∷ rest)
        + on_hold w.paused in
      elim (Bool-cases (is_set (w.state.slots i))) [
        | inl set ↦ arrive_lighter bound _ v (rw set at e) (ground arith)
        | inr unset ↦ elim (Option-cases (callback_at p.callbacks i)) [
          | inl no_callback ↦
              let stuck : ◌≡◌ {A = Option Running} none (some v) = rw (unset, no_callback) at e in
              cc
          | inr (loads, calls) ↦
              let new =
                unset-uncalled p rank initial w.state for_slot i left advanced rest w.paused w.asked
                  unset h in
              let lighter =
                to_call-called 0 i i p.callbacks w.state.called loads (omega arith) calls new in
              arrive_lighter bound _ v (rw (unset, calls) at e) (ground arith)
        ]
      ]

  leave_stack-weight :
      (stack : List Frame) (w v : Running)
      → leave_stack stack w ≡ some v
      → weight p v < to_call 0 p.callbacks w.state.called + on_stack stack + on_hold w.paused
  leave_stack-weight [] w v e = cc
  leave_stack-weight (frame none [] advanced ∷ rest) w v e = ground arith
  leave_stack-weight (frame (some i) [] advanced ∷ rest) w v e = ground arith
  leave_stack-weight (frame for_slot (i ∷ left) false ∷ rest) w v e = cc
  leave_stack-weight (frame none (i ∷ left) true ∷ rest) w v e = ground arith
  leave_stack-weight (frame (some j) (i ∷ left) true ∷ rest) w v e = ground arith

  take_out-weight :
      (n : ℕ) (paused : List (List ℕ)) (left : List ℕ) (others : List (List ℕ))
      → take_out n paused ≡ some (left, others)
      → on_hold paused ≡ 3 * length left + 2 + on_hold others
  take_out-weight n [] left others e = cc
  take_out-weight zero (x ∷ xs) left others e =
      let same_left : x ≡ left = cc in
      let same_others : xs ≡ others = cc in rw (same_left, same_others) refl
  take_out-weight (suc n) (x ∷ xs) left others e = elim (Option-cases (take_out n xs)) [
    | inl nothing ↦
        let stuck : ◌≡◌ {A = Option (List ℕ × List (List ℕ))} none (some (left, others)) =
          rw nothing at e in
        cc
    | inr ((y, ys), found) ↦
        let whole : ◌≡◌ {A = Option (List ℕ × List (List ℕ))} (some (y, x ∷ ys))
            (some (left, others)) =
          rw found at e in
        let same_left : y ≡ left = cc in
        let same_others : x ∷ ys ≡ others = cc in
        rw (← same_left, ← same_others) (omega (arith, take_out-weight n xs y ys found))
  ]

  resume_taken-weight :
      (n : ℕ) (stack : List Frame) (w v : Running) (taken : Option (List ℕ × List (List ℕ)))
      → take_out n w.paused ≡ taken
      → resume_taken w stack taken ≡ some v
      → weight p v < to_call 0 p.callbacks w.state.called + on_stack stack + on_hold w.paused
  resume_taken-weight n (_ ∷ _) w v taken found e = cc
  resume_taken-weight n [] w v none found e = cc
  resume_taken-weight n [] w v (some (left, others)) found e =
      let held = take_out-weight n w.paused left others found in
      arrive_lighter (to_call 0 p.callbacks w.state.called + on_stack [] + on_hold w.paused) _ v e
        (omega arith)

  pub Move-weight :
      {w v : Running} → IsSoundAt p rank initial w → Move p w v → weight p v < weight p w
  unfolding advance leave resume
  Move-weight {w} {v} h (advancing e) = advance_stack-weight w.stack w v e h
  Move-weight {w} {v} h (leaving e) = leave_stack-weight w.stack w v e
  Move-weight {w} {v} h (resuming n e) =
      resume_taken-weight n w.stack w v (take_out n w.paused) refl e
