-- ===== src/Execute/Running.antt =====
-- How an execution of packages/sqrl/src/execute/SqrlExecutionState.ts runs: `prepare` goes through
-- its slots with niceForEach, which may pause between two items, and a callback that is called in
-- between begins loads of its own before its promise is stored. One thing runs at a time; what runs
-- is a stack of loops, the innermost first, and what is paused goes on later, in any order. A paused
-- loop that goes on gets to at least one item.
use sqrl.Prelude.{
  ℕ, zero, suc, Bool, true, false, List, [], ◌∷◌, ◌++◌, Option, none, some, Result, ok, err, All,
  length, ◌<◌, ◌≡◌, if◌then◌else◌,
}
use sqrl.Execute.{Program, calculated, State, is_set, set_slot, fetch_slot}

-- A loop of `prepare`: the slot whose callback began it, until its promise is stored, the indexes
-- that are left, and whether it got to an item since it went on.
pub data Frame : Type 0 where
  frame : (for_slot : Option ℕ) (left : List ℕ) (advanced : Bool) → Frame

pub record Running : Type 0 where
  pub state : State
  pub stack : List Frame
  pub paused : List (List ℕ)
  -- All indexes that `prepare` was called with.
  pub asked : List ℕ

abbrev pub call_slot : (rest : List Frame) → Running → ℕ → Result (List ℕ × State) → Option Running
call_slot rest w i (err _) = none
call_slot rest w i (ok (loads, s)) =
    some
      (record w { state = s; stack = frame (some i) loads true ∷ rest; asked = loads ++ w.asked })

abbrev pub prepare_item : Program → ℕ → (rest : List Frame) → Running → Option Running
prepare_item p i rest w =
    if is_set (w.state.slots i)
    then some (record w { stack = rest })
    else call_slot rest w i (fetch_slot p i w.state)

abbrev pub advance_stack : Program → List Frame → Running → Option Running
advance_stack p [] w = none
advance_stack p (frame for_slot [] advanced ∷ rest) w = none
advance_stack p (frame for_slot (i ∷ left) advanced ∷ rest) w =
    prepare_item p i (frame for_slot left true ∷ rest) w

-- One item of the innermost loop of `prepare_`: a slot without a promise is fetched.
unfoldable pub advance : Program → Running → Option Running
unfolding fetch_slot
advance p w = advance_stack p w.stack w

-- `this.slots[idx] = …`, once the callback of the slot has returned.
abbrev pub store : Option ℕ → State → State
store none s = s
store (some i) s = record s { slots = set_slot i (calculated i) s.slots }

abbrev pub leave_stack : List Frame → Running → Option Running
leave_stack [] w = none
leave_stack (frame for_slot [] advanced ∷ rest) w =
    some (record w { state = store for_slot w.state; stack = rest })
leave_stack (frame for_slot (i ∷ left) false ∷ rest) w = none
leave_stack (frame for_slot (i ∷ left) true ∷ rest) w =
    some (record w { state = store for_slot w.state; stack = rest; paused = (i ∷ left) ∷ w.paused })

-- The innermost loop ends or pauses: the callback that began it returns its promise, which is stored.
unfoldable pub leave : Running → Option Running
leave w = leave_stack w.stack w

abbrev pub take_out : ℕ → List (List ℕ) → Option (List ℕ × List (List ℕ))
take_out n [] = none
take_out zero (x ∷ xs) = some (x, xs)
take_out (suc n) (x ∷ xs) = elim (take_out n xs) [ none ↦ none | some (y, ys) ↦ some (y, x ∷ ys) ]

abbrev pub resume_taken : Running → List Frame → Option (List ℕ × List (List ℕ)) → Option Running
resume_taken w (_ ∷ _) taken = none
resume_taken w [] none = none
resume_taken w [] (some (left, others)) =
    some (record w { stack = frame none left false ∷ []; paused = others })

-- A paused loop goes on, when nothing else runs.
unfoldable pub resume : ℕ → Running → Option Running
resume n w = resume_taken w w.stack (take_out n w.paused)

abbrev pub request_on : List Frame → List ℕ → Running → Option Running
request_on (_ ∷ _) indexes w = none
request_on [] indexes w =
    some (record w { stack = frame none indexes true ∷ []; asked = indexes ++ w.asked })

-- A call of `prepare`, `load`, `build` or `fetch`, from outside or later on in a callback.
unfoldable pub request : List ℕ → Running → Option Running
request indexes w = request_on w.stack indexes w

-- The steps of the execution itself.
pub data Move (p : Program) (w : Running) : Running → Type 0 where
  advancing : {v : Running} → advance p w ≡ some v → Move p w v
  leaving : {v : Running} → leave w ≡ some v → Move p w v
  resuming : (n : ℕ) {v : Running} → resume n w ≡ some v → Move p w v

abbrev pub InRange : Program → List ℕ → Type 0
InRange p indexes = All (λ i. i < length p.callbacks) indexes

pub data Reach (p : Program) (w : Running) : Running → Type 0 where
  here : Reach p w w
  moving : {v u : Running} → Reach p w v → Move p v u → Reach p w u
  requesting :
      (indexes : List ℕ) {v u : Running}
      → Reach p w v
      → InRange p indexes
      → request indexes v ≡ some u
      → Reach p w u

-- That many steps of the execution itself.
pub data Moves (p : Program) : ℕ → Running → Running → Type 0 where
  still : {w : Running} → Moves p 0 w w
  step : {n : ℕ} {w v u : Running} → Move p w v → Moves p n v u → Moves p (suc n) w u

abbrev pub start : State → Running
start s = record { state = s; stack = []; paused = []; asked = [] }
