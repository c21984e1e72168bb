-- ===== src/Execute.antt =====
-- packages/sqrl/src/execute/SqrlExecutionState.ts and SqrlExecutable.ts: an execution holds a promise
-- for each slot that was given or asked for. What a compiled slot does is its callback; of it the
-- slots that it loads first are kept, since later loads are requests like those from outside.
pub mod Running
pub mod Sound
pub mod Laws
pub mod Ends
pub mod Tests
use sqrl.Prelude.{
  ℕ, zero, suc, ◌+◌, String, Bool, true, false, not, List, [], ◌∷◌, Option, none, some, Result, ok,
  err, failed, ensure, ◌>>=◌, ◌>>◌, ◌==◌, str_eq, ltb, get_elem?, if◌then◌else◌,
}
use sqrl.Value.{Value}

-- What the constructor gets of an executable: `slotNames`, `slotCallback` and `slotCosts`. A callback
-- is null where the slot has no JavaScript; a cost stands beside every slot.
pub record Program : Type 0 where
  pub names : List String
  pub callbacks : List (Option (List ℕ))
  pub slot_costs : Option (List ℕ)

-- The promise of a slot: resolved with a value from outside, or what the slot's callback returned.
pub data Promise : Type 0 where
  given : Value → Promise
  calculated : ℕ → Promise

-- `slots`, `undefined` where there is no promise, `currentCost`, and the callbacks that were called.
pub record State : Type 0 where
  pub slots : ℕ → Option Promise
  pub current_cost : ℕ
  pub called : List ℕ

abbrev pub is_set : Option Promise → Bool
is_set none = false
is_set (some _) = true

-- `this.slots[index] = promise`.
abbrev pub set_slot : ℕ → Promise → (ℕ → Option Promise) → ℕ → Option Promise
set_slot index promise slots i = if index == i then some promise else slots i

abbrev pub callback_at : List (Option (List ℕ)) → ℕ → Option (List ℕ)
callback_at [] i = none
callback_at (c ∷ cs) zero = c
callback_at (c ∷ cs) (suc i) = callback_at cs i

abbrev pub cost_at : List ℕ → ℕ → ℕ
cost_at [] i = 0
cost_at (c ∷ cs) zero = c
cost_at (c ∷ cs) (suc i) = cost_at cs i

-- `slotCost ? slotCost[slotIdx] : 0`.
unfoldable pub slot_cost : Option (List ℕ) → ℕ → ℕ
slot_cost none i = 0
slot_cost (some costs) i = cost_at costs i

abbrev pub called_with : Program → ℕ → State → Option (List ℕ) → Result (List ℕ × State)
called_with p slot s none = err (failed "Could not find function to generate slot value:: %s")
called_with p slot s (some loads) = ok (
  loads,
  record s {
    current_cost = s.current_cost + slot_cost p.slot_costs slot;
    called = slot ∷ s.called;
  },
)

-- `_fetch`: the slots that the callback loads first, and the state after the call has begun.
unfoldable pub fetch_slot : Program → ℕ → State → Result (List ℕ × State)
unfolding slot_cost
fetch_slot p slot s = called_with p slot s (callback_at p.callbacks slot)

-- `names.indexOf(name)`, none for -1.
unfoldable pub index_of : String → List String → Option ℕ
index_of name [] = none
index_of name (n ∷ names) =
    if str_eq n name
    then some 0
    else elim (index_of name names) [ none ↦ none | some i ↦ some (suc i) ]

-- `getSlot`.
unfoldable pub get_slot : Program → String → Result ℕ
unfolding index_of
get_slot p name = elim (index_of name p.names) [
  | none ↦ err (failed "Could not find the requested name:: %s")
  | some i ↦ ok i
]

-- One round of `setFeatures`; a value is never a promise.
unfoldable pub set_feature : Program → String → Value → State → Result State
unfolding get_slot
set_feature p name value s = do
  index ← get_slot p name
  ensure (not (is_set (s.slots index))) (failed "setFeatures() cannot overwrite loaded slots")
  ok (record s { slots = set_slot index (given value) s.slots })

-- `setFeatures`.
unfoldable pub set_features : Program → List (String × Value) → State → Result State
unfolding set_feature
set_features p [] s = ok s
set_features p ((name, value) ∷ features) s = do
  after ← set_feature p name value s
  set_features p features after

-- `requiredSlots` of SqrlExecutable: the slots without JavaScript, from `index` on.
unfoldable pub required_slots : (index : ℕ) → List (Option (List ℕ)) → List ℕ
required_slots index [] = []
required_slots index (none ∷ callbacks) = index ∷ required_slots (suc index) callbacks
required_slots index (some _ ∷ callbacks) = required_slots (suc index) callbacks

unfoldable pub check_required : List ℕ → State → Result (Unit {0})
check_required [] s = ok tt
check_required (index ∷ indexes) s = do
  ensure (is_set (s.slots index)) (failed "Slot %s required for execution")
  check_required indexes s

abbrev pub empty_state : State
empty_state = record { slots = λ _. none; current_cost = 0; called = [] }

-- The constructor, as `startExecution` calls it.
unfoldable pub new_state : Program → List (String × Value) → Result State
unfolding set_features required_slots check_required
new_state p features = do
  s ← set_features p features empty_state
  check_required (required_slots 0 p.callbacks) s
  ok s

-- `tryWait`: the slots that are built for it.
unfoldable pub try_wait : Program → String → List ℕ
unfolding index_of
try_wait p name = elim (index_of name p.names) [
  | none ↦ []
  | some index ↦ if ltb 0 index then index ∷ [] else []
]
