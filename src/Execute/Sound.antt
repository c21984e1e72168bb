-- ===== src/Execute/Sound.antt =====
-- What holds of a running execution of packages/sqrl/src/execute/SqrlExecutionState.ts in every state.
pub mod Keeps
pub mod Steps
use sqrl.Prelude.{
  ℕ, zero, suc, ◌+◌, ◌<◌, Bool, true, false, not, ◌&&◌, ◌||◌, List, [], ◌∷◌, ◌++◌, Option, none,
  some, length, All, ◌==◌, ◌≡◌, refl, arith,
}
use sqrl.Value.{Value}
use sqrl.Execute.{Program, Promise, given, State, is_set, callback_at, slot_cost}
use sqrl.Execute.Running.{Frame, frame, Running, InRange}

abbrev pub mem : ℕ → List ℕ → Bool
mem i [] = false
mem i (j ∷ js) = j == i || mem i js

-- No number stands twice in the list.
abbrev pub distinct : List ℕ → Bool
distinct [] = true
distinct (i ∷ is) = not (mem i is) && distinct is

-- The sum of what the calls cost.
abbrev pub total_cost : Program → List ℕ → ℕ
total_cost p [] = 0
total_cost p (i ∷ is) = total_cost p is + slot_cost p.slot_costs i

-- The slots whose callbacks have not returned.
abbrev pub with_slot : Option ℕ → List ℕ → List ℕ
with_slot none slots = slots
with_slot (some i) slots = i ∷ slots

abbrev pub open_slots : List Frame → List ℕ
open_slots [] = []
open_slots (frame for_slot left advanced ∷ rest) = with_slot for_slot (open_slots rest)

abbrev pub lefts : List Frame → List ℕ
lefts [] = []
lefts (frame for_slot left advanced ∷ rest) = left ++ lefts rest

abbrev pub all_paused : List (List ℕ) → List ℕ
all_paused [] = []
all_paused (left ∷ others) = left ++ all_paused others

abbrev pub RankBelow : (ℕ → ℕ) → ℕ → List ℕ → Type 0
RankBelow rank j slots = All (λ s. rank j < rank s) slots

-- What a loop has left is loaded, at some depth, by the slots whose callbacks have not returned.
abbrev pub Below : (ℕ → ℕ) → List Frame → Type 0
Below rank [] = Unit
Below rank (frame for_slot left advanced ∷ rest) =
    All (λ j. RankBelow rank j (with_slot for_slot (open_slots rest))) left × Below rank rest

-- Every slot has a higher rank than those that its callback loads, and loads only slots that exist.
abbrev pub IsRanked : (ℕ → ℕ) → Program → Type 0
IsRanked rank p =
    (i : ℕ) (loads : List ℕ)
    → callback_at p.callbacks i ≡ some loads
    → All (λ j. rank j < rank i) loads × InRange p loads

pub record IsSound (p : Program) (rank : ℕ → ℕ) (initial : ℕ → Option Promise) (s : State)
    (stack : List Frame) (paused : List (List ℕ)) (asked : List ℕ) : Type 0 where
  pub once : distinct s.called ≡ true
  pub cost : s.current_cost ≡ total_cost p s.called
  pub known :
      (i : ℕ) → mem i s.called ≡ true → (is_set (s.slots i) || mem i (open_slots stack)) ≡ true
  pub opened : (i : ℕ) → mem i (open_slots stack) ≡ true → mem i s.called ≡ true
  pub kept :
      (i : ℕ) (v : Value)
      → initial i ≡ some (given v)
      → (s.slots i ≡ some (given v)) × (mem i s.called ≡ false)
  pub below : Below rank stack
  pub ready :
      (i : ℕ)
      → mem i asked ≡ true
      → (is_set (s.slots i)
          || (mem i (open_slots stack) || (mem i (lefts stack) || mem i (all_paused paused))))
        ≡ true
  pub range : InRange p (lefts stack) × InRange p (all_paused paused)
  pub provided :
      (i : ℕ)
      → i < length p.callbacks
      → callback_at p.callbacks i ≡ none
      → is_set (s.slots i) ≡ true

abbrev pub IsSoundAt : Program → (ℕ → ℕ) → (ℕ → Option Promise) → Running → Type 0
IsSoundAt p rank initial w = IsSound p rank initial w.state w.stack w.paused w.asked

pub mem-append : (i : ℕ) (xs ys : List ℕ) → mem i (xs ++ ys) ≡ (mem i xs || mem i ys)
mem-append i [] ys = refl
mem-append i (x ∷ xs) ys = ground (arith, mem-append i xs ys)

-- A slot is not loaded by slots of a higher rank only if it is none of them.
pub RankBelow-mem :
    (rank : ℕ → ℕ) (j : ℕ) (slots : List ℕ) → RankBelow rank j slots → mem j slots ≡ false
RankBelow-mem rank j [] h = refl
RankBelow-mem rank j (s ∷ slots) (here, more) = ground (arith, RankBelow-mem rank j slots more)

pub RankBelow-trans :
    (rank : ℕ → ℕ) (i j : ℕ) (slots : List ℕ)
    → rank i < rank j
    → RankBelow rank j slots
    → RankBelow rank i slots
RankBelow-trans rank i j [] h below = tt
RankBelow-trans rank i j (s ∷ slots) h (here, more) =
    (omega arith, RankBelow-trans rank i j slots h more)

-- The loads of a slot may be put on top of the stack that calls it.
pub loads_below :
    (rank : ℕ → ℕ) (j : ℕ) (slots loads : List ℕ)
    → All (λ i. rank i < rank j) loads
    → RankBelow rank j slots
    → All (λ i. RankBelow rank i (j ∷ slots)) loads
loads_below rank j slots [] h below = tt
loads_below rank j slots (i ∷ loads) (here, more) below =
    ((here, RankBelow-trans rank i j slots here below), loads_below rank j slots loads more below)
