-- ===== src/Execute/Sound/Keeps.antt =====
-- Every step of an execution (packages/sqrl/src/execute/SqrlExecutionState.ts) keeps what holds of it.
use sqrl.Prelude.{
  ℕ, ◌+◌, ◌<◌, Bool, true, false, ◌||◌, List, [], ◌∷◌, ◌++◌, Option, none, some, length, All,
  All-append, All-split, ◌≡◌, arith,
}
use sqrl.Execute.{Program, Promise, State, is_set, callback_at, slot_cost}
use sqrl.Execute.Running.{Frame, frame, InRange, store}
use sqrl.Execute.Sound.{
  mem, open_slots, lefts, all_paused, RankBelow, IsRanked, IsSound, with_slot, mem-append,
  RankBelow-mem, loads_below,
}

none_below : (rank : ℕ → ℕ) (left : List ℕ) → All (λ j. RankBelow rank j []) left
none_below rank [] = tt
none_below rank (j ∷ left) = (tt, none_below rank left)

module _ (p : Program) (rank : ℕ → ℕ) (initial : ℕ → Option Promise) where
  pub skip-IsSound :
      (s : State) (for_slot : Option ℕ) (i : ℕ) (left : List ℕ) (advanced : Bool)
      (rest : List Frame) (paused : List (List ℕ)) (asked : List ℕ)
      → is_set (s.slots i) ≡ true
      → IsSound p rank initial s (frame for_slot (i ∷ left) advanced ∷ rest) paused asked
      → IsSound p rank initial s (frame for_slot left true ∷ rest) paused asked
  skip-IsSound s for_slot i left advanced rest paused asked set h = record {
    once = h.once;
    cost = h.cost;
    known = h.known;
    opened = h.opened;
    kept = h.kept;
    below = (h.below.0.1, h.below.1);
    ready = λ k k_asked. ground (arith, h.ready k k_asked);
    range = (h.range.0.1, h.range.1);
    provided = h.provided;
  }

  -- A slot without a promise whose turn it is was not called yet.
  pub unset-uncalled :
      (s : State) (for_slot : Option ℕ) (i : ℕ) (left : List ℕ) (advanced : Bool)
      (rest : List Frame) (paused : List (List ℕ)) (asked : List ℕ)
      → is_set (s.slots i) ≡ false
      → IsSound p rank initial s (frame for_slot (i ∷ left) advanced ∷ rest) paused asked
      → mem i s.called ≡ false
  unset-uncalled s for_slot i left advanced rest paused asked unset h =
      let closed = RankBelow-mem rank i (with_slot for_slot (open_slots rest)) h.below.0.0 in
      ground (arith, h.known i)

  pub call-IsSound :
      IsRanked rank p
      → (s : State) (for_slot : Option ℕ) (i : ℕ) (left : List ℕ) (advanced : Bool)
        (rest : List Frame) (paused : List (List ℕ)) (asked loads : List ℕ)
      → is_set (s.slots i) ≡ false
      → callback_at p.callbacks i ≡ some loads
      → IsSound p rank initial s (frame for_slot (i ∷ left) advanced ∷ rest) paused asked
      → IsSound p rank initial
          (record s {
            current_cost = s.current_cost + slot_cost p.slot_costs i;
            called = i ∷ s.called;
          })
          (frame (some i) loads true ∷ frame for_slot left true ∷ rest)
          paused
          (loads ++ asked)
  call-IsSound ranked s for_slot i left advanced rest paused asked loads unset calls h =
      let slots = with_slot for_slot (open_slots rest) in
      let new = unset-uncalled s for_slot i left advanced rest paused asked unset h in
      record {
        once = ground (arith, h.once);
        cost = omega (arith, h.cost);
        known = λ k k_called. ground (arith, h.known k);
        opened = λ k k_open. ground (arith, h.opened k);
        kept = λ k v k_given. ground (arith, h.kept k v k_given);
        below = (
          loads_below rank i slots loads (ranked i loads calls).0 h.below.0.0,
          (h.below.0.1, h.below.1),
        );
        ready = λ k k_asked.
            ground
              (arith, h.ready k, mem-append k loads asked, mem-append k loads (left ++ lefts rest));
        range = (
          All-append _ loads (left ++ lefts rest) (ranked i loads calls).1 h.range.0.1,
          h.range.1,
        );
        provided = h.provided;
      }

  pub leave-IsSound :
      (s : State) (for_slot : Option ℕ) (left : List ℕ) (advanced : Bool) (rest : List Frame)
      (paused others : List (List ℕ)) (asked : List ℕ)
      → all_paused others ≡ left ++ all_paused paused
      → IsSound p rank initial s (frame for_slot left advanced ∷ rest) paused asked
      → IsSound p rank initial (store for_slot s) rest others asked
  leave-IsSound s none left advanced rest paused others asked same h =
      let (left_in, rest_in) =
        All-split (λ k. k < length p.callbacks) left (lefts rest) h.range.0 in
      record {
        once = h.once;
        cost = h.cost;
        known = h.known;
        opened = h.opened;
        kept = h.kept;
        below = h.below.1;
        ready = λ k k_asked. rw same (
            ground (
              arith,
              h.ready k k_asked,
              mem-append k left (lefts rest),
              mem-append k left (all_paused paused),
            ));
        range = (rest_in, rw same (All-append _ left (all_paused paused) left_in h.range.1));
        provided = h.provided;
      }
  leave-IsSound s (some i) left advanced rest paused others asked same h =
      let (left_in, rest_in) =
        All-split (λ k. k < length p.callbacks) left (lefts rest) h.range.0 in
      record {
        once = h.once;
        cost = h.cost;
        known = λ k k_called. ground (arith, h.known k k_called);
        opened = λ k k_open. ground (arith, h.opened k);
        kept = λ k v k_given. ground (arith, h.kept k v k_given, h.opened i);
        below = h.below.1;
        ready = λ k k_asked. rw same (
            ground (
              arith,
              h.ready k k_asked,
              mem-append k left (lefts rest),
              mem-append k left (all_paused paused),
            ));
        range = (rest_in, rw same (All-append _ left (all_paused paused) left_in h.range.1));
        provided = λ k in_range k_none. ground (arith, h.provided k in_range k_none);
      }

  pub resume-IsSound :
      (s : State) (left : List ℕ) (paused others : List (List ℕ)) (asked : List ℕ)
      → ((k : ℕ) → mem k (all_paused paused) ≡ (mem k left || mem k (all_paused others)))
      → InRange p left
      → InRange p (all_paused others)
      → IsSound p rank initial s [] paused asked
      → IsSound p rank initial s (frame none left false ∷ []) others asked
  resume-IsSound s left paused others asked same left_in others_in h = record {
    once = h.once;
    cost = h.cost;
    known = h.known;
    opened = h.opened;
    kept = h.kept;
    below = (none_below rank left, tt);
    ready = λ k k_asked. ground (arith, h.ready k k_asked, same k, mem-append k left []);
    range = (All-append _ left [] left_in tt, others_in);
    provided = h.provided;
  }

  pub request-IsSound :
      (s : State) (indexes : List ℕ) (paused : List (List ℕ)) (asked : List ℕ)
      → InRange p indexes
      → IsSound p rank initial s [] paused asked
      → IsSound p rank initial s (frame none indexes true ∷ []) paused (indexes ++ asked)
  request-IsSound s indexes paused asked in_range h = record {
    once = h.once;
    cost = h.cost;
    known = h.known;
    opened = h.opened;
    kept = h.kept;
    below = (none_below rank indexes, tt);
    ready =
        λ k k_asked. ground (arith, h.ready k, mem-append k indexes [], mem-append k indexes asked);
    range = (All-append _ indexes [] in_range tt, h.range.1);
    provided = h.provided;
  }
