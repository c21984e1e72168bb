-- ===== src/Execute/Laws.antt =====
-- What holds after any run of an execution (packages/sqrl/src/execute/SqrlExecutionState.ts) that the
-- constructor began.
use sqrl.Prelude.{
  ℕ, zero, suc, ◌+◌, ◌<◌, true, false, List, [], ◌∷◌, Option, none, String, some, length, ◌≡◌, refl,
  arith, Result, ok, bind-eq-ok, Option-cases, inl, inr, not, ◌==◌, ◌∙◌, ensure, or_right,
}
use mathlib.Core.Path.{subst}
use mathlib.Core.Bool.{false≢true}
use Prim.Native.Nat.add
use sqrl.Where.Overlap.Sets.{ensured}
use sqrl.Value.{Value}
use sqrl.Execute.{
  Program, given, State, is_set, callback_at, new_state, set_features, empty_state, set_feature,
  required_slots, check_required, get_slot,
}
use sqrl.Execute.Running.{Running, Reach, start}
use sqrl.Execute.Sound.{mem, distinct, total_cost, IsRanked, IsSoundAt}
use sqrl.Execute.Sound.Steps.{Reach-IsSound}

same_calls :
    (s after : State)
    → ◌≡◌ {A = Result State} (ok s) (ok after)
    → (after.called ≡ s.called) × (after.current_cost ≡ s.current_cost)
same_calls s after e = let same : s ≡ after = cc in (rw same refl, rw same refl)

set_features-called :
    (p : Program) (features : List (String × Value)) (s after : State)
    → set_features p features s ≡ ok after
    → (after.called ≡ s.called) × (after.current_cost ≡ s.current_cost)
unfolding set_features set_feature
set_features-called p [] s after e = (cc, cc)
set_features-called p ((name, value) ∷ features) s after e =
    let (middle, first, more) = bind-eq-ok (set_feature p name value s) _ e in
    let (index, _, e1) = bind-eq-ok (get_slot p name) _ first in
    let (_, _, e2) = bind-eq-ok (ensure (not (is_set (s.slots index))) _) _ e1 in
    let (called, cost) = set_features-called p features middle after more in
    let (called', cost') = same_calls _ middle e2 in (called ∙ called', cost ∙ cost')

required_later :
    (k : ℕ) (callbacks : List (Option (List ℕ))) (i : ℕ)
    → mem (suc k + i) (required_slots (suc k) callbacks) ≡ true
    → mem (k + suc i) (required_slots (suc k) callbacks) ≡ true
required_later k callbacks i h =
    let same : suc k + i ≡ k + suc i = omega arith in
    subst (λ (n : ℕ). mem n (required_slots (suc k) callbacks) ≡ true) same h

required_slots-mem :
    (k : ℕ) (callbacks : List (Option (List ℕ))) (i : ℕ)
    → i < length callbacks
    → callback_at callbacks i ≡ none
    → mem (k + i) (required_slots k callbacks) ≡ true
unfolding required_slots
required_slots-mem k [] i h e = elim h [ ]
required_slots-mem k (none ∷ callbacks) zero h e = ground arith
required_slots-mem k (some loads ∷ callbacks) zero h e = cc
required_slots-mem k (none ∷ callbacks) (suc i) h e =
    or_right (k == k + suc i) _
      (required_later k callbacks i (required_slots-mem (suc k) callbacks i (omega arith) e))
required_slots-mem k (some loads ∷ callbacks) (suc i) h e =
    required_later k callbacks i (required_slots-mem (suc k) callbacks i (omega arith) e)

check_required-set :
    (indexes : List ℕ) (s : State)
    → check_required indexes s ≡ ok tt
    → (i : ℕ) → mem i indexes ≡ true
    → is_set (s.slots i) ≡ true
unfolding check_required
check_required-set [] s e i h = cc
check_required-set (index ∷ indexes) s e i h =
    let (_, set, more) = bind-eq-ok (ensure (is_set (s.slots index)) _) _ e in
    ground (arith, ensured (is_set (s.slots index)) _ set, check_required-set indexes s more i)

pub new_state-IsSound :
    (p : Program) (rank : ℕ → ℕ) (features : List (String × Value)) (s : State)
    → new_state p features ≡ ok s
    → IsSoundAt p rank s.slots (start s)
unfolding new_state
new_state-IsSound p rank features s e =
    let (filled, filling, e1) = bind-eq-ok (set_features p features empty_state) _ e in
    let (_, checked, e2) = bind-eq-ok (check_required (required_slots 0 p.callbacks) filled) _ e1 in
    let (called, cost) = set_features-called p features empty_state filled filling in
    let same : filled ≡ s = cc in
    rw (← same) (record {
      once = rw called refl;
      cost = rw (called, cost) refl;
      known = λ i h. let none_called : mem i [] ≡ true = rw called at h in cc;
      opened = λ i h. cc;
      kept = λ i v h. (h, rw called refl);
      below = tt;
      ready = λ i h. cc;
      range = (tt, tt);
      provided = λ i h none_at. check_required-set (required_slots 0 p.callbacks) filled checked i (
          subst (λ (n : ℕ). mem n (required_slots 0 p.callbacks) ≡ true) (add.zero i)
            (required_slots-mem 0 p.callbacks i h none_at));
    })

-- Where every slot has a higher rank than those that it loads first: in whatever order the loops of
-- `prepare` go on and whatever is asked for in between, no callback is called twice, the current
-- cost is that of the calls, a slot that was given keeps its value and is never called, and every
-- other slot that exists has a callback.
pub Reach-called_once :
    (p : Program) (rank : ℕ → ℕ) (features : List (String × Value)) (s : State) (w : Running)
    → IsRanked rank p
    → new_state p features ≡ ok s
    → Reach p (start s) w
    → (distinct w.state.called ≡ true)
      × (w.state.current_cost ≡ total_cost p w.state.called)
      × ((i : ℕ) (v : Value)
          → s.slots i ≡ some (given v)
          → (w.state.slots i ≡ some (given v)) × (mem i w.state.called ≡ false))
      × ((i : ℕ)
          → i < length p.callbacks
          → w.state.slots i ≡ none
          → (loads : List ℕ) × (callback_at p.callbacks i ≡ some loads))
Reach-called_once p rank features s w ranked e r =
    let h = Reach-IsSound p rank s.slots ranked r (new_state-IsSound p rank features s e) in
    (
      h.once,
      h.cost,
      h.kept,
      λ i in_range unset. elim (Option-cases (callback_at p.callbacks i)) [
        | inl nothing ↦
            let set : is_set (w.state.slots i) ≡ true = h.provided i in_range nothing in
            let not_set : false ≡ true = rw unset at set in absurd (false≢true not_set)
        | inr found ↦ found
      ],
    )
