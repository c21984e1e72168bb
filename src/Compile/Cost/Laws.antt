-- ===== src/Compile/Cost/Laws.antt =====
-- packages/sqrl/src/compile/SqrlCompiledOutput.ts, `recurseSlot`: on slots that do not load themselves
-- it ends, and every slot is counted once.
use sqrl.Prelude.{
  ℕ, zero, suc, ◌+◌, ◌<◌, ◌≤◌, String, true, List, [], ◌∷◌, Option, none, some, contains, lookup,
  insert, Result, ok, ◌≡◌, ◌≢◌, inl, inr, refl, sym, ap, ◌∙◌, arith, str_eq, eq_iff, Bool-cases,
  or_cases, or_left, or_right,
}
use sqrl.Compile.Cost.{
  Slots, Entry, CostTable, own_cost, uses, add_costs, calculate_slot, recurse_by, recurse_slot,
  recurse_slots, get_slot_cost,
}
use sqrl.Compile.Cost.Reach.{Reach, used, through, IsRight, distinct, total_cost}
use sqrl.Compile.Cost.Table.{
  Finished, IsTable, Grows, Grows-same, Grows-trans, lookup-other, lookup-same, IsTable-start,
  IsTable-finish, Grows-calculation,
}
use sqrl.Compile.Cost.Visit.{IsLoad, CanVisit, visit_loads-Visited}

recurse_slot-new :
    (slots : Slots) (fuel : ℕ) (b : String) (t : CostTable)
    → lookup b t ≡ none
    → recurse_slot slots (suc fuel) b t ≡ calculate_slot slots (recurse_slot slots fuel) b t
unfolding recurse_slot
recurse_slot-new slots fuel b t new =
    ap (recurse_by t (calculate_slot slots (recurse_slot slots fuel) b t)) new

recurse_slot-known :
    (slots : Slots) (fuel : ℕ) (b : String) (t : CostTable) (e : Entry)
    → lookup b t ≡ some (some e)
    → recurse_slot slots (suc fuel) b t ≡ ok t
unfolding recurse_slot
recurse_slot-known slots fuel b t e at =
    ap (recurse_by t (calculate_slot slots (recurse_slot slots fuel) b t)) at

-- The sum over slots that are done.
add_costs-total :
    (slots : Slots) (names : List String) (t : CostTable) (total : ℕ)
    → IsTable slots t
    → ((k : String) → contains names k ≡ true → Finished t k)
    → add_costs names t total ≡ ok (total + total_cost slots names)
unfolding add_costs total_cost contains
add_costs-total slots [] t total table done = ap ok (omega arith)
add_costs-total slots (name ∷ names) t total table done =
    let (e, at) =
      done name (or_left (str_eq name name) (contains names name) ((eq_iff name name).1 refl)) in
    let right = table.right name e at in
    rw at (
      add_costs-total slots names t (total + e.cost) table
        (λ k h. done k (or_right (str_eq name k) (contains names k) h))
      ∙ ap ok (omega (arith, right.own)))

module _ (slots : Slots) (rank : String → ℕ)
    (acyclic : (a b : String) → contains (uses slots a) b ≡ true → rank b < rank a) where
  calculate_slot-Finished :
      (go : String → CostTable → Result CostTable) (bound : ℕ)
      → CanVisit slots rank go bound
      → (name : String) (t : CostTable) → rank name ≤ bound
      → lookup name t ≡ none
      → IsTable slots t
      → ((k : String) → lookup k t ≡ some none → rank name < rank k)
      → (t' : CostTable) × (calculate_slot slots go name t ≡ ok t')
        × IsTable slots t'
        × Grows t t'
        × Finished t' name
  unfolding calculate_slot contains distinct
  calculate_slot-Finished go bound can name t within new table running =
      let (load, u, ends, table_u, grows, l, _, all_uses) =
        visit_loads-Visited slots rank go bound can name (acyclic name) within (uses slots name) []
          (insert name none t) (λ k h. h) (IsTable-start slots t name new table) in_calculation
          nothing_yet in
      let total = own_cost slots name + total_cost slots load in
      let e : Entry = entry total load in
      let at_name = grows.kept name none (lookup-same t name none) in
      let right : IsRight slots name e = record {
        own = refl;
        all_reached = λ k reach. reached load l all_uses k reach;
        only_reached = l.reached;
        once = l.apart;
        sum = refl;
      } in
      (
        insert name (some e) u,
        rw ends (rw (add_costs-total slots load u (own_cost slots name) table_u l.done) refl),
        IsTable-finish slots u name e at_name table_u right l.done,
        Grows-calculation t u name e new grows,
        (e, lookup-same u name (some e)),
      )
    where
      entry : ℕ → List String → Entry
      entry total load = record { cost = own_cost slots name; recursive_cost = total; load = load }

      nothing_yet : IsLoad slots name [] (insert name none t)
      nothing_yet = record {
        reached = λ k h. cc;
        onward = λ b c h reach. cc;
        done = λ k h. cc;
        apart = refl;
      }

      in_calculation : (k : String) → lookup k (insert name none t) ≡ some none → rank name ≤ rank k
      in_calculation k at = elim (Bool-cases (str_eq name k)) [
        | inl same ↦ rw (sym ((eq_iff name k).0 same)) (omega arith)
        | inr other ↦ omega (arith, running k (sym (lookup-other t name k none other) ∙ at))
      ]

      reached :
          (load : List String) {u : CostTable}
          → IsLoad slots name load u
          → ((k : String) → contains (uses slots name) k ≡ true → contains load k ≡ true)
          → (k : String) → Reach slots name k
          → contains load k ≡ true
      reached load l all_uses k (used h) = all_uses k h
      reached load l all_uses k (through {b = b} h reach) = l.onward b k (all_uses b h) reach

  recurse_slot-next :
      (fuel : ℕ) (b : String) (t : CostTable) (o : Option (Option Entry))
      → CanVisit slots rank (recurse_slot slots fuel) fuel
      → rank b ≤ fuel
      → IsTable slots t
      → ((k : String) → lookup k t ≡ some none → rank b < rank k)
      → lookup b t ≡ o
      → (t' : CostTable) × (recurse_slot slots (suc fuel) b t ≡ ok t')
        × IsTable slots t'
        × Grows t t'
        × Finished t' b
  recurse_slot-next fuel b t none can below table running new =
      let (t', ends, table', grows, done) =
        calculate_slot-Finished (recurse_slot slots fuel) fuel can b t below new table running in
      (t', recurse_slot-new slots fuel b t new ∙ ends, table', grows, done)
  recurse_slot-next fuel b t (some none) can below table running at =
      absurd (omega (arith, running b at))
  recurse_slot-next fuel b t (some (some e)) can below table running at =
      (t, recurse_slot-known slots fuel b t e at, table, Grows-same t, (e, at))

  pub recurse_slot-Finished : (fuel : ℕ) → CanVisit slots rank (recurse_slot slots fuel) fuel
  recurse_slot-Finished zero b t below table running = absurd (omega arith)
  recurse_slot-Finished (suc fuel) b t below table running =
      recurse_slot-next fuel b t (lookup b t) (recurse_slot-Finished fuel) (omega arith) table
        running refl

  recurse_slots-Finished :
      (fuel : ℕ) (names : List String) (t : CostTable)
      → ((k : String) → contains names k ≡ true → rank k < fuel)
      → IsTable slots t
      → ((k : String) → lookup k t ≢ some none)
      → (t' : CostTable) × (recurse_slots slots fuel names t ≡ ok t')
        × IsTable slots t'
        × Grows t t'
        × ((k : String) → contains names k ≡ true → Finished t' k)
  unfolding recurse_slots contains
  recurse_slots-Finished fuel [] t below table idle = (t, refl, table, Grows-same t, (λ k h. cc))
  recurse_slots-Finished fuel (name ∷ names) t below table idle =
      let (t1, ends1, table1, grows1, done1) =
        recurse_slot-Finished fuel name t
          (below name (or_left (str_eq name name) _ ((eq_iff name name).1 refl))) table
          (λ k at. absurd (idle k at)) in
      let (t2, ends2, table2, grows2, done2) =
        recurse_slots-Finished fuel names t1 (λ k h. below k (or_right (str_eq name k) _ h)) table1
          (λ k at. idle k (grows1.no_new k at)) in
      (
        t2,
        rw ends1 ends2,
        table2,
        Grows-trans grows1 grows2,
        (λ k h. elim (or_cases (str_eq name k) (contains names k) h) [
          | inl same ↦
              let (e, at) = done1 in
              (
                e,
                grows2.kept k (some e) (ap (λ n. lookup n t1) (sym ((eq_iff name k).0 same)) ∙ at),
              )
          | inr rest ↦ done2 k rest
        ]),
      )

IsTable-empty : (slots : Slots) → IsTable slots []
unfolding lookup
IsTable-empty slots = record { right = λ k e at. cc; closed = λ k e x at inside. cc }

get_slot_cost-known :
    (slots : Slots) (fuel : ℕ) (name : String) (t : CostTable) (e : Entry)
    → lookup name t ≡ some (some e)
    → IsRight slots name e
    → {low : ℕ} → low < fuel
    → get_slot_cost slots fuel name t
      ≡ ok ((own_cost slots name, own_cost slots name + total_cost slots e.load), t)
unfolding get_slot_cost
get_slot_cost-known slots zero name t e at right below = absurd (omega arith)
get_slot_cost-known slots (suc fuel) name t e at right below =
    rw (recurse_slot-known slots fuel name t e at) (rw at (rw right.own (rw right.sum refl)))

-- Where every slot has a higher rank than those that it loads, and the call depth allows for the rank:
-- after `recurseAllSlots` on a new output, which meets no error, `getSlotCost` answers for each of the slots
-- with its own cost, and with that plus the own costs of all slots that it loads at any depth, each once.
pub get_slot_cost-total :
    (slots : Slots) (rank : String → ℕ) (fuel : ℕ) (names : List String) (name : String)
    → ((a b : String) → contains (uses slots a) b ≡ true → rank b < rank a)
    → ((k : String) → contains names k ≡ true → rank k < fuel)
    → contains names name ≡ true
    → (t : CostTable) × (load : List String) × (recurse_slots slots fuel names [] ≡ ok t)
      × (get_slot_cost slots fuel name t
          ≡ ok ((own_cost slots name, own_cost slots name + total_cost slots load), t))
      × (distinct load ≡ true)
      × ((k : String) → Reach slots name k → contains load k ≡ true)
      × ((k : String) → contains load k ≡ true → Reach slots name k)
unfolding lookup
get_slot_cost-total slots rank fuel names name acyclic below inside =
    let (t, ends, table, grows, done) =
      recurse_slots-Finished slots rank acyclic fuel names [] below (IsTable-empty slots)
        (λ k at. cc) in
    let (e, at) = done name inside in
    let right = table.right name e at in
    (
      t,
      e.load,
      ends,
      get_slot_cost-known slots fuel name t e at right (below name inside),
      right.once,
      right.all_reached,
      right.only_reached,
    )
