-- ===== src/Compile/Cost/Visit.antt =====
-- packages/sqrl/src/compile/SqrlCompiledOutput.ts, the loops of `recurseSlot`, where every slot that
-- is loaded can be visited.
use sqrl.Prelude.{
  ℕ, ◌<◌, ◌≤◌, String, Bool, true, ◌||◌, List, [], ◌∷◌, none, some, contains, add, add_all, lookup,
  Result, ok, ◌≡◌, ◌⊎◌, inl, inr, refl, sym, ◌∙◌, arith, str_eq, eq_iff, Bool-cases, or_cases,
  or_left, or_right,
}
use sqrl.Compile.Cost.{Slots, Entry, CostTable, uses, visit_load, visit_loads}
use sqrl.Compile.Cost.Reach.{
  Reach, used, through, Reach-trans, IsRight, distinct, distinct-add, distinct-add_all,
  contains-added,
}
use sqrl.Compile.Cost.Table.{Finished, IsTable, Grows, Grows-same, Grows-trans}

-- The slots found so far: all are reached from `name`, what they reach is among them, and they are done.
pub record IsLoad (slots : Slots) (name : String) (load : List String) (t : CostTable)
    : Type 0 where
  pub reached : (k : String) → contains load k ≡ true → Reach slots name k
  pub onward : (b c : String) → contains load b ≡ true → Reach slots b c → contains load c ≡ true
  pub done : (k : String) → contains load k ≡ true → Finished t k
  pub apart : distinct load ≡ true

pub IsLoad-Grows :
    (slots : Slots) (name : String) (load : List String) (t t' : CostTable)
    → Grows t t'
    → IsLoad slots name load t
    → IsLoad slots name load t'
IsLoad-Grows slots name load t t' g l = record {
  reached = l.reached;
  onward = l.onward;
  done = λ k inside. let (e, at) = l.done k inside in (e, g.kept k (some e) at);
  apart = l.apart;
}

-- One more slot, which is done, with what it loads.
pub IsLoad-add :
    (slots : Slots) (name b : String) (load : List String) (t : CostTable) (e : Entry)
    → contains (uses slots name) b ≡ true
    → IsTable slots t
    → lookup b t ≡ some (some e)
    → IsLoad slots name load t
    → IsLoad slots name (add_all e.load (add b load)) t
IsLoad-add slots name b load t e uses_b table at l = record {
  reached = λ k inside. elim (split k inside) [
    | inl inner ↦ through uses_b (right.only_reached k inner)
    | inr (inl same) ↦ rw (sym ((eq_iff b k).0 same)) (used uses_b)
    | inr (inr old) ↦ l.reached k old
  ];
  onward = λ j c inside reach. join c (elim (split j inside) [
    | inl inner ↦
        or_left (contains e.load c) _
          (right.all_reached c (Reach-trans (right.only_reached j inner) reach))
    | inr (inl same) ↦
        or_left (contains e.load c) _ (right.all_reached c (rw ((eq_iff b j).0 same) reach))
    | inr (inr old) ↦
        or_right (contains e.load c) _ (or_right (str_eq b c) _ (l.onward j c old reach))
  ]);
  done = λ k inside. elim (split k inside) [
    | inl inner ↦ table.closed b e k at inner
    | inr (inl same) ↦ (e, rw (sym ((eq_iff b k).0 same)) at)
    | inr (inr old) ↦ l.done k old
  ];
  apart = distinct-add_all e.load (add b load) (distinct-add b load l.apart);
}
  where
    right : IsRight slots b e
    right = table.right b e at

    join :
        (k : String)
        → (contains e.load k || (str_eq b k || contains load k)) ≡ true
        → contains (add_all e.load (add b load)) k ≡ true
    join k h = contains-added e.load load b k ∙ h

    split :
        (k : String)
        → contains (add_all e.load (add b load)) k ≡ true
        → (contains e.load k ≡ true) ⊎ ((str_eq b k ≡ true) ⊎ (contains load k ≡ true))
    split k inside =
        elim (or_cases (contains e.load k) _ (sym (contains-added e.load load b k) ∙ inside)) [
          | inl inner ↦ inl inner
          | inr other ↦ inr (or_cases (str_eq b k) (contains load k) other)
        ]

-- `go` ends well on each slot below the bound, where all slots in calculation have a higher rank.
abbrev pub CanVisit : Slots → (String → ℕ) → (String → CostTable → Result CostTable) → ℕ → Type 0
CanVisit slots rank go bound =
    (b : String) (t : CostTable)
    → rank b < bound
    → IsTable slots t
    → ((k : String) → lookup k t ≡ some none → rank b < rank k)
    → (t' : CostTable) × (go b t ≡ ok t') × IsTable slots t' × Grows t t' × Finished t' b

module _ (slots : Slots) (rank : String → ℕ) (go : String → CostTable → Result CostTable)
    (bound : ℕ) (can : CanVisit slots rank go bound) (name : String)
    (acyclic : (b : String) → contains (uses slots name) b ≡ true → rank b < rank name)
    (within : rank name ≤ bound) where
  -- What a visit of some slots ends with.
  abbrev pub Visited :
      Result (List String × CostTable) → List String → CostTable → (String → Bool) → Type 0
  Visited result load t wanted =
      (load' : List String) × (t' : CostTable) × (result ≡ ok (load', t'))
      × IsTable slots t'
      × Grows t t'
      × IsLoad slots name load' t'
      × ((k : String) → contains load k ≡ true → contains load' k ≡ true)
      × ((k : String) → wanted k ≡ true → contains load' k ≡ true)

  pub visit_load-Visited :
      (b : String) (load : List String) (t : CostTable)
      → contains (uses slots name) b ≡ true
      → IsTable slots t
      → ((k : String) → lookup k t ≡ some none → rank name ≤ rank k)
      → IsLoad slots name load t
      → Visited (visit_load go b load t) load t (str_eq b)
  unfolding visit_load
  visit_load-Visited b load t uses_b table running l = elim (Bool-cases (contains load b)) [
    | inl inside ↦ (
      load,
      t,
      rw inside refl,
      table,
      Grows-same t,
      l,
      (λ k h. h),
      (λ k same. rw (sym ((eq_iff b k).0 same)) inside),
    )
    | inr new ↦
        let lower = acyclic b uses_b in
        let (t', ends, table', grows, (e, at)) =
          can b t (omega arith) table (λ k h. omega (arith, running k h)) in
        (
          add_all e.load (add b load),
          t',
          rw new (rw ends (rw at refl)),
          table',
          grows,
          IsLoad-add slots name b load t' e uses_b table' at
              (IsLoad-Grows slots name load t t' grows l),
          (λ k h.
              contains-added e.load load b k
              ∙ or_right (contains e.load k) _ (or_right (str_eq b k) _ h)),
          (λ k h.
              contains-added e.load load b k
              ∙ or_right (contains e.load k) _ (or_left (str_eq b k) _ h)),
        )
  ]

  pub visit_loads-Visited :
      (names load : List String) (t : CostTable)
      → ((k : String) → contains names k ≡ true → contains (uses slots name) k ≡ true)
      → IsTable slots t
      → ((k : String) → lookup k t ≡ some none → rank name ≤ rank k)
      → IsLoad slots name load t
      → Visited (visit_loads go names load t) load t (contains names)
  unfolding visit_loads contains
  visit_loads-Visited [] load t among table running l =
      (load, t, refl, table, Grows-same t, l, (λ k h. h), (λ k h. cc))
  visit_loads-Visited (b ∷ names) load t among table running l =
      let (load1, t1, ends1, table1, grows1, l1, old1, new1) =
        visit_load-Visited b load t (among b (or_left (str_eq b b) _ ((eq_iff b b).1 refl))) table
          running l in
      let (load2, t2, ends2, table2, grows2, l2, old2, new2) =
        visit_loads-Visited names load1 t1 (λ k h. among k (or_right (str_eq b k) _ h)) table1
          (λ k h. running k (grows1.no_new k h)) l1 in
      (
        load2,
        t2,
        rw ends1 ends2,
        table2,
        Grows-trans grows1 grows2,
        l2,
        (λ k h. old2 k (old1 k h)),
        (λ k h. elim (or_cases (str_eq b k) (contains names k) h) [
          | inl same ↦ old2 k (new1 k same)
          | inr rest ↦ new2 k rest
        ]),
      )
