-- ===== src/Compile/Cost/Table.antt =====
-- packages/sqrl/src/compile/SqrlCompiledOutput.ts: the dictionaries of costs between two visits.
use sqrl.Prelude.{
  String, true, false, Option, none, some, contains, lookup, insert, lookup-insert, if◌then◌else◌,
  ◌≡◌, inl, inr, ◌≢◌, refl, sym, ap, ◌∙◌, str_eq, eq_iff, Bool-cases,
}
use sqrl.Compile.Cost.{Slots, Entry, CostTable}
use sqrl.Compile.Cost.Reach.{IsRight}

abbrev pub Finished : CostTable → String → Type 0
Finished t k = (e : Entry) × (lookup k t ≡ some (some e))

-- Every slot that is done has a right entry, and what it loads is done.
pub record IsTable (slots : Slots) (t : CostTable) : Type 0 where
  pub right : (k : String) (e : Entry) → lookup k t ≡ some (some e) → IsRight slots k e
  pub closed :
      (k : String) (e : Entry) (x : String)
      → lookup k t ≡ some (some e)
      → contains e.load x ≡ true
      → Finished t x

-- What a visit does to the table: nothing that is there changes, and no slot is left in calculation.
pub record Grows (t t' : CostTable) : Type 0 where
  pub kept : (k : String) (o : Option Entry) → lookup k t ≡ some o → lookup k t' ≡ some o
  pub no_new : (k : String) → lookup k t' ≡ some none → lookup k t ≡ some none

pub Grows-same : (t : CostTable) → Grows t t
Grows-same t = record { kept = λ k o h. h; no_new = λ k h. h }

pub Grows-trans : {t u v : CostTable} → Grows t u → Grows u v → Grows t v
Grows-trans g h = record {
  kept = λ k o at. h.kept k o (g.kept k o at);
  no_new = λ k at. g.no_new k (h.no_new k at);
}

module _ (t : CostTable) (name : String) where
  pub lookup-other :
      (k : String) (o : Option Entry)
      → str_eq name k ≡ false
      → lookup k (insert name o t) ≡ lookup k t
  lookup-other k o other =
      lookup-insert name k o t ∙ ap (λ b. if b then some o else lookup k t) other

  pub lookup-same : (o : Option Entry) → lookup name (insert name o t) ≡ some o
  lookup-same o =
      lookup-insert name name o t
      ∙ ap (λ b. if b then some o else lookup name t) ((eq_iff name name).1 refl)

  -- A slot that has another entry than `name` is another slot.
  pub lookup-differs :
      (k : String) (o p : Option (Option Entry))
      → lookup name t ≡ o
      → lookup k t ≡ p
      → o ≢ p
      → str_eq name k ≡ false
  lookup-differs k o p h g differ = elim (Bool-cases (str_eq name k)) [
    | inr other ↦ other
    | inl same ↦ absurd (differ (sym h ∙ ap (λ n. lookup n t) ((eq_iff name k).0 same) ∙ g))
  ]

none_differs : (o : Option Entry) → none ≢ some o
none_differs o same = cc

running_differs : (e : Entry) → some none ≢ some (some e)
running_differs e same = cc

-- The start of a calculation, on a slot that has no entry yet.
pub IsTable-start :
    (slots : Slots) (t : CostTable) (name : String)
    → lookup name t ≡ none
    → IsTable slots t
    → IsTable slots (insert name none t)
IsTable-start slots t name new h = record {
  right = λ k e at. h.right k e (before k e at);
  closed = λ k e x at inside.
      let (e', at') = h.closed k e x (before k e at) inside in
      (
        e',
        lookup-other t name x none
              (lookup-differs t name x none (some (some e')) new at' (none_differs (some e')))
            ∙ at',
      );
}
  where
    before :
        (k : String) (e : Entry)
        → lookup k (insert name none t) ≡ some (some e)
        → lookup k t ≡ some (some e)
    before k e at =
        sym (
          lookup-other t name k none (
            lookup-differs (insert name none t) name k (some none) (some (some e))
              (lookup-same t name none) at (running_differs e)))
        ∙ at

-- Its end.
pub IsTable-finish :
    (slots : Slots) (t : CostTable) (name : String) (e : Entry)
    → lookup name t ≡ some none
    → IsTable slots t
    → IsRight slots name e
    → ((x : String) → contains e.load x ≡ true → Finished t x)
    → IsTable slots (insert name (some e) t)
IsTable-finish slots t name e running h entry inside_done = record {
  right = λ k e' at. elim (Bool-cases (str_eq name k)) [
    | inl same ↦ let (n, s) = the_entry k e' same at in rw (sym n) (rw (sym s) entry)
    | inr other ↦ h.right k e' (sym (lookup-other t name k (some e) other) ∙ at)
  ];
  closed = λ k e' x at inside. elim (Bool-cases (str_eq name k)) [
    | inl same ↦ let (n, s) = the_entry k e' same at in still x (inside_done x (rw s inside))
    | inr other ↦ still x (h.closed k e' x (sym (lookup-other t name k (some e) other) ∙ at) inside)
  ];
}
  where
    the_entry :
        (k : String) (e' : Entry)
        → str_eq name k ≡ true
        → lookup k (insert name (some e) t) ≡ some (some e')
        → (name ≡ k) × (e ≡ e')
    the_entry k e' same at =
        let n : name ≡ k = (eq_iff name k).0 same in
        let there : some (some e) ≡ some (some e') =
          sym (lookup-same t name (some e)) ∙ ap (λ m. lookup m (insert name (some e) t)) n ∙ at in
        (n, cc)

    still : (x : String) → Finished t x → Finished (insert name (some e) t) x
    still x (e', at) = (
      e',
      lookup-other t name x (some e)
            (lookup-differs t name x (some none) (some (some e')) running at (running_differs e'))
          ∙ at,
    )

-- A whole calculation, whose loop ran from the start to `u`.
pub Grows-calculation :
    (t u : CostTable) (name : String) (e : Entry)
    → lookup name t ≡ none
    → Grows (insert name none t) u
    → Grows t (insert name (some e) u)
Grows-calculation t u name e new g = record {
  kept = λ k o at.
      let other = lookup-differs t name k none (some o) new at (none_differs o) in
      lookup-other u name k (some e) other ∙ g.kept k o (lookup-other t name k none other ∙ at);
  no_new = λ k at.
      let other =
        lookup-differs (insert name (some e) u) name k (some (some e)) (some none)
          (lookup-same u name (some e)) at (λ same. running_differs e (sym same)) in
      sym (lookup-other t name k none other)
      ∙ g.no_new k (sym (lookup-other u name k (some e) other) ∙ at);
}
