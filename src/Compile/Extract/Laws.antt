-- ===== src/Compile/Extract/Laws.antt =====
-- `_exprExtractLoad` of packages/sqrl/src/ast/AstExpr.ts: which slots are loaded where a value is read.
use sqrl.Prelude.{
  String, Bool, true, false, not, ◌&&◌, ◌||◌, List, [], ◌∷◌, ◌++◌, Option, none, filter, contains,
  contains-append, contains-add_all, ◌≡◌, refl, sym, ap, ap₂, ◌∙◌, arith, str_eq, eq_iff, both_true,
  or_right,
}
use sqrl.Compile.Expr.{Kind, load, value, Expr, node, Exprs, nil, cons, or_empty}
use sqrl.Compile.Extract.{extract, extract_all, wrap_load, new_load}
use sqrl.Compile.Fold.Meaning.{Runtime, eval, eval_all, eval_kind}

-- A value node reads a slot that is among those in the list.
abbrev pub reads_within : Kind → List String → Bool
reads_within (value name) names = contains names name
reads_within _ names = true

unfoldable mutual
  -- Each value node has its slot in its `load` or in that of a node around it.
  pub requested : Expr → List String → Bool
  requested (node k names exprs) around =
      reads_within k (or_empty names ++ around) && requested_all exprs (or_empty names ++ around)

  pub requested_all : Exprs → List String → Bool
  requested_all nil around = true
  requested_all (cons e es) around = requested e around && requested_all es around

abbrev pub loaded_by : Kind → Option (List String) → List String → List String
loaded_by load names loaded = or_empty names ++ loaded
loaded_by _ names loaded = loaded

unfoldable mutual
  -- Each value node stands under a load node for its slot, or the slot is loaded before.
  pub safe : Expr → List String → Bool
  safe (node k names exprs) loaded =
      reads_within k loaded && safe_all exprs (loaded_by k names loaded)

  pub safe_all : Exprs → List String → Bool
  safe_all nil loaded = true
  safe_all (cons e es) loaded = safe e loaded && safe_all es loaded

abbrev none_of : List String → List String → Bool
none_of [] loaded = true
none_of (name ∷ names) loaded = not (contains loaded name) && none_of names loaded

abbrev loads_fresh : Kind → Option (List String) → List String → Bool
loads_fresh load names loaded = none_of (or_empty names) loaded
loads_fresh _ names loaded = true

unfoldable mutual
  -- No load node loads a slot that a node around it has loaded.
  pub fresh : Expr → List String → Bool
  fresh (node k names exprs) loaded =
      loads_fresh k names loaded && fresh_all exprs (loaded_by k names loaded)

  pub fresh_all : Exprs → List String → Bool
  fresh_all nil loaded = true
  fresh_all (cons e es) loaded = fresh e loaded && fresh_all es loaded

contains-filter :
    (ks loaded : List String) (k : String)
    → contains (filter (λ name. not (contains loaded name)) ks) k
      ≡ (contains ks k && not (contains loaded k))
unfolding contains
contains-filter [] loaded k = refl
contains-filter (j ∷ ks) loaded k = ground (arith, contains-filter ks loaded k, eq_iff j k)

contains-new_load :
    (names : Option (List String)) (loaded : List String) (k : String)
    → contains (new_load names loaded) k ≡ (contains (or_empty names) k && not (contains loaded k))
unfolding contains
contains-new_load names loaded k =
    rw
      (
        contains-add_all (filter (λ name. not (contains loaded name)) (or_empty names)) k [],
        contains-filter (or_empty names) loaded k,
      )
      (ground arith)

-- What is loaded inside a node after extraction: all that was requested there and around.
contains-inside :
    (names : Option (List String)) (around loaded : List String)
    (within : (k : String) → contains around k ≡ true → contains loaded k ≡ true) (k : String)
    → contains (or_empty names ++ around) k ≡ true
    → contains (new_load names loaded ++ loaded) k ≡ true
contains-inside names around loaded within k h =
    rw (contains-append (new_load names loaded) loaded k, contains-new_load names loaded k)
      (inside (contains (or_empty names) k) (contains around k) (contains loaded k)
        (sym (contains-append (or_empty names) around k) ∙ h) (within k))
  where
    inside :
        (own around loaded : Bool)
        → (own || around) ≡ true
        → (around ≡ true → loaded ≡ true)
        → (own && not loaded || loaded) ≡ true
    inside true around true h w = refl
    inside true around false h w = refl
    inside false true loaded h w = w refl
    inside false false loaded h w = cc

wrap_load-safe :
    (new : List String) (e : Expr) (loaded : List String)
    → safe (wrap_load new e) loaded ≡ safe e (new ++ loaded)
unfolding safe
wrap_load-safe [] e loaded = refl
wrap_load-safe (name ∷ names) e loaded = ground arith

reads_within_mono :
    (k : Kind) (around loaded : List String)
    → ((name : String) → contains around name ≡ true → contains loaded name ≡ true)
    → reads_within k around ≡ true
    → reads_within k loaded ≡ true
reads_within_mono (value name) around loaded within h = within name h
reads_within_mono _ around loaded within h = refl

loaded_by-none : (k : Kind) (loaded : List String) → loaded_by k none loaded ≡ loaded
loaded_by-none load loaded = refl
loaded_by-none _ loaded = refl

mutual
  unfolding extract requested safe

  pub extract-safe_from :
      (e : Expr) (around loaded : List String)
      → ((k : String) → contains around k ≡ true → contains loaded k ≡ true)
      → requested e around ≡ true
      → safe (extract e loaded) loaded ≡ true
  extract-safe_from (node k names exprs) around loaded within h =
      let inside = contains-inside names around loaded within in
      let here = new_load names loaded ++ loaded in
      let (own, parts) =
        both_true (reads_within k (or_empty names ++ around))
          (requested_all exprs (or_empty names ++ around)) h in
      wrap_load-safe (new_load names loaded) (node k none (extract_all exprs here)) loaded
      ∙ ap₂ (λ a b. a && b) (reads_within_mono k (or_empty names ++ around) here inside own)
          (ap (safe_all (extract_all exprs here)) (loaded_by-none k here)
            ∙ extract_all-safe exprs (or_empty names ++ around) here inside parts)

  extract_all-safe :
      (es : Exprs) (around loaded : List String)
      → ((k : String) → contains around k ≡ true → contains loaded k ≡ true)
      → requested_all es around ≡ true
      → safe_all (extract_all es loaded) loaded ≡ true
  extract_all-safe nil around loaded within h = refl
  extract_all-safe (cons e es) around loaded within h =
      let (one, others) = both_true (requested e around) (requested_all es around) h in
      ap₂ (λ a b. a && b) (extract-safe_from e around loaded within one)
        (extract_all-safe es around loaded within others)

pub contains-head : (k : String) (ks : List String) → contains (k ∷ ks) k ≡ true
unfolding contains
contains-head k ks = ground (arith, eq_iff k k)

none_of-outside :
    (names loaded : List String)
    → ((k : String) → contains names k ≡ true → contains loaded k ≡ false)
    → none_of names loaded ≡ true
unfolding contains
none_of-outside [] loaded outside = refl
none_of-outside (name ∷ names) loaded outside =
    ap₂ (λ a b. not a && b) (outside name (contains-head name names))
      (none_of-outside names loaded
        (λ k h. outside k (or_right (str_eq name k) (contains names k) h)))

wrap_load-fresh :
    (new : List String) (e : Expr) (loaded : List String)
    → none_of new loaded ≡ true
    → fresh (wrap_load new e) loaded ≡ fresh e (new ++ loaded)
unfolding fresh
wrap_load-fresh [] e loaded h = refl
wrap_load-fresh (name ∷ names) e loaded h = ground arith

loads_fresh-none : (k : Kind) (loaded : List String) → loads_fresh k none loaded ≡ true
loads_fresh-none load loaded = refl
loads_fresh-none _ loaded = refl

new_load-outside :
    (names : Option (List String)) (loaded : List String)
    → none_of (new_load names loaded) loaded ≡ true
new_load-outside names loaded = none_of-outside (new_load names loaded) loaded (λ k h.
    outside (contains (or_empty names) k) (contains loaded k)
      (sym (contains-new_load names loaded k) ∙ h))
  where
    outside : (own loaded : Bool) → (own && not loaded) ≡ true → loaded ≡ false
    outside own loaded h = ground arith

mutual
  unfolding extract fresh

  pub extract-fresh : (e : Expr) (loaded : List String) → fresh (extract e loaded) loaded ≡ true
  extract-fresh (node k names exprs) loaded =
      let here = new_load names loaded ++ loaded in
      wrap_load-fresh (new_load names loaded) (node k none (extract_all exprs here)) loaded
        (new_load-outside names loaded)
      ∙ ap₂ (λ a b. a && b) (loads_fresh-none k here)
          (ap (fresh_all (extract_all exprs here)) (loaded_by-none k here)
            ∙ extract_all-fresh exprs here)

  extract_all-fresh :
      (es : Exprs) (loaded : List String) → fresh_all (extract_all es loaded) loaded ≡ true
  extract_all-fresh nil loaded = refl
  extract_all-fresh (cons e es) loaded =
      ap₂ (λ a b. a && b) (extract-fresh e loaded) (extract_all-fresh es loaded)

module _ (rt : Runtime) where
  wrap_load-eval : (new : List String) (e : Expr) → eval rt (wrap_load new e) ≡ eval rt e
  unfolding eval
  wrap_load-eval [] e = refl
  wrap_load-eval (name ∷ names) e = refl

  mutual
    unfolding extract eval

    pub extract-eval : (e : Expr) (loaded : List String) → eval rt (extract e loaded) ≡ eval rt e
    extract-eval (node k names exprs) loaded =
        let here = new_load names loaded ++ loaded in
        wrap_load-eval (new_load names loaded) (node k none (extract_all exprs here))
        ∙ ap (eval_kind rt k) (extract_all-eval exprs here)

    extract_all-eval :
        (es : Exprs) (loaded : List String) → eval_all rt (extract_all es loaded) ≡ eval_all rt es
    extract_all-eval nil loaded = refl
    extract_all-eval (cons e es) loaded =
        ap₂ (λ v vs. v ∷ vs) (extract-eval e loaded) (extract_all-eval es loaded)
