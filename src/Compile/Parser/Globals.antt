-- ===== src/Compile/Parser/Globals.antt =====
-- The operations of packages/sqrl/src/compile/SqrlParserState.ts that transform syntax trees keep the
-- slots, if the transformer does.
use sqrl.Prelude.{
  String, Bool, true, not, [], ◌∷◌, Option, none, some, Result, ok, invalid, ensure, ◌>>=◌, ◌||◌,
  lookup, Yields, halts, yields, Yields-bind, Yields-after, Yields-map, Yields-ok, ◌≡◌, refl, ap,
  sym, ◌∙◌, inl, inr, Bool-cases,
}
use mathlib.Core.Path.{subst}
use sqrl.Value.{boolean, null}
use sqrl.Ast.{Ast, constant}
use sqrl.Ast.Build.{and_ast, branch}
use sqrl.Ast.Walk.{contains_iterator}
use sqrl.Where.TruthTable.{reduce_truth_table}
use sqrl.Slots.Feature.{Let, FeatureSlot, let_node, merge_global}
use sqrl.Slots.Feature
use sqrl.Slots.Feature.Merged.{merge_global-IsMerged}
use sqrl.Slots.Slot.{Content, empty_slot, input_slot, fixed_slot, feature_slot, Slot}
use sqrl.Compile.Parser.{Parser, is_empty_content, without_global_where}
use sqrl.Compile.Parser.Trees.{
  Tools, global_in, same_global, global_name, put_global, save_global, is_none, new_global,
  add_statement, bool_slot, bool_ast, where_bool_name, combine_with_global_where, is_open,
  is_open_content, feature_in, feature_content, open_feature, combine_let, merge_found, merge_let,
  push_let,
}
use sqrl.Compile.Parser.Kept.{
  Keeps, IsKept, IsKept-refl, IsKept-trans, Replaces, put-IsKept, put_found-IsKept,
}
use sqrl.Compile.Parser.Commands.{empty-Keeps, add_statement_slot-IsKept}

-- The transformer keeps the slots, too.
abbrev pub IsKeeping : Tools → Type 0
IsKeeping tools = (e : Ast) (p : Parser) → Yields (λ r. IsKept p r.0) (tools.transform e p)

-- A step that keeps the slots, and then another one.
pub IsKept-step :
    (p : Parser) (step : Result Parser) (next : Parser → Result Parser)
    → Yields (IsKept p) step
    → ((q : Parser) → Yields (IsKept q) (next q))
    → Yields (IsKept p) (step >>= next)
IsKept-step p step next h after =
    Yields-bind (IsKept p) step next h
      (λ q kept. Yields-map (next q) (λ r k. IsKept-trans p q r kept k) (after q))

-- What follows a step that keeps the slots.
pub IsKept-pair {ℓ κ} :
    {A : Type ℓ} {B : Type κ} (p : Parser) (step : Result (Parser × A))
    (next : Parser × A → Result (Parser × B))
    → Yields (λ r. IsKept p r.0) step
    → ((r : Parser × A) → Yields (λ q. IsKept r.0 q.0) (next r))
    → Yields (λ q. IsKept p q.0) (step >>= next)
IsKept-pair p step next h after =
    Yields-bind (λ r. IsKept p r.0) step next h
      (λ r kept. Yields-map (next r) (λ q k. IsKept-trans p r.0 q.0 kept k) (after r))

pub IsKept-then {ℓ} :
    {A : Type ℓ} (p : Parser) (step : Result (Parser × A)) (next : Parser × A → Result Parser)
    → Yields (λ r. IsKept p r.0) step
    → ((r : Parser × A) → Yields (IsKept r.0) (next r))
    → Yields (IsKept p) (step >>= next)
IsKept-then p step next h after =
    Yields-bind (λ r. IsKept p r.0) step next h
      (λ r kept. Yields-map (next r) (λ q k. IsKept-trans p r.0 q kept k) (after r))

module _ (tools : Tools) (keeping : IsKeeping tools) where
  global_in-IsKept :
      (name : String) (e : Ast) (p : Parser) (found : Option Slot)
      → lookup name p.slots ≡ found
      → Yields (IsKept p) (global_in tools name e p found)
  global_in-IsKept name e p none at_name = yields (put_found-IsKept name _ p none at_name tt)
  global_in-IsKept name e p (some s) at_name = elim (Bool-cases (is_empty_content s.content)) [
    | inl empty ↦
        rw empty
          (yields (put_found-IsKept name _ p (some s) at_name (empty-Keeps s.content _ empty)))
    | inr full ↦
        rw full (Yields-after (same_global tools s.content e) _ (λ _. yields (IsKept-refl p)))
  ]

  put_global-IsKept :
      (tree : Ast) (p : Parser) (name : String)
      → Yields (λ r. IsKept p r.0) (put_global tools tree p name)
  put_global-IsKept tree p name =
      Yields-bind (IsKept p) (global_in tools name tree p (lookup name p.slots))
        (λ done. ok (done, name)) (global_in-IsKept name tree p (lookup name p.slots) refl)
        (λ q k. yields k)

  save_global-IsKept :
      (global_where : Ast) (given : Option String) (p : Parser) (transformed : Ast)
      → Yields (λ r. IsKept p r.0) (save_global tools global_where given (p, transformed))
  save_global-IsKept global_where given p transformed =
      let tree = branch global_where transformed (constant null) in
      Yields-after (global_name tools given tree) (put_global tools tree p)
        (put_global-IsKept tree p)

  pub new_global-IsKept :
      (e : Ast) (given : Option String) (p : Parser)
      → Yields (λ r. IsKept p r.0) (new_global tools e given p)
  unfolding new_global
  new_global-IsKept e given p =
      Yields-after
        (ensure (is_none p.current_iterator || not (contains_iterator e))
          (invalid "Expression is not valid during a list comprehension"))
        (λ _. tools.transform e p >>= save_global tools p.global_where given)
        (λ _.
          IsKept-pair p (tools.transform e p) (save_global tools p.global_where given) (keeping e p)
            (λ r. save_global-IsKept p.global_where given r.0 r.1))

  pub add_statement-IsKept :
      (global : String) (e : Ast) (p : Parser) → Yields (IsKept p) (add_statement tools global e p)
  unfolding add_statement
  add_statement-IsKept global e p =
      IsKept-then p (new_global tools e none p) _ (new_global-IsKept e none p)
        (λ r. add_statement_slot-IsKept global r.1 r.0)

  -- Under another where clause, which is taken back.
  pub without_global_where-IsKept :
      {A : Type 0} (callback : Parser → Result (Parser × A)) (p : Parser)
      → Yields
          (λ r. IsKept (record p { global_where = constant (boolean true) }) r.0)
          (callback (record p { global_where = constant (boolean true) }))
      → Yields (λ r. IsKept p r.0) (without_global_where callback p)
  without_global_where-IsKept callback p h =
      Yields-bind _ (callback (record p { global_where = constant (boolean true) })) _ h (λ r kept.
        yields (record {
          slots = kept.slots;
          global_where = refl;
          current_iterator = kept.current_iterator;
        }))

  bool_slot-IsKept :
      (name : String) (combined : Ast) (p : Parser) (found : Option Slot)
      → Yields (λ r. IsKept p r.0) (bool_slot tools name combined p found)
  bool_slot-IsKept name combined p (some s) = yields (IsKept-refl p)
  bool_slot-IsKept name combined p none =
      without_global_where-IsKept (new_global tools (bool_ast combined) (some name)) p
        (new_global-IsKept (bool_ast combined) (some name) _)

  pub combine_with_global_where-IsKept :
      (where_ast global : Ast) (p : Parser)
      → Yields (λ r. IsKept p r.0) (combine_with_global_where tools where_ast global p)
  unfolding combine_with_global_where
  combine_with_global_where-IsKept where_ast global p =
      Yields-after (and_ast (global ∷ where_ast ∷ [])) _ (λ combined.
        Yields-after (reduce_truth_table combined) _ (λ table.
          Yields-bind (λ r. IsKept p r.0)
            (bool_slot tools (where_bool_name table) combined p
              (lookup (where_bool_name table) p.slots))
            _ (bool_slot-IsKept (where_bool_name table) combined p _) (λ r kept. yields kept)))

  open_content-Keeps :
      (allow : Bool) (c : Content) (f : FeatureSlot)
      → is_open_content allow c ≡ true
      → Keeps c (feature_slot f)
  open_content-Keeps allow empty_slot f h = tt
  open_content-Keeps allow input_slot f h = inr tt
  open_content-Keeps allow (fixed_slot e true) f h = inr tt
  open_content-Keeps allow c f h = cc

  open-Replaces :
      (allow : Bool) (found : Option Slot) (f : FeatureSlot)
      → is_open allow found ≡ true
      → Replaces found (feature_slot f)
  open-Replaces allow none f h = tt
  open-Replaces allow (some s) f h = open_content-Keeps allow s.content f h

  open_feature-IsKept : (name : String) (p : Parser) → IsKept p (open_feature name p)
  open_feature-IsKept name p =
      elim (Bool-cases (is_open p.allow_replace_input (lookup name p.slots))) [
        | inl opens ↦ rw opens (
            put-IsKept name _ p
              (open-Replaces p.allow_replace_input (lookup name p.slots) Feature.new_slot opens))
        | inr closed ↦ rw closed (IsKept-refl p)
      ]

  combine_let-IsKept : (l : Let) (p : Parser) → Yields (λ r. IsKept p r.0) (combine_let tools l p)
  combine_let-IsKept l p = elim (Bool-cases l.is_default_case) [
    | inl default ↦ rw default (yields (IsKept-refl p))
    | inr other ↦ rw other (
        Yields-bind (λ r. IsKept p r.0)
          (combine_with_global_where tools l.where_ast p.global_where p) _
          (combine_with_global_where-IsKept l.where_ast p.global_where p) (λ r kept. yields kept))
  ]

  merged-Keeps :
      (combine_wheres : Ast → Ast → Result (Ast × Ast)) (l : Let) (global : Ast)
      (f merged : FeatureSlot)
      → merge_global combine_wheres l global f ≡ ok merged
      → Keeps (feature_slot f) (feature_slot merged)
  merged-Keeps combine_wheres l global f merged e =
      let (text, defined) =
        (merge_global-IsMerged combine_wheres l global f merged e).definitions in
      ((let_node l, text) ∷ [], defined)

  feature_content-found :
      (c : Content) (f : FeatureSlot) → feature_content c ≡ ok f → c ≡ feature_slot f
  feature_content-found (feature_slot g) f h = let same : g ≡ f = cc in ap feature_slot same
  feature_content-found c f h = cc

  merge_found-IsKept :
      (l : Let) (global : Ast) (combine_wheres : Ast → Ast → Result (Ast × Ast)) (p : Parser)
      (s : Slot) (f : FeatureSlot)
      → lookup l.name p.slots ≡ some s
      → s.content ≡ feature_slot f
      → Yields (IsKept p) (merge_found l global combine_wheres p (s, f))
  merge_found-IsKept l global combine_wheres p s f found is_feature =
      Yields-bind (λ merged. Keeps (feature_slot f) (feature_slot merged))
        (merge_global combine_wheres l global f) _
        (Yields-ok (merge_global combine_wheres l global f)
          (merged-Keeps combine_wheres l global f))
        (λ merged keeps. yields (
          put_found-IsKept l.name _ p (some s) found
            (subst (λ (c : Content). Keeps c (feature_slot merged)) (sym is_feature) keeps)))

  merge_in-IsKept :
      (l : Let) (global : Ast) (combine_wheres : Ast → Ast → Result (Ast × Ast)) (p : Parser)
      (found : Option Slot)
      → lookup l.name p.slots ≡ found
      → Yields (IsKept p) (feature_in found >>= merge_found l global combine_wheres p)
  merge_in-IsKept l global combine_wheres p none e = halts
  merge_in-IsKept l global combine_wheres p (some s) e =
      Yields-bind (λ (r : Slot × FeatureSlot). (s ≡ r.0) × (r.0.content ≡ feature_slot r.1))
        (feature_in (some s)) (merge_found l global combine_wheres p)
        (Yields-bind (λ f. s.content ≡ feature_slot f) (feature_content s.content) (λ f. ok (s, f))
          (Yields-ok (feature_content s.content) (feature_content-found s.content))
          (λ f is_feature. yields (refl, is_feature)))
        (λ r both. merge_found-IsKept l global combine_wheres p r.0 r.1 (e ∙ ap some both.0) both.1)

  pub push_let-IsKept : (l : Let) (p : Parser) → Yields (IsKept p) (push_let tools l p)
  unfolding push_let
  push_let-IsKept l p =
      let opened = open_feature l.name p in
      let opens = open_feature-IsKept l.name p in
      let merged = combine_let tools l opened >>= merge_let l p.global_where in
      let kept : Yields (IsKept p) merged =
        Yields-map merged (λ q k. IsKept-trans p opened q opens k)
          (IsKept-then opened (combine_let tools l opened) (merge_let l p.global_where)
            (combine_let-IsKept l opened)
            (λ r. merge_in-IsKept l p.global_where r.1 r.0 (lookup l.name r.0.slots) refl)) in
      Yields-after (feature_in (lookup l.name opened.slots)) _ (λ found.
        Yields-after
          (ensure (not found.1.is_final)
            (invalid "Feature has been marked as final and cannot be overwritten: %s"))
          (λ _. merged) (λ _. kept))
