-- ===== src/Compile/Parser/Kept.antt =====
-- What the operations of packages/sqrl/src/compile/SqrlParserState.ts never take back: a slot keeps its
-- class and what it holds, unless it may be replaced.
use sqrl.Prelude.{
  String, true, false, List, [], ◌++◌, Option, none, some, lookup, insert, lookup-insert, contains,
  str_eq, eq_iff, Bool-cases, ◌≡◌, ◌⊎◌, inl, inr, refl, ◌∙◌, sym,
}
use mathlib.Core.Path.{subst}
use mathlib.Core.List.{append-nil, append_assoc}
use sqrl.Ast.{Ast}
use sqrl.Slots.Feature.{FeatureSlot}
use sqrl.Slots.Slot.{
  Content, iterator_slot, empty_slot, input_slot, statement_slot, constant_slot, fixed_slot,
  feature_slot, rule_slot, Slot,
}
use sqrl.Compile.Parser.{Parser, put}

-- The later slot of a feature has all earlier definitions, in their order, before its own.
abbrev pub Continues : FeatureSlot → Content → Type 0
Continues f (feature_slot g) =
    (more : List (Ast × Option String)) × (g.definitions ≡ f.definitions ++ more)
Continues f _ = ⊥

abbrev pub IsFeature : Content → Type 0
IsFeature (feature_slot _) = Unit
IsFeature _ = ⊥

abbrev pub IsConstant : Content → Type 0
IsConstant (constant_slot _ _) = Unit
IsConstant _ = ⊥

-- A statement waits for all that it waited for.
abbrev pub WaitsOn : List String → Content → Type 0
WaitsOn names (statement_slot _ later) =
    (k : String) → contains names k ≡ true → contains later k ≡ true
WaitsOn names _ = ⊥

-- What the content of a slot may become.
abbrev pub Keeps : Content → Content → Type 0
Keeps iterator_slot c = c ≡ iterator_slot
Keeps empty_slot c = Unit
Keeps input_slot c = (c ≡ input_slot) ⊎ IsFeature c
Keeps (statement_slot finalized names) c = WaitsOn names c
Keeps (constant_slot true value) c = c ≡ constant_slot true value
Keeps (constant_slot false value) c = IsConstant c
Keeps (fixed_slot e true) c = (c ≡ fixed_slot e true) ⊎ IsFeature c
Keeps (fixed_slot e false) c = c ≡ fixed_slot e false
Keeps (feature_slot f) c = Continues f c
Keeps (rule_slot r) c = c ≡ rule_slot r

pub Keeps-refl : (c : Content) → Keeps c c
Keeps-refl iterator_slot = refl
Keeps-refl empty_slot = tt
Keeps-refl input_slot = inl refl
Keeps-refl (statement_slot finalized names) = λ k h. h
Keeps-refl (constant_slot true value) = refl
Keeps-refl (constant_slot false value) = tt
Keeps-refl (fixed_slot e true) = inl refl
Keeps-refl (fixed_slot e false) = refl
Keeps-refl (feature_slot f) = ([], sym (append-nil f.definitions))
Keeps-refl (rule_slot r) = refl

IsFeature-Keeps : (c d : Content) → IsFeature c → Keeps c d → IsFeature d
IsFeature-Keeps (feature_slot f) (feature_slot g) h k = tt
IsFeature-Keeps (feature_slot f) d h k = absurd k
IsFeature-Keeps c d h k = absurd h

IsConstant-Keeps : (c d : Content) → IsConstant c → Keeps c d → IsConstant d
IsConstant-Keeps (constant_slot true value) d h k = subst IsConstant (sym k) tt
IsConstant-Keeps (constant_slot false value) d h k = k
IsConstant-Keeps c d h k = absurd h

Continues-trans : (f : FeatureSlot) (b c : Content) → Continues f b → Keeps b c → Continues f c
Continues-trans f (feature_slot g) (feature_slot e) (more, h) (after, k) =
    (more ++ after, k ∙ rw h (append_assoc f.definitions more after))
Continues-trans f (feature_slot g) c h k = absurd k
Continues-trans f b c h k = absurd h

WaitsOn-trans :
    (names : List String) (b c : Content) → WaitsOn names b → Keeps b c → WaitsOn names c
WaitsOn-trans names (statement_slot _ later) (statement_slot _ last) h k =
    λ name was. k name (h name was)
WaitsOn-trans names (statement_slot _ later) c h k = absurd k
WaitsOn-trans names b c h k = absurd h

pub Keeps-trans : (a b c : Content) → Keeps a b → Keeps b c → Keeps a c
Keeps-trans iterator_slot b c h k = subst (λ (x : Content). Keeps x c) h k
Keeps-trans empty_slot b c h k = tt
Keeps-trans input_slot b c (inl h) k = subst (λ (x : Content). Keeps x c) h k
Keeps-trans input_slot b c (inr h) k = inr (IsFeature-Keeps b c h k)
Keeps-trans (statement_slot finalized names) b c h k = WaitsOn-trans names b c h k
Keeps-trans (constant_slot true value) b c h k = subst (λ (x : Content). Keeps x c) h k
Keeps-trans (constant_slot false value) b c h k = IsConstant-Keeps b c h k
Keeps-trans (fixed_slot e true) b c (inl h) k = subst (λ (x : Content). Keeps x c) h k
Keeps-trans (fixed_slot e true) b c (inr h) k = inr (IsFeature-Keeps b c h k)
Keeps-trans (fixed_slot e false) b c h k = subst (λ (x : Content). Keeps x c) h k
Keeps-trans (feature_slot f) b c h k = Continues-trans f b c h k
Keeps-trans (rule_slot r) b c h k = subst (λ (x : Content). Keeps x c) h k

-- Each slot of the first parser state is in the second one.
abbrev pub KeepsSlots : List (String × Slot) → List (String × Slot) → Type 0
KeepsSlots slots later =
    (name : String) (s : Slot)
    → lookup name slots ≡ some s
    → (t : Slot) × (lookup name later ≡ some t) × Keeps s.content t.content

-- The state later on has all slots, and the where clause and the iterator of the file are as before.
pub record IsKept (p q : Parser) : Type 0 where
  pub slots : KeepsSlots p.slots q.slots
  pub global_where : q.global_where ≡ p.global_where
  pub current_iterator : q.current_iterator ≡ p.current_iterator

pub IsKept-refl : (p : Parser) → IsKept p p
IsKept-refl p = record {
  slots = λ name s h. (s, h, Keeps-refl s.content);
  global_where = refl;
  current_iterator = refl;
}

pub IsKept-trans : (p q r : Parser) → IsKept p q → IsKept q r → IsKept p r
IsKept-trans p q r h k = record {
  slots = λ name s here.
      let (t, there, st) = h.slots name s here in
      let (u, last, tu) = k.slots name t there in
      (u, last, Keeps-trans s.content t.content u.content st tu);
  global_where = k.global_where ∙ h.global_where;
  current_iterator = k.current_iterator ∙ h.current_iterator;
}

-- What a slot that is put under a name has to keep.
abbrev pub Replaces : Option Slot → Content → Type 0
Replaces none c = Unit
Replaces (some s) c = Keeps s.content c

KeepsSlots-insert :
    (name : String) (t : Slot) (slots : List (String × Slot))
    → Replaces (lookup name slots) t.content
    → KeepsSlots slots (insert name t slots)
KeepsSlots-insert name t slots h asked s found =
    let after = lookup-insert name asked t slots in
    elim (Bool-cases (str_eq name asked)) [
      | inl same ↦
          let is_name : name ≡ asked = (eq_iff name asked).0 same in
          let at_name : lookup name slots ≡ some s = rw is_name found in
          (t, after ∙ rw same refl, subst (λ (o : Option Slot). Replaces o t.content) at_name h)
      | inr other ↦ (s, after ∙ rw other found, Keeps-refl s.content)
    ]

pub put-IsKept :
    (name : String) (t : Slot) (p : Parser)
    → Replaces (lookup name p.slots) t.content
    → IsKept p (put name t p)
put-IsKept name t p h = record {
  slots = KeepsSlots-insert name t p.slots h;
  global_where = refl;
  current_iterator = refl;
}

-- The same under a slot that was looked up before.
pub put_found-IsKept :
    (name : String) (t : Slot) (p : Parser) (found : Option Slot)
    → lookup name p.slots ≡ found
    → Replaces found t.content
    → IsKept p (put name t p)
put_found-IsKept name t p found e h =
    put-IsKept name t p (subst (λ (o : Option Slot). Replaces o t.content) (sym e) h)
