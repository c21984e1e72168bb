-- ===== src/Compile/Parser/Commands.antt =====
-- Each operation of packages/sqrl/src/compile/SqrlParserState.ts keeps the slots.
use sqrl.Prelude.{
  String, true, false, Option, none, some, lookup, contains, contains-add, add, or_right, Yields,
  halts, yields, Yields-after, Yields-ensure, ◌≡◌, refl, sym, ◌∙◌, str_eq,
}
use mathlib.Core.Path.{subst}
use sqrl.Ast.{Ast}
use sqrl.Slots.Slot.{
  Content, iterator_slot, empty_slot, statement_slot, Slot, new_slot, add_wait, set_rule,
  new_rule_slot,
}
use sqrl.Compile.Parser.{
  Parser, put, is_empty_content, is_empty, slot_is_empty, set_default_value, ensure_iterator,
  iterator_in, iterator_content, statement_content, wait_content, ensure_statement_feature,
  statement_in, add_statement_slot, wait_in, push_rule, push_input, input_content,
}
use sqrl.Compile.Parser.Kept.{Keeps, IsKept, IsKept-refl, Replaces, put-IsKept, put_found-IsKept}

pub empty-Keeps : (c d : Content) → is_empty_content c ≡ true → Keeps c d
empty-Keeps empty_slot d h = tt
empty-Keeps c d h = cc

empty-Replaces : (found : Option Slot) (c : Content) → is_empty found ≡ true → Replaces found c
empty-Replaces none c h = tt
empty-Replaces (some s) c h = empty-Keeps s.content c h

put_empty-IsKept :
    (name : String) (s : Slot) (p : Parser) → slot_is_empty name p ≡ true → IsKept p (put name s p)
unfolding slot_is_empty
put_empty-IsKept name s p h = put-IsKept name s p (empty-Replaces (lookup name p.slots) s.content h)

pub set_default_value-IsKept :
    (name : String) (value : Ast) (p : Parser) → Yields (IsKept p) (set_default_value name value p)
unfolding set_default_value
set_default_value-IsKept name value p =
    Yields-ensure (slot_is_empty name p) _ _ (λ h. yields (put_empty-IsKept name _ p h))

iterator_content-IsKept : (p : Parser) (c : Content) → Yields (IsKept p) (iterator_content p c)
iterator_content-IsKept p iterator_slot = yields (IsKept-refl p)
iterator_content-IsKept p c = halts

iterator_in-IsKept :
    (name : String) (p : Parser) (found : Option Slot)
    → lookup name p.slots ≡ found
    → Yields (IsKept p) (iterator_in name p found)
iterator_in-IsKept name p none e = yields (put_found-IsKept name _ p none e tt)
iterator_in-IsKept name p (some s) e = iterator_content-IsKept p s.content

pub ensure_iterator-IsKept :
    (name : String) (p : Parser) → Yields (IsKept p) (ensure_iterator name p)
unfolding ensure_iterator
ensure_iterator-IsKept name p = iterator_in-IsKept name p (lookup name p.slots) refl

statement_content-IsKept : (p : Parser) (c : Content) → Yields (IsKept p) (statement_content p c)
statement_content-IsKept p (statement_slot _ _) = yields (IsKept-refl p)
statement_content-IsKept p c = halts

statement_in-IsKept :
    (name : String) (p : Parser) (found : Option Slot)
    → lookup name p.slots ≡ found
    → Yields (IsKept p) (statement_in name p found)
statement_in-IsKept name p none e = yields (put_found-IsKept name _ p none e tt)
statement_in-IsKept name p (some s) e = statement_content-IsKept p s.content

pub ensure_statement_feature-IsKept :
    (name : String) (p : Parser) → Yields (IsKept p) (ensure_statement_feature name p)
unfolding ensure_statement_feature
ensure_statement_feature-IsKept name p = statement_in-IsKept name p (lookup name p.slots) refl

wait_content-IsKept :
    (global name : String) (p : Parser) (s : Slot) (c : Content)
    → lookup global p.slots ≡ some s
    → s.content ≡ c
    → Yields (IsKept p) (wait_content global name p s c)
unfolding add_wait
wait_content-IsKept global name p s (statement_slot true names) e same = halts
wait_content-IsKept global name p s (statement_slot false names) e same =
    let waits : Keeps (statement_slot false names) (statement_slot false (add name names)) =
      λ k was. contains-add name k names ∙ or_right (str_eq name k) (contains names k) was in
    yields (
      put_found-IsKept global _ p (some s) e
        (subst (λ (c : Content). Keeps c (statement_slot false (add name names))) (sym same) waits))
wait_content-IsKept global name p s c e same = halts

wait_in-IsKept :
    (global name : String) (p : Parser) (found : Option Slot)
    → lookup global p.slots ≡ found
    → Yields (IsKept p) (wait_in global name p found)
wait_in-IsKept global name p none e = halts
wait_in-IsKept global name p (some s) e = wait_content-IsKept global name p s s.content e refl

pub add_statement_slot-IsKept :
    (global name : String) (p : Parser) → Yields (IsKept p) (add_statement_slot global name p)
unfolding add_statement_slot
add_statement_slot-IsKept global name p = wait_in-IsKept global name p (lookup global p.slots) refl

pub push_input-IsKept : (name : String) (p : Parser) → Yields (IsKept p) (push_input name p)
unfolding push_input
push_input-IsKept name p = Yields-ensure (slot_is_empty name p) _ _ (λ h. yields (
    let put_it =
      put_empty-IsKept name (new_slot name (input_content (lookup name p.remaining_inputs))) p h in
    record { slots = put_it.slots; global_where = refl; current_iterator = refl }))

pub push_rule-IsKept :
    (node : Ast) (name reason : String) (where_ast : Ast) (p : Parser)
    → Yields (IsKept p) (push_rule node name reason where_ast p)
unfolding push_rule
push_rule-IsKept node name reason where_ast p = Yields-ensure (slot_is_empty name p) _ _ (λ h.
    Yields-after (set_rule node name reason where_ast p.global_where new_rule_slot) _
      (λ rule. yields (put_empty-IsKept name _ p h)))
