-- ===== src/Compile/Transform/Answers.antt =====
-- What a transform of a function asks of CompileState and ConstantSlot in packages/sqrl/src/api/parse.ts
-- keeps the slots, if the transformer does.
use sqrl.Prelude.{
  String, true, false, Option, none, some, lookup, Yields, halts, yields, Yields-bind, Yields-after,
  ◌≡◌, refl, sym,
}
use mathlib.Core.Path.{subst}
use sqrl.Value.{Value}
use sqrl.Ast.{Ast}
use sqrl.Slots.Slot.{Content, constant_slot, Slot, set_value}
use sqrl.Compile.Parser.{Parser}
use sqrl.Compile.Parser.Kept.{Keeps, IsKept, IsKept-refl, put_found-IsKept}
use sqrl.Compile.Parser.Commands.{add_statement_slot-IsKept}
use sqrl.Compile.Parser.Globals.{IsKept-pair, new_global-IsKept, combine_with_global_where-IsKept}
use sqrl.Compile.Parser.Helpers.Kept.{ensure_constant_slot-IsKept, constant_entity-IsKept}
use sqrl.Compile.Transform.{
  transform_tree, Request, set_global, set_constant_slot, get_constant, set_constant,
  add_hashed_entity, combine_global_where, add_statement, Run, returns, throws, asks, Language,
  Transform, constant_at, set_in, set_content,
}
use sqrl.Compile.Transform.Nodes.{tools_by, answer, run_transform}

set_content-IsKept :
    (name : String) (value : Value) (p : Parser) (s : Slot) (c : Content)
    → lookup name p.slots ≡ some s
    → s.content ≡ c
    → Yields (IsKept p) (set_content name value p s c)
unfolding set_value
set_content-IsKept name value p s (constant_slot true old) e same = halts
set_content-IsKept name value p s (constant_slot false old) e same = yields (
    put_found-IsKept name _ p (some s) e
      (subst (λ (c : Content). Keeps c (constant_slot false value)) (sym same) tt))
set_content-IsKept name value p s c e same = halts

set_in-IsKept :
    (name : String) (value : Value) (p : Parser) (found : Option Slot)
    → lookup name p.slots ≡ found
    → Yields (IsKept p) (set_in name value p found)
set_in-IsKept name value p none e = halts
set_in-IsKept name value p (some s) e = set_content-IsKept name value p s s.content e refl

module _ (language : Language) (transform : Transform)
    (keeping : (e : Ast) (p : Parser) → Yields (λ r. IsKept p r.0) (transform e p)) where
  answer-IsKept :
      (request : Request) (p : Parser)
      → Yields (λ r. IsKept p r.0) (answer language transform request p)
  unfolding answer
  answer-IsKept (set_global e name) p =
      Yields-bind (λ r. IsKept p r.0) _ _
        (new_global-IsKept (tools_by language transform) keeping e name p) (λ r kept. yields kept)
  answer-IsKept (set_constant_slot name value) p =
      Yields-bind (IsKept p) _ _ (ensure_constant_slot-IsKept name value p) (λ q kept. yields kept)
  answer-IsKept (get_constant name) p =
      Yields-after (constant_at (lookup name p.slots)) _ (λ value. yields (IsKept-refl p))
  answer-IsKept (set_constant name value) p =
      Yields-bind (IsKept p) _ _ (set_in-IsKept name value p (lookup name p.slots) refl)
        (λ q kept. yields kept)
  answer-IsKept (add_hashed_entity type_name props) p =
      Yields-bind (λ r. IsKept p r.0) _ _
        (constant_entity-IsKept (tools_by language transform) keeping type_name
          (language.hash_json props) p)
        (λ r kept. yields kept)
  answer-IsKept (combine_global_where e) p =
      Yields-bind (λ r. IsKept p r.0) _ _
        (combine_with_global_where-IsKept (tools_by language transform) keeping e p.global_where p)
        (λ r kept. yields kept)
  answer-IsKept (transform_tree e) p =
      Yields-bind (λ r. IsKept p r.0) _ _ (keeping e p) (λ r kept. yields kept)
  answer-IsKept (add_statement name slot_name) p =
      Yields-bind (IsKept p) _ _ (add_statement_slot-IsKept name slot_name p)
        (λ q kept. yields kept)

  pub run_transform-IsKept :
      (run : Run) (p : Parser) → Yields (λ r. IsKept p r.0) (run_transform language transform run p)
  unfolding run_transform
  run_transform-IsKept (returns e) p = yields (IsKept-refl p)
  run_transform-IsKept (throws problem) p = halts
  run_transform-IsKept (asks request next) p =
      IsKept-pair p (answer language transform request p)
        (λ r. run_transform language transform (next r.1) r.0) (answer-IsKept request p)
        (λ r. run_transform-IsKept (next r.1) r.0)
