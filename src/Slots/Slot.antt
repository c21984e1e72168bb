-- ===== src/Slots/Slot.antt =====
-- packages/sqrl/src/slot: SqrlSlot.ts with its classes, SqrlRuleSlot.ts, and SerializedSlot.ts, the data
-- in which slots are stored and restored. Of a definition its statement and its where text are kept,
-- as in SqrlFeatureSlot.ts. A field that is undefined is read as false.
pub mod Serial
pub mod Tests
use sqrl.Prelude.{
  ℕ, String, Bool, true, false, not, List, [], ◌∷◌, Option, none, some, Result, ok, err, failed,
  ensure, ◌>>=◌, ◌>>◌, add,
}
use sqrl.Value.{Value, null}
use sqrl.Ast.{Ast, Asts, constant, call, slot, nil, cons}
use sqrl.Ast.Build.{branch}
use sqrl.Where.Text.{sort}
use sqrl.Slots.Feature
use sqrl.Slots.Feature.{FeatureSlot, Switch, included_where}
use sqrl.Slots.Reason.{features_of_reason}

-- `RuleSpec`.
pub record RuleSpec : Type 0 where
  pub name : String
  pub reason : String
  pub features : List String

-- The fields of SqrlRuleSlot.
pub record RuleSlot : Type 0 where
  pub rule_spec : Option RuleSpec
  pub slot_ast : Option Ast
  pub slot_where : Option Ast
  pub definition : Option (Ast × Option String)

-- The classes of slots, with their own fields.
pub data Content : Type 0 where
  iterator_slot empty_slot input_slot : Content
  statement_slot : (finalized : Bool) (referenced_slots : List String) → Content
  constant_slot : (finalized : Bool) (value : Value) → Content
  fixed_slot : (slot_ast : Ast) (replaceable : Bool) → Content
  feature_slot : FeatureSlot → Content
  rule_slot : RuleSlot → Content

pub record Slot : Type 0 where
  pub name : String
  pub index : Option ℕ
  pub content : Content

-- A new slot, which has no index yet.
abbrev pub new_slot : String → Content → Slot
new_slot name content = record { name = name; index = none; content = content }

-- `getIndex`.
unfoldable pub get_index : Slot → Result ℕ
get_index s = elim s.index [
  | none ↦ err (failed "Slot has not yet been assigned an index:: %s")
  | some i ↦ ok i
]

-- `setIndex`.
unfoldable pub set_index : ℕ → Slot → Result Slot
set_index i s = elim s.index [
  | none ↦ ok (record s { index = some i })
  | some _ ↦ err (failed "Can only set slot index once:: %s")
]

-- `Array.from(this.referencedSlots).map((slotName) => SqrlAst.slotName(slotName))`.
abbrev pub slot_names : List String → Asts
slot_names [] = nil
slot_names (name ∷ names) = cons (slot name) (slot_names names)

abbrev pub rule_ast : Option Ast → Option Ast → Result Ast
rule_ast (some where_ast) (some e) = ok (branch where_ast e (constant null))
rule_ast _ _ = err (failed "SqrlSlot has not been set yet!")

abbrev pub finalized_content : Content → Result (Content × Ast)
finalized_content iterator_slot = ok (iterator_slot, constant null)
finalized_content empty_slot = ok (empty_slot, constant null)
finalized_content input_slot = ok (input_slot, constant null)
finalized_content (statement_slot _ names) =
    ok (statement_slot true names, call "_slotWait" (slot_names names))
finalized_content (constant_slot _ value) = ok (constant_slot true value, constant value)
finalized_content (fixed_slot e replaceable) = ok (fixed_slot e replaceable, e)
finalized_content (feature_slot s) = do
  (after, e) ← Feature.finalized_ast s
  ok (feature_slot after, e)
finalized_content (rule_slot s) = do e ← rule_ast s.slot_where s.slot_ast; ok (rule_slot s, e)

-- `finalizedAst`, of each class.
unfoldable pub finalized_ast : Slot → Result (Slot × Ast)
unfolding Feature.finalized_ast
finalized_ast s = do
  (content, e) ← finalized_content s.content
  ok (record s { content = content }, e)

-- `addWait` of SqrlStatementSlot.
unfoldable pub add_wait : String → (finalized : Bool) → List String → Result Content
add_wait name finalized names = do
  ensure (not finalized) (failed "Slot cannot be set after it is read: %s")
  ok (statement_slot finalized (add name names))

-- `setValue` of SqrlConstantSlot.
unfoldable pub set_value : Value → (finalized : Bool) → Result Content
set_value value finalized = do
  ensure (not finalized) (failed "constant slot was finalized")
  ok (constant_slot finalized value)

abbrev pub new_rule_slot : RuleSlot
new_rule_slot = record { rule_spec = none; slot_ast = none; slot_where = none; definition = none }

-- `setRule`: `node` is the whole rule, `where_ast` its condition. A parsed rule has a location.
unfoldable pub set_rule :
    (node : Ast) (name reason : String) (where_ast global_where : Ast) → RuleSlot → Result RuleSlot
unfolding included_where features_of_reason
set_rule node name reason where_ast global_where s = do
  text ← included_where global_where
  ok (record {
    rule_spec =
        some (record { name = name; reason = reason; features = features_of_reason reason });
    slot_ast = some (call "bool" (cons where_ast nil));
    slot_where = some global_where;
    definition = some (node, text);
  })

-- `SerializedSlot`: one constructor for each class, with the name and the fields that are stored.
pub data Serialized : Type 0 where
  serialized_iterator serialized_empty serialized_input : (name : String) → Serialized
  serialized_statement : (name : String) (referenced_slots : List String) → Serialized
  serialized_constant : (name : String) (value : Value) → Serialized
  serialized_fixed : (name : String) (slot_ast : Ast) (replaceable : Bool) → Serialized
  serialized_feature :
      (name : String) (definitions : List (Ast × Option String)) (is_final : Bool)
      (slot_ast : Switch) (slot_where : Ast)
      → Serialized
  serialized_rule :
      (name : String) (definition : Option (Ast × Option String)) (slot_ast slot_where : Ast)
      (rule_spec : Option RuleSpec)
      → Serialized

-- `jsonAst(this.ast)` fails on null.
abbrev pub present_ast {ℓ} : {A : Type ℓ} → Option A → Result A
present_ast none = err (failed "Cannot read property 'json' of null")
present_ast (some e) = ok e

abbrev pub serialize_content : String → Content → Result Serialized
serialize_content name iterator_slot = ok (serialized_iterator name)
serialize_content name empty_slot = ok (serialized_empty name)
serialize_content name input_slot = ok (serialized_input name)
serialize_content name (statement_slot _ names) = ok (serialized_statement name (sort names))
serialize_content name (constant_slot _ value) = ok (serialized_constant name value)
serialize_content name (fixed_slot e replaceable) = ok (serialized_fixed name e replaceable)
serialize_content name (feature_slot s) = do
  e ← present_ast s.slot_ast
  where_ast ← present_ast s.slot_where
  ok (serialized_feature name s.definitions s.is_final e where_ast)
serialize_content name (rule_slot s) = do
  e ← present_ast s.slot_ast
  where_ast ← present_ast s.slot_where
  ok (serialized_rule name s.definition e where_ast s.rule_spec)

-- `serialize`, of each class.
unfoldable pub serialize : Slot → Result Serialized
serialize s = serialize_content s.name s.content

-- `deserializeSlot`: an object that no constructor has run on, filled by `deserializor`. That of
-- SqrlFixedSlot does not set `replaceable`.
unfoldable pub deserialize : Serialized → Slot
deserialize (serialized_iterator name) = new_slot name iterator_slot
deserialize (serialized_empty name) = new_slot name empty_slot
deserialize (serialized_input name) = new_slot name input_slot
deserialize (serialized_statement name names) = new_slot name (statement_slot false names)
deserialize (serialized_constant name value) = new_slot name (constant_slot false value)
deserialize (serialized_fixed name e replaceable) = new_slot name (fixed_slot e false)
deserialize (serialized_feature name definitions is_final e where_ast) = new_slot name (
    feature_slot (record {
      slot_ast = some e;
      slot_where = some where_ast;
      definitions = definitions;
      finalized = false;
      is_final = is_final;
      replaceable = true;
      default_replaceable = false;
    }))
deserialize (serialized_rule name definition e where_ast rule_spec) = new_slot name (
    rule_slot (record {
      rule_spec = rule_spec;
      slot_ast = some e;
      slot_where = some where_ast;
      definition = definition;
    }))
