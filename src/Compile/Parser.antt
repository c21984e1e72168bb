-- ===== src/Compile/Parser.antt =====
-- packages/sqrl/src/compile/SqrlParserState.ts: the table of slots that the statements of a script
-- fill, under the where clause of the file that is read. Slots stand under their names, and an object
-- that is changed in place is put back under its name.
pub mod Trees
pub mod Commands
pub mod Kept
pub mod Globals
pub mod Share
pub mod Helpers
pub mod Tests
use sqrl.Prelude.{
  String, Bool, true, false, not, List, [], ◌∷◌, ◌&&◌, ◌||◌, Option, none, some, Result, ok, err,
  invalid, failed, ensure, ◌>>=◌, ◌>>◌, lookup, insert, has_key, str_eq, if◌then◌else◌, all,
}
use sqrl.Value.{Value, boolean, null}
use sqrl.Ast.{Ast, constant, call, slot, cons, nil}
use sqrl.Ast.Build.{and_ast, branch}
use sqrl.Ast.Walk.{contains_iterator, json_ast}
use sqrl.Where.Text.{◌⧺◌}
use sqrl.Where.TruthTable.{TruthTable, reduce_truth_table}
use sqrl.Slots.Feature.{Let, FeatureSlot, merge_global, allow_replace}
use sqrl.Slots.Feature
use sqrl.Slots.Slot.{
  Content, iterator_slot, empty_slot, input_slot, statement_slot, constant_slot, fixed_slot,
  feature_slot, rule_slot, Slot, new_slot, add_wait, set_rule, new_rule_slot, finalized_ast,
}

pub record Parser : Type 0 where
  pub slots : List (String × Slot)
  pub global_where : Ast
  pub current_iterator : Option String
  pub remaining_inputs : List (String × Value)
  pub allow_replace_input : Bool

-- `this.slots[name] = slot`.
abbrev pub put : String → Slot → Parser → Parser
put name s p = record p { slots = insert name s p.slots }

abbrev pub is_empty_content : Content → Bool
is_empty_content empty_slot = true
is_empty_content _ = false

abbrev pub is_empty : Option Slot → Bool
is_empty none = true
is_empty (some s) = is_empty_content s.content

-- `slotIsEmpty`.
unfoldable pub slot_is_empty : String → Parser → Bool
unfolding lookup
slot_is_empty name p = is_empty (lookup name p.slots)

-- `getSlot`.
unfoldable pub get_slot : String → Parser → Result Slot
unfolding lookup
get_slot name p = elim (lookup name p.slots) [
  | none ↦ err (failed "Could not find named slot:: %s")
  | some s ↦ ok s
]

-- `setDefaultValue`.
unfoldable pub set_default_value : String → Ast → Parser → Result Parser
unfolding slot_is_empty insert
set_default_value name value p = do
  ensure (slot_is_empty name p) (failed "Slot was already defined: %s")
  ok (put name (new_slot name (fixed_slot value true)) p)

abbrev pub iterator_content : Parser → Content → Result Parser
iterator_content p iterator_slot = ok p
iterator_content p _ = err (invalid "Iterators cannot have the same name as a feature or rule")

abbrev pub iterator_in : String → Parser → Option Slot → Result Parser
iterator_in name p none = ok (put name (new_slot name iterator_slot) p)
iterator_in name p (some s) = iterator_content p s.content

-- `ensureIterator`.
unfoldable pub ensure_iterator : String → Parser → Result Parser
unfolding lookup insert
ensure_iterator name p = iterator_in name p (lookup name p.slots)

abbrev pub statement_content : Parser → Content → Result Parser
statement_content p (statement_slot _ _) = ok p
statement_content p _ = err (failed "Expected statement slot: %s")

abbrev pub statement_in : String → Parser → Option Slot → Result Parser
statement_in name p none = ok (put name (new_slot name (statement_slot false [])) p)
statement_in name p (some s) = statement_content p s.content

-- `ensureStatementFeature` with `addStatementFeature`.
unfoldable pub ensure_statement_feature : String → Parser → Result Parser
unfolding lookup insert
ensure_statement_feature name p = statement_in name p (lookup name p.slots)

abbrev pub wait_content : String → String → Parser → Slot → Content → Result Parser
wait_content global name p s (statement_slot finalized names) = do
  content ← add_wait name finalized names
  ok (put global (record s { content = content }) p)
wait_content global name p s _ = err (failed "Expected statement slot: %s")

abbrev pub wait_in : String → String → Parser → Option Slot → Result Parser
wait_in global name p none = err (failed "Could not find global for statement:: %s")
wait_in global name p (some s) = wait_content global name p s s.content

-- `addStatementSlot`, with the check for the slot in `addStatement`.
unfoldable pub add_statement_slot : String → String → Parser → Result Parser
unfolding lookup insert add_wait
add_statement_slot global name p = wait_in global name p (lookup global p.slots)

abbrev pub reset_content : Content → Content
reset_content (feature_slot f) = feature_slot (allow_replace f)
reset_content content = content

-- `allowReplace` on each slot of a feature.
abbrev pub reset_slots : List (String × Slot) → List (String × Slot)
reset_slots [] = []
reset_slots ((name, s) ∷ slots) =
    (name, record s { content = reset_content s.content }) ∷ reset_slots slots

-- `resetReplaceableFeatures`.
unfoldable pub reset_replaceable_features : Parser → Parser
unfolding allow_replace
reset_replaceable_features p = record p { slots = reset_slots p.slots }

-- `withoutGlobalWhere`.
abbrev pub without_global_where :
    {A : Type 0} → (Parser → Result (Parser × A)) → Parser → Result (Parser × A)
without_global_where callback p = do
  (after, result) ← callback (record p { global_where = constant (boolean true) })
  ok (record after { global_where = p.global_where }, result)

-- `wrapWhere`.
abbrev pub wrap_where : Ast → (Parser → Result Parser) → Parser → Result Parser
wrap_where where_ast callback p = do
  _ ← reduce_truth_table where_ast
  combined ← and_ast (p.global_where ∷ where_ast ∷ [])
  after ← callback (record p { global_where = combined })
  ok (record after { global_where = p.global_where })

-- A rule that `pushStatement` has transformed.
unfoldable pub push_rule :
    (node : Ast) (name reason : String) (where_ast : Ast) → Parser → Result Parser
unfolding slot_is_empty set_rule insert
push_rule node name reason where_ast p = do
  ensure (slot_is_empty name p) (invalid "Feature was previously defined")
  rule ← set_rule node name reason where_ast p.global_where new_rule_slot
  ok (put name (new_slot name (rule_slot rule)) p)

abbrev pub remove : String → List (String × Value) → List (String × Value)
remove name [] = []
remove name ((other, value) ∷ inputs) =
    let rest = remove name inputs in if str_eq other name then rest else (other, value) ∷ rest

abbrev pub input_content : Option Value → Content
input_content none = input_slot
input_content (some value) = constant_slot false value

-- `LET name := input()`.
unfoldable pub push_input : String → Parser → Result Parser
unfolding slot_is_empty insert lookup
push_input name p = do
  ensure (slot_is_empty name p) (invalid "Multiple definitions of feature")
  let filled = put name (new_slot name (input_content (lookup name p.remaining_inputs))) p
  ok (record filled { remaining_inputs = remove name p.remaining_inputs })
