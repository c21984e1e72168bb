-- ===== src/Compile/Parser/Helpers.antt =====
-- packages/sqrl/src/compile/SqrlParserState.ts: the constructor, and what the compilers of functions ask
-- of the parser state.
pub mod Kept
pub mod Tests
use sqrl.Prelude.{
  String, Bool, true, false, not, List, [], ◌∷◌, map, Option, none, some, Result, ok, err, invalid,
  failed, ensure, ◌>>=◌, ◌>>◌, lookup, insert, has_key, str_eq, if◌then◌else◌,
}
use sqrl.Value.{Value, boolean, string}
use sqrl.Ast.{Ast, Asts, constant, call, registered_call, list, cons, nil}
use sqrl.Where.Text.{◌⧺◌}
use sqrl.Where.TruthTable.{TruthTable}
use sqrl.Slots.Feature.{FeatureSlot}
use sqrl.Slots.Slot.{
  Content, empty_slot, constant_slot, statement_slot, feature_slot, rule_slot, RuleSpec, Slot,
  Serialized, new_slot, serialize, deserialize,
}
use sqrl.Compile.Parser.{
  Parser, put, get_slot, set_default_value, ensure_statement_feature, add_statement_slot,
  without_global_where,
}
use sqrl.Compile.Parser.Trees.{
  Tools, Combined, is_none, bits, new_global, add_statement, combine_with_global_where,
}

-- `mapToSlots`.
unfoldable pub map_to_slots : List String → Parser → Result (List Slot)
unfolding lookup
map_to_slots [] p = ok []
map_to_slots (name ∷ names) p = do
  s ← elim (lookup name p.slots) [ none ↦ err (failed "Could not find slot:: ") | some s ↦ ok s ]
  rest ← map_to_slots names p
  ok (s ∷ rest)

-- `getRuleSpecs`, over the slots of rules.
unfoldable pub get_rule_specs : List (String × Slot) → List (String × Option RuleSpec)
get_rule_specs [] = []
get_rule_specs ((name, s) ∷ slots) =
    let rest = get_rule_specs slots in
    elim s.content [ rule_slot r ↦ (s.name, r.rule_spec) ∷ rest | _ ↦ rest ]

abbrev pub as_feature : Content → Result FeatureSlot
as_feature (feature_slot f) = ok f
as_feature _ = err (failed "Expected feature slot: %s")

-- `getFeatureSlot`.
unfoldable pub get_feature_slot : String → Parser → Result FeatureSlot
unfolding lookup
get_feature_slot name p = elim (lookup name p.slots) [
  | none ↦ err (invalid "Could not find feature: %s")
  | some s ↦ as_feature s.content
]

abbrev pub empty_in : String → Parser → Option Slot → Parser
empty_in name p none = put name (new_slot name empty_slot) p
empty_in name p (some _) = p

-- `ensureAllSlots`.
unfoldable pub ensure_all_slots : List String → Parser → Parser
unfolding lookup insert
ensure_all_slots [] p = p
ensure_all_slots (name ∷ names) p = ensure_all_slots names (empty_in name p (lookup name p.slots))

abbrev pub constant_content : Parser → Content → Result Parser
constant_content p (constant_slot _ _) = ok p
constant_content p _ = err (failed "Expected SqrlConstantSlot for %s")

abbrev pub constant_in : String → Value → Parser → Option Slot → Result Parser
constant_in name value p none = ok (put name (new_slot name (constant_slot false value)) p)
constant_in name value p (some s) = constant_content p s.content

-- `ensureConstantSlot`.
unfoldable pub ensure_constant_slot : String → Value → Parser → Result Parser
unfolding lookup insert
ensure_constant_slot name value p = constant_in name value p (lookup name p.slots)

-- `wrapIterator`.
abbrev pub wrap_iterator :
    {A : Type 0} → String → (Parser → Result (Parser × A)) → Parser → Result (Parser × A)
wrap_iterator name callback p = do
  ensure (is_none p.current_iterator) (failed "Multiple levels of iterators are not supported.")
  (after, result) ← callback (record p { current_iterator = some name })
  ok (record after { current_iterator = none }, result)

abbrev pub serialize_slots : List (String × Slot) → Result (List (String × Serialized))
serialize_slots [] = ok []
serialize_slots ((name, s) ∷ slots) = do
  stored ← serialize s
  rest ← serialize_slots slots
  ok ((name, stored) ∷ rest)

-- `serialize`.
unfoldable pub serialize_parser : Parser → Result (List (String × Serialized))
unfolding serialize
serialize_parser p = serialize_slots p.slots

-- The slots that the constructor begins with.
abbrev pub restored_slots : Option (List (String × Serialized)) → List (String × Slot)
restored_slots none = []
restored_slots (some stored) = map (λ (name, kept). (name, deserialize kept)) stored

abbrev pub first_state :
    (inputs : List (String × Value)) (allow_replace_input : Bool)
    → Option (List (String × Serialized))
    → Parser
first_state inputs allow_replace_input stored = record {
  slots = restored_slots stored;
  global_where = constant (boolean true);
  current_iterator = none;
  remaining_inputs = inputs;
  allow_replace_input = allow_replace_input;
}

-- The loop over `statementFeatures`.
unfoldable pub add_statement_features : List String → Parser → Result Parser
unfolding ensure_statement_feature add_statement_slot
add_statement_features [] p = ok p
add_statement_features (name ∷ names) p = do
  there ← ensure_statement_feature name p
  waiting ←
      if str_eq name "SqrlAssertionStatements"
      then ok there
      else add_statement_slot "SqrlExecutionComplete" name there
  add_statement_features names waiting

-- The constructor, from the new or restored slots on.
unfoldable pub new_parser_state : (statement_features : List String) → Parser → Result Parser
unfolding set_default_value ensure_statement_feature add_statement_features
new_parser_state statement_features p = do
  mutate ← set_default_value "SqrlMutate" (constant (boolean true)) p
  classify ← set_default_value "SqrlIsClassify" (constant (boolean true)) mutate
  clock ← set_default_value "SqrlClock" (call "now" nil) classify
  complete ← ensure_statement_feature "SqrlExecutionComplete" clock
  add_statement_features statement_features complete

unfoldable pub list_strings : Asts → Result (List String)
list_strings nil = ok []
list_strings (cons (constant (string text)) es) = do rest ← list_strings es; ok (text ∷ rest)
list_strings (cons _ es) = err (invalid "Expected constant string here")

-- `extractListConstantStrings`.
unfoldable pub extract_list_constant_strings : Ast → Result (List String)
unfolding list_strings
extract_list_constant_strings (list es) = list_strings es
extract_list_constant_strings _ = err (invalid "Expected list")

abbrev pub is_unlimited : List Bool → Bool
is_unlimited [] = true
is_unlimited (_ ∷ _) = false

-- What `interpretCounterCallAst` returns.
pub record CounterCall : Type 0 where
  pub args : Ast
  pub where_ast : Ast
  pub table : Option TruthTable

module _ (tools : Tools) where
  -- `interpretCounterCallAst`, with `combineGlobalWhere`.
  unfoldable pub interpret_counter_call : Ast → Parser → Result (Parser × CounterCall)
  unfolding combine_with_global_where
  interpret_counter_call (call func (cons args (cons where_ast nil))) p = do
    (after, c) ← combine_with_global_where tools where_ast p.global_where p
    ok (
      after,
      record {
        args = args;
        where_ast = c.where_ast;
        table = if is_unlimited c.table.truth_table then none else some c.table;
      },
    )
  interpret_counter_call (call func _) p = err (invalid "%s() function requires keyword arguments")
  interpret_counter_call _ p = err (failed "Cannot interpret non-function call:: %s")

  -- `newGlobalWithoutWhere`.
  abbrev pub new_global_without_where : Ast → Option String → Parser → Result (Parser × String)
  new_global_without_where e name = without_global_where (new_global tools e name)

  abbrev pub global_without_where_in :
      String → (Parser → Result (Parser × Ast)) → Parser → Option Slot → Result (Parser × String)
  global_without_where_in name callback p (some s) = ok (p, name)
  global_without_where_in name callback p none =
      callback p >>= λ (after, e). new_global_without_where e (some name) after

  -- `ensureGlobalWithoutWhere`.
  unfoldable pub ensure_global_without_where :
      String → (Parser → Result (Parser × Ast)) → Parser → Result (Parser × String)
  unfolding lookup new_global
  ensure_global_without_where name callback p =
      global_without_where_in name callback p (lookup name p.slots)

  -- `constantEntityAst`.
  unfoldable pub constant_entity : (type_name key : String) → Parser → Result (Parser × String)
  unfolding new_global
  constant_entity type_name key p =
      new_global_without_where
        (call "entity" (cons (constant (string type_name)) (cons (constant (string key)) nil)))
        (some ("entity(" ⧺ type_name ⧺ "/" ⧺ key ⧺ ")")) p
