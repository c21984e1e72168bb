-- ===== src/Compile/Parser/Helpers/Kept.antt =====
-- What the compilers of functions ask of packages/sqrl/src/compile/SqrlParserState.ts keeps the slots, as
-- the transformer of syntax trees has to.
use sqrl.Prelude.{
  String, true, List, [], ◌∷◌, Option, none, some, Result, ok, lookup, str_eq, if◌then◌else◌,
  Yields, halts, yields, Yields-bind, Yields-ensure, Yields-if, ◌≡◌, refl,
}
use sqrl.Value.{Value, boolean, string}
use sqrl.Where.Text.{◌⧺◌}
use sqrl.Ast.{Ast, call, constant, cons, nil}
use sqrl.Slots.Slot.{Content, constant_slot, Slot}
use sqrl.Compile.Parser.{Parser, set_default_value, ensure_statement_feature, add_statement_slot}
use sqrl.Compile.Parser.Trees.{Tools, is_none, new_global, combine_with_global_where}
use sqrl.Compile.Parser.Kept.{IsKept, IsKept-refl, IsKept-trans, put_found-IsKept}
use sqrl.Compile.Parser.Commands.{
  set_default_value-IsKept, ensure_statement_feature-IsKept, add_statement_slot-IsKept,
}
use sqrl.Compile.Parser.Globals.{
  IsKeeping, IsKept-step, new_global-IsKept, without_global_where-IsKept,
  combine_with_global_where-IsKept, IsKept-pair,
}
use sqrl.Compile.Parser.Helpers.{
  empty_in, ensure_all_slots, constant_content, constant_in, ensure_constant_slot, wrap_iterator,
  add_statement_features, new_parser_state, interpret_counter_call, new_global_without_where,
  global_without_where_in, ensure_global_without_where, constant_entity,
}

empty_in-IsKept :
    (name : String) (p : Parser) (found : Option Slot)
    → lookup name p.slots ≡ found
    → IsKept p (empty_in name p found)
empty_in-IsKept name p none e = put_found-IsKept name _ p none e tt
empty_in-IsKept name p (some s) e = IsKept-refl p

ensure_all_slots-IsKept : (names : List String) (p : Parser) → IsKept p (ensure_all_slots names p)
unfolding ensure_all_slots
ensure_all_slots-IsKept [] p = IsKept-refl p
ensure_all_slots-IsKept (name ∷ names) p =
    IsKept-trans p (empty_in name p (lookup name p.slots)) _
      (empty_in-IsKept name p (lookup name p.slots) refl)
      (ensure_all_slots-IsKept names (empty_in name p (lookup name p.slots)))

constant_content-IsKept : (p : Parser) (c : Content) → Yields (IsKept p) (constant_content p c)
constant_content-IsKept p (constant_slot _ _) = yields (IsKept-refl p)
constant_content-IsKept p c = halts

constant_in-IsKept :
    (name : String) (value : Value) (p : Parser) (found : Option Slot)
    → lookup name p.slots ≡ found
    → Yields (IsKept p) (constant_in name value p found)
constant_in-IsKept name value p none e = yields (put_found-IsKept name _ p none e tt)
constant_in-IsKept name value p (some s) e = constant_content-IsKept p s.content

pub ensure_constant_slot-IsKept :
    (name : String) (value : Value) (p : Parser)
    → Yields (IsKept p) (ensure_constant_slot name value p)
unfolding ensure_constant_slot
ensure_constant_slot-IsKept name value p =
    constant_in-IsKept name value p (lookup name p.slots) refl

none_given : (given : Option String) → is_none given ≡ true → none ≡ given
none_given none h = refl
none_given (some name) h = cc

-- A list comprehension that is compiled ends outside every list comprehension.
pub wrap_iterator-IsKept :
    {A : Type 0} (name : String) (callback : Parser → Result (Parser × A)) (p : Parser)
    → Yields
        (λ r. IsKept (record p { current_iterator = some name }) r.0)
        (callback (record p { current_iterator = some name }))
    → Yields (λ r. IsKept p r.0) (wrap_iterator name callback p)
wrap_iterator-IsKept name callback p h = Yields-ensure (is_none p.current_iterator) _ _ (λ outside.
    Yields-bind (λ r. IsKept (record p { current_iterator = some name }) r.0)
      (callback (record p { current_iterator = some name })) _ h
      (λ r kept. yields (record {
        slots = kept.slots;
        global_where = kept.global_where;
        current_iterator = none_given p.current_iterator outside;
      })))

add_statement_features-IsKept :
    (names : List String) (p : Parser) → Yields (IsKept p) (add_statement_features names p)
unfolding add_statement_features
add_statement_features-IsKept [] p = yields (IsKept-refl p)
add_statement_features-IsKept (name ∷ names) p =
    IsKept-step p (ensure_statement_feature name p) _ (ensure_statement_feature-IsKept name p)
      (λ there.
        IsKept-step there
          (if str_eq name "SqrlAssertionStatements"
            then ok there
            else add_statement_slot "SqrlExecutionComplete" name there)
          (add_statement_features names)
          (Yields-if (str_eq name "SqrlAssertionStatements") _ _ (yields (IsKept-refl there))
            (add_statement_slot-IsKept "SqrlExecutionComplete" name there))
          (add_statement_features-IsKept names))

-- The constructor keeps the slots that were restored.
new_parser_state-IsKept :
    (names : List String) (p : Parser) → Yields (IsKept p) (new_parser_state names p)
unfolding new_parser_state
new_parser_state-IsKept names p =
    IsKept-step p (set_default_value "SqrlMutate" (constant (boolean true)) p) _
      (set_default_value-IsKept _ _ p)
      (λ mutate.
        IsKept-step mutate (set_default_value "SqrlIsClassify" (constant (boolean true)) mutate) _
          (set_default_value-IsKept _ _ mutate)
          (λ classify.
            IsKept-step classify (set_default_value "SqrlClock" (call "now" nil) classify) _
              (set_default_value-IsKept _ _ classify)
              (λ clock.
                IsKept-step clock (ensure_statement_feature "SqrlExecutionComplete" clock)
                  (add_statement_features names) (ensure_statement_feature-IsKept _ clock)
                  (add_statement_features-IsKept names))))

module _ (tools : Tools) (keeping : IsKeeping tools) where
  new_global_without_where-IsKept :
      (e : Ast) (name : Option String) (p : Parser)
      → Yields (λ r. IsKept p r.0) (new_global_without_where tools e name p)
  new_global_without_where-IsKept e name p =
      without_global_where-IsKept tools keeping (new_global tools e name) p
        (new_global-IsKept tools keeping e name _)

  pub constant_entity-IsKept :
      (type_name key : String) (p : Parser)
      → Yields (λ r. IsKept p r.0) (constant_entity tools type_name key p)
  unfolding constant_entity
  constant_entity-IsKept type_name key p =
      new_global_without_where-IsKept
        (call "entity" (cons (constant (string type_name)) (cons (constant (string key)) nil)))
        (some ("entity(" ⧺ type_name ⧺ "/" ⧺ key ⧺ ")")) p

  global_without_where_in-IsKept :
      (name : String) (callback : Parser → Result (Parser × Ast)) (p : Parser) (found : Option Slot)
      → Yields (λ r. IsKept p r.0) (callback p)
      → Yields (λ r. IsKept p r.0) (global_without_where_in tools name callback p found)
  global_without_where_in-IsKept name callback p (some s) h = yields (IsKept-refl p)
  global_without_where_in-IsKept name callback p none h =
      IsKept-pair p (callback p) _ h (λ r. new_global_without_where-IsKept r.1 (some name) r.0)

  ensure_global_without_where-IsKept :
      (name : String) (callback : Parser → Result (Parser × Ast)) (p : Parser)
      → Yields (λ r. IsKept p r.0) (callback p)
      → Yields (λ r. IsKept p r.0) (ensure_global_without_where tools name callback p)
  unfolding ensure_global_without_where
  ensure_global_without_where-IsKept name callback p h =
      global_without_where_in-IsKept name callback p (lookup name p.slots) h

  interpret_counter_call-IsKept :
      (e : Ast) (p : Parser) → Yields (λ r. IsKept p r.0) (interpret_counter_call tools e p)
  unfolding interpret_counter_call
  interpret_counter_call-IsKept (call func (cons args (cons where_ast nil))) p =
      Yields-bind (λ r. IsKept p r.0) (combine_with_global_where tools where_ast p.global_where p) _
        (combine_with_global_where-IsKept tools keeping where_ast p.global_where p)
        (λ r kept. yields kept)
  interpret_counter_call-IsKept (call func _) p = halts
  interpret_counter_call-IsKept _ p = halts
