-- ===== src/Compile/Labeler.antt =====
-- packages/sqrl/src/compile/compileLabelerStatements.ts and compileWhenBlock.ts: what a call, an `if`, a
-- comprehension and a WHEN block as a statement do to the parser state. The registry of functions and the
-- files that an include names are parameters.
pub mod Pushing
pub mod Keeps
pub mod Deeper
pub mod Tests
use sqrl.Prelude.{
  ℕ, zero, suc, String, Bool, true, false, not, List, [], ◌∷◌, map, Option, none, some, Result, ok,
  err, invalid, failed, ensure, ◌>>=◌, ◌>>◌, lookup, str_eq, ◌&&◌, if◌then◌else◌,
}
use sqrl.Value.{Value, Values, null, boolean, string, array}
use sqrl.Value
use sqrl.Ast.{
  Ast, Asts, MaybeAst, constant, switch, switch_case, list_comprehension, let_statement, execute,
  feature, rule, list, call, registered_call, if_expr, state, when_cause, when, assertion, include,
  slot, nil, cons, absent, present,
}
use sqrl.Ast.Build.{is_constant_null, and_ast, branch, is_constant_true}
use sqrl.Slots.Feature.{Let}
use sqrl.Slots.Slot.{Slot, Content, rule_slot, RuleSpec}
use sqrl.Compile.Parser.{Parser, wrap_where, push_rule, push_input, reset_replaceable_features}
use sqrl.Compile.Parser.Trees.{Tools, new_global, add_statement, push_let}

-- What `getProps` tells of a function.
pub record FunctionProps : Type 0 where
  pub statement : Bool
  pub statement_feature : Option String
  pub state_arg : Bool
  pub when_cause_arg : Bool
  pub has_args : Bool

pub record Labeler : Type 0 where
  pub tools : Tools
  pub registry : String → Option FunctionProps
  -- `importer.getIncludeFiles`: the where clause and the statements of each file.
  pub include_files : String → Result (List (Ast × List Ast))
  pub allow_assertions : Bool

-- `getProps`.
unfoldable pub get_props : Labeler → String → Result FunctionProps
get_props labeler func = elim (labeler.registry func) [
  | none ↦ err (failed "Function not registered:: %s")
  | some props ↦ ok props
]

-- `statementFeature`.
unfoldable pub statement_feature : Labeler → String → Result String
unfolding get_props
statement_feature labeler func = do
  props ← get_props labeler func
  elim props.statement_feature [
    | none ↦ err (failed "Registered function does not have a defined feature:: %s")
    | some name ↦ ok name
  ]

-- `assertStatementAst`, which leaves only calls.
unfoldable pub statement_call : Labeler → Ast → Result (String × Asts)
unfolding get_props
statement_call labeler (call func args) = do
  props ← get_props labeler func
  ensure props.statement (invalid "Function %s is not valid as a statement")
  ok (func, args)
statement_call labeler _ = err (invalid "Expected function call for statement.")

abbrev pub false_branch : MaybeAst → Result Ast
false_branch absent = err (failed "Cannot read property 'type' of null")
false_branch (present e) = ok e

-- The loop over nested `if` statements: their conditions together, and what they guard.
unfoldable pub nested_if : Ast → Ast → Result (Ast × Ast)
unfolding is_constant_null
nested_if condition (if_expr inner yes_ast no_ast) = do
  otherwise ← false_branch no_ast
  ensure (is_constant_null otherwise) (invalid "`if` statements cannot contain a false branch")
  both ← and_ast (condition ∷ inner ∷ [])
  nested_if both yes_ast
nested_if condition e = ok (condition, e)

abbrev pub if_call : Ast → Result (String × Asts)
if_call (call func args) = ok (func, args)
if_call _ = err (invalid "`if` statement true branch must be a `call`")

-- `addCallStatement`.
unfoldable pub add_call_statement : Labeler → Ast → Parser → Result Parser
unfolding statement_call statement_feature add_statement
add_call_statement labeler e p = do
  (func, args) ← statement_call labeler e
  global ← statement_feature labeler func
  add_statement labeler.tools global (registered_call func args) p

-- The branch for `if` statements.
unfoldable pub push_if : Labeler → Ast → Parser → Result Parser
unfolding nested_if get_props statement_feature add_statement branch
push_if labeler e p = do
  (condition, guarded) ← nested_if (constant (boolean true)) e
  (func, args) ← if_call guarded
  props ← get_props labeler func
  ensure props.statement (invalid "Function '%s' was not registered as a statement")
  global ← statement_feature labeler func
  add_statement labeler.tools global (branch condition (registered_call func args) (constant null))
      p

-- The branch for list comprehensions.
unfoldable pub push_comprehension :
    Labeler → (output input : Ast) → String → (where_ast : Ast) → Parser → Result Parser
unfolding statement_call statement_feature add_statement
push_comprehension labeler output input name where_ast p = do
  (func, args) ← statement_call labeler output
  global ← statement_feature labeler func
  add_statement labeler.tools global
      (list_comprehension (registered_call func args) input name where_ast) p

abbrev pub rule_spec_of : Option Slot → Result RuleSpec
rule_spec_of none = err (invalid "Unknown rule: %s")
rule_spec_of (some s) = elim s.content [
  | rule_slot r ↦ elim r.rule_spec [
    | none ↦ err (failed "Cannot read property 'features' of null")
    | some spec ↦ ok spec
  ]
  | _ ↦ err (invalid "Unknown rule: %s")
]

abbrev pub features_list : List String → Asts
features_list [] = nil
features_list (name ∷ names) = cons (feature name) (features_list names)

-- The items of the list of features, one for each rule.
unfoldable pub rule_features : List String → Parser → Result Asts
unfolding lookup branch
rule_features [] p = ok nil
rule_features (name ∷ names) p = do
  spec ← rule_spec_of (lookup name p.slots)
  rest ← rule_features names p
  ok (cons (branch (feature name) (list (features_list spec.features)) (constant null)) rest)

abbrev pub names_value : List String → Values
names_value [] = Value.nil
names_value (name ∷ names) = Value.cons (string name) (names_value names)

abbrev pub plain_call : Ast → Result (String × Asts)
plain_call (call func args) = ok (func, args)
plain_call _ = err (invalid "Only call statements are valid in WHEN blocks for now")

-- The arguments behind the state and the cause, which must come first.
abbrev pub when_args : Asts → Result Asts
when_args (cons state (cons (when_cause none) args)) = ok args
when_args _ = err (failed "Expected whenCause to automatically be inserted by AstTransformer")

-- A statement of a WHEN block, under its cause.
unfoldable pub when_statement : Labeler → (cause : String) → Ast → Result Ast
unfolding get_props branch
when_statement labeler cause statement = do
  (func, args) ← plain_call statement
  props ← get_props labeler func
  ensure props.has_args (failed "Statements used in WHEN blocks must have defined arguments")
  others ← when_args args
  ensure (props.statement && (props.state_arg && props.when_cause_arg))
      (invalid "Function '%s' must have a state and when context argument for use in a WHEN block")
  ok (
      branch (slot cause) (call func (cons state (cons (when_cause (some cause)) others)))
        (constant null))

abbrev pub Push : Type 0
Push = Ast → Parser → Result Parser

unfoldable pub push_when : Labeler → Push → (cause : String) → Asts → Parser → Result Parser
unfolding when_statement
push_when labeler push cause nil p = ok p
push_when labeler push cause (cons statement statements) p = do
  guarded ← when_statement labeler cause statement
  after ← push guarded p
  push_when labeler push cause statements after

-- `compileWhenBlock`.
unfoldable pub compile_when_block : Labeler → Push → List String → Asts → Parser → Result Parser
unfolding rule_features push_when new_global
compile_when_block labeler push names statements p = do
  features ← rule_features names p
  (after, cause) ←
      new_global labeler.tools
        (call "_buildWhenCause"
          (cons (constant (array (names_value names))) (cons (list features) nil)))
        none p
  push_when labeler push cause statements after
