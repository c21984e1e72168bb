-- ===== src/Compile/Transform.antt =====
-- packages/sqrl/src/ast/SqrlAstTransformer.ts, with what the transform of a function may ask of the
-- parser state: CompileState and ConstantSlot of packages/sqrl/src/api/parse.ts. A package registers its
-- transforms by registerTransform and registerCustom of packages/sqrl/src/api/execute.ts, which hand them
-- a CompileState; those of the standard library do not touch the state. A transform is the run of its
-- requests, each of which may depend on the answers before. The table of functions, the checks of their
-- arguments and the pure functions are parameters. A tree is transformed on fuel, which is JavaScript's
-- call stack. Trees carry no location here, so that the test for private functions, which looks at
-- locations, is left out.
pub mod Nodes
pub mod Answers
pub mod Keeps
use sqrl.Prelude.{
  String, Bool, List, [], ◌∷◌, Option, none, some, Result, ok, err, invalid, failed, Error, ensure,
  ◌>>=◌, ◌>>◌, not, str_eq, if◌then◌else◌,
}
use sqrl.Value.{Value}
use sqrl.Ast.{Ast, Asts, constant, call, state, when_cause, nil, cons}
use sqrl.Slots.Slot.{Content, constant_slot, Slot, set_value}
use sqrl.Compile.Parser.{Parser, put}
use sqrl.Compile.Parser.Trees.{Combined}

-- The methods of CompileState that change the parser state, those of ConstantSlot, and
-- `_wrapped.transform`. A constant slot is named by its name, since no other slot takes its place.
pub data Request : Type 0 where
  set_global : Ast → Option String → Request
  set_constant_slot : String → Value → Request
  get_constant : String → Request
  set_constant : String → Value → Request
  add_hashed_entity : (type_name : String) → Value → Request
  combine_global_where : Ast → Request
  add_statement : (name slot_name : String) → Request
  transform_tree : Ast → Request

-- What they answer.
pub data Answer : Type 0 where
  done : Answer
  slot_named : String → Answer
  value_of : Value → Answer
  entity : (key slot_name : String) → Answer
  combined : Combined → Answer
  tree : Ast → Answer

-- The run of a transform: the tree that it returns, what it throws, or a request and what it does next.
pub data Run : Type 0 where
  returns : Ast → Run
  throws : Error → Run
  asks : Request → (Answer → Run) → Run

-- What `getProps` tells of a function that is called.
pub record Function : Type 0 where
  pub custom_transform : Option (Ast → Run)
  pub transform_ast : Option (Ast → Run)
  pub state_arg : Bool
  pub when_cause_arg : Bool
  -- `assertArgs`.
  pub check_args : Asts → Result (Unit {0})
  pub pure_function : Option (List Value → Value)

pub record Language : Type 0 where
  pub functions : String → Option Function
  pub stringify : Value → String
  pub hash : String → String
  -- `murmurhashJsonHexSync`.
  pub hash_json : Value → String
  -- The parts of a name before and after its first dot.
  pub split_at_dot : String → Option (String × String)

abbrev pub Transform : Type 0
Transform = Ast → Parser → Result (Parser × Ast)

abbrev pub constant_value : Content → Result Value
constant_value (constant_slot _ value) = ok value
constant_value _ = err (failed "Expected SqrlConstantSlot for %s")

abbrev pub constant_at : Option Slot → Result Value
constant_at none = err (failed "Expected SqrlConstantSlot for %s")
constant_at (some s) = constant_value s.content

abbrev pub set_content : String → Value → Parser → Slot → Content → Result Parser
set_content name value p s (constant_slot finalized _) =
    set_value value finalized >>= λ content. ok (put name (record s { content = content }) p)
set_content name value p s _ = err (failed "Expected SqrlConstantSlot for %s")

abbrev pub set_in : String → Value → Parser → Option Slot → Result Parser
set_in name value p none = err (failed "Expected SqrlConstantSlot for %s")
set_in name value p (some s) = set_content name value p s s.content

-- The arguments with a state before them, and a cause of a WHEN block behind it.
abbrev pub with_cause : Asts → Asts
with_cause (cons (when_cause c) args) = cons (when_cause c) args
with_cause args = cons (when_cause none) args

abbrev pub without_state : Asts → Asts
without_state (cons state args) = args
without_state args = args

abbrev pub with_state : Asts → Asts
with_state (cons state args) = cons state args
with_state args = cons state args

abbrev pub full_args : Function → Asts → Asts
full_args f args =
    if f.state_arg
    then with_state (if f.when_cause_arg then with_cause (without_state args) else args)
    else args

-- The values of arguments that are all constants.
abbrev pub constants_of : Asts → Option (List Value)
constants_of nil = some []
constants_of (cons (constant value) args) = elim (constants_of args) [
  | none ↦ none
  | some values ↦ some (value ∷ values)
]
constants_of (cons _ args) = none

-- A pure function of constants is computed.
abbrev pub folded : Function → Ast → Asts → Ast
folded f otherwise args = elim f.pure_function [
  | none ↦ otherwise
  | some func ↦ elim (constants_of args) [ none ↦ otherwise | some values ↦ constant (func values) ]
]

abbrev pub function_at : Language → String → Result Function
function_at language func = elim (language.functions func) [
  | none ↦ err (invalid "Function not found: ")
  | some f ↦ ok f
]

-- `transformed.func !== originalFunc`.
abbrev pub ensure_other : String → Ast → Result (Unit {0})
ensure_other func (call other _) =
    ensure (not (str_eq other func)) (failed "transformed func must have a different name: %s")
ensure_other func _ = ok tt
