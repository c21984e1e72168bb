-- ===== src/Ast.antt =====
-- The syntax tree of packages/sqrl/src/api/ast.ts, one constructor for each node type. Locations
-- and the cached `json` text are left out.
pub mod Build
pub mod Walk
use sqrl.Prelude.{String, Bool, List, Option, ℕ}
use sqrl.Value.{Value}

mutual
  pub data Ast : Type 0 where
    constant : Value → Ast
    repl : Asts → Ast
    script : Asts → Ast
    switch : Asts → MaybeAst → Ast
    switch_case : Ast → Ast → Ast → Ast → Ast
    list_comprehension : Ast → Ast → String → Ast → Ast
    expr : Ast → Ast
    binary_expr : Ast → String → Ast → Ast
    boolean_expr : Ast → String → Ast → Ast
    -- `final`, `description`, `expr`, `feature`, `isDefaultCase`, `where`.
    let_statement : Bool → Option String → Ast → String → Bool → Ast → Ast
    execute : ℕ → Bool → Ast
    feature : String → Ast
    rules : List String → Ast
    -- `name`, `description`, `where`, `reason`.
    rule : String → Option String → Ast → String → Ast
    list : Asts → Ast
    call : String → Asts → Ast
    custom_call : String → String → Ast
    registered_call : String → Asts → Ast
    if_expr : Ast → Ast → MaybeAst → Ast
    state : Ast
    when_cause : Option String → Ast
    iterator : String → Ast
    when : List String → Asts → Ast
    -- Whether the priority is "eager"; it is "lazy" otherwise.
    priority : Bool → Ast → Ast
    assertion : Ast → Ast
    include : String → Ast → Ast
    negation : Ast → Ast
    slot : String → Ast

  pub data Asts : Type 0 where
    nil : Asts
    cons : Ast → Asts → Asts

  -- A field that may be null.
  pub data MaybeAst : Type 0 where
    absent : MaybeAst
    present : Ast → MaybeAst
