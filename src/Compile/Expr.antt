-- ===== src/Compile/Expr.antt =====
-- packages/sqrl/src/api/expr.ts and packages/sqrl/src/expr/Expr.ts. Slots are told apart by their
-- names; a missing list of subexpressions is an empty one.
use sqrl.Prelude.{String, List, [], ◌∷◌, ◌++◌, Option, none, some}
use sqrl.Value.{Value}

-- The node types with their own fields.
pub data Kind : Type 0 where
  input load state branch list : Kind
  constant : Value → Kind
  value iterator call list_comprehension : String → Kind

mutual
  -- The type, `load` and `exprs`.
  pub data Expr : Type 0 where
    node : Kind → Option (List String) → Exprs → Expr

  pub data Exprs : Type 0 where
    nil : Exprs
    cons : Expr → Exprs → Exprs

abbrev pub kind : Expr → Kind
kind (node k names exprs) = k

abbrev pub loaded : Expr → Option (List String)
loaded (node k names exprs) = names

-- `expr.load || []`.
abbrev pub or_empty : Option (List String) → List String
or_empty none = []
or_empty (some names) = names

abbrev pub exprs_of : List Expr → Exprs
exprs_of [] = nil
exprs_of (e ∷ es) = cons e (exprs_of es)

-- `walkExpr`: the nodes in the order in which the callback gets them.
unfoldable mutual
  pub walk_expr : Expr → List Expr
  walk_expr (node k names exprs) = walk_exprs exprs ++ node k names exprs ∷ []

  pub walk_exprs : Exprs → List Expr
  walk_exprs nil = []
  walk_exprs (cons e es) = walk_expr e ++ walk_exprs es
