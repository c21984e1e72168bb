-- ===== src/Compile/Extract.antt =====
-- packages/sqrl/src/ast/AstExpr.ts, `_exprExtractLoad` and `processExprAst`: the slots that a node
-- needs are loaded by a node around it, unless they are loaded already.
pub mod Laws
pub mod Covered
pub mod Calls
pub mod Safety
pub mod Tests
use sqrl.Prelude.{
  String, Bool, true, false, not, ◌&&◌, ◌||◌, List, [], ◌∷◌, ◌++◌, Option, none, some, filter,
  contains, add_all, Result, ok, ◌>>=◌,
}
use sqrl.Ast.{Ast}
use sqrl.Compile.Expr.{Kind, load, Expr, node, Exprs, nil, cons, or_empty}
use sqrl.Compile.Translate.{Compiler, to_expr}

-- The slots of `expr.load` that are not yet loaded.
abbrev pub new_load : Option (List String) → List String → List String
new_load names loaded = add_all (filter (λ name. not (contains loaded name)) (or_empty names)) []

abbrev pub wrap_load : List String → Expr → Expr
wrap_load [] e = e
wrap_load (name ∷ names) e = node load (some (name ∷ names)) (cons e nil)

-- `_exprExtractLoad`; the inner call on a copy without `load` only goes on to the parts.
unfoldable mutual
  pub extract : Expr → List String → Expr
  extract (node k names exprs) loaded =
      wrap_load (new_load names loaded)
        (node k none (extract_all exprs (new_load names loaded ++ loaded)))

  pub extract_all : Exprs → List String → Exprs
  extract_all nil loaded = nil
  extract_all (cons e es) loaded = cons (extract e loaded) (extract_all es loaded)

-- `processExprAst`.
unfoldable pub process_expr_ast : Compiler → Ast → Result Expr
unfolding to_expr extract
process_expr_ast c a = to_expr c none a >>= λ e. ok (extract e [])
