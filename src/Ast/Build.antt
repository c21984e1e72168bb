-- ===== src/Ast/Build.antt =====
-- Smart constructors: AstBuilder (packages/sqrl/src/helpers/AstBuilder.ts) and the parts of
-- SqrlAst (packages/sqrl/src/ast/SqrlAst.ts) that the where clauses go through.
pub mod Laws
use sqrl.Prelude.{Bool, true, false, List, [], ◌∷◌, reverse, if◌then◌else◌, Result, ok, err, failed}
use sqrl.Value.{null, boolean, is_js_truthy, is_truthy}
use sqrl.Ast.{Ast, constant, boolean_expr, switch, switch_case, if_expr, nil, cons, present}

-- `result.type === "constant" && result.value === b`.
abbrev pub is_constant_bool : Bool → Ast → Bool
is_constant_bool true (constant (boolean true)) = true
is_constant_bool false (constant (boolean false)) = true
is_constant_bool _ _ = false

-- One round of the loop of `and` that does not return: the new `result`.
abbrev join_and : Ast → Ast → Ast
join_and ast result = if is_constant_bool true result then ast else boolean_expr ast "and" result

abbrev pub join_or : Ast → Ast → Ast
join_or ast result = if is_constant_bool false result then ast else boolean_expr ast "or" result

-- The loop of `AstBuilder.and`, which visits the clauses from the last to the first.
unfoldable pub and_loop : List Ast → Ast → Ast
unfolding is_js_truthy
and_loop [] result = result
and_loop (constant value ∷ asts) result =
    let rest = and_loop asts result in if is_js_truthy value then rest else constant (boolean false)
and_loop (ast ∷ asts) result = and_loop asts (join_and ast result)

unfoldable pub or_loop : List Ast → Ast → Ast
unfolding is_js_truthy
or_loop [] result = result
or_loop (constant value ∷ asts) result =
    let rest = or_loop asts result in if is_js_truthy value then constant (boolean true) else rest
or_loop (ast ∷ asts) result = or_loop asts (join_or ast result)

-- `AstBuilder.and` and `SqrlAst.and`.
unfoldable pub and_ast : List Ast → Result Ast
unfolding and_loop
and_ast [] = err (failed "SQRL AstBuilder requires at-least one value for an `and`")
and_ast asts = ok (and_loop (reverse asts) (constant (boolean true)))

unfoldable pub or_ast : List Ast → Result Ast
unfolding or_loop
or_ast [] = err (failed "SQRL AstBuilder requires at-least one value for an `or`")
or_ast asts = ok (or_loop (reverse asts) (constant (boolean false)))

-- `SqrlAst.isExactConstant(ast, true)`, which looks through a switch whose one case always holds.
unfoldable pub is_constant_true : Ast → Bool
is_constant_true (constant (boolean b)) = b
is_constant_true (switch (cons (switch_case _ e where_ast _) nil) _) =
    let inner = is_constant_true e in if is_constant_true where_ast then inner else false
is_constant_true _ = false

-- `SqrlAst.branch` with a false branch that may be left out.
unfoldable pub branch : Ast → Ast → Ast → Ast
unfolding is_truthy
branch (constant value) yes_ast no_ast = if is_truthy value then yes_ast else no_ast
branch condition yes_ast no_ast = if_expr condition yes_ast (present no_ast)

-- `SqrlAst.isConstantNull`, which looks through a switch whose one case always holds.
unfoldable pub is_constant_null : Ast → Bool
unfolding is_constant_true
is_constant_null (constant null) = true
is_constant_null (switch (cons (switch_case _ e where_ast _) nil) _) =
    let inner = is_constant_null e in if is_constant_true where_ast then inner else false
is_constant_null _ = false
