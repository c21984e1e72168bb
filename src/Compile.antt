-- ===== src/Compile.antt =====
-- From the slots' syntax trees to the expressions that are run: packages/sqrl/src/ast/AstExpr.ts,
-- packages/sqrl/src/expr and packages/sqrl/src/compile.
pub mod Expr
pub mod Fold
pub mod Translate
pub mod Extract
pub mod Cost
pub mod Parser
pub mod Transform
pub mod Labeler
