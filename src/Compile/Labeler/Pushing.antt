-- ===== src/Compile/Labeler/Pushing.antt =====
-- `pushStatement` of packages/sqrl/src/compile/SqrlParserState.ts, `labelerPushStatement` of
-- compileLabelerStatements.ts and the statement loop of SqrlCompile.ts. A statement is pushed on fuel,
-- which is JavaScript's call stack: an assert, a WHEN block and an include push statements in turn.
use sqrl.Prelude.{
  ℕ, zero, suc, Bool, false, List, [], ◌∷◌, Result, ok, err, invalid, failed, ensure, ◌>>=◌, ◌>>◌,
  str_eq, if◌then◌else◌,
}
use sqrl.Value.{null}
use sqrl.Ast.{
  Ast, constant, list_comprehension, let_statement, execute, rule, call, if_expr, when, assertion,
  include, nil, cons,
}
use sqrl.Compile.Parser.{Parser, wrap_where, push_rule, push_input, reset_replaceable_features}
use sqrl.Compile.Parser.Trees.{push_let}
use sqrl.Compile.Labeler.{
  Labeler, push_if, add_call_statement, push_comprehension, Push, compile_when_block,
}

-- `pushFile`, and the loop of SqrlCompile.ts.
unfoldable pub push_statements : Push → List Ast → Parser → Result Parser
push_statements push [] p = ok p
push_statements push (e ∷ es) p = do after ← push e p; push_statements push es after

unfoldable pub push_files : Push → List (Ast × List Ast) → Parser → Result Parser
unfolding push_statements
push_files push [] p = ok p
push_files push ((where_ast, es) ∷ files) p = do
  after ← wrap_where where_ast (push_statements push es) p
  push_files push files after

-- `labelerPushStatement`; `push` is `pushStatement`. The set of used files, which nothing here reads, is
-- left out.
unfoldable pub labeler_push_statement : Labeler → Push → Ast → Parser → Result Parser
unfolding push_files push_if add_call_statement push_comprehension compile_when_block
labeler_push_statement labeler push (execute _ _) p =
    err (invalid "Execute statement is only valid in sqrl tests")
labeler_push_statement labeler push (constant null) p = ok p
labeler_push_statement labeler push (include filename where_ast) p = do
  files ← labeler.include_files filename
  wrap_where where_ast (push_files push files) p
labeler_push_statement labeler push (assertion e) p = do
  ensure labeler.allow_assertions (invalid "Assertions are only valid in sqrl tests")
  push (call "assert" (cons e nil)) p
labeler_push_statement labeler push (if_expr condition yes_ast no_ast) p =
    push_if labeler (if_expr condition yes_ast no_ast) p
labeler_push_statement labeler push (call func args) p =
    add_call_statement labeler (call func args) p
labeler_push_statement labeler push (list_comprehension output input name where_ast) p =
    push_comprehension labeler output input name where_ast p
labeler_push_statement labeler push (when names statements) p =
    compile_when_block labeler push names statements p
labeler_push_statement labeler push _ p = err (invalid "Unhandled ast type:: %s")

-- `pushStatement` behind its transformation.
unfoldable pub push_transformed : Labeler → Push → Ast → Parser → Result Parser
unfolding push_let push_rule labeler_push_statement
push_transformed labeler push (let_statement final description e name default where_ast) p =
    push_let labeler.tools
      (record {
        is_final = final;
        description = description;
        value = e;
        name = name;
        is_default_case = default;
        where_ast = where_ast;
      })
      p
push_transformed labeler push (rule name description where_ast reason) p =
    push_rule (rule name description where_ast reason) name reason where_ast p
push_transformed labeler push e p = labeler_push_statement labeler push e p

abbrev pub transform_push : Labeler → Push → Ast → Parser → Result Parser
transform_push labeler push e p = do
  (after, transformed) ← labeler.tools.transform e p
  push_transformed labeler push transformed after

abbrev pub is_input_call : Ast → Bool
is_input_call (call func args) = str_eq func "input"
is_input_call _ = false

-- The beginning of `pushStatement`: inputs and resets are not transformed.
unfoldable pub push_with : Labeler → Push → Ast → Parser → Result Parser
unfolding push_input push_transformed reset_replaceable_features
push_with labeler push (let_statement final description e name default where_ast) p =
    if is_input_call e
    then push_input name p
    else transform_push labeler push (let_statement final description e name default where_ast) p
push_with labeler push (call func nil) p =
    if str_eq func "_resetReplaceableFeatures"
    then ok (reset_replaceable_features p)
    else transform_push labeler push (call func nil) p
push_with labeler push (call func (cons e es)) p =
    if str_eq func "_resetReplaceableFeatures"
    then err (invalid "Expected no arguments to _resetReplaceableFeatures")
    else transform_push labeler push (call func (cons e es)) p
push_with labeler push e p = transform_push labeler push e p

-- `pushStatement`.
unfoldable pub push_statement : Labeler → ℕ → Push
unfolding push_with
push_statement labeler zero e p = err (failed "Maximum call stack size exceeded")
push_statement labeler (suc depth) e p = push_with labeler (push_statement labeler depth) e p

-- `compileParserStateAst`.
unfoldable pub compile_statements : Labeler → ℕ → List Ast → Parser → Result Parser
unfolding push_statement push_statements
compile_statements labeler depth es p = push_statements (push_statement labeler depth) es p
