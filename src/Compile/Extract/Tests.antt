-- ===== src/Compile/Extract/Tests.antt =====
-- From a few syntax trees to expressions, with packages/sqrl/src/ast/AstExpr.ts.
use sqrl.Prelude.{
  String, true, false, [], ◌∷◌, none, some, ok, err, invalid, ◌≡◌, refl, str_eq, add_all,
  if◌then◌else◌,
}
use sqrl.Value.{null, number, string}
use sqrl.Ast
use sqrl.Ast.{Ast}
use sqrl.Compile.Expr.{
  input, load, branch, value, call, Expr, node, Exprs, exprs_of, kind, walk_expr,
}
use sqrl.Compile.Fold.{constant_expr, state_expr, and_expr, if_expr, expr_load_from}
use sqrl.Compile.Fold.Meaning.{Runtime, eval}
use sqrl.Compile.Translate.{Compiler, simple_constant, to_expr}
use sqrl.Compile.Extract.{process_expr_ast}
use sqrl.Compile.Extract.Laws.{requested, safe, fresh}
use sqrl.Compile.Extract.Covered.{Covered}
use sqrl.Compile.Extract.Safety.{process_expr_ast-loads}

abbrev compiler : Compiler
compiler = record {
  costs = record { slot_cost = λ name. if str_eq name "B" then 1 else 10; func_cost = λ func. 5 };
  has_slot = λ name. true;
  expr_for_slot = λ name. ok (node input none Exprs.nil);
  is_pure = λ func. false;
  pure_function = λ func vs. null;
  lazy_arguments = λ func. false;
}

abbrev runtime : Runtime
runtime = record {
  slot_value = λ name. if str_eq name "A" then number 0 else string name;
  item = null;
  function = λ func vs. string func;
  comprehension = λ name vs. null;
}

abbrev source_tree : Ast
source_tree =
    Ast.if_expr
      (Ast.boolean_expr (Ast.feature "A") "and"
        (Ast.boolean_expr (Ast.feature "B") "and" (Ast.feature "C")))
      (Ast.call "f" (Ast.cons (Ast.feature "A") (Ast.cons (Ast.feature "B") Ast.nil)))
      (Ast.present (Ast.constant null))

abbrev reading : String → Expr
reading name = node (value name) none Exprs.nil

abbrev loading : String → Expr → Expr
loading name e = node load (some (name ∷ [])) (exprs_of (e ∷ []))

abbrev result : Expr
result = loading "B" (
    node branch none (
      exprs_of (
        node (call "_andSequential") none (
          exprs_of
            (state_expr ∷ reading "B" ∷ loading "A" (reading "A") ∷ loading "C" (reading "C") ∷ []))
        ∷ loading "A" (node (call "f") none (exprs_of (reading "A" ∷ reading "B" ∷ [])))
        ∷ constant_expr null
        ∷ [])))

result_is : process_expr_ast compiler source_tree ≡ ok result
unfolding process_expr_ast and_expr walk_expr if_expr add_all expr_load_from
result_is = refl

undefined_test :
    to_expr (record compiler { has_slot = λ name. false }) none (Ast.feature "A")
    ≡ err (invalid "Feature was not defined: %s")
unfolding to_expr
undefined_test = refl

inputs-Covered :
    (name : String) (e : Expr)
    → compiler.expr_for_slot name ≡ ok e
    → simple_constant (kind e) ≡ true
    → Covered e
unfolding requested
inputs-Covered name e h plain around = let same : e ≡ node input none Exprs.nil = cc in rw same refl

process_expr_ast-loads_example :
    (safe result [] ≡ true)
    × (fresh result [] ≡ true)
    × ((e : Expr) × (to_expr compiler none source_tree ≡ ok e)
        × (eval runtime result ≡ eval runtime e))
process_expr_ast-loads_example =
    process_expr_ast-loads compiler inputs-Covered runtime source_tree result result_is
