-- ===== src/Compile/Fold/Tests.antt =====
-- The connectives of packages/sqrl/src/ast/AstExpr.ts on a few operands.
use sqrl.Prelude.{
  String, true, false, List, [], ◌∷◌, none, some, ok, err, failed, ◌≡◌, refl, str_eq, if◌then◌else◌,
}
use sqrl.Value.{null, boolean, number, string, is_truthy}
use sqrl.Stdlib.Logic.{and_values, or_values}
use sqrl.Stdlib.Logic.Laws.{is_falsy}
use sqrl.Compile.Expr.{value, iterator, call, Expr, node, Exprs, exprs_of, walk_expr}
use sqrl.Compile.Fold.{
  Costs, constant_expr, sort_exprs_by_cost, if_expr, and_expr, or_expr, state_expr,
}
use sqrl.Compile.Fold.Meaning.{Runtime, eval, eval_all}
use sqrl.Compile.Fold.Laws.{folded_truth, and_expr-null}

abbrev costs : Costs
costs = record { slot_cost = λ name. if str_eq name "Cheap" then 1 else 10; func_cost = λ func. 5 }

abbrev runtime : Runtime
runtime = record {
  slot_value = λ name. if str_eq name "Cheap" then number 0 else string "x";
  item = null;
  function = λ func vs. null;
  comprehension = λ name vs. null;
}

abbrev slot_value_expr : String → Expr
slot_value_expr name = node (value name) (some (name ∷ [])) Exprs.nil

abbrev operands : List Expr
operands = slot_value_expr "Dear" ∷ constant_expr (boolean true) ∷ slot_value_expr "Cheap" ∷ []

abbrev sorted : List Expr
sorted = slot_value_expr "Cheap" ∷ slot_value_expr "Dear" ∷ []

abbrev and_result : Expr
and_result = node (call "_andSequential") (some ("Cheap" ∷ [])) (exprs_of (state_expr ∷ sorted))

and_expr_test : and_expr costs operands ≡ ok and_result
unfolding and_expr is_truthy walk_expr
and_expr_test = refl

or_expr_test : or_expr costs operands ≡ ok (constant_expr (boolean true))
unfolding or_expr is_truthy
or_expr_test = refl

-- An iterator has no `load` to go through.
iterator_test :
    and_expr costs (node (iterator "it") none Exprs.nil ∷ slot_value_expr "Cheap" ∷ [])
    ≡ err (failed "Cannot read property 'forEach' of undefined")
unfolding and_expr walk_expr
iterator_test = refl

if_expr_test :
    (if_expr (constant_expr (number 0)) (slot_value_expr "A") (slot_value_expr "B")
      ≡ slot_value_expr "B")
    × (sort_exprs_by_cost costs
          (slot_value_expr "A" ∷ slot_value_expr "Cheap" ∷ slot_value_expr "B" ∷ [])
        ≡ slot_value_expr "Cheap" ∷ slot_value_expr "A" ∷ slot_value_expr "B" ∷ [])
unfolding if_expr sort_exprs_by_cost is_truthy
if_expr_test = (refl, refl)

folded_truth_example :
    (is_truthy (eval runtime and_result)
      ≡ is_truthy (and_values (eval_all runtime (exprs_of operands))))
    × (is_truthy (eval runtime (constant_expr (boolean true)))
        ≡ is_truthy (or_values (eval_all runtime (exprs_of operands))))
folded_truth_example =
    folded_truth runtime costs operands and_result (constant_expr (boolean true)) and_expr_test
      or_expr_test

cheap_is_falsy : is_falsy (eval runtime (slot_value_expr "Cheap")) ≡ true
unfolding eval is_truthy
cheap_is_falsy = refl

and_expr-null_example :
    (and_expr costs (constant_expr null ∷ slot_value_expr "Cheap" ∷ []) ≡ ok (constant_expr null))
    × (and_values (eval_all runtime (exprs_of (constant_expr null ∷ slot_value_expr "Cheap" ∷ [])))
        ≡ boolean false)
and_expr-null_example = and_expr-null runtime costs (slot_value_expr "Cheap") refl cheap_is_falsy
