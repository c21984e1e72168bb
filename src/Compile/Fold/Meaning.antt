-- ===== src/Compile/Fold/Meaning.antt =====
-- What expressions mean once every slot has a value: the code of packages/sqrl/src/js/SqrlJs.ts, with
-- values in place of promises. Functions other than the connectives and `bool` are a parameter.
use sqrl.Prelude.{String, List, [], ◌∷◌, str_eq, if◌then◌else◌}
use sqrl.Value.{Value, Values, null, boolean, array, is_truthy}
use sqrl.Stdlib.Logic.{and_values, or_values}
use sqrl.Compile.Expr.{
  Kind, input, load, state, branch, list, constant, value, iterator, call, list_comprehension, Expr,
  node, Exprs, nil, cons,
}

pub record Runtime : Type 0 where
  pub slot_value : String → Value
  pub item : Value
  pub function : String → List Value → Value
  pub comprehension : String → List Value → Value

abbrev pub values_of : List Value → Values
values_of [] = Values.nil
values_of (v ∷ vs) = Values.cons v (values_of vs)

abbrev pub rest_of : List Value → List Value
rest_of [] = []
rest_of (v ∷ vs) = vs

abbrev pub first_of : List Value → Value
first_of [] = null
first_of (v ∷ vs) = v

-- The connectives take the state first.
unfoldable pub call_function : Runtime → String → List Value → Value
call_function rt func vs =
    if str_eq func "bool"
    then boolean (is_truthy (first_of vs))
    else if str_eq func "_andSequential"
    then and_values (rest_of vs)
    else if str_eq func "_orSequential"
    then or_values (rest_of vs)
    else rt.function func vs

abbrev pub choose : List Value → Value
choose (c ∷ t ∷ f ∷ _) = if is_truthy c then t else f
choose _ = null

abbrev pub eval_kind : Runtime → Kind → List Value → Value
eval_kind rt input vs = null
eval_kind rt load vs = first_of vs
eval_kind rt state vs = null
eval_kind rt branch vs = choose vs
eval_kind rt list vs = array (values_of vs)
eval_kind rt (constant v) vs = v
eval_kind rt (value name) vs = rt.slot_value name
eval_kind rt (iterator name) vs = rt.item
eval_kind rt (call func) vs = call_function rt func vs
eval_kind rt (list_comprehension name) vs = rt.comprehension name vs

unfoldable mutual
  pub eval : Runtime → Expr → Value
  eval rt (node k names exprs) = eval_kind rt k (eval_all rt exprs)

  pub eval_all : Runtime → Exprs → List Value
  eval_all rt nil = []
  eval_all rt (cons e es) = eval rt e ∷ eval_all rt es
