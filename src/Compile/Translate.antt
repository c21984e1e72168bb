-- ===== src/Compile/Translate.antt =====
-- packages/sqrl/src/ast/AstExpr.ts, `_astToExpr`: a syntax tree as an expression. What other slots and
-- the registry of functions say are parameters. Where a tree has two errors, operands come first.
use sqrl.Prelude.{
  String, Bool, true, false, ◌&&◌, ◌||◌, List, [], ◌∷◌, map, reverse, Option, none, some,
  if◌then◌else◌, str_eq, lookup, Result, ok, err, failed, invalid, ensure, ◌>>=◌, ◌>>◌,
}
use sqrl.Value.{Value, Values, null, boolean, number, string, array}
use sqrl.Ast
use sqrl.Ast.{Ast, Asts, MaybeAst}
use sqrl.Ast.Build.{is_constant_true, is_constant_null}
use sqrl.Compile.Expr.{
  Kind, list, constant, value, iterator, call, list_comprehension, Expr, node, Exprs, kind,
  exprs_of,
}
use sqrl.Compile.Fold.{
  Costs, constant_expr, constant_value, if_expr, expr_load, and_expr, or_expr, state_expr,
}

-- The compiled output and the registry of functions, as `AstExprState` reads them.
pub record Compiler : Type 0 where
  pub costs : Costs
  pub has_slot : String → Bool
  pub expr_for_slot : String → Result Expr
  pub is_pure : String → Bool
  pub pure_function : String → List Value → Value
  pub lazy_arguments : String → Bool

-- `binaryOperatorToFunction`.
abbrev pub binary_functions : List (String × String)
binary_functions =
    ("=", "_cmpE")
    ∷ ("!=", "_cmpNE")
    ∷ (">", "_cmpG")
    ∷ (">=", "_cmpGE")
    ∷ ("<", "_cmpL")
    ∷ ("<=", "_cmpLE")
    ∷ ("-", "_subtract")
    ∷ ("+", "_add")
    ∷ ("*", "_multiply")
    ∷ ("%", "_modulo")
    ∷ ("or", "_or")
    ∷ ("and", "_and")
    ∷ ("contains", "_contains")
    ∷ []

abbrev pub is_simple : Value → Bool
is_simple null = true
is_simple (boolean b) = true
is_simple (number n) = true
is_simple (string s) = true
is_simple (array Values.nil) = true
is_simple _ = false

abbrev pub value_expr : String → Expr
value_expr name = node (value name) (some (name ∷ [])) Exprs.nil

abbrev pub simple_constant : Kind → Bool
simple_constant (constant v) = is_simple v
simple_constant _ = false

-- `slotExpr`.
unfoldable pub slot_expr : Compiler → String → Result Expr
slot_expr c name = do
  ensure (c.has_slot name) (failed "Could not find slot with given name")
  e ← c.expr_for_slot name
  ok (if simple_constant (kind e) then e else value_expr name)

-- `_astToExprList`, after the translation of the parts; also `makeCall` without a load.
abbrev pub expr_list : Kind → Bool → List Expr → Expr
expr_list k lazy es = node k (some (if lazy then [] else expr_load es)) (exprs_of es)

-- The values of the parts, if all are constants.
unfoldable pub constant_values : List Expr → Option (List Value)
constant_values [] = some []
constant_values (e ∷ es) = elim (constant_value e) [
  | none ↦ none
  | some v ↦ elim (constant_values es) [ none ↦ none | some vs ↦ some (v ∷ vs) ]
]

abbrev pub slot_of : Ast → Result String
slot_of (Ast.slot name) = ok name
slot_of _ = err (failed "Expected slot ast for wait call")

-- The slots that `_slotWait` waits for: those of its arguments that are no constants.
unfoldable pub waited_slots : List (Ast × Expr) → Result (List String)
waited_slots [] = ok []
waited_slots ((arg, e) ∷ args) = do
  rest ← waited_slots args
  elim (constant_value e) [ some v ↦ ok rest | none ↦ (slot_of arg >>= λ name. ok (name ∷ rest)) ]

abbrev pub plain_call : Compiler → String → List (Ast × Expr) → Result Expr
plain_call c func args =
    if str_eq func "_slotWait"
    then (waited_slots args >>= λ names. ok (node (constant (boolean true)) (some names) Exprs.nil))
    else ok (expr_list (call func) (c.lazy_arguments func) (map (λ a. a.1) args))

abbrev pub folded_call : Compiler → String → List (Ast × Expr) → Option (List Value) → Result Expr
folded_call c func args none = plain_call c func args
folded_call c func args (some vs) = ok (constant_expr (c.pure_function func vs))

-- `callExpr`, on the arguments with their expressions.
unfoldable pub call_expr : Compiler → String → List (Ast × Expr) → Result Expr
unfolding constant_values waited_slots
call_expr c func args =
    if c.is_pure func
    then folded_call c func args (constant_values (map (λ a. a.1) args))
    else plain_call c func args

abbrev pub same_iterator : Option String → String → Bool
same_iterator none name = false
same_iterator (some current) name = str_eq current name

abbrev pub no_iterator : Option String → Bool
no_iterator none = true
no_iterator (some name) = false

abbrev pub is_connective : String → Bool
is_connective op = str_eq op "or" || str_eq op "and"

abbrev pub state_argument : Ast × Expr
state_argument = (Ast.state, state_expr)

-- `is` and `is not`.
unfoldable pub is_null_expr : Compiler → String → List (Ast × Expr) → Result Expr
unfolding is_constant_null call_expr
is_null_expr c op (l ∷ r ∷ []) = do
  ensure (is_constant_null r.0) (failed "Expected `null` value for right-hand side of IS")
  e ← call_expr c "_isNull" (l ∷ [])
  ok (if str_eq op "is not" then expr_list (call "_not") false (e ∷ []) else e)
is_null_expr c op _ = err (failed "Expected `null` value for right-hand side of IS")

abbrev pub known_operator : Compiler → List (Ast × Expr) → Option String → Result Expr
known_operator c args none = err (failed "Could not find function for binary operator:: %s")
known_operator c args (some func) = call_expr c func args

-- An operator on its operands, of which `or` and `and` may have several.
unfoldable pub operator_expr : Compiler → String → List (Ast × Expr) → Result Expr
unfolding call_expr is_null_expr lookup
operator_expr c op args =
    if str_eq op "in"
    then call_expr c "_contains" (reverse args)
    else if str_eq op "/"
    then call_expr c "_divide" (state_argument ∷ args)
    else if str_eq op "%"
    then call_expr c "_modulo" (state_argument ∷ args)
    else if str_eq op "or"
    then or_expr c.costs (map (λ a. a.1) args)
    else if str_eq op "and"
    then and_expr c.costs (map (λ a. a.1) args)
    else if str_eq op "is" || str_eq op "is not"
    then is_null_expr c op args
    else known_operator c args (lookup op binary_functions)

abbrev pub one_operand : Ast → Result Expr → Result (List (Ast × Expr))
one_operand a single = single >>= λ e. ok ((a, e) ∷ [])

-- `_astToExpr`; `it` is the iterator of the list comprehension that surrounds the tree.
unfoldable mutual
  unfolding slot_expr call_expr operator_expr

  pub to_expr : Compiler → Option String → Ast → Result Expr
  to_expr c it (Ast.iterator name) = do
    ensure (same_iterator it name) (failed "Expected currentIterator to be %s was %s")
    ok (node (iterator name) none Exprs.nil)
  to_expr c it (Ast.feature name) = do
    ensure (c.has_slot name) (invalid "Feature was not defined: %s")
    slot_expr c name
  to_expr c it (Ast.slot name) = slot_expr c name
  to_expr c it Ast.state = ok state_expr
  to_expr c it (Ast.when_cause none) = ok (constant_expr null)
  to_expr c it (Ast.when_cause (some name)) = slot_expr c name
  to_expr c it (Ast.if_expr condition true_branch false_branch) = do
    e ← to_expr c it condition
    t ← to_expr c it true_branch
    f ← maybe_expr c it false_branch (err (failed "Cannot read property 'location' of null"))
    ok (if_expr e t f)
  to_expr c it (Ast.switch cases default_case) = do
    result ← maybe_expr c it default_case (ok (constant_expr null))
    case_exprs c it cases result
  to_expr c it (Ast.call func args) = do es ← to_exprs c it args; call_expr c func es
  to_expr c it (Ast.registered_call func args) = do es ← to_exprs c it args; call_expr c func es
  to_expr c it (Ast.list_comprehension output input name where_ast) = do
    ensure (no_iterator it) (failed "Multiple levels of iterators are not supported.")
    i ← to_expr c (some name) input
    o ← to_expr c (some name) output
    w ← to_expr c (some name) where_ast
    ok (expr_list (list_comprehension name) false (i ∷ o ∷ w ∷ []))
  to_expr c it (Ast.negation e) = do inner ← to_expr c it e; call_expr c "_not" ((e, inner) ∷ [])
  to_expr c it (Ast.constant v) = ok (constant_expr v)
  to_expr c it (Ast.binary_expr l op r) = do
    left ← to_expr c it l
    right ← to_operands c it op r (to_expr c it r)
    operator_expr c op ((l, left) ∷ right)
  to_expr c it (Ast.boolean_expr l op r) = do
    left ← to_expr c it l
    right ← to_operands c it op r (to_expr c it r)
    operator_expr c op ((l, left) ∷ right)
  to_expr c it (Ast.list es) = do
    exprs ← to_exprs c it es
    ok (expr_list list false (map (λ a. a.1) exprs))
  to_expr c it _ = err (failed "Unhandled ast: %s")

  pub to_exprs : Compiler → Option String → Asts → Result (List (Ast × Expr))
  to_exprs c it Ast.nil = ok []
  to_exprs c it (Ast.cons a asts) = do e ← to_expr c it a; es ← to_exprs c it asts; ok ((a, e) ∷ es)

  -- The loop over right operands with the same operator; `single` is the expression of the operand.
  pub to_operands :
      Compiler → Option String → String → Ast → Result Expr → Result (List (Ast × Expr))
  to_operands c it op (Ast.boolean_expr l op' r) single =
      let chain = to_expr c it l >>= λ left.
      to_operands c it op r (to_expr c it r) >>= λ right. ok ((l, left) ∷ right) in
      if str_eq op op' && is_connective op
      then chain
      else one_operand (Ast.boolean_expr l op' r) single
  to_operands c it op a single = one_operand a single

  pub maybe_expr : Compiler → Option String → MaybeAst → Result Expr → Result Expr
  maybe_expr c it Ast.absent missing = missing
  maybe_expr c it (Ast.present a) missing = to_expr c it a

  -- The loop over the cases of a switch.
  pub case_exprs : Compiler → Option String → Asts → Expr → Result Expr
  case_exprs c it Ast.nil result = ok result
  case_exprs c it (Ast.cons (Ast.switch_case a e where_ast _) cases) result = do
    t ← to_expr c it e
    next ←
        if is_constant_true where_ast
        then ok t
        else (to_expr c it where_ast >>= λ w. ok (if_expr w t result))
    case_exprs c it cases next
  case_exprs c it (Ast.cons _ cases) result =
      err (failed "Cannot read property 'expr' of undefined")
