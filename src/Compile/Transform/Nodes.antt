-- ===== src/Compile/Transform/Nodes.antt =====
-- packages/sqrl/src/ast/SqrlAstTransformer.ts, node by node. `transform` is the transformer, on what is
-- left of the call stack.
use sqrl.Prelude.{
  ℕ, zero, suc, String, List, [], ◌∷◌, Option, none, some, Result, ok, err, failed, ◌>>=◌, ◌>>◌,
  lookup, insert,
}
use sqrl.Value.{string}
use sqrl.Ast.{
  Ast, Asts, MaybeAst, constant, script, switch, switch_case, list_comprehension, binary_expr,
  boolean_expr, let_statement, feature, rules, rule, list, call, custom_call, registered_call,
  if_expr, state, when_cause, iterator, when, priority, assertion, include, negation, slot, nil,
  cons, absent, present,
}
use sqrl.Slots.Slot.{set_value}
use sqrl.Compile.Parser.{Parser, ensure_iterator, add_statement_slot}
use sqrl.Compile.Parser.Trees.{Tools, new_global, combine_with_global_where}
use sqrl.Compile.Parser.Helpers.{ensure_constant_slot, wrap_iterator, constant_entity}
use sqrl.Compile.Transform.{
  transform_tree, tree, Request, set_global, set_constant_slot, get_constant, set_constant,
  add_hashed_entity, combine_global_where, add_statement, Answer, done, slot_named, value_of,
  entity, combined, Run, returns, throws, asks, Function, Language, Transform, constant_at, set_in,
  full_args, folded, function_at, ensure_other,
}

module _ (language : Language) (transform : Transform) where
  abbrev pub tools_by : Tools
  tools_by = record { stringify = language.stringify; hash = language.hash; transform = transform }

  -- A method of CompileState or of ConstantSlot.
  unfoldable pub answer : Request → Parser → Result (Parser × Answer)
  unfolding new_global ensure_constant_slot set_value constant_entity combine_with_global_where
      add_statement_slot lookup insert
  answer (set_global e name) p = new_global tools_by e name p >>= λ r. ok (r.0, slot_named r.1)
  answer (set_constant_slot name value) p =
      ensure_constant_slot name value p >>= λ q. ok (q, slot_named name)
  answer (get_constant name) p =
      constant_at (lookup name p.slots) >>= λ value. ok (p, value_of value)
  answer (set_constant name value) p =
      set_in name value p (lookup name p.slots) >>= λ q. ok (q, done)
  answer (add_hashed_entity type_name props) p =
      constant_entity tools_by type_name (language.hash_json props) p >>= λ r.
      ok (r.0, entity (language.hash_json props) r.1)
  answer (combine_global_where e) p =
      combine_with_global_where tools_by e p.global_where p >>= λ r. ok (r.0, combined r.1)
  answer (transform_tree e) p = transform e p >>= λ r. ok (r.0, tree r.1)
  answer (add_statement name slot_name) p =
      add_statement_slot name slot_name p >>= λ q. ok (q, done)

  -- A transform of a function, up to the tree that it returns.
  unfoldable pub run_transform : Run → Parser → Result (Parser × Ast)
  unfolding answer
  run_transform (returns e) p = ok (p, e)
  run_transform (throws problem) p = err problem
  run_transform (asks request next) p = answer request p >>= λ r. run_transform (next r.1) r.0

  -- `transform` on an array.
  unfoldable pub transform_all : Asts → Parser → Result (Parser × Asts)
  transform_all nil p = ok (p, nil)
  transform_all (cons e es) p = do
    (q, first) ← transform e p
    (r, rest) ← transform_all es q
    ok (r, cons first rest)

  -- A tree with two children, put together again.
  abbrev pub two : (Ast → Ast → Ast) → Ast → Ast → Parser → Result (Parser × Ast)
  two build a b p = do
    (q, left) ← transform a p
    (r, right) ← transform b q
    ok (r, build left right)

  abbrev pub one : (Ast → Ast) → Ast → Parser → Result (Parser × Ast)
  one build e p = transform e p >>= λ (q, after). ok (q, build after)

  abbrev pub many : (Asts → Ast) → Asts → Parser → Result (Parser × Ast)
  many build es p = transform_all es p >>= λ (q, after). ok (q, build after)

  -- `transformCase`, over the cases of a switch.
  unfoldable pub transform_cases : Asts → Parser → Result (Parser × Asts)
  transform_cases nil p = ok (p, nil)
  transform_cases (cons (switch_case node e where_ast truth) cases) p = do
    (q, first) ← two (λ after condition. switch_case node after condition truth) e where_ast p
    (r, rest) ← transform_cases cases q
    ok (r, cons first rest)
  transform_cases (cons _ cases) p = err (failed "Cannot transform ast type: %s")

  -- The features of `rules`: a name that becomes another tree has no place in this model of the node.
  abbrev pub still_feature : Ast → Result String
  still_feature (feature name) = ok name
  still_feature _ = err (failed "Expected the name of a rule")

  unfoldable pub transform_names : List String → Parser → Result (Parser × List String)
  transform_names [] p = ok (p, [])
  transform_names (name ∷ names) p = do
    (q, e) ← transform (feature name) p
    first ← still_feature e
    (r, rest) ← transform_names names q
    ok (r, first ∷ rest)

  -- A transform that the function brings, whose tree is transformed in turn.
  abbrev pub transform_again : String → Run → Parser → Result (Parser × Ast)
  transform_again func run p = do
    (q, other) ← run_transform run p
    ensure_other func other
    transform other q

  abbrev pub custom_with : Option (Ast → Run) → Ast → Parser → Result (Parser × Ast)
  custom_with none e p = err (failed "props.customTransform is not a function")
  custom_with (some custom) e p = run_transform (custom e) p >>= λ (q, other). transform other q

  -- `call`, for a call and a registered call: `build` puts the node together again.
  abbrev pub call_of :
      Function → Option (Ast → Run) → (Asts → Ast) → String → Asts → Parser → Result (Parser × Ast)
  call_of f (some custom) build func args p = do
    f.check_args args
    transform_again func (custom (build args)) p
  call_of f none build func args p = do
    f.check_args (full_args f args)
    (q, after) ← transform_all (full_args f args) p
    ok (q, folded f (build after) after)

  abbrev pub feature_of : String → Option (String × String) → Parser → Result (Parser × Ast)
  feature_of name none p = ok (p, feature name)
  feature_of name (some (before, behind)) p =
      transform
        (call "_fetchGraphChild" (cons (feature before) (cons (constant (string behind)) nil))) p

  abbrev pub switch_default : Asts → MaybeAst → Parser → Result (Parser × Ast)
  switch_default cases absent p = err (failed "Cannot read property 'type' of null")
  switch_default cases (present e) p = do
    (q, once) ← transform e p
    (r, twice) ← transform once q
    ok (r, switch cases (present twice))

  abbrev pub else_of : Ast → Ast → MaybeAst → Parser → Result (Parser × Ast)
  else_of condition yes_ast absent p = err (failed "Cannot transform ast type: %s")
  else_of condition yes_ast (present no_ast) p =
      one (λ after. if_expr condition yes_ast (present after)) no_ast p

  abbrev pub if_of : Ast → Ast → MaybeAst → Parser → Result (Parser × Ast)
  if_of condition yes_ast no_ast p = do
    (q, tested) ← transform condition p
    (r, yes_after) ← transform yes_ast q
    else_of tested yes_after no_ast r

  -- What `wrapIterator` runs.
  abbrev pub comprehension_of : Ast → Ast → String → Ast → Parser → Result (Parser × Ast)
  comprehension_of output input name where_ast p = do
    (q, first) ← transform output p
    two (λ second third. list_comprehension first second name third) input where_ast q

  -- The table `transformers`, by the type of the node.
  unfoldable pub transform_node : Ast → Parser → Result (Parser × Ast)
  unfolding transform_all transform_cases transform_names run_transform ensure_iterator
  transform_node (assertion e) p = one assertion e p
  transform_node (binary_expr left op right) p = two (λ a b. binary_expr a op b) left right p
  transform_node (boolean_expr left op right) p = two (λ a b. boolean_expr a op b) left right p
  transform_node (call func args) p =
      function_at language func >>= λ f. call_of f f.transform_ast (call func) func args p
  transform_node (custom_call func source) p =
      function_at language func >>= λ f. custom_with f.custom_transform (custom_call func source) p
  transform_node (feature name) p = feature_of name (language.split_at_dot name) p
  transform_node (if_expr condition yes_ast no_ast) p = if_of condition yes_ast no_ast p
  transform_node (let_statement final description e name default where_ast) p =
      two (λ a b. let_statement final description a name default b) e where_ast p
  transform_node (list es) p = many list es p
  transform_node (list_comprehension output input name where_ast) p = do
    there ← ensure_iterator name p
    wrap_iterator name (comprehension_of output input name where_ast) there
  transform_node (negation e) p = one negation e p
  transform_node (registered_call func args) p = function_at language func >>= λ f.
      call_of f f.transform_ast (registered_call func) func args p
  transform_node (rule name description where_ast reason) p =
      one (λ after. rule name description after reason) where_ast p
  transform_node (rules names) p = transform_names names p >>= λ (q, after). ok (q, rules after)
  transform_node (script es) p = many script es p
  transform_node (switch cases default) p = do
    (q, after) ← transform_cases cases p
    switch_default after default q
  transform_node (when names es) p = do (q, after) ← transform_names names p; many (when after) es q
  transform_node (priority eager e) p = ok (p, e)
  transform_node (constant value) p = ok (p, constant value)
  transform_node (include filename where_ast) p = ok (p, include filename where_ast)
  transform_node (iterator name) p = ok (p, iterator name)
  transform_node (slot name) p = ok (p, slot name)
  transform_node state p = ok (p, state)
  transform_node (when_cause cause) p = ok (p, when_cause cause)
  transform_node _ p = err (failed "Cannot transform ast type: %s")

-- `transform`, with the depth of calls that the stack allows.
unfoldable pub transform : Language → ℕ → Transform
unfolding transform_node
transform language zero e p = err (failed "Maximum call stack size exceeded")
transform language (suc calls) e p = transform_node language (transform language calls) e p

-- The transformer of a parser state.
abbrev pub language_tools : Language → ℕ → Tools
language_tools language calls = tools_by language (transform language calls)
