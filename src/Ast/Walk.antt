-- ===== src/Ast/Walk.antt =====
-- packages/sqrl/src/ast/Ast.ts: walks through syntax trees and the JSON text of a tree, field by field
-- as `recurseFields` and `jsonFields` list them. Nodes carry no location here, and the text is not
-- kept in the node.
pub mod Tests
use sqrl.Prelude.{
  String, Bool, true, false, List, [], ◌∷◌, ◌++◌, ◌||◌, Option, none, some, any, add_all, Result,
  ok, err, failed, ◌>>=◌, if◌then◌else◌, map,
}
use sqrl.Value.{Value, null, boolean, number, string}
use sqrl.Ast.{
  Ast, Asts, MaybeAst, constant, repl, script, switch, switch_case, list_comprehension, expr,
  binary_expr, boolean_expr, let_statement, execute, feature, rules, rule, list, call, custom_call,
  registered_call, if_expr, state, when_cause, iterator, when, priority, assertion, include,
  negation, slot, nil, cons, absent, present,
}
use sqrl.Where.Text.{◌⧺◌}

abbrev pub features_of : List String → List Ast
features_of names = map feature names

-- `walkAst`: the nodes in the order in which the callback gets them.
unfoldable mutual
  pub walk_ast : Ast → List Ast
  walk_ast (repl es) = walk_asts es ++ repl es ∷ []
  walk_ast (script es) = walk_asts es ++ script es ∷ []
  walk_ast (switch cases e) = walk_asts cases ++ walk_maybe e ++ switch cases e ∷ []
  walk_ast (switch_case node e where_ast truth) =
      walk_ast node
      ++ walk_ast e
      ++ walk_ast where_ast
      ++ walk_ast truth
      ++ switch_case node e where_ast truth ∷ []
  walk_ast (list_comprehension output input name where_ast) =
      walk_ast output
      ++ walk_ast input
      ++ iterator name ∷ walk_ast where_ast
      ++ list_comprehension output input name where_ast ∷ []
  walk_ast (expr e) = walk_ast e ++ expr e ∷ []
  walk_ast (binary_expr l op r) = walk_ast l ++ walk_ast r ++ binary_expr l op r ∷ []
  walk_ast (boolean_expr l op r) = walk_ast l ++ walk_ast r ++ boolean_expr l op r ∷ []
  walk_ast (let_statement final description e name default where_ast) =
      walk_ast e
      ++ walk_ast where_ast
      ++ let_statement final description e name default where_ast ∷ []
  walk_ast (rules names) = features_of names ++ rules names ∷ []
  walk_ast (rule name description where_ast reason) =
      walk_ast where_ast ++ rule name description where_ast reason ∷ []
  walk_ast (list es) = walk_asts es ++ list es ∷ []
  walk_ast (call func args) = walk_asts args ++ call func args ∷ []
  walk_ast (registered_call func args) = walk_asts args ++ registered_call func args ∷ []
  walk_ast (if_expr condition yes_ast no_ast) =
      walk_ast condition
      ++ walk_ast yes_ast
      ++ walk_maybe no_ast
      ++ if_expr condition yes_ast no_ast ∷ []
  walk_ast (when names statements) =
      features_of names ++ rules names ∷ walk_asts statements ++ when names statements ∷ []
  walk_ast (priority eager e) = walk_ast e ++ priority eager e ∷ []
  walk_ast (assertion e) = walk_ast e ++ assertion e ∷ []
  walk_ast (include filename where_ast) = walk_ast where_ast ++ include filename where_ast ∷ []
  walk_ast (negation e) = walk_ast e ++ negation e ∷ []
  walk_ast e = e ∷ []

  pub walk_asts : Asts → List Ast
  walk_asts nil = []
  walk_asts (cons e es) = walk_ast e ++ walk_asts es

  pub walk_maybe : MaybeAst → List Ast
  walk_maybe absent = []
  walk_maybe (present e) = walk_ast e

abbrev pub slot_names_of : Ast → List String
slot_names_of (feature name) = name ∷ []
slot_names_of (slot name) = name ∷ []
slot_names_of _ = []

abbrev pub all_slot_names : List Ast → List String
all_slot_names [] = []
all_slot_names (e ∷ es) = slot_names_of e ++ all_slot_names es

-- `astSlotNames`.
unfoldable pub ast_slot_names : Ast → List String
unfolding walk_ast add_all
ast_slot_names root = add_all (all_slot_names (walk_ast root)) []

abbrev pub is_iterator : Ast → Bool
is_iterator (iterator _) = true
is_iterator _ = false

-- `astContainsCurrentIterator` of SqrlParserState.ts.
unfoldable pub contains_iterator : Ast → Bool
unfolding walk_ast
contains_iterator e = any is_iterator (walk_ast e)

-- `stringify` of fast-stable-stringify is a parameter.
module _ (stringify : Value → String) where
  -- The text `,"field":value`.
  abbrev pub field_text : String → String → String
  field_text name value = ",\"" ⧺ name ⧺ "\":" ⧺ value

  abbrev pub string_field : String → String → String
  string_field name value = field_text name (stringify (string value))

  abbrev pub node_text : String → String → String
  node_text type fields = "{\"type\":\"" ⧺ type ⧺ "\"" ⧺ fields ⧺ "}"

  abbrev pub optional_text : Option String → Value
  optional_text none = null
  optional_text (some text) = string text

  abbrev pub names_json : String → List String → String
  names_json comma [] = ""
  names_json comma (name ∷ names) =
      comma ⧺ node_text "feature" (string_field "value" name) ⧺ names_json "," names

  abbrev pub rules_json : List String → String
  rules_json names = node_text "rules" (field_text "rules" ("[" ⧺ names_json "" names ⧺ "]"))

  -- `jsonAst`. The description of a rule is not among `jsonFields.rule`.
  unfoldable mutual
    pub json_ast : Ast → Result String
    json_ast (constant value) = ok (node_text "constant" (field_text "value" (stringify value)))
    json_ast (repl es) = do
      statements ← json_asts "" es
      ok (node_text "repl" (field_text "statements" ("[" ⧺ statements ⧺ "]")))
    json_ast (script es) = do
      statements ← json_asts "" es
      ok (node_text "script" (field_text "statements" ("[" ⧺ statements ⧺ "]")))
    json_ast (switch es e) = do
      cases ← json_asts "" es
      default ← json_maybe "defaultCase" e
      ok (node_text "switch" (field_text "cases" ("[" ⧺ cases ⧺ "]") ⧺ default))
    json_ast (switch_case node e where_ast truth) = do
      a ← json_ast node
      b ← json_ast e
      c ← json_ast where_ast
      d ← json_ast truth
      ok (
          node_text "switchCase" (
            field_text "ast" a
            ⧺ field_text "expr" b
            ⧺ field_text "where" c
            ⧺ field_text "truthTableWhere" d))
    json_ast (list_comprehension output input name where_ast) = do
      a ← json_ast output
      b ← json_ast input
      c ← json_ast where_ast
      ok (
          node_text "listComprehension" (
            field_text "output" a
            ⧺ field_text "input" b
            ⧺ field_text "iterator" (node_text "iterator" (string_field "name" name))
            ⧺ field_text "where" c))
    json_ast (expr e) = do a ← json_ast e; ok (node_text "expr" (field_text "expr" a))
    json_ast (binary_expr l op r) = do
      a ← json_ast l
      b ← json_ast r
      ok (
          node_text "binary_expr"
            (field_text "left" a ⧺ field_text "right" b ⧺ string_field "operator" op))
    json_ast (boolean_expr l op r) = do
      a ← json_ast l
      b ← json_ast r
      ok (
          node_text "boolean_expr"
            (field_text "left" a ⧺ field_text "right" b ⧺ string_field "operator" op))
    json_ast (let_statement final description e name default where_ast) = do
      a ← json_ast e
      b ← json_ast where_ast
      ok (
          node_text "let" (
            field_text "expr" a
            ⧺ field_text "where" b
            ⧺ field_text "description" (stringify (optional_text description))
            ⧺ string_field "feature" name
            ⧺ field_text "final" (stringify (boolean final))
            ⧺ field_text "isDefaultCase" (stringify (boolean default))))
    json_ast (execute times skip_wait) = ok (
        node_text "execute" (
          field_text "repeat" (stringify (number times))
          ⧺ field_text "skipWait" (stringify (boolean skip_wait))))
    json_ast (feature name) = ok (node_text "feature" (string_field "value" name))
    json_ast (rules names) = ok (rules_json names)
    json_ast (rule name description where_ast reason) = do
      a ← json_ast where_ast
      err (failed "Unserialized key on rule: description")
    json_ast (list es) = do
      a ← json_asts "" es
      ok (node_text "list" (field_text "exprs" ("[" ⧺ a ⧺ "]")))
    json_ast (call func args) = do
      a ← json_asts "" args
      ok (node_text "call" (field_text "args" ("[" ⧺ a ⧺ "]") ⧺ string_field "func" func))
    json_ast (custom_call func source) =
        ok (node_text "customCall" (string_field "func" func ⧺ string_field "source" source))
    json_ast (registered_call func args) = do
      a ← json_asts "" args
      ok (node_text "registeredCall" (field_text "args" ("[" ⧺ a ⧺ "]") ⧺ string_field "func" func))
    json_ast (if_expr condition yes_ast no_ast) = do
      a ← json_ast condition
      b ← json_ast yes_ast
      c ← json_maybe "falseBranch" no_ast
      ok (node_text "if" (field_text "condition" a ⧺ field_text "trueBranch" b ⧺ c))
    json_ast state = ok (node_text "state" "")
    json_ast (when_cause none) = ok (node_text "whenCause" "")
    json_ast (when_cause (some name)) = ok (node_text "whenCause" (string_field "slotName" name))
    json_ast (iterator name) = ok (node_text "iterator" (string_field "name" name))
    json_ast (when names statements) = do
      a ← json_asts "" statements
      ok (
          node_text "when"
            (field_text "rules" (rules_json names) ⧺ field_text "statements" ("[" ⧺ a ⧺ "]")))
    json_ast (priority eager e) = do
      a ← json_ast e
      ok (
          node_text "priority"
            (field_text "expr" a ⧺ string_field "priority" (if eager then "eager" else "lazy")))
    json_ast (assertion e) = do a ← json_ast e; ok (node_text "assert" (field_text "expr" a))
    json_ast (include filename where_ast) = do
      a ← json_ast where_ast
      ok (node_text "include" (field_text "where" a ⧺ string_field "filename" filename))
    json_ast (negation e) = do a ← json_ast e; ok (node_text "not" (field_text "expr" a))
    json_ast (slot name) = ok (node_text "slot" (string_field "slotName" name))

    -- The items of an array, each with what stands before it.
    pub json_asts : String → Asts → Result String
    json_asts comma nil = ok ""
    json_asts comma (cons e es) = do a ← json_ast e; b ← json_asts "," es; ok (comma ⧺ a ⧺ b)

    -- A field that is left out where it is null.
    pub json_maybe : String → MaybeAst → Result String
    json_maybe name absent = ok ""
    json_maybe name (present e) = do a ← json_ast e; ok (field_text name a)
