-- ===== src/Compile/Parser/Trees.antt =====
-- packages/sqrl/src/compile/SqrlParserState.ts: globals, where clauses and the definitions of features,
-- which transform syntax trees. The transformer, the hash of a text and the JSON text of a value are
-- parameters. The slot of a global stands in a tree by its name.
use sqrl.Prelude.{
  String, Bool, true, false, not, List, [], ◌∷◌, ◌||◌, Option, none, some, Result, ok, err, invalid,
  failed, ensure, ◌>>=◌, ◌>>◌, lookup, insert, str_eq, if◌then◌else◌,
}
use sqrl.Value.{Value, null}
use sqrl.Ast.{Ast, constant, call, slot, cons, nil}
use sqrl.Ast.Build.{and_ast, branch}
use sqrl.Ast.Walk.{contains_iterator, json_ast}
use sqrl.Where.Text.{◌⧺◌}
use sqrl.Where.TruthTable.{TruthTable, reduce_truth_table}
use sqrl.Slots.Feature.{Let, FeatureSlot, merge_global, allow_replace}
use sqrl.Slots.Feature
use sqrl.Slots.Slot.{Content, empty_slot, input_slot, fixed_slot, feature_slot, Slot, new_slot}
use sqrl.Compile.Parser.{Parser, put, is_empty_content, without_global_where, add_statement_slot}

-- `features.join(",")`.
abbrev pub join : List String → String
join [] = ""
join (name ∷ []) = name
join (name ∷ names) = name ⧺ "," ⧺ join names

abbrev pub bits : List Bool → String
bits [] = ""
bits (b ∷ table) = (if b then "1" else "0") ⧺ bits table

-- `whereBoolName`.
unfoldable pub where_bool_name : TruthTable → String
where_bool_name t = "bool(" ⧺ join t.features ⧺ ":" ⧺ bits t.truth_table ⧺ ")"

-- `SqrlAst.bool`.
abbrev pub bool_ast : Ast → Ast
bool_ast e = call "bool" (cons e nil)

-- What `combineWithProvidedGlobalWhere` returns.
pub record Combined : Type 0 where
  pub combined_ast : Ast
  pub where_ast : Ast
  pub table : TruthTable

pub record Tools : Type 0 where
  pub stringify : Value → String
  pub hash : String → String
  -- `transform`, which may fill the table of slots.
  pub transform : Ast → Parser → Result (Parser × Ast)

-- May a LET start a new slot for its feature?
abbrev pub is_open_content : (allow_replace_input : Bool) → Content → Bool
is_open_content allow_replace_input empty_slot = true
is_open_content allow_replace_input input_slot = allow_replace_input
is_open_content allow_replace_input (fixed_slot _ replaceable) = replaceable
is_open_content allow_replace_input _ = false

abbrev pub is_open : Bool → Option Slot → Bool
is_open allow_replace_input none = true
is_open allow_replace_input (some s) = is_open_content allow_replace_input s.content

abbrev pub feature_content : Content → Result FeatureSlot
feature_content (feature_slot f) = ok f
feature_content _ = err (invalid "Feature was previously defined")

abbrev pub feature_in : Option Slot → Result (Slot × FeatureSlot)
feature_in none = err (invalid "Feature was previously defined")
feature_in (some s) = feature_content s.content >>= λ f. ok (s, f)

abbrev pub open_feature : String → Parser → Parser
open_feature name p =
    if is_open p.allow_replace_input (lookup name p.slots)
    then put name (new_slot name (feature_slot Feature.new_slot)) p
    else p

abbrev pub is_none : Option String → Bool
is_none none = true
is_none (some _) = false

abbrev pub merge_found :
    Let → Ast → (Ast → Ast → Result (Ast × Ast)) → Parser → Slot × FeatureSlot → Result Parser
merge_found l global combine_wheres p (s, f) = do
  merged ← merge_global combine_wheres l global f
  ok (put l.name (record s { content = feature_slot merged }) p)

abbrev pub merge_let : Let → Ast → Parser × (Ast → Ast → Result (Ast × Ast)) → Result Parser
merge_let l global (p, combine_wheres) =
    feature_in (lookup l.name p.slots) >>= merge_found l global combine_wheres p

module _ (tools : Tools) where
  -- The check of a global that has its name already: `areEqual` compares JSON texts.
  abbrev pub same_global : Content → Ast → Result (Unit {0})
  same_global (fixed_slot old _) e = do
    left ← json_ast tools.stringify e
    right ← json_ast tools.stringify old
    ensure (str_eq left right) (failed "Slots saved with the same name must be identical:: %s")
  same_global _ e = err (failed "expected fixed slot for: %s")

  abbrev pub global_in : String → Ast → Parser → Option Slot → Result Parser
  global_in name e p none = ok (put name (new_slot name (fixed_slot e false)) p)
  global_in name e p (some s) =
      if is_empty_content s.content
      then ok (put name (new_slot name (fixed_slot e false)) p)
      else same_global s.content e >>= λ _. ok p

  abbrev pub global_name : Option String → Ast → Result String
  global_name (some name) e = ok name
  global_name none e = json_ast tools.stringify e >>= λ text. ok ("ast:" ⧺ tools.hash text)

  abbrev pub put_global : Ast → Parser → String → Result (Parser × String)
  put_global tree p name = global_in name tree p (lookup name p.slots) >>= λ done. ok (done, name)

  abbrev pub save_global :
      (global_where : Ast) → Option String → Parser × Ast → Result (Parser × String)
  save_global global_where given (p, transformed) =
      let tree = branch global_where transformed (constant null) in
      global_name given tree >>= put_global tree p

  -- `newGlobal`: the name of the slot stands for the slot's tree.
  unfoldable pub new_global : Ast → Option String → Parser → Result (Parser × String)
  unfolding lookup insert contains_iterator branch
  new_global e given p = do
    ensure (is_none p.current_iterator || not (contains_iterator e))
        (invalid "Expression is not valid during a list comprehension")
    tools.transform e p >>= save_global p.global_where given

  -- `addStatement`.
  unfoldable pub add_statement : String → Ast → Parser → Result Parser
  unfolding new_global add_statement_slot
  add_statement global e p = do
    (after, name) ← new_global e none p
    add_statement_slot global name after

  abbrev pub bool_slot : String → Ast → Parser → Option Slot → Result (Parser × String)
  bool_slot name combined p (some s) = ok (p, name)
  bool_slot name combined p none =
      without_global_where (new_global (bool_ast combined) (some name)) p

  -- `combineWithProvidedGlobalWhere`. The tree that `SqrlAst.bool` makes is never a constant.
  unfoldable pub combine_with_global_where : Ast → Ast → Parser → Result (Parser × Combined)
  unfolding new_global lookup where_bool_name
  combine_with_global_where where_ast global p = do
    combined ← and_ast (global ∷ where_ast ∷ [])
    table ← reduce_truth_table combined
    let name = where_bool_name table
    (after, slot_name) ← bool_slot name combined p (lookup name p.slots)
    ok (after, record { combined_ast = combined; where_ast = slot slot_name; table = table })

  -- What `combineWheres` brings, where `mergeGlobal` calls it.
  abbrev pub combine_let : Let → Parser → Result (Parser × (Ast → Ast → Result (Ast × Ast)))
  combine_let l p =
      if l.is_default_case
      then ok (p, λ _ _. err (failed "A default case has no where"))
      else (combine_with_global_where l.where_ast p.global_where p >>= λ (after, c).
          ok (after, λ _ _. ok (c.combined_ast, c.where_ast)))

  -- A LET that `pushStatement` has transformed.
  unfoldable pub push_let : Let → Parser → Result Parser
  unfolding combine_with_global_where merge_global lookup insert
  push_let l p = do
    let opened = open_feature l.name p
    (_, f) ← feature_in (lookup l.name opened.slots)
    -- The first check of `mergeGlobal`, which comes before `combineWheres`.
    ensure (not f.is_final)
        (invalid "Feature has been marked as final and cannot be overwritten: %s")
    combine_let l opened >>= merge_let l p.global_where
