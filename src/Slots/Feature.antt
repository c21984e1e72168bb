-- ===== src/Slots/Feature.antt =====
-- packages/sqrl/src/slot/SqrlFeatureSlot.ts: the slot of a feature, which collects its definitions.
-- An error ends the compilation, so that the slot is not read again. `combine_wheres` is the
-- callback of the parser state.
pub mod Merged
pub mod Laws
pub mod Runs
pub mod Tests
use sqrl.Prelude.{
  String, Bool, true, false, not, ◌||◌, List, [], ◌∷◌, ◌++◌, map, Option, none, some, Result, ok,
  err, invalid, failed, ensure, ◌>>=◌, ◌>>◌, if◌then◌else◌,
}
use sqrl.Value.{boolean, null}
use sqrl.Ast.{
  Ast, Asts, MaybeAst, constant, switch, switch_case, let_statement, nil, cons, absent, present,
}
use sqrl.Ast.Build.{is_constant_true, branch}
use sqrl.Where.TruthTable.{stringify_where_ast}
use sqrl.Where.Overlap.{ast_intersects}

-- `LetAst`.
pub record Let : Type 0 where
  pub is_final : Bool
  pub description : Option String
  pub value : Ast
  pub name : String
  pub is_default_case : Bool
  pub where_ast : Ast

abbrev pub let_node : Let → Ast
let_node l = let_statement l.is_final l.description l.value l.name l.is_default_case l.where_ast

-- `SwitchCaseAst`.
pub record Case : Type 0 where
  pub node : Ast
  pub value : Ast
  pub truth_table_where : Ast
  pub where_ast : Ast

-- `SwitchAst`.
pub record Switch : Type 0 where
  pub cases : List Case
  pub default_case : Option Ast

abbrev pub case_nodes : List Case → Asts
case_nodes [] = nil
case_nodes (c ∷ cs) =
    cons (switch_case c.node c.value c.where_ast c.truth_table_where) (case_nodes cs)

abbrev pub maybe_ast : Option Ast → MaybeAst
maybe_ast none = absent
maybe_ast (some e) = present e

abbrev pub switch_node : Switch → Ast
switch_node s = switch (case_nodes s.cases) (maybe_ast s.default_case)

-- The fields of SqrlFeatureSlot; `slot_ast` is null or a switch, and of a definition its statement and
-- its `includedWhere` are kept.
pub record FeatureSlot : Type 0 where
  pub slot_ast : Option Switch
  pub slot_where : Option Ast
  pub definitions : List (Ast × Option String)
  pub finalized : Bool
  pub is_final : Bool
  pub replaceable : Bool
  pub default_replaceable : Bool

-- The constructor.
abbrev pub new_slot : FeatureSlot
new_slot = record {
  slot_ast = none;
  slot_where = none;
  definitions = [];
  finalized = false;
  is_final = false;
  replaceable = true;
  default_replaceable = false;
}

-- `allowReplace`.
unfoldable pub allow_replace : FeatureSlot → FeatureSlot
allow_replace s = record s { replaceable = true }

-- `definitionIncludedWhere`.
unfoldable pub included_where : Ast → Result (Option String)
included_where where_ast =
    if is_constant_true where_ast
    then ok none
    else (stringify_where_ast where_ast >>= λ t. ok (some t))

-- `setAst`.
unfoldable pub set_ast : Switch → Ast → FeatureSlot → Result FeatureSlot
set_ast e where_ast s = do
  ensure (not s.finalized) (failed "Slot cannot be set after it is read: %s")
  ok (record s { slot_ast = some e; slot_where = some where_ast })

-- `addDefinition`.
unfoldable pub add_definition : Let → Ast → FeatureSlot → Result FeatureSlot
unfolding included_where
add_definition l global s = do
  text ← included_where global
  ok (record s { definitions = s.definitions ++ (let_node l, text) ∷ [] })

-- The cases and the default that a new definition is added to.
abbrev pub old_switch : Option Switch → Switch
old_switch none = record { cases = []; default_case = none }
old_switch (some e) = e

abbrev pub replaced_switch : Option Switch → Switch
replaced_switch none = record { cases = []; default_case = none }
replaced_switch (some e) = record { cases = []; default_case = some (switch_node e) }

-- A slot that is replaceable stops being so, and its definition so far becomes the default.
unfoldable pub open_slot : FeatureSlot → FeatureSlot × Switch
open_slot s =
    if s.replaceable
    then (record s { replaceable = false; default_replaceable = true }, replaced_switch s.slot_ast)
    else (s, old_switch s.slot_ast)

-- The branch of a default case.
unfoldable pub merge_default : Let → Ast → Bool → Switch → Result Switch
merge_default l global default_replaceable old = do
  ensure (is_constant_true global)
      (invalid "LET statement with DEFAULT is not valid in file included with WHERE")
  ensure default_replaceable (invalid "Feature already has a default case set: %s")
  ok (record old { default_case = some l.value })

abbrev pub case_wheres : List Case → List Ast
case_wheres cases = map (λ c. c.truth_table_where) cases

abbrev pub this_case : Let → Ast → Ast → Case
this_case l combined_ast where_ast = record {
  node = let_node l;
  value = l.value;
  truth_table_where = combined_ast;
  where_ast = where_ast;
}

-- The branch of any other case.
unfoldable pub merge_case : (Ast → Ast → Result (Ast × Ast)) → Let → Ast → Switch → Result Switch
merge_case combine_wheres l global old = do
  (combined_ast, where_ast) ← combine_wheres l.where_ast global
  let cases = old.cases ++ this_case l combined_ast where_ast ∷ []
  has_intersection ← ast_intersects (case_wheres cases)
  ensure (not has_intersection) (invalid "Multiple definitions of %s")
  ok (
      if is_constant_true where_ast
      then record { cases = this_case l combined_ast where_ast ∷ []; default_case = none }
      else record { cases = cases; default_case = old.default_case })

abbrev pub merge_branch :
    (Ast → Ast → Result (Ast × Ast)) → Let → Ast → Bool → Switch → Result Switch
merge_branch combine_wheres l global default_replaceable old =
    if l.is_default_case
    then merge_default l global default_replaceable old
    else merge_case combine_wheres l global old

-- `mergeGlobal`.
unfoldable pub merge_global :
    (Ast → Ast → Result (Ast × Ast)) → Let → Ast → FeatureSlot → Result FeatureSlot
unfolding open_slot merge_default merge_case set_ast add_definition
merge_global combine_wheres l global s = do
  ensure (not s.is_final) (invalid "Feature has been marked as final and cannot be overwritten: %s")
  let opened = open_slot s
  merged ← merge_branch combine_wheres l global opened.0.default_replaceable opened.1
  after ← set_ast merged (constant (boolean true)) opened.0
  defined ← add_definition l global after
  ok (record defined { is_final = defined.is_final || l.is_final })

abbrev pub finalized_ast_of : Option Ast → Option Switch → Result Ast
finalized_ast_of (some where_ast) (some e) = ok (branch where_ast (switch_node e) (constant null))
finalized_ast_of _ _ = err (failed "SqrlSlot has not been set yet!")

-- `finalizedAst`.
unfoldable pub finalized_ast : FeatureSlot → Result (FeatureSlot × Ast)
finalized_ast s = do
  e ← finalized_ast_of s.slot_where s.slot_ast
  ok (record s { finalized = true }, e)
