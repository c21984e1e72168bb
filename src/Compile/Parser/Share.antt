-- ===== src/Compile/Parser/Share.antt =====
-- The slots of where clauses in packages/sqrl/src/compile/SqrlParserState.ts: clauses with one truth table
-- share a slot.
use sqrl.Prelude.{
  String, true, ◌∷◌, [], Option, none, some, ok, lookup, lookup-insert, eq_iff, Yields, yields,
  Yields-bind, Yields-after, Yields-map, Yields-value, ensure, invalid, not, ◌||◌, ◌>>=◌,
  Bool-cases, ◌≡◌, refl, sym, ap, ◌∙◌, inl, inr,
}
use sqrl.Value.{boolean, null}
use sqrl.Ast.Walk.{contains_iterator}
use sqrl.Ast.{Ast, slot, constant}
use sqrl.Ast.Build.{and_ast, branch}
use sqrl.Where.TruthTable.{reduce_truth_table}
use sqrl.Slots.Slot.{Slot}
use sqrl.Compile.Parser.{Parser, put, is_empty_content}
use sqrl.Compile.Parser.Trees.{
  Tools, Combined, is_none, global_in, save_global, new_global, bool_ast, bool_slot,
  where_bool_name, combine_with_global_where, same_global,
}
use sqrl.Compile.Parser.Kept.{IsKept}

-- A slot stands under the name.
abbrev HasSlot : String → Parser → Type 0
HasSlot name p = (s : Slot) × (lookup name p.slots ≡ some s)

put-HasSlot : (name : String) (s : Slot) (p : Parser) → HasSlot name (put name s p)
put-HasSlot name s p = (s, lookup-insert name name s p.slots ∙ rw ((eq_iff name name).1 refl) refl)

-- The slot under the name that is answered is there.
abbrev IsStored : String → Parser × String → Type 0
IsStored name r = (r.1 ≡ name) × HasSlot name r.0

module _ (tools : Tools) where
  global_in-HasSlot :
      (name : String) (e : Ast) (p : Parser) (found : Option Slot)
      → lookup name p.slots ≡ found
      → Yields (HasSlot name) (global_in tools name e p found)
  global_in-HasSlot name e p none at_name = yields (put-HasSlot name _ p)
  global_in-HasSlot name e p (some s) at_name = elim (Bool-cases (is_empty_content s.content)) [
    | inl empty ↦ rw empty (yields (put-HasSlot name _ p))
    | inr full ↦ rw full (Yields-after (same_global tools s.content e) _ (λ _. yields (s, at_name)))
  ]

  new_global-IsStored :
      (e : Ast) (name : String) (p : Parser)
      → Yields (IsStored name) (new_global tools e (some name) p)
  unfolding new_global
  new_global-IsStored e name p =
      Yields-after
        (ensure (is_none p.current_iterator || not (contains_iterator e))
          (invalid "Expression is not valid during a list comprehension"))
        (λ _. tools.transform e p >>= save_global tools p.global_where (some name))
        (λ _.
          Yields-after (tools.transform e p) (save_global tools p.global_where (some name)) (λ r.
            let tree = branch p.global_where r.1 (constant null) in
            Yields-bind (HasSlot name) (global_in tools name tree r.0 (lookup name r.0.slots))
              (λ done. ok (done, name))
              (global_in-HasSlot name tree r.0 (lookup name r.0.slots) refl)
              (λ q h. yields (refl, h))))

  bool_slot-IsStored :
      (name : String) (combined : Ast) (p : Parser) (found : Option Slot)
      → lookup name p.slots ≡ found
      → Yields (IsStored name) (bool_slot tools name combined p found)
  bool_slot-IsStored name combined p (some s) at_name = yields (refl, (s, at_name))
  bool_slot-IsStored name combined p none at_name =
      Yields-bind (IsStored name)
        (new_global tools (bool_ast combined) (some name)
          (record p { global_where = constant (boolean true) }))
        _
        (new_global-IsStored (bool_ast combined) name
          (record p { global_where = constant (boolean true) }))
        (λ r h. yields h)

  -- What a combination brings: the slot named by the table, which is there.
  abbrev IsNamed : Parser × Combined → Type 0
  IsNamed (q, c) =
      (c.where_ast ≡ slot (where_bool_name c.table)) × HasSlot (where_bool_name c.table) q

  combine_with_global_where-IsNamed :
      (where_ast global : Ast) (p : Parser)
      → Yields IsNamed (combine_with_global_where tools where_ast global p)
  unfolding combine_with_global_where
  combine_with_global_where-IsNamed where_ast global p =
      Yields-after (and_ast (global ∷ where_ast ∷ [])) _ (λ combined.
        Yields-after (reduce_truth_table combined) _ (λ table.
          Yields-bind (IsStored (where_bool_name table))
            (bool_slot tools (where_bool_name table) combined p
              (lookup (where_bool_name table) p.slots))
            _ (bool_slot-IsStored (where_bool_name table) combined p _ refl)
            (λ r h. yields (ap slot h.0, h.1))))

  bool_slot-found :
      (name : String) (combined : Ast) (p : Parser)
      → Yields
          (λ r. HasSlot name p → r.0 ≡ p)
          (bool_slot tools name combined p (lookup name p.slots))
  bool_slot-found name combined p = found_in (lookup name p.slots) refl
    where
      found_in :
          (found : Option Slot)
          → lookup name p.slots ≡ found
          → Yields (λ r. HasSlot name p → r.0 ≡ p) (bool_slot tools name combined p found)
      found_in (some s) at_name = yields (λ _. refl)
      found_in none at_name =
          Yields-map (bool_slot tools name combined p none) (λ r h has. cc)
            (bool_slot-IsStored name combined p none at_name)

  -- Where the slot of a table is there, a combination with this table changes nothing.
  combine_with_global_where-found :
      (where_ast global : Ast) (p : Parser)
      → Yields
          (λ r. HasSlot (where_bool_name r.1.table) p → r.0 ≡ p)
          (combine_with_global_where tools where_ast global p)
  unfolding combine_with_global_where
  combine_with_global_where-found where_ast global p =
      Yields-after (and_ast (global ∷ where_ast ∷ [])) _ (λ combined.
        Yields-after (reduce_truth_table combined) _ (λ table.
          Yields-bind (λ r. HasSlot (where_bool_name table) p → r.0 ≡ p)
            (bool_slot tools (where_bool_name table) combined p
              (lookup (where_bool_name table) p.slots))
            _ (bool_slot-found (where_bool_name table) combined p) (λ r h. yields h)))

-- A where clause is combined with the where clause of the file, and later on, when the slots are kept,
-- another one that has the same truth table: both get the slot that the table names, which the second
-- combination finds, so that it changes nothing.
pub combine_with_global_where-shared :
    (tools : Tools) (where_ast global other other_global : Ast) (p q later last : Parser)
    (c d : Combined)
    → combine_with_global_where tools where_ast global p ≡ ok (q, c)
    → IsKept q later
    → combine_with_global_where tools other other_global later ≡ ok (last, d)
    → d.table ≡ c.table
    → (c.where_ast ≡ slot (where_bool_name c.table)) × (d.where_ast ≡ c.where_ast) × (last ≡ later)
combine_with_global_where-shared tools where_ast global other other_global p q later last c d first
      kept second same =
    let (named, (s, at_name)) =
      Yields-value (combine_with_global_where-IsNamed tools where_ast global p) first in
    let (named_again, _) =
      Yields-value (combine_with_global_where-IsNamed tools other other_global later) second in
    let (t, still, _) = kept.slots (where_bool_name c.table) s at_name in
    let found =
      Yields-value (combine_with_global_where-found tools other other_global later) second in
    (named, named_again ∙ rw same (sym named), found (t, rw same still))
