-- ===== src/Where/Overlap/Gap.antt =====
-- `astIntersects` (packages/sqrl/src/ast/astIntersects.ts) and the texts that no clause names.
use sqrl.Prelude.{
  String, true, false, [], ◌∷◌, str_eq, ◌≡◌, refl, arith, eq_iff, ok, lookup, insert, add_all, add,
  contains,
}
use sqrl.Value.{string}
use sqrl.Ast.{Ast, feature, constant, binary_expr}
use sqrl.Ast.Build.{or_ast, or_loop, is_constant_true}
use sqrl.Where.Overlap.{
  text, ast_intersects, search_overlap, extract_sets, merge, set_combinations, each_value,
  count_true, calculate,
}
use sqrl.Where.Overlap.Calculate.{holds_at}
use sqrl.Where.Overlap.Assignments.{overlaps}

abbrev pub differs : String → String → Ast
differs f s = binary_expr (feature f) "!=" (constant (string s))

-- Of two clauses that a feature is not one text and not another text, `astIntersects` says that
-- they never hold together, though both hold at every third text.
pub ast_intersects-differs :
    (f s t u : String)
    → str_eq s t ≡ false
    → str_eq u s ≡ false
    → str_eq u t ≡ false
    → (ast_intersects (differs f s ∷ differs f t ∷ []) ≡ ok false)
      × (overlaps (differs f s ∷ differs f t ∷ []) (λ _. text u) ≡ true)
unfolding ast_intersects search_overlap is_constant_true or_ast or_loop extract_sets merge lookup
    insert set_combinations each_value count_true calculate overlaps holds_at add_all add contains
ast_intersects-differs f s t u st us ut =
    let ts : str_eq t s ≡ false = ground (arith, eq_iff s t, eq_iff t s) in
    let ff : str_eq f f ≡ true = (eq_iff f f).1 refl in
    (
      rw (ff, st) (ground (arith, ff, st, ts, (eq_iff s s).1 refl, (eq_iff t t).1 refl)),
      rw (us, ut) refl,
    )
