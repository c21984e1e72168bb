-- ===== src/Compile/Extract/Safety.antt =====
-- packages/sqrl/src/ast/AstExpr.ts, `processExprAst`: from a syntax tree to an expression whose
-- value nodes stand under load nodes for their slots.
use sqrl.Prelude.{
  String, Bool, true, false, ◌&&◌, [], ◌∷◌, map, Option, none, some, if◌then◌else◌, Result, ok, err,
  ensure, ◌>>=◌, bind-eq-ok, Yields, halts, yields, Yields-bind, Yields-after, Yields-if,
  Yields-value, ◌≡◌, refl, str_eq,
}
use sqrl.Value.{null}
use sqrl.Ast
use sqrl.Ast.{Ast, Asts, MaybeAst}
use sqrl.Ast.Build.{is_constant_true}
use sqrl.Compile.Expr.{list, iterator, list_comprehension, Expr, kind}
use sqrl.Compile.Translate.{
  Compiler, simple_constant, value_expr, slot_expr, call_expr, same_iterator, no_iterator,
  is_connective, operator_expr, to_expr, to_exprs, to_operands, maybe_expr, case_exprs,
}
use sqrl.Compile.Fold.Meaning.{Runtime, eval}
use sqrl.Compile.Extract.{extract, process_expr_ast}
use sqrl.Compile.Extract.Laws.{safe, fresh, extract-safe_from, extract-fresh, extract-eval}
use sqrl.Compile.Extract.Covered.{
  Covered, AllCovered-none, AllCovered-more, node-Covered, constant_expr-Covered,
  state_expr-Covered, value_expr-Covered, if_expr-Covered,
}
use sqrl.Compile.Extract.Calls.{
  ArgumentsCovered, call_expr-Covered, operator_expr-Covered, one_operand-Covered,
}

module _ (c : Compiler)
    (slots_covered : (name : String) (e : Expr)
      → c.expr_for_slot name ≡ ok e
      → simple_constant (kind e) ≡ true
      → Covered e) where
  slot_expr-Covered : (name : String) → Yields Covered (slot_expr c name)
  unfolding slot_expr
  slot_expr-Covered name =
      Yields-after (ensure (c.has_slot name) _) _
        (λ _. from (c.expr_for_slot name) (slots_covered name))
    where
      choose :
          (e : Expr) (b : Bool)
          → (b ≡ true → Covered e)
          → Covered (if b then e else value_expr name)
      choose e true h = h refl
      choose e false h = value_expr-Covered name

      from :
          (slot : Result Expr)
          → ((e : Expr) → slot ≡ ok e → simple_constant (kind e) ≡ true → Covered e)
          → Yields Covered
              (slot >>= λ e. ok (if simple_constant (kind e) then e else value_expr name))
      from (err problem) h = halts
      from (ok e) h = yields (choose e (simple_constant (kind e)) (h e refl))

  mutual
    unfolding to_expr slot_expr call_expr operator_expr

    to_expr-Covered : (it : Option String) (a : Ast) → Yields Covered (to_expr c it a)
    to_expr-Covered it (Ast.iterator name) =
        Yields-after (ensure (same_iterator it name) _) _
          (λ _. yields (node-Covered (iterator name) none [] refl AllCovered-none))
    to_expr-Covered it (Ast.feature name) =
        Yields-after (ensure (c.has_slot name) _) _ (λ _. slot_expr-Covered name)
    to_expr-Covered it (Ast.slot name) = slot_expr-Covered name
    to_expr-Covered it Ast.state = yields state_expr-Covered
    to_expr-Covered it (Ast.when_cause none) = yields (constant_expr-Covered null)
    to_expr-Covered it (Ast.when_cause (some name)) = slot_expr-Covered name
    to_expr-Covered it (Ast.if_expr condition true_branch false_branch) =
        Yields-bind Covered (to_expr c it condition) _ (to_expr-Covered it condition) (λ e he.
          Yields-bind Covered (to_expr c it true_branch) _ (to_expr-Covered it true_branch) (λ t ht.
            Yields-bind Covered (maybe_expr c it false_branch _) _
              (maybe_expr-Covered it false_branch _ halts)
              (λ f hf. yields (if_expr-Covered e t f he ht hf))))
    to_expr-Covered it (Ast.switch cases default_case) =
        Yields-bind Covered (maybe_expr c it default_case _) _
          (maybe_expr-Covered it default_case _ (yields (constant_expr-Covered null)))
          (λ result h. case_exprs-Covered it cases result h)
    to_expr-Covered it (Ast.call func args) =
        Yields-bind ArgumentsCovered (to_exprs c it args) _ (to_exprs-Covered it args)
          (λ es h. call_expr-Covered c func es h)
    to_expr-Covered it (Ast.registered_call func args) =
        Yields-bind ArgumentsCovered (to_exprs c it args) _ (to_exprs-Covered it args)
          (λ es h. call_expr-Covered c func es h)
    to_expr-Covered it (Ast.list_comprehension output input name where_ast) =
        Yields-after (ensure (no_iterator it) _) _ (λ _.
          Yields-bind Covered (to_expr c (some name) input) _ (to_expr-Covered (some name) input)
            (λ i hi.
              Yields-bind Covered (to_expr c (some name) output) _
                (to_expr-Covered (some name) output)
                (λ o ho.
                  Yields-bind Covered (to_expr c (some name) where_ast) _
                    (to_expr-Covered (some name) where_ast)
                    (λ w hw. yields (
                      node-Covered (list_comprehension name) _ (i ∷ o ∷ w ∷ []) refl (
                        AllCovered-more i (o ∷ w ∷ []) hi (
                          AllCovered-more o (w ∷ []) ho
                            (AllCovered-more w [] hw AllCovered-none))))))))
    to_expr-Covered it (Ast.negation e) =
        Yields-bind Covered (to_expr c it e) _ (to_expr-Covered it e) (λ inner h.
          call_expr-Covered c "_not" ((e, inner) ∷ []) (AllCovered-more inner [] h AllCovered-none))
    to_expr-Covered it (Ast.constant v) = yields (constant_expr-Covered v)
    to_expr-Covered it (Ast.binary_expr l op r) =
        Yields-bind Covered (to_expr c it l) _ (to_expr-Covered it l) (λ left hl.
          Yields-bind ArgumentsCovered (to_operands c it op r _) _
            (to_operands-Covered it op r _ (to_expr-Covered it r))
            (λ right hr.
              operator_expr-Covered c op ((l, left) ∷ right)
                (AllCovered-more left (map (λ a. a.1) right) hl hr)))
    to_expr-Covered it (Ast.boolean_expr l op r) =
        Yields-bind Covered (to_expr c it l) _ (to_expr-Covered it l) (λ left hl.
          Yields-bind ArgumentsCovered (to_operands c it op r _) _
            (to_operands-Covered it op r _ (to_expr-Covered it r))
            (λ right hr.
              operator_expr-Covered c op ((l, left) ∷ right)
                (AllCovered-more left (map (λ a. a.1) right) hl hr)))
    to_expr-Covered it (Ast.list es) =
        Yields-bind ArgumentsCovered (to_exprs c it es) _ (to_exprs-Covered it es)
          (λ exprs h. yields (node-Covered list _ (map (λ a. a.1) exprs) refl h))
    to_expr-Covered it _ = halts

    to_exprs-Covered :
        (it : Option String) (args : Asts) → Yields ArgumentsCovered (to_exprs c it args)
    to_exprs-Covered it Ast.nil = yields AllCovered-none
    to_exprs-Covered it (Ast.cons a asts) =
        Yields-bind Covered (to_expr c it a) _ (to_expr-Covered it a) (λ e he.
          Yields-bind ArgumentsCovered (to_exprs c it asts) _ (to_exprs-Covered it asts)
            (λ es hes. yields (AllCovered-more e (map (λ a. a.1) es) he hes)))

    to_operands-Covered :
        (it : Option String) (op : String) (a : Ast) (single : Result Expr)
        → Yields Covered single
        → Yields ArgumentsCovered (to_operands c it op a single)
    to_operands-Covered it op (Ast.boolean_expr l op' r) single h =
        Yields-if (str_eq op op' && is_connective op) _ _
          (Yields-bind Covered (to_expr c it l) _ (to_expr-Covered it l) (λ left hl.
            Yields-bind ArgumentsCovered (to_operands c it op r _) _
              (to_operands-Covered it op r _ (to_expr-Covered it r))
              (λ right hr. yields (AllCovered-more left (map (λ a. a.1) right) hl hr))))
          (one_operand-Covered c (Ast.boolean_expr l op' r) single h)
    to_operands-Covered it op a single h = one_operand-Covered c a single h

    maybe_expr-Covered :
        (it : Option String) (a : MaybeAst) (missing : Result Expr)
        → Yields Covered missing
        → Yields Covered (maybe_expr c it a missing)
    maybe_expr-Covered it Ast.absent missing h = h
    maybe_expr-Covered it (Ast.present a) missing h = to_expr-Covered it a

    case_exprs-Covered :
        (it : Option String) (cases : Asts) (result : Expr)
        → Covered result
        → Yields Covered (case_exprs c it cases result)
    case_exprs-Covered it Ast.nil result h = yields h
    case_exprs-Covered it (Ast.cons (Ast.switch_case a e where_ast x) cases) result h =
        Yields-bind Covered (to_expr c it e) _ (to_expr-Covered it e) (λ t ht.
          Yields-bind Covered _ _
            (Yields-if (is_constant_true where_ast) _ _ (yields ht) (
              Yields-bind Covered (to_expr c it where_ast) _ (to_expr-Covered it where_ast)
                (λ w hw. yields (if_expr-Covered w t result hw ht h))))
            (λ next hn. case_exprs-Covered it cases next hn))
    case_exprs-Covered it (Ast.cons _ cases) result h = halts

-- In the expression that comes out of a syntax tree, every value node stands under a load node for its
-- slot, no load node loads a slot that a node around it has loaded, and its value is that of the
-- translated tree before loads were moved; the expressions of constant slots must list their slots.
pub process_expr_ast-loads :
    (c : Compiler)
    (slots_covered : (name : String) (e : Expr)
      → c.expr_for_slot name ≡ ok e
      → simple_constant (kind e) ≡ true
      → Covered e)
    (rt : Runtime) (a : Ast) (result : Expr)
    → process_expr_ast c a ≡ ok result
    → (safe result [] ≡ true)
      × (fresh result [] ≡ true)
      × ((e : Expr) × (to_expr c none a ≡ ok e) × (eval rt result ≡ eval rt e))
unfolding process_expr_ast
process_expr_ast-loads c slots_covered rt a result h =
    let (e, translated, h') = bind-eq-ok (to_expr c none a) (λ e. ok (extract e [])) h in
    let covered = Yields-value (to_expr-Covered c slots_covered none a) translated in
    let same : result ≡ extract e [] = cc in
    rw same (
      extract-safe_from e [] [] (λ k inside. inside) (covered []),
      extract-fresh e [],
      (e, translated, extract-eval rt e []),
    )
