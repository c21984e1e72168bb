-- ===== src/Compile/Extract/Covered.antt =====
-- The expressions of packages/sqrl/src/ast/AstExpr.ts, `_astToExpr`: every value node lists its slot
-- in the `load` of its own or of a node around it.
use sqrl.Prelude.{
  String, Bool, true, false, not, ◌&&◌, List, [], ◌∷◌, ◌++◌, Option, none, some, if◌then◌else◌, any,
  all, filter, Yields, yields, Yields-after, Yields-if, ◌≡◌, refl, ap, ap₂, ◌∙◌, arith, both_true,
}
use sqrl.Value.{Value, is_truthy, is_null, boolean}
use sqrl.Compile.Expr.{
  Kind, branch, constant, value, call, Expr, node, nil, or_empty, exprs_of, kind, loaded,
}
use sqrl.Compile.Fold.{
  Costs, if_expr, branch_of, bool_expr, and_expr, or_expr, and_rest, or_rest, sequential_expr,
  sort_exprs_by_cost, ordered_minimal_load, is_constant, is_false_value, constant_expr, state_expr,
}
use sqrl.Compile.Fold.Sorting.{all-sort_exprs_by_cost}
use sqrl.Compile.Extract.Laws.{requested, requested_all, reads_within, contains-head}

abbrev pub requested_in : List String → Expr → Bool
requested_in around e = requested e around

abbrev pub Covered : Expr → Type 0
Covered e = (around : List String) → requested e around ≡ true

abbrev pub AllCovered : List Expr → Type 0
AllCovered es = (around : List String) → all (requested_in around) es ≡ true

pub requested_all-exprs_of :
    (es : List Expr) (around : List String)
    → requested_all (exprs_of es) around ≡ all (requested_in around) es
unfolding requested
requested_all-exprs_of [] around = refl
requested_all-exprs_of (e ∷ es) around =
    ap (λ b. requested e around && b) (requested_all-exprs_of es around)

pub AllCovered-none : AllCovered []
AllCovered-none around = refl

pub AllCovered-more : (e : Expr) (es : List Expr) → Covered e → AllCovered es → AllCovered (e ∷ es)
AllCovered-more e es one others around = ap₂ (λ a b. a && b) (one around) (others around)

pub AllCovered-head : (e : Expr) (es : List Expr) → AllCovered (e ∷ es) → Covered e
AllCovered-head e es h around = (both_true (requested e around) _ (h around)).0

pub AllCovered-tail : (e : Expr) (es : List Expr) → AllCovered (e ∷ es) → AllCovered es
AllCovered-tail e es h around = (both_true (requested e around) _ (h around)).1

-- A node that is no value node itself.
abbrev pub reads_nothing : Kind → Bool
reads_nothing (value name) = false
reads_nothing _ = true

reads_within-nothing :
    (k : Kind) (names : List String) → reads_nothing k ≡ true → reads_within k names ≡ true
reads_within-nothing (value name) names h = cc
reads_within-nothing _ names h = refl

pub node-Covered :
    (k : Kind) (names : Option (List String)) (es : List Expr)
    → reads_nothing k ≡ true
    → AllCovered es
    → Covered (node k names (exprs_of es))
unfolding requested
node-Covered k names es plain covered around =
    ap₂ (λ a b. a && b) (reads_within-nothing k (or_empty names ++ around) plain)
      (requested_all-exprs_of es (or_empty names ++ around) ∙ covered (or_empty names ++ around))

pub constant_expr-Covered : (v : Value) → Covered (constant_expr v)
constant_expr-Covered v = node-Covered (constant v) none [] refl AllCovered-none

pub state_expr-Covered : Covered state_expr
state_expr-Covered = node-Covered _ none [] refl AllCovered-none

pub value_expr-Covered : (name : String) → Covered (node (value name) (some (name ∷ [])) nil)
unfolding requested
value_expr-Covered name around = ap (λ b. b && true) (contains-head name around)

pub bool_expr-Covered : (e : Expr) → Covered e → Covered (bool_expr e)
bool_expr-Covered e h =
    node-Covered (call "bool") (loaded e) (e ∷ []) refl (AllCovered-more e [] h AllCovered-none)

all-filter : (p q : Expr → Bool) (es : List Expr) → all p es ≡ true → all p (filter q es) ≡ true
all-filter p q [] h = refl
all-filter p q (e ∷ es) h = ground (arith, all-filter p q es)

all-append :
    (p : Expr → Bool) (es fs : List Expr)
    → all p es ≡ true
    → all p fs ≡ true
    → all p (es ++ fs) ≡ true
all-append p [] fs h k = k
all-append p (e ∷ es) fs h k = ground (arith, all-append p es fs)

pub if_expr-Covered : (c t f : Expr) → Covered c → Covered t → Covered f → Covered (if_expr c t f)
unfolding if_expr
if_expr-Covered c t f hc ht hf =
    let parts =
      AllCovered-more c (t ∷ f ∷ []) hc
        (AllCovered-more t (f ∷ []) ht (AllCovered-more f [] hf AllCovered-none)) in
    branch_covered (kind c) (node-Covered branch (loaded c) (c ∷ t ∷ f ∷ []) refl parts)
  where
    branch_covered :
        (k : Kind)
        → Covered (node branch (loaded c) (exprs_of (c ∷ t ∷ f ∷ [])))
        → Covered (branch_of k c t f)
    branch_covered (constant v) h = chosen (is_truthy v)
      where
        chosen : (b : Bool) → Covered (if b then t else f)
        chosen true = ht
        chosen false = hf
    branch_covered _ h = h

module _ (costs : Costs) where
  sequential_expr-Covered :
      (func : String) (es : List Expr)
      → AllCovered es
      → Yields Covered (sequential_expr costs func es)
  unfolding sequential_expr
  sequential_expr-Covered func es h =
      let sorted = sort_exprs_by_cost costs es in
      Yields-after (ordered_minimal_load sorted) _ (λ load. yields (
        node-Covered (call func) (some load) (state_expr ∷ sorted) refl (
          AllCovered-more state_expr sorted state_expr-Covered
            (λ around. all-sort_exprs_by_cost costs (requested_in around) es ∙ h around))))

  and_rest-Covered : (es : List Expr) → AllCovered es → Yields Covered (and_rest costs es)
  and_rest-Covered [] h = yields (constant_expr-Covered (boolean true))
  and_rest-Covered (e ∷ []) h = yields (bool_expr-Covered e (AllCovered-head e [] h))
  and_rest-Covered (e ∷ f ∷ es) h = sequential_expr-Covered "_andSequential" (e ∷ f ∷ es) h

  pub and_expr-Covered : (es : List Expr) → AllCovered es → Yields Covered (and_expr costs es)
  unfolding and_expr
  and_expr-Covered es h =
      Yields-if (any (is_constant is_false_value) es) _ _ (yields (constant_expr-Covered _)) (
        Yields-if (any (is_constant is_null) es) _ _ (yields (constant_expr-Covered _)) (
          and_rest-Covered (filter (λ e. not (is_constant is_truthy e)) es) (λ around.
            all-filter (requested_in around) (λ e. not (is_constant is_truthy e)) es (h around))))

  or_rest-Covered :
      (had_null : Bool) (es : List Expr)
      → AllCovered es
      → Yields Covered (or_rest costs had_null es)
  or_rest-Covered had_null [] h = yields (constant_expr-Covered _)
  or_rest-Covered true (e ∷ es) h = sequential_expr-Covered "_orSequential" _ (λ around.
      all-append (requested_in around) (e ∷ es) _ (h around)
        (AllCovered-more _ [] (constant_expr-Covered _) AllCovered-none around))
  or_rest-Covered false (e ∷ []) h = yields (bool_expr-Covered e (AllCovered-head e [] h))
  or_rest-Covered false (e ∷ f ∷ es) h = sequential_expr-Covered "_orSequential" (e ∷ f ∷ es) h

  pub or_expr-Covered : (es : List Expr) → AllCovered es → Yields Covered (or_expr costs es)
  unfolding or_expr
  or_expr-Covered es h =
      Yields-if (any (is_constant is_truthy) es) _ _ (yields (constant_expr-Covered _)) (
        or_rest-Covered (any (is_constant is_null) es)
          (filter (λ e. not (is_constant (λ v. not (is_truthy v)) e)) es)
          (λ around.
            all-filter (requested_in around) (λ e. not (is_constant (λ v. not (is_truthy v)) e)) es
              (h around)))
