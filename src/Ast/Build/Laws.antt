-- ===== src/Ast/Build/Laws.antt =====
-- What `AstBuilder.and` and `AstBuilder.or` (packages/sqrl/src/helpers/AstBuilder.ts) mean.
use sqrl.Prelude.{
  String, Bool, true, false, List, [], ◌∷◌, ◌++◌, reverse, ◌&&◌, ◌||◌, all, any, All, All-append,
  ◌≡◌, refl, ap, ◌∙◌, sym, arith, ok, inl, inr, ◌⊎◌, Bool-cases,
}
use mathlib.Core.List.{reverse-cons}
use sqrl.Value.{Value, boolean, is_js_truthy}
use sqrl.Ast.{Ast, constant}
use sqrl.Ast.Build.{join_and, join_or, and_loop, or_loop, and_ast, or_ast, is_constant_bool}
use sqrl.Where.TruthTable.{ensure_valid_ast}
use sqrl.Where.TruthTable.Rows.{holds}

all-append : (p : Ast → Bool) (xs ys : List Ast) → all p (xs ++ ys) ≡ (all p xs && all p ys)
all-append p [] ys = refl
all-append p (x ∷ xs) ys = ground (arith, all-append p xs ys)

all-reverse : (p : Ast → Bool) (xs : List Ast) → all p (reverse xs) ≡ all p xs
all-reverse p [] = refl
all-reverse p (x ∷ xs) =
    ap (all p) (reverse-cons x xs)
    ∙ all-append p (reverse xs) (x ∷ [])
    ∙ ground (arith, all-reverse p xs)

any-append : (p : Ast → Bool) (xs ys : List Ast) → any p (xs ++ ys) ≡ (any p xs || any p ys)
any-append p [] ys = refl
any-append p (x ∷ xs) ys = ground (arith, any-append p xs ys)

any-reverse : (p : Ast → Bool) (xs : List Ast) → any p (reverse xs) ≡ any p xs
any-reverse p [] = refl
any-reverse p (x ∷ xs) =
    ap (any p) (reverse-cons x xs)
    ∙ any-append p (reverse xs) (x ∷ [])
    ∙ ground (arith, any-reverse p xs)

module _ (env : String → Bool) where
  is_constant_true-holds : (ast : Ast) → is_constant_bool true ast ≡ true → holds env ast ≡ true
  unfolding holds is_js_truthy
  is_constant_true-holds (constant (boolean true)) h = refl
  is_constant_true-holds _ h = cc

  is_constant_false-holds : (ast : Ast) → is_constant_bool false ast ≡ true → holds env ast ≡ false
  unfolding holds is_js_truthy
  is_constant_false-holds (constant (boolean false)) h = refl
  is_constant_false-holds _ h = cc

  holds-join_and : (ast r : Ast) → holds env (join_and ast r) ≡ (holds env ast && holds env r)
  unfolding holds
  holds-join_and ast r = elim (Bool-cases (is_constant_bool true r)) [
    | inl t ↦ rw (t, is_constant_true-holds r t) (ground arith)
    | inr t ↦ rw t
  ]

  holds-join_or : (ast r : Ast) → holds env (join_or ast r) ≡ (holds env ast || holds env r)
  unfolding holds
  holds-join_or ast r = elim (Bool-cases (is_constant_bool false r)) [
    | inl t ↦ rw (t, is_constant_false-holds r t) (ground arith)
    | inr t ↦ rw t
  ]

  holds-constant : (v : Value) → holds env (constant v) ≡ is_js_truthy v
  unfolding holds
  holds-constant v = refl

  holds-false : holds env (constant (boolean false)) ≡ false
  unfolding holds is_js_truthy
  holds-false = refl

  holds-true : holds env (constant (boolean true)) ≡ true
  unfolding holds is_js_truthy
  holds-true = refl

  holds-and_loop :
      (asts : List Ast) (r : Ast)
      → holds env (and_loop asts r) ≡ (all (holds env) asts && holds env r)
  unfolding and_loop
  holds-and_loop [] r = refl
  holds-and_loop (constant v ∷ asts) r =
      ground (arith, holds-and_loop asts r, holds-constant v, holds-false)
  holds-and_loop (ast ∷ asts) r =
      holds-and_loop asts (join_and ast r) ∙ ground (arith, holds-join_and ast r)

  holds-or_loop :
      (asts : List Ast) (r : Ast)
      → holds env (or_loop asts r) ≡ (any (holds env) asts || holds env r)
  unfolding or_loop
  holds-or_loop [] r = refl
  holds-or_loop (constant v ∷ asts) r =
      ground (arith, holds-or_loop asts r, holds-constant v, holds-true)
  holds-or_loop (ast ∷ asts) r =
      holds-or_loop asts (join_or ast r) ∙ ground (arith, holds-join_or ast r)

-- What a conjunction built by `AstBuilder.and` means: every part holds. The constants that it
-- drops, and the constant false that cuts it short, do not change that.
pub holds-and_ast :
    (asts : List Ast) (r : Ast) (env : String → Bool)
    → and_ast asts ≡ ok r
    → holds env r ≡ all (holds env) asts
unfolding and_ast
holds-and_ast [] r env h = cc
holds-and_ast (ast ∷ asts) r env h =
    let e : and_loop (reverse (ast ∷ asts)) (constant (boolean true)) ≡ r = cc in
    ap (holds env) (sym e)
    ∙ holds-and_loop env (reverse (ast ∷ asts)) (constant (boolean true))
    ∙ ground (arith, holds-true env, all-reverse (holds env) (ast ∷ asts))

-- What a disjunction built by `AstBuilder.or` means: some part holds.
pub holds-or_ast :
    (asts : List Ast) (r : Ast) (env : String → Bool)
    → or_ast asts ≡ ok r
    → holds env r ≡ any (holds env) asts
unfolding or_ast
holds-or_ast [] r env h = cc
holds-or_ast (ast ∷ asts) r env h =
    let e : or_loop (reverse (ast ∷ asts)) (constant (boolean false)) ≡ r = cc in
    ap (holds env) (sym e)
    ∙ holds-or_loop env (reverse (ast ∷ asts)) (constant (boolean false))
    ∙ ground (arith, holds-false env, any-reverse (holds env) (ast ∷ asts))

-- What a where clause may be: a constant true, or a clause that `ensureValidAst` accepts.
abbrev pub IsWhere : Ast → Type 0
IsWhere ast = (ast ≡ constant (boolean true)) ⊎ (ensure_valid_ast ast ≡ ok true)

IsWhere-join_and :
    (ast r : Ast) → ensure_valid_ast ast ≡ ok true → IsWhere r → IsWhere (join_and ast r)
unfolding ensure_valid_ast
IsWhere-join_and ast r h (inl e) = inr (rw e h)
IsWhere-join_and ast (constant v) h (inr k) = cc
IsWhere-join_and ast r h (inr k) = inr (rw (h, k))

IsWhere-and_loop :
    (asts : List Ast) (r : Ast) → All IsWhere asts → IsWhere r → IsWhere (and_loop asts r)
unfolding and_loop is_js_truthy ensure_valid_ast
IsWhere-and_loop [] r h k = k
IsWhere-and_loop (constant (boolean true) ∷ asts) r (_, h) k = IsWhere-and_loop asts r h k
IsWhere-and_loop (constant v ∷ asts) r (inl e, h) k = cc
IsWhere-and_loop (constant v ∷ asts) r (inr e, h) k = cc
IsWhere-and_loop (ast ∷ asts) r (inl e, h) k = cc
IsWhere-and_loop (ast ∷ asts) r (inr e, h) k =
    IsWhere-and_loop asts (join_and ast r) h (IsWhere-join_and ast r e k)

pub All-reverse : (P : Ast → Type 0) (xs : List Ast) → All P xs → All P (reverse xs)
All-reverse P [] h = tt
All-reverse P (x ∷ xs) (p, h) =
    rw (reverse-cons x xs) (All-append P (reverse xs) (x ∷ []) (All-reverse P xs h) (p, tt))

-- A conjunction of where clauses is a where clause again, so that what `combineGlobalWhere` and
-- `wrapWhere` build is always accepted by `reduceTruthTable`.
pub and_ast-IsWhere :
    (asts : List Ast) (r : Ast) → All IsWhere asts → and_ast asts ≡ ok r → IsWhere r
unfolding and_ast
and_ast-IsWhere [] r h e = cc
and_ast-IsWhere (ast ∷ asts) r h e =
    let same : and_loop (reverse (ast ∷ asts)) (constant (boolean true)) ≡ r = cc in
    rw (← same) (IsWhere-and_loop _ _ (All-reverse IsWhere (ast ∷ asts) h) (inl refl))
