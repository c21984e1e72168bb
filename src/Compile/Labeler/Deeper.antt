-- ===== src/Compile/Labeler/Deeper.antt =====
-- The depth of the call stack in pushStatement: where it is enough, more of it changes nothing.
use sqrl.Prelude.{
  ℕ, zero, suc, ◌+◌, String, Bool, true, false, List, [], ◌∷◌, none, Result, ok, err, invalid,
  ensure, ◌>>=◌, if◌then◌else◌, str_eq, ◌≡◌, refl, arith,
}
use sqrl.Value.{null, array}
use sqrl.Ast.{
  Ast, Asts, constant, let_statement, rule, list, call, when, assertion, include, nil, cons,
}
use sqrl.Ast.Build.{and_ast}
use sqrl.Where.TruthTable.{reduce_truth_table}
use sqrl.Compile.Parser.{Parser, wrap_where}
use sqrl.Compile.Parser.Trees.{new_global}
use sqrl.Compile.Labeler.{
  Labeler, rule_features, names_value, when_statement, Push, push_when, compile_when_block,
}
use sqrl.Compile.Labeler.Pushing.{
  push_statements, push_files, labeler_push_statement, push_transformed, transform_push,
  is_input_call, push_with, push_statement, compile_statements,
}

-- What the first brings, the second brings as well.
abbrev Brings : Result Parser → Result Parser → Type 0
Brings r s = (q : Parser) → r ≡ ok q → s ≡ ok q

Brings-refl : (r : Result Parser) → Brings r r
Brings-refl r = λ q e. e

Brings-after {ℓ} :
    {A : Type ℓ} (step : Result A) (f g : A → Result Parser)
    → ((x : A) → Brings (f x) (g x))
    → Brings (step >>= f) (step >>= g)
Brings-after (ok x) f g h = h x
Brings-after (err e) f g h = λ q failed. cc

Brings-bind :
    (r s : Result Parser) (f g : Parser → Result Parser)
    → Brings r s
    → ((x : Parser) → Brings (f x) (g x))
    → Brings (r >>= f) (s >>= g)
Brings-bind (ok x) s f g h k = λ q e. rw (h x refl) (k x q e)
Brings-bind (err e) s f g h k = λ q failed. cc

Brings-if :
    (b : Bool) (r r' s s' : Result Parser)
    → Brings r r'
    → Brings s s'
    → Brings (if b then r else s) (if b then r' else s')
Brings-if true r r' s s' h k = h
Brings-if false r r' s s' h k = k

module _ (labeler : Labeler) (push deeper : Push)
    (h : (e : Ast) (p : Parser) → Brings (push e p) (deeper e p)) where
  push_statements-Brings :
      (es : List Ast) (p : Parser)
      → Brings (push_statements push es p) (push_statements deeper es p)
  unfolding push_statements
  push_statements-Brings [] p = Brings-refl (ok p)
  push_statements-Brings (e ∷ es) p =
      Brings-bind (push e p) (deeper e p) (push_statements push es) (push_statements deeper es)
        (h e p) (push_statements-Brings es)

  wrap_where-Brings :
      (where_ast : Ast) (f g : Parser → Result Parser) (p : Parser)
      → ((q : Parser) → Brings (f q) (g q))
      → Brings (wrap_where where_ast f p) (wrap_where where_ast g p)
  wrap_where-Brings where_ast f g p k = Brings-after (reduce_truth_table where_ast) _ _ (λ _.
      Brings-after (and_ast (p.global_where ∷ where_ast ∷ [])) _ _ (λ combined.
        Brings-bind (f (record p { global_where = combined }))
          (g (record p { global_where = combined })) _ _ (k (record p { global_where = combined }))
          (λ after. Brings-refl _)))

  push_files-Brings :
      (files : List (Ast × List Ast)) (p : Parser)
      → Brings (push_files push files p) (push_files deeper files p)
  unfolding push_files
  push_files-Brings [] p = Brings-refl (ok p)
  push_files-Brings ((where_ast, es) ∷ files) p =
      Brings-bind (wrap_where where_ast (push_statements push es) p)
        (wrap_where where_ast (push_statements deeper es) p) (push_files push files)
        (push_files deeper files)
        (wrap_where-Brings where_ast (push_statements push es) (push_statements deeper es) p
          (push_statements-Brings es))
        (push_files-Brings files)

  push_when-Brings :
      (cause : String) (es : Asts) (p : Parser)
      → Brings (push_when labeler push cause es p) (push_when labeler deeper cause es p)
  unfolding push_when
  push_when-Brings cause nil p = Brings-refl (ok p)
  push_when-Brings cause (cons e es) p =
      Brings-after (when_statement labeler cause e) _ _ (λ guarded.
        Brings-bind (push guarded p) (deeper guarded p) (push_when labeler push cause es)
          (push_when labeler deeper cause es) (h guarded p) (push_when-Brings cause es))

  compile_when_block-Brings :
      (names : List String) (es : Asts) (p : Parser)
      → Brings
          (compile_when_block labeler push names es p)
          (compile_when_block labeler deeper names es p)
  unfolding compile_when_block
  compile_when_block-Brings names es p = Brings-after (rule_features names p) _ _ (λ features.
      Brings-after
        (new_global labeler.tools
          (call "_buildWhenCause"
            (cons (constant (array (names_value names))) (cons (list features) nil)))
          none p)
        _ _ (λ r. push_when-Brings r.1 es r.0))

  labeler_push_statement-Brings :
      (e : Ast) (p : Parser)
      → Brings (labeler_push_statement labeler push e p) (labeler_push_statement labeler deeper e p)
  unfolding labeler_push_statement
  labeler_push_statement-Brings (include filename where_ast) p =
      Brings-after (labeler.include_files filename) _ _ (λ files.
        wrap_where-Brings where_ast (push_files push files) (push_files deeper files) p
          (push_files-Brings files))
  labeler_push_statement-Brings (assertion e) p =
      Brings-after
        (ensure labeler.allow_assertions (invalid "Assertions are only valid in sqrl tests")) _ _
        (λ _. h (call "assert" (cons e nil)) p)
  labeler_push_statement-Brings (when names es) p = compile_when_block-Brings names es p
  labeler_push_statement-Brings (constant null) p = Brings-refl _
  labeler_push_statement-Brings e p = Brings-refl _

  push_transformed-Brings :
      (e : Ast) (p : Parser)
      → Brings (push_transformed labeler push e p) (push_transformed labeler deeper e p)
  unfolding push_transformed
  push_transformed-Brings (let_statement final description e name default where_ast) p =
      Brings-refl _
  push_transformed-Brings (rule name description where_ast reason) p = Brings-refl _
  push_transformed-Brings e p = labeler_push_statement-Brings e p

  transform_push-Brings :
      (e : Ast) (p : Parser)
      → Brings (transform_push labeler push e p) (transform_push labeler deeper e p)
  transform_push-Brings e p =
      Brings-after (labeler.tools.transform e p) _ _ (λ r. push_transformed-Brings r.1 r.0)

  push_with-Brings :
      (e : Ast) (p : Parser) → Brings (push_with labeler push e p) (push_with labeler deeper e p)
  unfolding push_with
  push_with-Brings (let_statement final description e name default where_ast) p =
      Brings-if (is_input_call e) _ _ _ _ (Brings-refl _)
        (transform_push-Brings (let_statement final description e name default where_ast) p)
  push_with-Brings (call func nil) p =
      Brings-if (str_eq func "_resetReplaceableFeatures") _ _ _ _ (Brings-refl _)
        (transform_push-Brings (call func nil) p)
  push_with-Brings (call func (cons e es)) p =
      Brings-if (str_eq func "_resetReplaceableFeatures") _ _ _ _ (Brings-refl _)
        (transform_push-Brings (call func (cons e es)) p)
  push_with-Brings e p = transform_push-Brings e p

push_statement-Brings :
    (labeler : Labeler) (depth more : ℕ) (e : Ast) (p : Parser)
    → Brings (push_statement labeler depth e p) (push_statement labeler (more + depth) e p)
unfolding push_statement
push_statement-Brings labeler zero more e p = λ q failed. cc
push_statement-Brings labeler (suc depth) more e p =
    let same : more + suc depth ≡ suc (more + depth) = omega arith in
    rw same (
      push_with-Brings labeler (push_statement labeler depth)
        (push_statement labeler (more + depth)) (push_statement-Brings labeler depth more) e p)

-- A script that is compiled without an error at some depth of the call stack is compiled to the same
-- parser state at every greater depth.
compile_statements-deeper :
    (labeler : Labeler) (depth more : ℕ) (es : List Ast) (p q : Parser)
    → compile_statements labeler depth es p ≡ ok q
    → compile_statements labeler (more + depth) es p ≡ ok q
unfolding compile_statements
compile_statements-deeper labeler depth more es p q e =
    push_statements-Brings labeler (push_statement labeler depth)
      (push_statement labeler (more + depth)) (push_statement-Brings labeler depth more) es p q e
