-- ===== src/Stdlib/Logic/Completion.antt =====
-- `_orParallel` of packages/sqrl/src/function/BoolFunctions.ts, whatever the order in which its
-- promises are done.
use sqrl.Prelude.{
  ◌<◌, ◌+◌, Bool, true, false, List, [], ◌∷◌, ◌||◌, some, any, ◌≡◌, refl, arith, ap, if◌then◌else◌,
  ◌∙◌, sym, Bool-cases, inl, inr, length,
}
use mathlib.Core.List.{Perm, Permᴰ}
use mathlib.Core.Logic.{∥∥₁_elim}
use mathlib.Core.Bool.{Bool-set}
use native.Mathlib.Nat.{ℕ_set}
use sqrl.Value.{Value, boolean, is_null, is_truthy}
use sqrl.Stdlib.Logic.{or_values, null_or, Parallel, on_result, deliver, start_parallel}
use sqrl.Stdlib.Logic.Laws.{connectives}

on_closed :
    (v : Value) (p : Parallel)
    → p.can_resolve ≡ false
    → p.faulted ≡ false
    → 1 < p.remaining
    → ((on_result v p).answer ≡ p.answer)
      × ((on_result v p).can_resolve ≡ false)
      × ((on_result v p).faulted ≡ false)
      × ((on_result v p).remaining + 1 ≡ p.remaining)
unfolding on_result
on_closed v p c f h = (ground arith, ground arith, ground arith, ground arith)

on_truthy :
    (v : Value) (p : Parallel)
    → p.can_resolve ≡ true
    → p.faulted ≡ false
    → is_truthy v ≡ true
    → ((on_result v p).answer ≡ some (boolean true))
      × ((on_result v p).can_resolve ≡ false)
      × ((on_result v p).faulted ≡ false)
      × ((on_result v p).remaining ≡ p.remaining)
unfolding on_result
on_truthy v p c f t = (ground arith, ground arith, ground arith, ground arith)

on_other :
    (v : Value) (p : Parallel)
    → p.can_resolve ≡ true
    → p.faulted ≡ false
    → is_truthy v ≡ false
    → 1 < p.remaining
    → ((on_result v p).had_null ≡ (is_null v || p.had_null))
      × ((on_result v p).can_resolve ≡ true)
      × ((on_result v p).faulted ≡ false)
      × ((on_result v p).remaining + 1 ≡ p.remaining)
unfolding on_result
on_other v p c f t h = (ground arith, ground arith, ground arith, ground arith)

-- Once it is resolved nothing changes the answer, and `resolve` is not called again, while fewer
-- results are due than `remaining` counts.
after_resolve :
    (vs : List Value) (p : Parallel)
    → p.can_resolve ≡ false
    → p.faulted ≡ false
    → length vs < p.remaining
    → ((deliver vs p).answer ≡ p.answer) × ((deliver vs p).faulted ≡ false)
unfolding deliver
after_resolve [] p c f h = (refl, f)
after_resolve (v ∷ vs) p c f h =
    let (same, closed, fine, fewer) = on_closed v p c f (ground arith) in
    let (later, calm) = after_resolve vs (on_result v p) closed fine (omega (arith, fewer)) in
    (later ∙ same, calm)

-- While it is not resolved, as many results are due as `remaining` counts.
while_pending :
    (v : Value) (vs : List Value) (p : Parallel)
    → p.can_resolve ≡ true
    → p.faulted ≡ false
    → p.remaining ≡ length (v ∷ vs)
    → ((deliver (v ∷ vs) p).answer
        ≡ some (
            if any is_truthy (v ∷ vs)
            then boolean true
            else null_or (p.had_null || any is_null (v ∷ vs)) false))
      × ((deliver (v ∷ vs) p).faulted ≡ false)
unfolding deliver
while_pending v [] p c f r = (ground arith, ground arith)
while_pending v (w ∷ vs) p c f r = elim (Bool-cases (is_truthy v)) [
  | inl t ↦
      let (told, closed, fine, left) = on_truthy v p c f t in
      let (later, calm) =
        after_resolve (w ∷ vs) (on_result v p) closed fine (omega (arith, left)) in
      (later ∙ told ∙ rw t, calm)
  | inr t ↦
      let (nulls, open_still, fine, left) = on_other v p c f t (omega arith) in
      let (later, calm) =
        while_pending w vs (on_result v p) open_still fine (omega (arith, left)) in
      (later ∙ rw nulls (ground arith), calm)
]

any-permᴰ : (p : Value → Bool) {vs ws : List Value} → Permᴰ vs ws → any p vs ≡ any p ws
any-permᴰ p Permᴰ.nil = refl
any-permᴰ p (Permᴰ.cons e h) = cc (any-permᴰ p h)
any-permᴰ p (Permᴰ.swap e f) = ground arith
any-permᴰ p (Permᴰ.trans h k) = any-permᴰ p h ∙ any-permᴰ p k

any-perm : (p : Value → Bool) {vs ws : List Value} → Perm vs ws → any p vs ≡ any p ws
any-perm p h = ∥∥₁_elim h (Bool-set _ _) (any-permᴰ p)

length-permᴰ : {vs ws : List Value} → Permᴰ vs ws → length vs ≡ length ws
length-permᴰ Permᴰ.nil = refl
length-permᴰ (Permᴰ.cons e h) = omega (arith, length-permᴰ h)
length-permᴰ (Permᴰ.swap e f) = refl
length-permᴰ (Permᴰ.trans h k) = length-permᴰ h ∙ length-permᴰ k

length-perm : {vs ws : List Value} → Perm vs ws → length vs ≡ length ws
length-perm h = ∥∥₁_elim h (ℕ_set _ _) length-permᴰ

-- Whatever the order in which the promises of `_orParallel` are done, it answers what `_or` answers
-- on their values, and never calls `resolve` after setting it to null.
pub or_parallel-or_values :
    (v : Value) (vs order : List Value)
    → Perm order (v ∷ vs)
    → ((deliver order (start_parallel (length (v ∷ vs)))).answer ≡ some (or_values (v ∷ vs)))
      × ((deliver order (start_parallel (length (v ∷ vs)))).faulted ≡ false)
or_parallel-or_values v vs [] h = absurd (omega (arith, length-perm h))
or_parallel-or_values v vs (w ∷ ws) h =
    let (told, calm) =
      while_pending w ws (start_parallel (length (v ∷ vs))) refl refl (sym (length-perm h)) in
    (
      told ∙ ap some (rw (any-perm is_truthy h, any-perm is_null h) (sym (connectives (v ∷ vs)).1)),
      calm,
    )
