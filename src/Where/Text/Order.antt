-- ===== src/Where/Text/Order.antt =====
-- The order in which packages/sqrl sorts names: sorting a sorted array changes nothing.
use Prim.Native.Char.{code}
use Prim.Native.Nat.{Ordering, compare as compare_ℕ}
use Prim.Native.String.{compare, then}
use Prim.Native.String.compare
use sqrl.Prelude.{
  ℕ, String, Bool, true, false, ◌&&◌, List, [], ◌∷◌, ◌≡◌, ◌⊎◌, inl, inr, refl, sym, ◌∙◌, arith,
  both_true,
}
use sqrl.Where.Text.{str_le, sort_insert, sort}

-- `then o r` is the first of the two answers that is not "equal".
then_flip :
    (m n : ℕ) (o r : Ordering)
    → then (compare_ℕ m n) o ≡ Ordering.gt
    → (o ≡ Ordering.gt → r ≡ Ordering.lt)
    → then (compare_ℕ n m) r ≡ Ordering.lt
then_flip m n o r h flip = ground arith

-- A text that comes after another one comes before it when they are turned round.
compare_flip : (s t : String) → compare s t ≡ Ordering.gt → compare t s ≡ Ordering.lt
compare_flip String.[] String.[] h = cc (compare.nil-nil)
compare_flip String.[] (String.◌∷◌ d t) h = cc (compare.nil-cons d t)
compare_flip (String.◌∷◌ c s) String.[] h = compare.nil-cons c s
compare_flip (String.◌∷◌ c s) (String.◌∷◌ d t) h =
    compare.cons-cons d c t s
    ∙ then_flip (code c) (code d) (compare s t) (compare t s) (sym (compare.cons-cons c d s t) ∙ h)
        (compare_flip s t)

abbrev is_le : Ordering → Bool
is_le Ordering.gt = false
is_le _ = true

Ordering-cases : (o : Ordering) → (is_le o ≡ true) ⊎ (o ≡ Ordering.gt)
Ordering-cases Ordering.gt = inr refl
Ordering-cases Ordering.lt = inl refl
Ordering-cases Ordering.eq = inl refl

-- Of two texts one is not after the other.
str_le_total : (s t : String) → str_le s t ≡ false → str_le t s ≡ true
str_le_total s t h = elim (Ordering-cases (compare s t)) [
  | inl before ↦ let yes_le : str_le s t ≡ true = before in cc
  | inr after ↦ rw (str_le, compare_flip s t after) refl
]

-- Sorted texts, neighbour by neighbour.
abbrev starts_after : String → List String → Bool
starts_after s [] = true
starts_after s (t ∷ ts) = str_le s t

abbrev is_sorted : List String → Bool
is_sorted [] = true
is_sorted (s ∷ ts) = starts_after s ts && is_sorted ts

sort_insert-sorted :
    (s : String) (ts : List String) → is_sorted ts ≡ true → is_sorted (sort_insert s ts) ≡ true
unfolding sort_insert
sort_insert-sorted s [] h = refl
sort_insert-sorted s (t ∷ []) h = ground (arith, str_le_total s t)
sort_insert-sorted s (t ∷ u ∷ ts) h =
    ground (arith, str_le_total s t, str_le_total s u, sort_insert-sorted s (u ∷ ts))

sort-sorted : (ts : List String) → is_sorted (sort ts) ≡ true
unfolding sort
sort-sorted [] = refl
sort-sorted (s ∷ ts) = sort_insert-sorted s (sort ts) (sort-sorted ts)

sort_lem : (ts : List String) → is_sorted ts ≡ true → sort ts ≡ ts
unfolding sort sort_insert
sort_lem [] h = refl
sort_lem (s ∷ []) h = refl
sort_lem (s ∷ t ∷ ts) h =
    rw (sort_lem (t ∷ ts) (both_true (str_le s t) _ h).1) (rw ((both_true (str_le s t) _ h).0) refl)

-- A list that is sorted stays as it is.
pub sort-sort : (ts : List String) → sort (sort ts) ≡ sort ts
sort-sort ts = sort_lem (sort ts) (sort-sorted ts)
