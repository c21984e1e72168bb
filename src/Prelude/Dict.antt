-- ===== src/Prelude/Dict.antt =====
-- Objects used as dictionaries and sets of texts, as association lists in insertion order.
use Prim.Native.String.{String}
use mathlib.Core.Path.{◌≡◌, refl}
use mathlib.Core.Bool.{Bool, false, ◌||◌}
use mathlib.Core.List.{List, [], ◌∷◌, ◌++◌}
use mathlib.Core.Option.{Option, none, some}
use native.Mathlib.Omega.{arith}
use text.Mathlib.Text.{◌==◌ as str_eq}
use text.Mathlib.TextEquality.{eq_iff}
use sqrl.Prelude.Tests.{if◌then◌else◌}

module _ {ℓ} {Item : Type ℓ} where
  -- `dict[key]`, `none` where it is undefined.
  unfoldable pub lookup : (key : String) (dict : List (String × Item)) → Option Item
  lookup key [] = none
  lookup key ((name, item) ∷ dict) = if str_eq name key then some item else lookup key dict

  -- `dict[key] = item`: an old entry keeps its place, a new one comes last.
  unfoldable pub insert :
      (key : String) (item : Item) (dict : List (String × Item)) → List (String × Item)
  insert key item [] = (key, item) ∷ []
  insert key item ((name, old) ∷ dict) =
      if str_eq name key then (name, item) ∷ dict else (name, old) ∷ insert key item dict

  -- `hasOwnProperty`.
  unfoldable pub has_key : (key : String) (dict : List (String × Item)) → Bool
  has_key key [] = false
  has_key key ((name, item) ∷ dict) = str_eq name key || has_key key dict

  pub lookup-insert :
      (key asked : String) (item : Item) (dict : List (String × Item))
      → lookup asked (insert key item dict)
        ≡ (if str_eq key asked then some item else lookup asked dict)
  unfolding lookup insert
  lookup-insert key asked item [] = refl
  lookup-insert key asked item ((name, old) ∷ dict) = ground (
    arith,
    lookup-insert key asked item dict,
    eq_iff name key,
    eq_iff name asked,
    eq_iff key asked,
  )

-- `Set<string>`: its items in insertion order.
unfoldable pub contains : List String → String → Bool
contains [] k = false
contains (x ∷ xs) k = str_eq x k || contains xs k

unfoldable pub add : String → List String → List String
unfolding contains
add k xs = if contains xs k then xs else xs ++ k ∷ []

unfoldable pub add_all : List String → List String → List String
unfolding add
add_all [] xs = xs
add_all (k ∷ ks) xs = add_all ks (add k xs)

pub contains-append :
    (xs ys : List String) (k : String) → contains (xs ++ ys) k ≡ (contains xs k || contains ys k)
unfolding contains
contains-append [] ys k = refl
contains-append (x ∷ xs) ys k = ground (arith, contains-append xs ys k)

pub contains-add :
    (j k : String) (xs : List String) → contains (add j xs) k ≡ (str_eq j k || contains xs k)
unfolding add contains
contains-add j k xs = ground (arith, contains-append xs (j ∷ []) k, eq_iff j k)

pub contains-add_all :
    (ks : List String) (k : String) (xs : List String)
    → contains (add_all ks xs) k ≡ (contains ks k || contains xs k)
unfolding contains add_all
contains-add_all [] k xs = refl
contains-add_all (j ∷ ks) k xs =
    ground (arith, contains-add_all ks k (add j xs), contains-add j k xs)
