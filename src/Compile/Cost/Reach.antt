-- ===== src/Compile/Cost/Reach.antt =====
-- packages/sqrl/src/compile/SqrlCompiledOutput.ts: the slots that a slot loads at any depth, and what
-- should be known of a slot that is done.
use sqrl.Prelude.{
  ℕ, ◌+◌, String, Bool, true, false, not, ◌&&◌, ◌||◌, List, [], ◌∷◌, ◌++◌, contains, add, add_all,
  contains-append, contains-add, contains-add_all, ◌≡◌, refl, ap, ◌∙◌, arith, str_eq, eq_iff,
}
use sqrl.Compile.Cost.{Slots, Entry, own_cost, uses}

-- A slot is loaded by the other one, directly or by way of others.
pub data Reach (slots : Slots) : String → String → Type 0 where
  used : {a b : String} → contains (uses slots a) b ≡ true → Reach slots a b
  through : {a b c : String} → contains (uses slots a) b ≡ true → Reach slots b c → Reach slots a c

pub Reach-trans :
    {slots : Slots} {a b c : String} → Reach slots a b → Reach slots b c → Reach slots a c
Reach-trans (used h) k = through h k
Reach-trans (through h g) k = through h (Reach-trans g k)

-- No text stands twice in the list.
unfoldable pub distinct : List String → Bool
distinct [] = true
distinct (x ∷ xs) = not (contains xs x) && distinct xs

-- The sum of the slots' own costs.
unfoldable pub total_cost : Slots → List String → ℕ
unfolding own_cost
total_cost slots [] = 0
total_cost slots (x ∷ xs) = own_cost slots x + total_cost slots xs

-- The entry of a slot holds its own cost, the slots that it reaches, each once, and the sum of its
-- own cost and theirs.
pub record IsRight (slots : Slots) (name : String) (e : Entry) : Type 0 where
  pub own : e.cost ≡ own_cost slots name
  pub all_reached : (k : String) → Reach slots name k → contains e.load k ≡ true
  pub only_reached : (k : String) → contains e.load k ≡ true → Reach slots name k
  pub once : distinct e.load ≡ true
  pub sum : e.recursive_cost ≡ own_cost slots name + total_cost slots e.load

distinct-append :
    (xs : List String) (k : String)
    → contains xs k ≡ false
    → distinct xs ≡ true
    → distinct (xs ++ k ∷ []) ≡ true
unfolding distinct contains
distinct-append [] k new h = refl
distinct-append (x ∷ xs) k new h =
    ground (arith, distinct-append xs k, contains-append xs (k ∷ []) x, eq_iff x k, eq_iff k x)

pub distinct-add : (k : String) (xs : List String) → distinct xs ≡ true → distinct (add k xs) ≡ true
unfolding add
distinct-add k xs h = ground (arith, distinct-append xs k)

pub distinct-add_all : (ks xs : List String) → distinct xs ≡ true → distinct (add_all ks xs) ≡ true
unfolding add_all
distinct-add_all [] xs h = h
distinct-add_all (k ∷ ks) xs h = distinct-add_all ks (add k xs) (distinct-add k xs h)

-- What is in the list after a slot and what it loads are added.
pub contains-added :
    (inner load : List String) (name k : String)
    → contains (add_all inner (add name load)) k
      ≡ (contains inner k || (str_eq name k || contains load k))
contains-added inner load name k =
    contains-add_all inner k (add name load)
    ∙ ap (λ b. contains inner k || b) (contains-add name k load)
