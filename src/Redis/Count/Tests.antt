-- ===== src/Redis/Count/Tests.antt =====
-- Tests and witnesses for the counts over a window. Redis is a dictionary here, and a key its
-- numbers written out.
use sqrl.Prelude.{
  ℕ, zero, suc, ◌+◌, ◌-◌, ◌*◌, ◌≤◌, ◌<◌, String, true, List, [], ◌∷◌, map, sym, none, lookup,
  insert, lookup-insert, ◌≡◌, refl, arith, str_eq, eq_iff, Bool-cases, inl, inr, ap, if◌then◌else◌,
  leb,
}
use text.Mathlib.TextLemmas.{append_cancel_left, append_cancel_right, append-eq-nil_iff}
use sqrl.Where.Text.{◌⧺◌}
use sqrl.Redis.Count.{
  Redis, or_zero, get_bucket_size, get_bucket_time, get_expiry_seconds, get_window_start, weigh,
  bucket_keys, get_all_bucket_keys, bump_key, fetch_key,
}
use sqrl.Redis.Count.Totals.{History, total}
use sqrl.Redis.Count.Laws.{bump_all}
use sqrl.Redis.Count.Window.{fetch_key-window, get_expiry_seconds-lasts}

dictionary_increment :
    (k asked : String) (n : ℕ) (s : List (String × ℕ))
    → or_zero (lookup asked (insert k (or_zero (lookup k s) + n) s))
      ≡ or_zero (lookup asked s) + (if str_eq k asked then n else 0)
dictionary_increment k asked n s = elim (Bool-cases (str_eq k asked)) [
  | inl same ↦
      let e : k ≡ asked = (eq_iff k asked).0 same in
      rw (lookup-insert k asked (or_zero (lookup k s) + n) s, same, e) refl
  | inr other ↦ rw (lookup-insert k asked (or_zero (lookup k s) + n) s, other) (omega arith)
]

lookup_empty : (k : String) → lookup {Item = ℕ} k [] ≡ none
unfolding lookup
lookup_empty k = refl

abbrev dictionary_redis : Redis
dictionary_redis = record {
  Store = List (String × ℕ);
  empty = [];
  get = λ k s. lookup k s;
  increment = λ k n s. insert k (or_zero (lookup k s) + n) s;
  mget_numbers = λ ks s. map (λ k. lookup k s) ks;
  get-empty = lookup_empty;
  get-increment = dictionary_increment;
  mget-map = λ ks s. refl;
}

marks : ℕ → String
marks zero = ""
marks (suc n) = "1" ⧺ marks n

one_not_empty : ◌≡◌ {A = String} "1" "" → ⊥
one_not_empty e = let same : str_eq "1" "" ≡ true = (eq_iff "1" "").1 e in cc

marks_injective : (a b : ℕ) → marks a ≡ marks b → a ≡ b
unfolding marks
marks_injective zero zero e = refl
marks_injective zero (suc b) e = absurd (one_not_empty ((append-eq-nil_iff).0 (sym e)).0)
marks_injective (suc a) zero e = absurd (one_not_empty ((append-eq-nil_iff).0 e).0)
marks_injective (suc a) (suc b) e =
    ap suc (marks_injective a b (append_cancel_left "1" (marks a) (marks b) e))

-- The numbers in strokes, each after a comma.
plain_tail : List ℕ → String
plain_tail [] = ""
plain_tail (n ∷ ns) = "," ⧺ (marks n ⧺ plain_tail ns)

abbrev plain_key : String → List ℕ → String
plain_key key numbers = key ⧺ plain_tail numbers

plain_key_injective :
    (key : String) (window_ms a b : ℕ)
    → plain_key key (window_ms ∷ a ∷ []) ≡ plain_key key (window_ms ∷ b ∷ [])
    → a ≡ b
unfolding plain_tail
plain_key_injective key window_ms a b e =
    let e1 = append_cancel_left key _ _ e in
    let e2 = append_cancel_left "," _ _ e1 in
    let e3 = append_cancel_left (marks window_ms) _ _ e2 in
    let e4 = append_cancel_left "," _ _ e3 in
    marks_injective a b (append_cancel_right (marks a) (marks b) "" e4)

abbrev visits : History
visits = (11, 4) ∷ (30, 2) ∷ (5, 7) ∷ (16, 1) ∷ []

visits_test :
    fetch_key dictionary_redis plain_key 31 20 "k"
      (bump_all dictionary_redis plain_key 20 "k" visits dictionary_redis.empty)
    ≡ 5
unfolding fetch_key get_all_bucket_keys bucket_keys weigh get_bucket_size get_bucket_time
    get_window_start bump_key insert lookup plain_tail marks
visits_test = refl

fetch_key-window_example :
    (total (λ t. leb (get_bucket_time (31 - 20) 2 + 2) t) visits
      ≤ fetch_key dictionary_redis plain_key 31 20 "k"
          (bump_all dictionary_redis plain_key 20 "k" visits dictionary_redis.empty))
    × (fetch_key dictionary_redis plain_key 31 20 "k"
          (bump_all dictionary_redis plain_key 20 "k" visits dictionary_redis.empty)
        ≤ total (λ t. leb (get_bucket_time (31 - 20) 2) t) visits)
fetch_key-window_example =
    fetch_key-window dictionary_redis plain_key 20 "k" 2 visits 31 (plain_key_injective "k" 20)
      (omega arith) refl (omega arith)
      (omega arith, (omega arith, (omega arith, (omega arith, tt))))

get_expiry_seconds-lasts_example : 2400 < 1500 + 1000 * get_expiry_seconds 1000 100
unfolding get_bucket_time
get_expiry_seconds-lasts_example =
    get_expiry_seconds-lasts 2400 1500 1000 100 (omega arith) (omega arith)
