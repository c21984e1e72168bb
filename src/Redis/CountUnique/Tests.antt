-- ===== src/Redis/CountUnique/Tests.antt =====
-- Tests and witnesses for unique counts.
use sqrl.Prelude.{
  ℕ, String, List, [], ◌∷◌, some, ok, err, failed, if◌then◌else◌, str_eq, contains, any, ◌≡◌, refl,
}
use sqrl.Where.Text.{sort}
use sqrl.Redis.Mock.{Database, text, items}
use sqrl.Redis.CountUnique.{Format, fetch_hashes, fetch_counts, bump_hashes, get_hashes}
use sqrl.Redis.CountUnique.Laws.{Bump, bump_all, is_seen, fetch_hashes-seen}

-- Each value was seen at one time.
abbrev time_of : String → ℕ
time_of value = if str_eq value "a" then 3 else 7

abbrev format : Format
format = record {
  redis_key = λ key. key;
  print = λ e. e.value;
  parse = λ value. some (record { timestamp = time_of value; value = value });
}

abbrev bumps : List Bump
bumps =
    record { at = 7; key = "ip"; hashes = "c" ∷ "b" ∷ [] }
    ∷ record { at = 3; key = "ip"; hashes = "a" ∷ [] }
    ∷ record { at = 7; key = "user"; hashes = "d" ∷ [] }
    ∷ []

abbrev db : Database
db = ("ip", items ("c" ∷ "b" ∷ "a" ∷ [])) ∷ ("user", items ("d" ∷ [])) ∷ []

hashes_test : fetch_hashes format ("ip" ∷ "user" ∷ []) 5 db ≡ ok ("b" ∷ "c" ∷ "d" ∷ [])
unfolding fetch_hashes get_hashes sort
hashes_test = refl

counts_test : fetch_counts format ("ip" ∷ "user" ∷ []) 10 5 ("c" ∷ []) db ≡ ok (2 ∷ 2 ∷ [])
unfolding fetch_counts get_hashes sort
counts_test = refl

text_test :
    bump_hashes format 3 "ip" [] (("ip", text "1") ∷ [])
    ≡ err (failed "Expected array in mock redis")
unfolding bump_hashes
text_test = refl

fetch_hashes-seen_example :
    (after : Database) × (bump_all format bumps [] ≡ ok after)
    × ((hashes : List String) × (fetch_hashes format ("ip" ∷ []) 5 after ≡ ok hashes)
        × ((hash : String) → contains hashes hash ≡ any (is_seen "ip" 5 hash) bumps))
fetch_hashes-seen_example =
    fetch_hashes-seen format bumps "ip" 5 (refl, (refl, (refl, tt))) (refl, (refl, (refl, tt)))
