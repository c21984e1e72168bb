-- ===== src/Redis/CountUnique.antt =====
-- packages/sqrl-redis-functions/src/services/RedisCountUnique.ts on the redis in memory: the hashes that
-- were seen for a key, with their times. The key in redis, and the JSON text of an entry and its parser
-- are parameters. Times are counted from an origin before every entry.
pub mod Laws
pub mod Tests
use sqrl.Prelude.{
  ℕ, ◌-◌, String, Bool, List, [], ◌∷◌, ◌++◌, map, Option, none, some, Result, ok, err, failed,
  ◌>>=◌, leb, length, add_all, if◌then◌else◌,
}
use sqrl.Where.Text.{sort}
use sqrl.Redis.Mock.{Database, get_list, list_push}

pub record Entry : Type 0 where
  pub timestamp : ℕ
  pub value : String

pub record Format : Type 0 where
  pub redis_key : String → String
  pub print : Entry → String
  pub parse : String → Option Entry

abbrev pub entry_at : ℕ → String → Entry
entry_at at hash = record { timestamp = at; value = hash }

-- The values not earlier than the start of the window.
abbrev pub values_from : ℕ → List Entry → List String
values_from start [] = []
values_from start (e ∷ entries) =
    let rest = values_from start entries in if leb start e.timestamp then e.value ∷ rest else rest

module _ (format : Format) where
  -- `bump`.
  unfoldable pub bump_hashes : (at : ℕ) → String → List String → Database → Result Database
  unfolding list_push
  bump_hashes at key hashes db =
      list_push (format.redis_key key) (map (λ hash. format.print (entry_at at hash)) hashes) db

  abbrev pub parse_all : List String → Result (List Entry)
  parse_all [] = ok []
  parse_all (text ∷ texts) = elim (format.parse text) [
    | none ↦ err (failed "Unexpected token in JSON")
    | some e ↦ parse_all texts >>= λ entries. ok (e ∷ entries)
  ]

  -- `getData`.
  unfoldable pub get_data : String → Database → Result (List Entry)
  unfolding get_list
  get_data key db = get_list (format.redis_key key) db >>= parse_all

  -- `getHashes`.
  unfoldable pub get_hashes : String → (start : ℕ) → Database → Result (List String)
  unfolding get_data sort add_all
  get_hashes key start db =
      get_data key db >>= λ entries. ok (sort (add_all (values_from start entries) []))

  -- The loop of `fetchHashes`.
  unfoldable pub collect_hashes :
      List String → (start : ℕ) → Database → List String → Result (List String)
  unfolding get_hashes add_all
  collect_hashes [] start db seen = ok seen
  collect_hashes (key ∷ keys) start db seen =
      get_hashes key start db >>= λ hashes. collect_hashes keys start db (add_all hashes seen)

  -- `fetchHashes`.
  unfoldable pub fetch_hashes : List String → (start : ℕ) → Database → Result (List String)
  unfolding collect_hashes sort
  fetch_hashes keys start db = collect_hashes keys start db [] >>= λ hashes. ok (sort hashes)

  -- `fetchCounts`.
  unfoldable pub fetch_counts :
      List String → (at window_ms : ℕ) → (add_hashes : List String) → Database → Result (List ℕ)
  unfolding fetch_hashes add_all
  fetch_counts [] at window_ms add_hashes db = ok []
  fetch_counts (key ∷ keys) at window_ms add_hashes db = do
    hashes ← fetch_hashes (key ∷ []) (at - window_ms) db
    rest ← fetch_counts keys at window_ms add_hashes db
    ok (length (add_all (hashes ++ add_hashes) []) ∷ rest)
