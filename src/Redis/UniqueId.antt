-- ===== src/Redis/UniqueId.antt =====
-- packages/sqrl-redis-functions/src/services/RedisUniqueId.ts: ids made of a time and a remainder, and
-- the race of several requests for the id of one value. What is saved as JSON is read back as it was.
pub mod Laws
pub mod Tests
use sqrl.Prelude.{
  ℕ, ◌+◌, ◌-◌, ◌*◌, ◌^◌, Bool, List, [], ◌∷◌, ◌&&◌, Option, none, some, Result, ok, failed, ensure,
  ◌>>=◌, ◌>>◌, ltb, leb, get_elem?, set, if◌then◌else◌,
}

abbrev pub timestamp_bits : ℕ
timestamp_bits = 40

abbrev pub timestamp_epoch : ℕ
timestamp_epoch = 1262304000000

abbrev pub remainder_bits : ℕ
remainder_bits = 23

pub record SimpleId : Type 0 where
  pub time_ms : ℕ
  pub remainder : ℕ

-- The constructor of SimpleId.
unfoldable pub new_simple_id : (time_ms remainder : ℕ) → Result SimpleId
new_simple_id time_ms remainder = do
  ensure (leb timestamp_epoch time_ms && ltb (time_ms - timestamp_epoch) (2 ^ timestamp_bits))
      (failed "timeMs value is invalid")
  ensure (ltb remainder (2 ^ remainder_bits)) (failed "timeMs value is invalid")
  ok (record { time_ms = time_ms; remainder = remainder })

-- `getBigInt`.
unfoldable pub get_big_int : SimpleId → ℕ
get_big_int id = id.time_ms * 2 ^ timestamp_bits + id.remainder

-- A call of `fetch`: before its first GET, with a new id to save, after a SET that was refused,
-- ended with an id, or ended with the broken invariant.
pub data Fetcher : Type 0 where
  starting : Fetcher
  created : SimpleId → Fetcher
  raced : Fetcher
  finished : SimpleId → Fetcher
  broken : Fetcher

-- One command of `fetch` on what is saved under its key; `fresh` is the id that `create` brings if
-- one is needed.
unfoldable pub fetch_step :
    (fresh : SimpleId) → Option SimpleId → Fetcher → Option SimpleId × Fetcher
fetch_step fresh none starting = (none, created fresh)
fetch_step fresh (some saved) starting = (some saved, finished saved)
fetch_step fresh none (created id) = (some id, finished id)
fetch_step fresh (some saved) (created id) = (some saved, raced)
fetch_step fresh none raced = (none, broken)
fetch_step fresh (some saved) raced = (some saved, finished saved)
fetch_step fresh saved (finished id) = (saved, finished id)
fetch_step fresh saved broken = (saved, broken)

-- Several calls for one key, and what is saved under it.
pub record Fetch : Type 0 where
  pub saved : Option SimpleId
  pub fetchers : List Fetcher

abbrev pub move_found : SimpleId → ℕ → Option Fetcher → Fetch → Fetch
move_found fresh i none w = w
move_found fresh i (some f) w =
    let r = fetch_step fresh w.saved f in record { saved = r.0; fetchers = set w.fetchers i r.1 }

abbrev pub move : SimpleId → ℕ → Fetch → Fetch
move fresh i w = move_found fresh i (get_elem? w.fetchers i) w

-- The calls in the order in which their commands reach redis.
unfoldable pub interleave : List (SimpleId × ℕ) → Fetch → Fetch
unfolding fetch_step
interleave [] w = w
interleave ((fresh, i) ∷ moves) w = interleave moves (move fresh i w)
