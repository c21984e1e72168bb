-- ===== src/Redis/Mock.antt =====
-- packages/sqrl-redis-functions/src/mocks/MockRedisService.ts: redis in memory. Keys are the hexadecimal
-- texts of buffers. Of the commands, those on texts and on lists are modelled; nothing expires.
use sqrl.Prelude.{
  ℕ, suc, String, Bool, true, false, List, [], ◌∷◌, ◌++◌, Option, none, some, Result, ok, err,
  failed, ◌>>=◌, ◌≡◌, lookup, insert, has_key, str_eq, eq_iff, if◌then◌else◌, arith, not,
}

-- What stands under a key: a text, or a list of texts.
pub data Stored : Type 0 where
  text : String → Stored
  items : List String → Stored

abbrev pub Database : Type 0
Database = List (String × Stored)

-- The mode of `set`.
pub data SetMode : Type 0 where
  always : SetMode
  if_missing : SetMode
  if_there : SetMode

-- `get`.
unfoldable pub get : String → Database → Option Stored
unfolding lookup
get key db = lookup key db

-- `delete this.db[key]`.
unfoldable pub delete : String → Database → Database
delete key [] = []
delete key ((name, stored) ∷ db) =
    let rest = delete key db in if str_eq name key then rest else (name, stored) ∷ rest

-- `del`, with the count of keys that were there.
unfoldable pub del : List String → Database → ℕ × Database
unfolding has_key delete
del [] db = (0, db)
del (key ∷ keys) db =
    let (count, after) = del keys (delete key db) in
    ((if has_key key db then suc count else count), after)

abbrev pub is_refused : SetMode → (exists : Bool) → Bool
is_refused always exists = false
is_refused if_missing exists = exists
is_refused if_there exists = not exists

-- `set`, and whether it did.
unfoldable pub set : SetMode → String → String → Database → Bool × Database
unfolding has_key insert
set mode key value db =
    if is_refused mode (has_key key db) then (false, db) else (true, insert key (text value) db)

abbrev pub as_list : Option Stored → Result (List String)
as_list none = ok []
as_list (some (items values)) = ok values
as_list (some (text _)) = err (failed "Expected array in mock redis")

-- `getList`.
unfoldable pub get_list : String → Database → Result (List String)
unfolding lookup
get_list key db = as_list (lookup key db)

-- `listPush`.
unfoldable pub list_push : String → List String → Database → Result Database
unfolding lookup insert
list_push key values db =
    as_list (lookup key db) >>= λ old. ok (insert key (items (old ++ values)) db)

pub lookup-delete :
    (key asked : String) (db : Database)
    → lookup asked (delete key db) ≡ (if str_eq key asked then none else lookup asked db)
unfolding lookup delete
lookup-delete key asked [] = ground arith
lookup-delete key asked ((name, stored) ∷ db) =
    ground (arith, lookup-delete key asked db, eq_iff name key, eq_iff name asked, eq_iff key asked)
