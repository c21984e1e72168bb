-- ===== src/Redis/Label.antt =====
-- packages/sqrl-redis-functions/src/services/RedisLabelService.ts on the redis in memory. The key of a
-- label, a hash of the number of its entity and of its name, is a parameter.
pub mod Laws
pub mod Tests
use sqrl.Prelude.{String, Bool, true, false, List, [], ◌∷◌, not, Option, none, some, str_eq}
use sqrl.Redis.Mock.{Stored, text, items, Database, get, del, set, always}

-- `!!rv`.
abbrev pub is_there : Option Stored → Bool
is_there none = false
is_there (some (text value)) = not (str_eq value "")
is_there (some (items values)) = true

module _ (label_key : (entity label : String) → String) where
  -- The callback of `addLabel`; in memory its `expire` does nothing.
  unfoldable pub add_label : (entity label : String) → Database → Database
  unfolding set
  add_label entity label db = (set always (label_key entity label) "1" db).1

  -- The callback of `removeLabel`.
  unfoldable pub remove_label : (entity label : String) → Database → Database
  unfolding del
  remove_label entity label db = (del (label_key entity label ∷ []) db).1

  -- `hasLabel`.
  unfoldable pub has_label : (entity label : String) → Database → Bool
  unfolding get
  has_label entity label db = is_there (get (label_key entity label) db)
