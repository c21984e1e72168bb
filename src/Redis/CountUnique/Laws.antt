-- ===== src/Redis/CountUnique/Laws.antt =====
-- The hashes that RedisCountUnique.ts finds are those of the bumps in the window.
use sqrl.Prelude.{
  ℕ, String, Bool, List, [], ◌∷◌, ◌++◌, map, some, Result, ok, ◌>>=◌, ◌&&◌, leb, any, contains,
  contains-append, contains-add_all, add_all, if◌then◌else◌, ◌≡◌, refl, ap, ◌∙◌, bind-eq-ok, arith,
  All, str_eq, Bool-cases, inl, inr, lookup, insert, lookup-insert, eq_iff,
}
use mathlib.Core.List.{append_assoc, append-nil}
use sqrl.Where.Text.{sort, contains-sort}
use sqrl.Redis.Mock.{Database, items, as_list, get_list, list_push}
use sqrl.Redis.CountUnique.{
  Entry, Format, entry_at, values_from, bump_hashes, parse_all, get_data, get_hashes, fetch_hashes,
}

-- One call of `bump`.
pub record Bump : Type 0 where
  pub at : ℕ
  pub key : String
  pub hashes : List String

abbrev entries_at : ℕ → List String → List Entry
entries_at at [] = []
entries_at at (hash ∷ hashes) = entry_at at hash ∷ entries_at at hashes

-- The entries of the bumps of a key, in their order.
abbrev pub entries_of : String → List Bump → List Entry
entries_of key [] = []
entries_of key (b ∷ bumps) =
    let rest = entries_of key bumps in
    if str_eq b.key key then entries_at b.at b.hashes ++ rest else rest

module _ (format : Format) where
  abbrev pub bump_all : List Bump → Database → Result Database
  bump_all [] db = ok db
  bump_all (b ∷ bumps) db = bump_hashes format b.at b.key b.hashes db >>= bump_all bumps

  -- The text of an entry is read back as it was written.
  abbrev pub IsReadBack : Entry → Type 0
  IsReadBack e = format.parse (format.print e) ≡ some e

  parse_all-print :
      (entries : List Entry)
      → All IsReadBack entries
      → parse_all format (map format.print entries) ≡ ok entries
  parse_all-print [] h = refl
  parse_all-print (e ∷ entries) (here, h) = rw (here, parse_all-print entries h) refl

  -- A bump of one key, as the list of a key sees it.
  get_list-bump :
      (b : Bump) (key : String) (db after : Database) (old : List String)
      → str_eq (format.redis_key b.key) (format.redis_key key) ≡ str_eq b.key key
      → get_list (format.redis_key key) db ≡ ok old
      → bump_hashes format b.at b.key b.hashes db ≡ ok after
      → get_list (format.redis_key key) after
        ≡ ok (
            if str_eq b.key key
            then old ++ map (λ hash. format.print (entry_at b.at hash)) b.hashes
            else old)
  unfolding bump_hashes list_push get_list
  get_list-bump b key db after old apart before e =
      let put_at = format.redis_key b.key in
      let texts = map (λ hash. format.print (entry_at b.at hash)) b.hashes in
      let (was, at_key, put) =
        bind-eq-ok (as_list (lookup put_at db))
          (λ old. ok (insert put_at (items (old ++ texts)) db)) e in
      let same : insert put_at (items (was ++ texts)) db ≡ after = cc in
      let found = lookup-insert put_at (format.redis_key key) (items (was ++ texts)) db in
      elim (Bool-cases (str_eq b.key key)) [
        | inl of_key ↦
            let one_key : put_at ≡ format.redis_key key =
              (eq_iff put_at (format.redis_key key)).0 (apart ∙ of_key) in
            let at_asked : as_list (lookup (format.redis_key key) db) ≡ ok was =
              rw (← one_key) at_key in
            let one_list : was ≡ old = cc in rw (← same, found, apart, of_key, one_list) refl
        | inr other ↦ rw (← same, found, apart, other) before
      ]

  map-entries_at :
      (at : ℕ) (hashes : List String)
      → map (λ hash. format.print (entry_at at hash)) hashes
        ≡ map format.print (entries_at at hashes)
  map-entries_at at [] = refl
  map-entries_at at (hash ∷ hashes) =
      ap (λ (r : List String). format.print (entry_at at hash) ∷ r) (map-entries_at at hashes)

  map-append :
      (es fs : List Entry)
      → map format.print (es ++ fs) ≡ map format.print es ++ map format.print fs
  map-append [] fs = refl
  map-append (e ∷ es) fs = ap (λ (r : List String). format.print e ∷ r) (map-append es fs)

  -- The key shares its place in redis with no other key that is bumped.
  abbrev pub IsApart : String → Bump → Type 0
  IsApart key b = str_eq (format.redis_key b.key) (format.redis_key key) ≡ str_eq b.key key

  get_list-bumps :
      (bumps : List Bump) (key : String) (db after : Database) (old : List String)
      → All (IsApart key) bumps
      → get_list (format.redis_key key) db ≡ ok old
      → bump_all bumps db ≡ ok after
      → get_list (format.redis_key key) after ≡ ok (old ++ map format.print (entries_of key bumps))
  get_list-bumps [] key db after old apart before e =
      let same : db ≡ after = cc in rw (← same, append-nil old) before
  get_list-bumps (b ∷ bumps) key db after old (here, apart) before e =
      let (next, bumped, rest) =
        bind-eq-ok (bump_hashes format b.at b.key b.hashes db) (bump_all bumps) e in
      let seen = get_list-bump b key db next old here before bumped in
      elim (Bool-cases (str_eq b.key key)) [
        | inl of_key ↦
            let texts = map (λ hash. format.print (entry_at b.at hash)) b.hashes in
            let now : get_list (format.redis_key key) next ≡ ok (old ++ texts) =
              seen ∙ rw of_key refl in
            get_list-bumps bumps key next after (old ++ texts) apart now rest
            ∙ rw
                (
                  of_key,
                  map-append (entries_at b.at b.hashes) (entries_of key bumps),
                  map-entries_at b.at b.hashes,
                )
                (ap ok (
                  append_assoc old (map format.print (entries_at b.at b.hashes))
                    (map format.print (entries_of key bumps))))
        | inr other ↦
            let now : get_list (format.redis_key key) next ≡ ok old = seen ∙ rw other refl in
            rw other (get_list-bumps bumps key next after old apart now rest)
      ]

  -- No bump meets a text where every key has a list.
  abbrev IsLists : Database → Type 0
  IsLists db = (k : String) → (values : List String) × (get_list k db ≡ ok values)

  bump_all-total :
      (bumps : List Bump) (db : Database)
      → IsLists db
      → (after : Database) × (bump_all bumps db ≡ ok after)
  unfolding bump_hashes list_push get_list
  bump_all-total [] db lists = (db, refl)
  bump_all-total (b ∷ bumps) db lists =
      let put_at = format.redis_key b.key in
      let texts = map (λ hash. format.print (entry_at b.at hash)) b.hashes in
      let (old, at_key) = lists put_at in
      let bumped : bump_hashes format b.at b.key b.hashes db
          ≡ ok (insert put_at (items (old ++ texts)) db) =
        rw at_key refl in
      let still : IsLists (insert put_at (items (old ++ texts)) db) = λ k.
        let found = lookup-insert put_at k (items (old ++ texts)) db in
        elim (Bool-cases (str_eq put_at k)) [
          | inl here ↦ (old ++ texts, rw (found, here) refl)
          | inr other ↦ let (values, e) = lists k in (values, rw (found, other) e)
        ] in
      rw bumped (bump_all-total bumps (insert put_at (items (old ++ texts)) db) still)

-- A bump of the key in the window with the hash.
abbrev pub is_seen : (key : String) (start : ℕ) (hash : String) → Bump → Bool
is_seen key start hash b = str_eq b.key key && (leb start b.at && contains b.hashes hash)

values_from-append :
    (start : ℕ) (es fs : List Entry)
    → values_from start (es ++ fs) ≡ values_from start es ++ values_from start fs
values_from-append start [] fs = refl
values_from-append start (e ∷ es) fs = ground (arith, values_from-append start es fs)

contains-values_at :
    (start at : ℕ) (hashes : List String) (hash : String)
    → contains (values_from start (entries_at at hashes)) hash
      ≡ (leb start at && contains hashes hash)
unfolding contains
contains-values_at start at [] hash = ground arith
contains-values_at start at (h ∷ hashes) hash =
    ground (arith, contains-values_at start at hashes hash)

contains-values_of :
    (key : String) (start : ℕ) (bumps : List Bump) (hash : String)
    → contains (values_from start (entries_of key bumps)) hash ≡ any (is_seen key start hash) bumps
unfolding contains
contains-values_of key start [] hash = refl
contains-values_of key start (b ∷ bumps) hash = elim (Bool-cases (str_eq b.key key)) [
  | inl of_key ↦
      rw
        (
          of_key,
          values_from-append start (entries_at b.at b.hashes) (entries_of key bumps),
          contains-append (values_from start (entries_at b.at b.hashes))
              (values_from start (entries_of key bumps)) hash,
          contains-values_at start b.at b.hashes hash,
          contains-values_of key start bumps hash,
        )
        refl
  | inr other ↦ rw (other, contains-values_of key start bumps hash) refl
]

-- Any bumps of an empty database are stored, and fetchHashes then answers with the hashes of the bumps of
-- the key from the start of the window on, whatever the order of the bumps. The hash of keys must keep
-- the key apart from the others that are bumped, and the JSON text of an entry must be read back.
pub fetch_hashes-seen :
    (format : Format) (bumps : List Bump) (key : String) (start : ℕ)
    → All (IsApart format key) bumps
    → All (IsReadBack format) (entries_of key bumps)
    → (db : Database) × (bump_all format bumps [] ≡ ok db)
      × ((hashes : List String) × (fetch_hashes format (key ∷ []) start db ≡ ok hashes)
          × ((hash : String) → contains hashes hash ≡ any (is_seen key start hash) bumps))
unfolding fetch_hashes get_hashes get_data get_list contains
fetch_hashes-seen format bumps key start apart readable =
    let (db, e) = bump_all-total format bumps [] (λ k. ([], refl)) in
    let stored = get_list-bumps format bumps key [] db [] apart refl e in
    let values = values_from start (entries_of key bumps) in
    (
      db,
      e,
      (
        sort (add_all (sort (add_all values [])) []),
        rw (stored, parse_all-print format (entries_of key bumps) readable) refl,
        λ hash.
            contains-sort (add_all (sort (add_all values [])) []) hash
            ∙ contains-add_all (sort (add_all values [])) hash []
            ∙ rw
                (
                  contains-sort (add_all values []) hash,
                  contains-add_all values hash [],
                  contains-values_of key start bumps hash,
                )
                (ground arith),
      ),
    )
