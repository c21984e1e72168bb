-- ===== src/Redis/Label/Laws.antt =====
-- The labels in redis (RedisLabelService.ts) are a set of labels for each entity.
use sqrl.Prelude.{
  String, Bool, List, [], ◌∷◌, ◌&&◌, if◌then◌else◌, lookup-insert, str_eq, All, ◌≡◌, refl, ◌∙◌,
  Bool-cases, inl, inr, ap, arith,
}
use sqrl.Redis.Mock.{text, Database, get, del, set, lookup-delete}
use sqrl.Redis.Label.{add_label, remove_label, has_label}

-- An effect of a script on a label.
pub record Change : Type 0 where
  pub added : Bool
  pub entity : String
  pub label : String

-- The set of labels, as one label sees it: the last change of it counts.
abbrev pub labelled : (entity label : String) → List Change → Bool → Bool
labelled entity label [] before = before
labelled entity label (c ∷ changes) before =
    labelled entity label changes
      (if str_eq c.entity entity && str_eq c.label label then c.added else before)

module _ (label_key : (entity label : String) → String) where
  abbrev pub change_label : Change → Database → Database
  change_label c db =
      if c.added
      then add_label label_key c.entity c.label db
      else remove_label label_key c.entity c.label db

  abbrev pub change_labels : List Change → Database → Database
  change_labels [] db = db
  change_labels (c ∷ changes) db = change_labels changes (change_label c db)

  -- The label shares its key with no other label that is changed.
  abbrev pub IsApart : (entity label : String) → Change → Type 0
  IsApart entity label c =
      str_eq (label_key c.entity c.label) (label_key entity label)
      ≡ (str_eq c.entity entity && str_eq c.label label)

  module _ (entity label : String) where
    has_label-change :
        (c : Change) (db : Database)
        → has_label label_key entity label (change_label c db) ≡ (
            if str_eq (label_key c.entity c.label) (label_key entity label)
            then c.added
            else has_label label_key entity label db)
    unfolding has_label add_label remove_label set del get
    has_label-change c db = elim (Bool-cases c.added) [
      | inl added ↦
          rw
            (
              added,
              lookup-insert (label_key c.entity c.label) (label_key entity label) (text "1") db,
            )
            ground arith
      | inr removed ↦
          rw (removed, lookup-delete (label_key c.entity c.label) (label_key entity label) db)
            ground arith
    ]

    -- What `hasLabel` answers after any changes of labels is what the set of labels says: the last change
    -- of the label counts, and without one the label is as it was. The hash must keep the label apart from
    -- the others that are changed, and in memory no label expires.
    pub has_label-change_labels :
        (changes : List Change) (db : Database)
        → All (IsApart entity label) changes
        → has_label label_key entity label (change_labels changes db)
          ≡ labelled entity label changes (has_label label_key entity label db)
    has_label-change_labels [] db apart = refl
    has_label-change_labels (c ∷ changes) db (here, apart) =
        has_label-change_labels changes (change_label c db) apart
        ∙ ap (labelled entity label changes) (has_label-change c db ∙ rw here refl)
