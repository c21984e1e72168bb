-- ===== src/Redis/Label/Tests.antt =====
-- Tests and witnesses for labels.
use sqrl.Prelude.{true, false, String, [], ◌∷◌, ok, err, failed, List, ◌≡◌, refl}
use sqrl.Where.Text.{◌⧺◌}
use sqrl.Redis.Mock.{Database, items, text, set, if_missing, if_there, get_list, list_push, del}
use sqrl.Redis.Label.{add_label, remove_label, has_label}
use sqrl.Redis.Label.Laws.{Change, change_labels, has_label-change_labels}

abbrev key : String → String → String
key entity label = entity ⧺ "/" ⧺ label

abbrev db : Database
db = ("7/spammer", text "1") ∷ ("list", items ("a" ∷ [])) ∷ []

twice_test : set if_missing "7/spammer" "2" db ≡ (false, db)
unfolding set
twice_test = refl

missing_test : set if_there "8/spammer" "1" db ≡ (false, db)
unfolding set
missing_test = refl

list_test : get_list "7/spammer" db ≡ err (failed "Expected array in mock redis")
unfolding get_list
list_test = refl

push_test :
    list_push "list" ("b" ∷ []) db
    ≡ ok (("7/spammer", text "1") ∷ ("list", items ("a" ∷ "b" ∷ [])) ∷ [])
unfolding list_push
push_test = refl

del_test : del ("list" ∷ "none" ∷ []) db ≡ (1, ("7/spammer", text "1") ∷ [])
unfolding del
del_test = refl

abbrev changes : List Change
changes =
    record { added = true; entity = "8"; label = "spammer" }
    ∷ record { added = false; entity = "7"; label = "spammer" }
    ∷ []

has_label-change_labels_example : has_label key "7" "spammer" (change_labels key changes db) ≡ false
unfolding has_label add_label remove_label
has_label-change_labels_example =
    has_label-change_labels key "7" "spammer" changes db (refl, (refl, tt))
