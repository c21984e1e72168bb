-- ===== src/Slots/Reason/Tests.antt =====
-- Tests for the reasons of rules.
use sqrl.Prelude.{
  String, List, [], ◌∷◌, map, length, ◌≤◌, ◌↔◌, none, some, ok, err, failed, ◌≡◌, refl,
}
use sqrl.Slots.Reason.{features_of_reason, fill_reason, build_when_cause}
use sqrl.Slots.Reason.Laws.{written, fill_reason-features}

features_test : features_of_reason "a ${User} $${X.y}$ ${} ${a-b" ≡ "User" ∷ "X.y" ∷ []
unfolding features_of_reason
features_test = refl

fill_test : fill_reason (some "ann" ∷ some "3" ∷ []) "by ${User}: ${Count}$" ≡ ok "by ann: 3$"
unfolding fill_reason
fill_test = refl

-- A feature that is null in a rule that fired.
null_test :
    build_when_cause (("R", "by ${User}") ∷ []) (("R", some (none ∷ [])) ∷ [])
    ≡ err (failed "Cannot read property 'toString' of null")
unfolding build_when_cause
null_test = refl

cause_test :
    build_when_cause (("R", "by ${User}") ∷ ("S", "") ∷ []) (("R", none) ∷ ("S", some []) ∷ [])
    ≡ ok (some (record { name = "S"; reason = "" } ∷ []))
unfolding build_when_cause
cause_test = refl

fill_reason-features_example :
    (fill_reason (map written (features_of_reason "by ${User}")) "by ${User}" ≡ ok "by ${User}")
    × ((values : List String)
        → ((filled : String) × (fill_reason (map some values) "by ${User}" ≡ ok filled))
          ↔ (length (features_of_reason "by ${User}") ≤ length values))
fill_reason-features_example = fill_reason-features "by ${User}"
