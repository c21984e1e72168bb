-- ===== src/Stdlib/Logic/Tests.antt =====
-- The connectives on a few values.
use sqrl.Prelude.{◌⊎◌, ℕ, suc, true, false, List, [], ◌∷◌, map, any, some, ◌≡◌, refl, if◌then◌else◌}
use mathlib.Core.List.{Permᴰ}
use sqrl.Value.{Value, null, boolean, number, string, is_null, is_truthy}
use sqrl.Stdlib.Logic.{
  and_values, or_values, not_value, null_or, and_sequential, or_sequential, choice, coalesce,
  deliver, start_parallel,
}
use sqrl.Stdlib.Logic.Laws.{
  is_falsy, connectives, not_value-and_values, run_all, state_at_first, sequential-plain,
  choice-coalesce, IsFirst, is_given,
}
use sqrl.Stdlib.Logic.Completion.{or_parallel-or_values}

abbrev some_values : List Value
some_values = boolean true ∷ null ∷ number 0 ∷ string "x" ∷ []

value_tests :
    (and_values some_values ≡ boolean false)
    × (and_values (null ∷ boolean true ∷ []) ≡ null)
    × (or_values (null ∷ number 0 ∷ []) ≡ null)
    × (or_values some_values ≡ boolean true)
unfolding and_values or_values is_truthy
value_tests = (refl, refl, refl, refl)

connectives_example :
    (and_values some_values ≡ (
      if any is_falsy some_values then boolean false else null_or (any is_null some_values) true))
    × (or_values some_values ≡ (
        if any is_truthy some_values
        then boolean true
        else null_or (any is_null some_values) false))
connectives_example = connectives some_values

not_value-and_values_example :
    not_value (and_values some_values) ≡ or_values (map not_value some_values)
not_value-and_values_example = not_value-and_values some_values

-- Callbacks that count how often they are called.
abbrev counting : List (ℕ → Value × ℕ)
counting = (λ n. (boolean true, suc n)) ∷ (λ n. (number 0, suc n)) ∷ (λ n. (null, suc n)) ∷ []

counting_test : and_sequential counting 0 ≡ (boolean false, 2)
unfolding and_sequential is_truthy
counting_test = refl

sequential-plain_example :
    ((and_sequential counting 0).0 ≡ and_values (map (λ r. r.0) (run_all counting 0)))
    × ((and_sequential counting 0).1 ≡ state_at_first is_falsy 0 (run_all counting 0))
    × ((or_sequential counting 0).0 ≡ or_values (map (λ r. r.0) (run_all counting 0)))
    × ((or_sequential counting 0).1 ≡ state_at_first is_truthy 0 (run_all counting 0))
sequential-plain_example = sequential-plain counting 0

choice-coalesce_example :
    ((v : Value) × (choice (null ∷ number 4 ∷ []) ≡ some v)
      × IsFirst is_truthy (null ∷ number 4 ∷ []) v)
    × (((any is_given (null ∷ number 4 ∷ []) ≡ false) × (coalesce (null ∷ number 4 ∷ []) ≡ null))
        ⊎ (IsFirst is_given (null ∷ number 4 ∷ []) (coalesce (null ∷ number 4 ∷ []))
            × (is_given (coalesce (null ∷ number 4 ∷ [])) ≡ true)))
choice-coalesce_example = choice-coalesce null (number 4 ∷ [])

or_parallel-or_values_example :
    ((deliver (number 4 ∷ null ∷ []) (start_parallel 2)).answer
      ≡ some (or_values (null ∷ number 4 ∷ [])))
    × ((deliver (number 4 ∷ null ∷ []) (start_parallel 2)).faulted ≡ false)
or_parallel-or_values_example =
    or_parallel-or_values null (number 4 ∷ []) (number 4 ∷ null ∷ []) ∣ Permᴰ.swap refl refl ∣₁
