-- ===== src/Value/Tests.antt =====
-- Inputs whose truth is easy to follow in SqrlObject.isTruthy.
use sqrl.Prelude.{◌≡◌, refl, true, false, []}
use sqrl.Value.{null, number, buffer, array, object, nil, cons, end, is_truthy}

truth_tests :
    (is_truthy (number 0) ≡ false)
    × (is_truthy (number 2) ≡ true)
    × (is_truthy (array (cons null nil)) ≡ false)
    × (is_truthy (array (cons (number 0) nil)) ≡ true)
    × (is_truthy (object end) ≡ false)
    × (is_truthy (buffer []) ≡ false)
unfolding is_truthy
truth_tests = (refl, refl, refl, refl, refl, refl)
