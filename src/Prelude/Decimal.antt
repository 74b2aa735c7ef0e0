-- ===== src/Prelude/Decimal.antt =====
-- `fmt`'s `%d` of a natural number.
use Prim.Native.Nat.{ℕ, zero, suc, ◌+◌, ◌/◌, ◌%◌}
use mathlib.Core.List.{[], ◌∷◌}
use khulnasoft_lab_vulnmap_l.Prelude.Tests.{ltb, if◌then◌else◌}
use khulnasoft_lab_vulnmap_l.Prelude.Strings.{Text}

-- One digit a round, the last digit first; the number itself bounds the rounds.
decimal_from : ℕ → ℕ → Text → Text
decimal_from zero n acc = acc
decimal_from (suc fuel) n acc =
    let rest = decimal_from fuel (n / 10) ((48 + n % 10) ∷ acc) in
    if ltb n 10 then (48 + n) ∷ acc else rest

unfoldable pub decimal : ℕ → Text
unfolding decimal_from
decimal n = decimal_from (suc n) n []
