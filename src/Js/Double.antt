-- ===== src/Js/Double.antt =====
-- `Number(text)` of a decimal text: the nearest double, ties to even; none is Infinity.
use stackflow.Common.{
  ℕ, zero, suc, ◌+◌, ◌-◌, ◌*◌, ◌/◌, ◌%◌, ◌≤◌, ◌<◌, ◌≡◌, refl, true, false, Option, none, some, ltb,
  leb, arith, if◌then◌else◌,
}
use Prim.Native.Nat.{◌^◌}
use mathlib.Core.Logic.{◌≢◌}
use mathlib.Core.Path.{sym, ◌∙◌}
use mathlib.Core.Path.{ap}
use stackflow.Js.Text.{Text, big_int}

-- How many bits are above the 53 of the mantissa; the fuel is the number itself.
unfoldable pub excess_bits : ℕ → ℕ → ℕ
excess_bits zero n = 0
excess_bits (suc fuel) n = elim (ltb n (2 ^ 53)) [
  | true ↦ 0
  | false ↦ suc (excess_bits fuel (n / 2))
]

-- n / d, rounded to the nearest, ties to the even quotient
unfoldable pub round_even : ℕ → ℕ → ℕ
round_even n d =
    let q = n / d in
    let r = n % d in if ltb (2 * r) d then q else if ltb d (2 * r) then q + 1 else q + q % 2

unfoldable pub to_double : ℕ → Option ℕ
unfolding excess_bits round_even
to_double n =
    let unit = 2 ^ excess_bits n n in
    if leb (2 ^ 1024 - 2 ^ 970) n then none else some (round_even n unit * unit)

-- `Number(text)`
unfoldable pub number_of : Text → Option ℕ
unfolding to_double
number_of t = to_double (big_int t)

excess_bits_small : (fuel n : ℕ) → n < 2 ^ 53 → excess_bits fuel n ≡ 0
unfolding excess_bits
excess_bits_small zero n h = refl
excess_bits_small (suc fuel) n h =
    let small : ltb n (2 ^ 53) ≡ true = ground arith in rw (small, excess_bits)

round_even_one : (n : ℕ) → round_even n 1 * 1 ≡ n
unfolding round_even
round_even_one n = ground arith

-- Below 2 ^ 53 a number is itself.
pub to_double_exact : (n : ℕ) → n < 2 ^ 53 → to_double n ≡ some n
to_double_exact n h =
    let finite : leb (2 ^ 1024 - 2 ^ 970) n ≡ false = ground arith in
    let exact = round_even_one n in
    let bits = excess_bits_small n n h in unfold to_double in rw (finite, bits) (rw exact)

excess_bits_one : (n : ℕ) → 2 ^ 53 ≤ n → n < 2 ^ 54 → excess_bits n n ≡ 1
unfolding excess_bits
excess_bits_one zero h k = absurd (omega arith)
excess_bits_one (suc n) h k =
    let large : ltb (suc n) (2 ^ 53) ≡ false = ground arith in
    rw (large, excess_bits) (ap suc (excess_bits_small n (suc n / 2) (omega arith)))

to_double_even : (n : ℕ) → 2 ^ 53 ≤ n → n < 2 ^ 54 → to_double n ≡ some (round_even n 2 * 2)
to_double_even n h k =
    let finite : leb (2 ^ 1024 - 2 ^ 970) n ≡ false = ground arith in
    let bits = excess_bits_one n h k in unfold to_double in rw (finite, bits)

-- From 2 ^ 53 to 2 ^ 54 no odd number is a double.
pub to_double-odd : (n : ℕ) → 2 ^ 53 ≤ n → n < 2 ^ 54 → n % 2 ≡ 1 → to_double n ≢ some n
to_double-odd n h k odd e =
    let shown = sym (to_double_even n h k) ∙ e in
    let even : round_even n 2 * 2 ≡ n = cc shown in absurd (omega arith)

-- 2 ^ 53 + 1 is rounded down.
to_double_rounds : to_double (2 ^ 53 + 1) ≡ some (2 ^ 53)
unfolding to_double
to_double_rounds = refl
