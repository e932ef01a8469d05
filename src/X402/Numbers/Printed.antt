-- ===== src/X402/Numbers/Printed.antt =====
-- `Number.parseInt` (packages/x402-client/src) of a number that was printed.
use stackflow.Common.{ℕ, ◌<◌, ◌≡◌, refl, true, some, [], ◌∷◌, ltb, arith, String}
use Prim.Native.Nat.{◌^◌}
use stackflow.Js.Text.{Text, is_digit, is_space, all_digits, is_unsigned, trim_start, decimal}
use stackflow.Js.Text.Decimal.{big_int-decimal, is_unsigned-decimal}
use stackflow.Js.Outcome.{ok}
use stackflow.Js.Value.{number, nat, or_else, is_nullish, to_text}
use stackflow.Js.Double.{number_of, to_double_exact}
use stackflow.X402.Numbers.{
  leading_digits, after_plus, if_positive, parse_positive, assert_positive_integer,
}

leading_digits-all_digits : (t : Text) → all_digits t ≡ true → leading_digits t ≡ t
unfolding leading_digits all_digits
leading_digits-all_digits [] h = refl
leading_digits-all_digits (c ∷ t) h =
    let first : is_digit c ≡ true = ground arith in
    let rest : all_digits t ≡ true = ground arith in rw (first, leading_digits-all_digits t rest)

-- Nothing stands before the digits.
trim_start-all_digits : (t : Text) → all_digits t ≡ true → trim_start t ≡ t
unfolding trim_start all_digits is_digit is_space
trim_start-all_digits [] h = refl
trim_start-all_digits (c ∷ t) h = ground arith

after_plus-all_digits : (t : Text) → all_digits t ≡ true → after_plus t ≡ t
unfolding after_plus all_digits is_digit
after_plus-all_digits [] h = refl
after_plus-all_digits (c ∷ t) h = ground arith

pub parse_positive-decimal : (n : ℕ) → 0 < n → n < 2 ^ 53 → parse_positive (decimal n) ≡ some n
unfolding parse_positive number_of if_positive
parse_positive-decimal n pos small =
    let digits : all_digits (decimal n) ≡ true =
      let shown = is_unsigned-decimal n in unfold is_unsigned in ground arith in
    let positive : ltb 0 n ≡ true = ground arith in
    simp (
      trim_start-all_digits (decimal n) digits,
      after_plus-all_digits (decimal n) digits,
      leading_digits-all_digits (decimal n) digits,
      big_int-decimal n,
      to_double_exact n small,
      positive,
    )

pub assert_positive_integer-nat :
    (n : ℕ) (f : String) → 0 < n → n < 2 ^ 53 → assert_positive_integer (number (nat n)) f ≡ ok n
unfolding assert_positive_integer or_else is_nullish to_text
assert_positive_integer-nat n f pos small = simp (parse_positive-decimal n pos small)
