-- ===== src/Js/Text/Decimal.antt =====
-- `toString(10)` and `BigInt(text)` of a natural number.
use stackflow.Common.{
  ℕ, zero, suc, ◌+◌, ◌-◌, ◌*◌, ◌/◌, ◌%◌, ◌≤◌, ◌<◌, ◌≡◌, refl, true, false, [], ◌∷◌, ◌++◌, arith,
  ltb, Bool-cases, inl, inr,
}
use stackflow.Js.Text.{
  Text, is_empty, all_digits, is_unsigned, big_from, big_int, decimal_from, decimal,
}

big_from-append : (acc : ℕ) (s t : Text) → big_from acc (s ++ t) ≡ big_from (big_from acc s) t
unfolding big_from
big_from-append acc [] t = refl
big_from-append acc (c ∷ s) t = big_from-append (acc * 10 + (c - b'0')) s t

big_int-decimal_from : (fuel n : ℕ) → n ≤ fuel → big_from 0 (decimal_from fuel n) ≡ n
unfolding decimal_from
big_int-decimal_from zero n h = unfold big_from in omega arith
big_int-decimal_from (suc fuel) n h = elim (Bool-cases (ltb n 10)) [
  | inl small ↦ rw small (unfold big_from in omega arith)
  | inr large ↦
      let smaller : n / 10 ≤ fuel = ground arith in
      rw (large, big_from-append, big_int-decimal_from fuel (n / 10) smaller)
        (unfold big_from in omega arith)
]

-- `BigInt(n.toString(10))` is `n`.
pub big_int-decimal : (n : ℕ) → big_int (decimal n) ≡ n
unfolding big_int decimal
big_int-decimal n = big_int-decimal_from n n (omega arith)

all_digits-append :
    (s t : Text) → all_digits s ≡ true → all_digits t ≡ true → all_digits (s ++ t) ≡ true
unfolding all_digits
all_digits-append [] t h k = k
all_digits-append (c ∷ s) t h k = ground (arith, all_digits-append s t)

is_digit_of_lt : (d : ℕ) → d < 10 → all_digits ((b'0' + d) ∷ []) ≡ true
unfolding all_digits
is_digit_of_lt d h = ground arith

all_digits-decimal_from : (fuel n : ℕ) → all_digits (decimal_from fuel n) ≡ true
unfolding decimal_from
all_digits-decimal_from zero n = is_digit_of_lt (n % 10) (omega arith)
all_digits-decimal_from (suc fuel) n = elim (Bool-cases (ltb n 10)) [
  | inl small ↦ rw small (is_digit_of_lt n (ground arith))
  | inr large ↦ rw large (
      all_digits-append (decimal_from fuel (n / 10)) _ (all_digits-decimal_from fuel (n / 10))
        (is_digit_of_lt (n % 10) (omega arith)))
]

is_empty-append_cons : (s t : Text) (c : ℕ) → is_empty (s ++ c ∷ t) ≡ false
unfolding is_empty
is_empty-append_cons [] t c = refl
is_empty-append_cons (d ∷ s) t c = refl

is_empty-decimal_from : (fuel n : ℕ) → is_empty (decimal_from fuel n) ≡ false
unfolding decimal_from
is_empty-decimal_from zero n = unfold is_empty in refl
is_empty-decimal_from (suc fuel) n = elim (Bool-cases (ltb n 10)) [
  | inl small ↦ rw small (unfold is_empty in refl)
  | inr large ↦ rw large (is_empty-append_cons (decimal_from fuel (n / 10)) [] _)
]

-- A printed number passes the test /^\d+$/.
pub is_unsigned-decimal : (n : ℕ) → is_unsigned (decimal n) ≡ true
unfolding decimal
is_unsigned-decimal n =
    let digits = all_digits-decimal_from n n in
    let full = is_empty-decimal_from n n in unfold is_unsigned in cc (digits, full)
