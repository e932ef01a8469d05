-- ===== src/Js/Text.antt =====
-- JavaScript strings as lists of UTF-16 code units, and the string operations that
-- packages/stackflow-agent/src/utils.js and its neighbours use: comparison, `trim`,
-- `toLowerCase`, the tests /^\d+$/ and /^0x[0-9a-f]+$/, `BigInt(text)` and `toString(10)`.
pub mod Decimal
pub mod Shape
pub mod Order
use Prim.Native.Char.{code}
use stackflow.Common.{
  ℕ, zero, suc, ◌+◌, ◌-◌, ◌*◌, ◌/◌, ◌%◌, String, ◌≡◌, refl, Bool, true, false, not, ◌&&◌, ◌||◌, ◌↔◌,
  ap, Option, none, some, List, [], ◌∷◌, ◌++◌, arith, leb, ltb, ◌==◌, if◌then◌else◌,
}

abbrev pub Text : Type 0
Text = List ℕ

-- The code units of a literal (all literals of the program are ASCII).
unfoldable pub codes : String → Text
codes String.[] = []
codes (String.◌∷◌ c s) = code c ∷ codes s

-- `===` on strings
unfoldable pub text_eq : Text → Text → Bool
text_eq [] [] = true
text_eq (x ∷ xs) (y ∷ ys) = x == y && text_eq xs ys
text_eq _ _ = false

pub text_eq_iff : (s t : Text) → (text_eq s t ≡ true) ↔ (s ≡ t)
unfolding text_eq
text_eq_iff [] [] = ground arith
text_eq_iff (x ∷ xs) (y ∷ ys) = ground (arith, text_eq_iff xs ys)
text_eq_iff [] (y ∷ ys) = ground arith
text_eq_iff (x ∷ xs) [] = ground arith

pub text_eq_refl : (s : Text) → text_eq s s ≡ true
text_eq_refl s = (text_eq_iff s s).1 refl

-- `a < b` on strings, by code units
unfoldable pub text_lt : Text → Text → Bool
text_lt [] [] = false
text_lt [] (y ∷ ys) = true
text_lt (x ∷ xs) [] = false
text_lt (x ∷ xs) (y ∷ ys) = ltb x y || (x == y && text_lt xs ys)

unfoldable pub is_empty : Text → Bool
is_empty [] = true
is_empty (_ ∷ _) = false

-- WhiteSpace and LineTerminator, which `trim` removes
unfoldable pub is_space : ℕ → Bool
is_space c =
    (leb 9 c && leb c 13)
    || c == 32
    || c == 160
    || c == 5760
    || (leb 8192 c && leb c 8202)
    || c == 8232
    || c == 8233
    || c == 8239
    || c == 8287
    || c == 12288
    || c == 65279

unfoldable pub trim_start : Text → Text
trim_start [] = []
trim_start (c ∷ s) = let rest = trim_start s in if is_space c then rest else c ∷ s

cons_unless_blank : ℕ → Text → Text
cons_unless_blank c [] = if is_space c then [] else c ∷ []
cons_unless_blank c (d ∷ s) = c ∷ d ∷ s

unfoldable pub trim_end : Text → Text
unfolding cons_unless_blank
trim_end [] = []
trim_end (c ∷ s) = cons_unless_blank c (trim_end s)

unfoldable pub trim : Text → Text
unfolding trim_start trim_end is_space
trim s = trim_end (trim_start s)

unfoldable pub is_digit : ℕ → Bool
is_digit c = leb b'0' c && leb c b'9'

unfoldable pub all_digits : Text → Bool
unfolding is_digit
all_digits [] = true
all_digits (c ∷ s) = is_digit c && all_digits s

-- /^\d+$/
unfoldable pub is_unsigned : Text → Bool
unfolding is_empty all_digits
is_unsigned s = not (is_empty s) && all_digits s

-- `BigInt(text)` of a text of digits
unfoldable pub big_from : ℕ → Text → ℕ
big_from acc [] = acc
big_from acc (c ∷ s) = big_from (acc * 10 + (c - b'0')) s

unfoldable pub big_int : Text → ℕ
unfolding big_from
big_int s = big_from 0 s

-- `toString(10)`; the fuel bounds the number of digits.
unfoldable pub decimal_from : ℕ → ℕ → Text
decimal_from zero n = (b'0' + n % 10) ∷ []
decimal_from (suc fuel) n =
    let longer = decimal_from fuel (n / 10) ++ (b'0' + n % 10) ∷ [] in
    if ltb n 10 then (b'0' + n) ∷ [] else longer

unfoldable pub decimal : ℕ → Text
unfolding decimal_from
decimal n = decimal_from n n

-- `toLowerCase` on ASCII; no other code unit lowers to a hexadecimal digit or to `x`.
unfoldable pub lower_unit : ℕ → ℕ
lower_unit c = if leb b'A' c && leb c b'Z' then c + 32 else c

unfoldable pub lower : Text → Text
unfolding lower_unit
lower [] = []
lower (c ∷ s) = lower_unit c ∷ lower s

unfoldable pub is_hex_digit : ℕ → Bool
is_hex_digit c = (leb b'0' c && leb c b'9') || (leb b'a' c && leb c b'f')

unfoldable pub all_hex : Text → Bool
unfolding is_hex_digit
all_hex [] = true
all_hex (c ∷ s) = is_hex_digit c && all_hex s

-- `text.startsWith("0x") ? text : "0x" + text`
unfoldable pub with_0x : Text → Text
with_0x (a ∷ b ∷ s) = if a == b'0' && b == b'x' then a ∷ b ∷ s else b'0' ∷ b'x' ∷ a ∷ b ∷ s
with_0x s = b'0' ∷ b'x' ∷ s

-- /^0x[0-9a-f]+$/
unfoldable pub is_0x_hex : Text → Bool
unfolding all_hex is_empty
is_0x_hex (a ∷ b ∷ s) = a == b'0' && b == b'x' && not (is_empty s) && all_hex s
is_0x_hex _ = false
