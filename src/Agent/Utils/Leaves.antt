-- ===== src/Agent/Utils/Leaves.antt =====
-- The helpers of packages/stackflow-agent/src/utils.js that read one field, and the forms of what
-- they return.
use stackflow.Common.{ℕ, String, ◌≡◌, refl, ap, true, false, [], arith}
use stackflow.Js.Text.{Text, is_empty, trim, all_digits, is_unsigned, big_int, decimal, is_0x_hex}
use stackflow.Js.Text.Decimal.{big_int-decimal, is_unsigned-decimal}
use stackflow.Js.Text.Shape.{trim_idem, trim-all_digits, prefixed_hex_stable}
use stackflow.Js.Outcome.{ok, >>=-eq-ok}
use stackflow.Js.Value.{Value, bigint, negative, str, or_else, to_text}
use stackflow.Agent.Utils.{
  trimmed_text, assert_non_empty_string, assert_non_empty, parse_unsigned_bigint,
  to_unsigned_string, normalize_hex,
}

-- A trimmed text that is not empty: a principal, a contract, a transaction.
abbrev pub IsName : Text → Type 0
IsName t = (trim t ≡ t) × (is_empty t ≡ false)

-- The decimal print of a natural number.
abbrev pub IsNumeral : Text → Type 0
IsNumeral t = (is_unsigned t ≡ true) × (decimal (big_int t) ≡ t)

abbrev pub IsHex : Text → Type 0
IsHex t = is_0x_hex t ≡ true

trimmed_text-str : (t : Text) → trimmed_text (str t) ≡ trim t
unfolding trimmed_text or_else to_text
trimmed_text-str t = refl

trimmed_text_idem : (v : Value) → trim (trimmed_text v) ≡ trimmed_text v
unfolding trimmed_text
trimmed_text_idem v = trim_idem (to_text (or_else v (str [])))

IsName-of_trimmed :
    (v : Value) {t : Text} → is_empty (trimmed_text v) ≡ false → trimmed_text v ≡ t → IsName t
IsName-of_trimmed v full e = (rw (← e) (trimmed_text_idem v), rw (← e) full)

pub assert_non_empty_string-IsName :
    (v : Value) (f : String) {t : Text} → assert_non_empty_string v f ≡ ok t → IsName t
unfolding assert_non_empty_string
assert_non_empty_string-IsName v f h = IsName-of_trimmed v (ground arith) (ground arith)

pub assert_non_empty-IsName :
    (v : Value) (f : String) {t : Text} → assert_non_empty v f ≡ ok t → IsName t
unfolding assert_non_empty
assert_non_empty-IsName v f h = IsName-of_trimmed v (ground arith) (ground arith)

pub assert_non_empty_string-str :
    (t : Text) (f : String) → IsName t → assert_non_empty_string (str t) f ≡ ok t
unfolding assert_non_empty_string
assert_non_empty_string-str t f (trimmed, full) = rw (trimmed_text-str, trimmed, full)

pub assert_non_empty-str : (t : Text) (f : String) → IsName t → assert_non_empty (str t) f ≡ ok t
unfolding assert_non_empty
assert_non_empty-str t f (trimmed, full) = rw (trimmed_text-str, trimmed, full)

pub IsNumeral-decimal : (n : ℕ) → IsNumeral (decimal n)
IsNumeral-decimal n = (is_unsigned-decimal n, ap decimal (big_int-decimal n))

pub parse_unsigned_bigint-str :
    (t : Text) (f : String) → IsNumeral t → parse_unsigned_bigint (str t) f ≡ ok (big_int t)
unfolding parse_unsigned_bigint
parse_unsigned_bigint-str t f (digits, _) =
    let shown : all_digits t ≡ true = unfold is_unsigned in ground arith in
    rw (trimmed_text-str, trim-all_digits t shown, digits)

pub to_unsigned_string-str :
    (t : Text) (f : String) → IsNumeral t → to_unsigned_string (str t) f ≡ ok t
unfolding to_unsigned_string
to_unsigned_string-str t f h = rw (parse_unsigned_bigint-str t f h) (ap ok (h.1))

IsNumeral-of_ok : (n : ℕ) (t : Text) → ok (decimal n) ≡ ok t → IsNumeral t
IsNumeral-of_ok n t h = let shown : decimal n ≡ t = cc in rw (← shown) (IsNumeral-decimal n)

pub to_unsigned_string-IsNumeral :
    (v : Value) (f : String) {t : Text} → to_unsigned_string v f ≡ ok t → IsNumeral t
unfolding to_unsigned_string
to_unsigned_string-IsNumeral (bigint n) f {t} h = IsNumeral-of_ok n t h
to_unsigned_string-IsNumeral (negative n) f h = cc
to_unsigned_string-IsNumeral v f {t} h =
    let (n, _, e) = >>=-eq-ok (parse_unsigned_bigint v f) (λ n. ok (decimal n)) h in
    IsNumeral-of_ok n t e

pub normalize_hex-IsHex : (v : Value) (f : String) {t : Text} → normalize_hex v f ≡ ok t → IsHex t
unfolding normalize_hex
normalize_hex-IsHex v f h = ground arith

pub normalize_hex-str : (t : Text) (f : String) → IsHex t → normalize_hex (str t) f ≡ ok t
unfolding normalize_hex
normalize_hex-str t f h =
    let (trimmed, low, prefixed) = prefixed_hex_stable t h in
    rw (trimmed_text-str, trimmed, low, prefixed, h)
