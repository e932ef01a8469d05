-- ===== src/X402/Numbers.antt =====
-- The number parsing that the files of packages/x402-client/src share: `Number.parseInt(text, 10)` and
-- the test that follows it.
pub mod Printed
use stackflow.Common.{ℕ, Bool, ◌==◌, Option, none, some, [], ◌∷◌, ltb, if◌then◌else◌, String}
use stackflow.Js.Text.{Text, is_digit, is_empty, trim_start}
use stackflow.Js.Outcome.{Outcome, ok, err, must_be_positive_integer, must_be_uint_string}
use stackflow.Js.Value.{Value, str, is_nullish, or_else, to_text}
use stackflow.Js.Double.{number_of}
use stackflow.Js.Text.{is_unsigned}
use stackflow.Agent.Utils.{trimmed_text}

-- The digits that a text begins with
unfoldable pub leading_digits : Text → Text
leading_digits [] = []
leading_digits (c ∷ s) = let rest = leading_digits s in if is_digit c then c ∷ rest else []

-- A plus sign is read over. After a minus sign the number is not positive, or NaN.
unfoldable pub after_plus : Text → Text
after_plus [] = []
after_plus (c ∷ s) = if c == b'+' then s else c ∷ s

unfoldable pub if_positive : Option ℕ → Option ℕ
if_positive none = none
if_positive (some n) = if ltb 0 n then some n else none

-- `Number.parseInt(text, 10)` where that is finite and above 0
unfoldable pub parse_positive : Text → Option ℕ
parse_positive text = if_positive (number_of (leading_digits (after_plus (trim_start text))))

or_not_positive : String → Option ℕ → Outcome ℕ
or_not_positive field none = err (must_be_positive_integer field)
or_not_positive field (some n) = ok n

-- `assertPositiveInteger`
unfoldable pub assert_positive_integer : Value → String → Outcome ℕ
unfolding or_not_positive
assert_positive_integer v field =
    or_not_positive field (parse_positive (to_text (or_else v (str []))))

is_blank : Value → Bool
is_blank (str t) = is_empty t
is_blank v = is_nullish v

-- `normalizeInt` and `parsePositiveInt`: a fallback for undefined, null and the empty text
unfoldable pub normalize_int : Value → ℕ → String → Outcome ℕ
unfolding is_blank or_not_positive
normalize_int v fallback field =
    if is_blank v then ok fallback else or_not_positive field (parse_positive (to_text v))

-- `assertUintString`
unfoldable pub assert_uint_string : Value → String → Outcome Text
assert_uint_string v field =
    let text = trimmed_text v in
    if is_unsigned text then ok text else err (must_be_uint_string field)
