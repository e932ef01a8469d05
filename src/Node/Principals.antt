-- ===== src/Node/Principals.antt =====
-- server/src/principal-utils.ts: numbers, hexadecimal text, contract ids, principals and the order of
-- the two principals in the key of a pipe. The Clarity serialisation of a principal is a parameter.
pub mod Ordered
use stackflow.Common.{
  ℕ, ◌+◌, ◌*◌, Bool, true, false, not, ◌&&◌, ◌||◌, Option, none, some, List, [], ◌∷◌, ltb, ◌==◌,
  length, if◌then◌else◌, String,
}
use mathlib.Core.Option
use stackflow.Js.Text.{
  Text, codes, text_eq, is_empty, trim, lower, is_0x_hex, is_unsigned, big_int, decimal,
}
use stackflow.Js.Outcome.{
  Outcome, ok, err, ◌>>=◌, ◌>>◌, require, must_be_uint, invalid_contract_id, same_principals,
  must_be_principal_string,
}
use stackflow.Js.Value.{Value, str, number, nat, other, bigint, is_nullish}

-- -1, 0 and 1
pub data Order : Type 0 where
  less same greater : Order

unfoldable pub compare_bytes : List ℕ → List ℕ → Order
compare_bytes [] [] = same
compare_bytes [] (y ∷ ys) = less
compare_bytes (x ∷ xs) [] = greater
compare_bytes (x ∷ xs) (y ∷ ys) =
    let rest = compare_bytes xs ys in if ltb x y then less else (if ltb y x then greater else rest)

-- `value.startsWith('0x')`
starts_with_0x : Text → Bool
starts_with_0x (a ∷ b ∷ s) = a == b'0' && b == b'x'
starts_with_0x _ = false

-- `normalizeHex`: the prefix is looked for before the text is lowered, so "0XAB" gives "0x0xab".
unfoldable pub normalize_hex_text : Text → Text
unfolding starts_with_0x
normalize_hex_text input =
    let value = trim input in
    if starts_with_0x value then lower value else b'0' ∷ b'x' ∷ lower value

unfoldable pub is_valid_hex : Text → ℕ → Bool
is_valid_hex input bytes =
    let value = normalize_hex_text input in is_0x_hex value && length value == bytes * 2 + 2

-- Whether "e+" is within the text
has_positive_exponent : Text → Bool
has_positive_exponent (e ∷ sign ∷ t) =
    let rest = has_positive_exponent (sign ∷ t) in (e == b'e' && sign == b'+') || rest
has_positive_exponent _ = false

-- `Number.isInteger(value) && value >= 0` of a number that is no `nat`, from the text that `String`
-- gives: rounded digits, or a positive exponent and no minus sign
is_large_uint : Text → Bool
unfolding has_positive_exponent
is_large_uint [] = false
is_large_uint (c ∷ s) = is_unsigned (c ∷ s) || (not (c == b'-') && has_positive_exponent (c ∷ s))

unfoldable pub parse_uint : Value → Outcome Text
unfolding is_large_uint
parse_uint (bigint n) = ok (decimal n)
parse_uint (number (nat n)) = ok (decimal n)
parse_uint (number (other t)) = if is_large_uint t then ok t else err must_be_uint
parse_uint (str t) =
    if is_unsigned (trim t) then ok (decimal (big_int (trim t))) else err must_be_uint
parse_uint _ = err must_be_uint

unfoldable pub is_blank_input : Value → Bool
is_blank_input (str t) = is_empty t
is_blank_input v = is_nullish v

unfoldable pub parse_optional_uint : Value → Outcome (Option Text)
parse_optional_uint v = if is_blank_input v then ok none else (parse_uint v >>= λ t. ok (some t))

pub record ContractParts : Type 0 where
  pub address : Text
  pub name : Text

-- The text before and after the first dot
unfoldable pub split_at_dot : Text → Option ContractParts
split_at_dot [] = none
split_at_dot (c ∷ s) =
    let rest = split_at_dot s in
    if c == b'.'
    then some (record { address = []; name = s })
    else Option.map (λ (parts : ContractParts). record parts { address = c ∷ parts.address }) rest

unfoldable pub split_contract_id : Text → Outcome ContractParts
split_contract_id contract_id = elim (split_at_dot contract_id) [
  | none ↦ err invalid_contract_id
  | some parts ↦
      if is_empty parts.address || is_empty parts.name then err invalid_contract_id else ok parts
]

pub record PipeKey : Type 0 where
  pub token : Option Text
  pub principal_1 : Text
  pub principal_2 : Text

-- `serializeCV(principalCV(principal))`, which throws where the text is no principal
module _ (serialize : Text → Outcome (List ℕ)) where
  unfoldable pub canonical_pipe_key : Option Text → Text → Text → Outcome PipeKey
  canonical_pipe_key token left right = do
    require (not (text_eq left right)) same_principals
    left_bytes ← serialize left
    right_bytes ← serialize right
    ok (elim (compare_bytes left_bytes right_bytes) [
      | greater ↦ record { token = token; principal_1 = right; principal_2 = left }
      | _ ↦ record { token = token; principal_1 = left; principal_2 = right }
    ])

  unfoldable pub parse_principal : Value → String → Outcome Text
  parse_principal (str t) field =
      if is_empty (trim t)
      then err (must_be_principal_string field)
      else (serialize (trim t) >>= λ _. ok (trim t))
  parse_principal _ field = err (must_be_principal_string field)
