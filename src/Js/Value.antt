-- ===== src/Js/Value.antt =====
-- JavaScript values, as far as the program tells them apart. Payloads, events and tool results come
-- from `JSON.parse` or from callers, so their shape is not known before the code has looked at it.
use stackflow.Common.{
  ℕ, suc, String, Bool, true, false, not, Option, none, some, [], ◌∷◌, ◌++◌, ◌==◌, if◌then◌else◌,
}
use text.Mathlib.Text.{◌==◌ as key_eq}
use stackflow.Js.Text.{Text, codes, text_eq, is_empty, decimal}

-- A number is a natural number whose digits are what `String` prints of it, or any other one, which
-- the program meets only as the text that `String` gives ("-1", "1.5", "1e+21", "NaN").
pub data Number : Type 0 where
  nat : ℕ → Number
  other : Text → Number

-- `negative n` is the bigint -(n + 1).
mutual
  pub data Value : Type 0 where
    undefined null : Value
    bool : Bool → Value
    number : Number → Value
    bigint negative : ℕ → Value
    str : Text → Value
    arr : Items → Value
    obj : Fields → Value

  pub data Items : Type 0 where
    nil : Items
    cons : Value → Items → Items

  -- An object's own properties; the first entry of a key counts.
  pub data Fields : Type 0 where
    end : Fields
    prop : String → Value → Fields → Fields

-- `value == null`
unfoldable pub is_nullish : Value → Bool
is_nullish undefined = true
is_nullish null = true
is_nullish _ = false

-- `Boolean(value)`
unfoldable pub truthy : Value → Bool
truthy undefined = false
truthy null = false
truthy (bool b) = b
truthy (number (nat n)) = not (n == 0)
truthy (number (other t)) = not (text_eq t (codes "NaN"))
truthy (bigint n) = not (n == 0)
truthy (negative n) = true
truthy (str t) = not (is_empty t)
truthy (arr _) = true
truthy (obj _) = true

-- `typeof value === "object"` of a value that is not null
unfoldable pub is_object : Value → Bool
is_object (arr _) = true
is_object (obj _) = true
is_object _ = false

-- `value && typeof value === "object" && !Array.isArray(value)`
unfoldable pub is_record : Value → Bool
is_record (obj _) = true
is_record _ = false

-- `value === true`
unfoldable pub is_true : Value → Bool
is_true (bool b) = b
is_true _ = false

unfoldable pub get_field : String → Fields → Value
get_field k end = undefined
get_field k (prop j v fs) = if key_eq j k then v else get_field k fs

-- `value.k`; arrays and primitives have none of the program's properties.
unfoldable pub get : Value → String → Value
unfolding get_field
get (obj fs) k = get_field k fs
get _ k = undefined

-- `a ?? b`
unfoldable pub or_else : Value → Value → Value
unfolding is_nullish
or_else a b = if is_nullish a then b else a

-- A field that is read as null where it is null or undefined
unfoldable pub to_option : Value → Option Value
unfolding is_nullish
to_option v = if is_nullish v then none else some v

minus : Text → Text
minus t = b'-' ∷ t

-- `String(value)`; within an array null and undefined print as nothing.
unfoldable mutual
  unfolding minus

  pub to_text : Value → Text
  to_text undefined = codes "undefined"
  to_text null = codes "null"
  to_text (bool true) = codes "true"
  to_text (bool false) = codes "false"
  to_text (number (nat n)) = decimal n
  to_text (number (other t)) = t
  to_text (bigint n) = decimal n
  to_text (negative n) = minus (decimal (suc n))
  to_text (str t) = t
  to_text (arr items) = join items
  to_text (obj _) = codes "[object Object]"

  pub join : Items → Text
  join nil = []
  join (cons v nil) = let shown = to_text v in if is_nullish v then [] else shown
  join (cons v (cons w rest)) =
      let shown = to_text v in (if is_nullish v then [] else shown) ++ b',' ∷ join (cons w rest)
