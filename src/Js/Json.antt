-- ===== src/Js/Json.antt =====
-- `JSON.parse(JSON.stringify(value))`, the copy that a database row keeps of a pipe key: properties
-- that are undefined are dropped, undefined array elements and numbers that are not finite become
-- null, and a bigint throws a TypeError.
use stackflow.Common.{◌||◌, if◌then◌else◌}
use stackflow.Js.Text.{codes, text_eq}
use stackflow.Js.Outcome.{Outcome, ok, err, type_error, ◌>>=◌}
use stackflow.Js.Value.{
  Number, nat, other, Value, undefined, null, bool, number, bigint, negative, str, arr, obj, Items,
  nil, cons, Fields, end, prop,
}

copy_number : Number → Value
copy_number (nat n) = number (nat n)
copy_number (other t) =
    if text_eq t (codes "NaN") || text_eq t (codes "Infinity") || text_eq t (codes "-Infinity")
    then null
    else number (other t)

unfoldable mutual
  unfolding copy_number

  pub copy : Value → Outcome Value
  copy undefined = ok undefined
  copy null = ok null
  copy (bool b) = ok (bool b)
  copy (number n) = ok (copy_number n)
  copy (bigint n) = err type_error
  copy (negative n) = err type_error
  copy (str t) = ok (str t)
  copy (arr items) = copy_items items >>= λ copied. ok (arr copied)
  copy (obj fields) = copy_fields fields >>= λ copied. ok (obj copied)

  pub copy_items : Items → Outcome Items
  copy_items nil = ok nil
  copy_items (cons undefined rest) = copy_items rest >>= λ more. ok (cons null more)
  copy_items (cons v rest) = copy v >>= λ head. copy_items rest >>= λ more. ok (cons head more)

  pub copy_fields : Fields → Outcome Fields
  copy_fields end = ok end
  copy_fields (prop k undefined rest) = copy_fields rest
  copy_fields (prop k v rest) =
      copy v >>= λ head. copy_fields rest >>= λ more. ok (prop k head more)

-- A row cannot bind undefined, which `JSON.stringify(undefined)` is.
unfoldable pub bindable : Value → Outcome Value
bindable undefined = err type_error
bindable v = ok v

unfoldable pub json_copy : Value → Outcome Value
unfolding copy bindable
json_copy v = copy v >>= bindable
