-- ===== src/Agent/Watcher/PipeState.antt =====
-- packages/stackflow-agent/src/watcher.js: `toClosureFromPipeState`, which reads a closure from the
-- answer of the contract's read-only call.
use stackflow.Common.{
  String, ◌++◌, Bool, true, false, not, ◌&&◌, ◌||◌, Option, none, some, List, [], ◌∷◌,
  if◌then◌else◌,
}
use text.Mathlib.Text.{◌==◌ as key_eq}
use stackflow.Js.Text.{Text, codes, text_eq, is_empty, trim, lower}
use stackflow.Js.Value.{
  Value, undefined, null, bool, number, bigint, negative, str, arr, obj, Fields, end, prop,
  is_nullish, truthy, get, to_text,
}
use stackflow.Agent.Utils.{force_cancel, force_close}
use stackflow.Agent.Store.Rows.{TrackedPipe}

has_field : String → Fields → Bool
has_field k end = false
has_field k (prop j v fs) = key_eq j k || has_field k fs

own_field : Value → String → Bool
own_field (obj fs) k = has_field k fs
own_field _ k = false

-- `readField`: the first of the names that the record has
unfoldable pub read_field : Value → List String → Value
unfolding own_field has_field
read_field v [] = null
read_field v (k ∷ ks) = if own_field v k then get v k else read_field v ks

is_one_of : Text → List String → Bool
is_one_of t [] = false
is_one_of t (k ∷ ks) = text_eq t (codes k) || is_one_of t ks

-- `typeof value === "string"`, with the text in lower case
kind_is : List String → Value → Bool
kind_is kinds (str t) = is_one_of (lower t) kinds
kind_is kinds _ = false

is_string : Value → Bool
is_string (str t) = true
is_string _ = false

non_empty_principal : Text → Option Text
non_empty_principal t = if is_empty (trim t) then none else some (trim t)

-- `normalizeOptionalPrincipal`; `principal_at k fields` is its call on the field `k`.
unfoldable mutual
  unfolding is_one_of kind_is is_string non_empty_principal

  pub optional_principal : Value → Option Text
  optional_principal undefined = none
  optional_principal null = none
  optional_principal (str t) = non_empty_principal t
  optional_principal (obj fs) =
      let at_value = principal_at "value" fs in
      let at_principal = principal_at "principal" fs in
      if kind_is ("none" ∷ "optionalnone" ∷ "optional_none" ∷ []) (get (obj fs) "type")
      then none
      else if kind_is ("some" ∷ "optionalsome" ∷ "optional_some" ∷ []) (get (obj fs) "type")
      then at_value
      else if is_string (get (obj fs) "value")
      then at_value
      else if is_string (get (obj fs) "principal")
      then at_principal
      else none
  optional_principal (bool b) = none
  optional_principal (number n) = none
  optional_principal (bigint n) = none
  optional_principal (negative n) = none
  optional_principal (arr items) = none

  pub principal_at : String → Fields → Option Text
  principal_at k end = none
  principal_at k (prop j v fs) =
      let here = optional_principal v in if key_eq j k then here else principal_at k fs

unfoldable pub is_text : Value → Text → Bool
is_text (str t) u = text_eq t u
is_text _ u = false

is_record : Value → Bool
is_record (obj _) = true
is_record _ = false

-- The balance of the local side
closure_balance : TrackedPipe → Value → Value → Value
closure_balance tracked balance_1 balance_2 =
    if truthy (get tracked.pipe_key "principal-1")
      && is_text (get tracked.pipe_key "principal-1") tracked.local_principal
    then balance_1
    else balance_2

closure_name : Value → Text
closure_name v = if is_text v force_cancel then force_cancel else force_close

-- `readonly:${pipeId}:${nonce}:${closer}`
unfoldable pub synthetic_txid : TrackedPipe → Value → Text → Text
synthetic_txid tracked nonce closer =
    codes "readonly:"
    ++ (tracked.pipe_id ++ (codes ":" ++ (to_text nonce ++ (codes ":" ++ closer))))

text_or : Value → Text → Text
text_or v fallback = if is_nullish v then fallback else to_text v

raw_closure : TrackedPipe → Value → Text → Value
raw_closure tracked pipe closer =
    let nonce = read_field pipe ("nonce" ∷ []) in
    let balance_1 = read_field pipe ("balance-1" ∷ "balance1" ∷ []) in
    let balance_2 = read_field pipe ("balance-2" ∷ "balance2" ∷ []) in
    let name = closure_name (read_field pipe ("event" ∷ "eventName" ∷ [])) in
    let txid =
      text_or (read_field pipe ("txid" ∷ "txId" ∷ [])) (synthetic_txid tracked nonce closer) in
    let height = text_or (read_field pipe ("block-height" ∷ "blockHeight" ∷ [])) (codes "0") in
    obj (
      prop "contractId" (str tracked.contract_id) (
        prop "pipeKey" tracked.pipe_key (
          prop "eventName" (str name) (
            prop "nonce" (str (to_text nonce)) (
              prop "closer" (str closer) (
                prop "txid" (str txid) (
                  prop "blockHeight" (str height) (
                    prop "expiresAt"
                      (str (to_text (read_field pipe ("expires-at" ∷ "expiresAt" ∷ []))))
                      (prop "closureMyBalance"
                        (str (to_text (closure_balance tracked balance_1 balance_2))) end)))))))))

is_complete : Value → Bool
is_complete pipe = not (
    is_nullish (read_field pipe ("nonce" ∷ []))
    || is_nullish (read_field pipe ("expires-at" ∷ "expiresAt" ∷ []))
    || is_nullish (read_field pipe ("balance-1" ∷ "balance1" ∷ []))
    || is_nullish (read_field pipe ("balance-2" ∷ "balance2" ∷ [])))

closed_by : TrackedPipe → Value → Option Text → Option Value
closed_by tracked pipe none = none
closed_by tracked pipe (some closer) =
    if is_complete pipe then some (raw_closure tracked pipe closer) else none

unfoldable pub to_closure_from_pipe_state : TrackedPipe → Value → Option Value
unfolding read_field is_record closure_balance closure_name text_or raw_closure is_complete
    closed_by
to_closure_from_pipe_state tracked pipe =
    let closer =
      optional_principal
        (read_field pipe ("closer" ∷ "closerPrincipal" ∷ "closingPrincipal" ∷ [])) in
    if is_record pipe then closed_by tracked pipe closer else none
