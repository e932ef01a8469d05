-- ===== src/Agent/Utils/Normal.antt =====
-- The closures that `normalizeClosureEvent` (packages/stackflow-agent/src/utils.js) returns;
-- `recordClosure` and `disputeClosure` pass them through it again.
use stackflow.Common.{String, ◌≡◌, refl, true, Option, none, some, arith}
use stackflow.Js.Text.{Text}
use stackflow.Js.Outcome.{ok, traverse}
use stackflow.Js.Value.{Value, null, str, obj, end, prop, is_record, get, or_else, to_option}
use stackflow.Agent.Utils.{
  assert_object, to_unsigned_string, build_pipe_id, is_closure_name, Closure,
  normalize_closure_event, zero_text,
}
use stackflow.Agent.Utils.Leaves.{
  IsName, IsNumeral, assert_non_empty_string-IsName, assert_non_empty_string-str,
  to_unsigned_string-IsNumeral, to_unsigned_string-str,
}

abbrev pub text_or_null : Option Text → Value
text_or_null none = null
text_or_null (some t) = str t

-- The object that a normalised closure is.
unfoldable pub closure_value : Closure → Value
closure_value c = obj (
    prop "contractId" (str c.contract_id) (
      prop "pipeId" (str c.pipe_id) (
        prop "pipeKey" c.pipe_key (
          prop "eventName" (str c.event_name) (
            prop "nonce" (str c.nonce) (
              prop "closer" (str c.closer) (
                prop "txid" (str c.txid) (
                  prop "blockHeight" (str c.block_height) (
                    prop "expiresAt" (str c.expires_at)
                      (prop "closureMyBalance" (text_or_null c.closure_my_balance) end))))))))))

abbrev pub IsOptionalNumeral : Option Text → Type 0
IsOptionalNumeral none = Unit {0}
IsOptionalNumeral (some t) = IsNumeral t

-- What `normalizeClosureEvent` guarantees of its result.
pub record IsNormal (c : Closure) : Type 0 where
  pub event_name : IsName c.event_name
  pub is_closure : is_closure_name c.event_name ≡ true
  pub contract_id : IsName c.contract_id
  pub key_is_record : is_record c.pipe_key ≡ true
  pub pipe_id : build_pipe_id (str c.contract_id) c.pipe_key ≡ ok c.pipe_id
  pub nonce : IsNumeral c.nonce
  pub closer : IsName c.closer
  pub txid : IsName c.txid
  pub block_height : IsNumeral c.block_height
  pub expires_at : IsNumeral c.expires_at
  pub closure_my_balance : IsOptionalNumeral c.closure_my_balance

pub traverse-IsOptionalNumeral :
    (o : Option Value) (f : String) {r : Option Text}
    → traverse (λ v. to_unsigned_string v f) o ≡ ok r
    → IsOptionalNumeral r
traverse-IsOptionalNumeral none f {r = none} h = tt
traverse-IsOptionalNumeral none f {r = some t} h = cc
traverse-IsOptionalNumeral (some v) f {r = none} h = ground arith
traverse-IsOptionalNumeral (some v) f {r = some t} h =
    to_unsigned_string-IsNumeral v f {t = t} (ground arith)

pub normalize_closure_event-IsNormal :
    (event : Value) {c : Closure} → normalize_closure_event event ≡ ok c → IsNormal c
unfolding normalize_closure_event assert_object
normalize_closure_event-IsNormal event {c} h = record {
  event_name = assert_non_empty_string-IsName (get event "eventName") "eventName" (ground arith);
  is_closure = ground arith;
  contract_id = assert_non_empty_string-IsName (get event "contractId") "contractId" (ground arith);
  key_is_record = ground arith;
  pipe_id = ground arith;
  nonce =
      to_unsigned_string-IsNumeral
        (or_else (or_else (get event "nonce") (get event "pipeNonce")) zero_text) "nonce"
        (ground arith);
  closer = assert_non_empty_string-IsName (get event "closer") "closer" (ground arith);
  txid = assert_non_empty_string-IsName (get event "txid") "txid" (ground arith);
  block_height =
      to_unsigned_string-IsNumeral (get event "blockHeight") "blockHeight" (ground arith);
  expires_at = to_unsigned_string-IsNumeral (get event "expiresAt") "expiresAt" (ground arith);
  closure_my_balance =
      traverse-IsOptionalNumeral (to_option (get event "closureMyBalance")) "closureMyBalance"
        (ground arith);
}

optional_numeral-stable :
    (o : Option Text) (f : String)
    → IsOptionalNumeral o
    → traverse (λ v. to_unsigned_string v f) (to_option (text_or_null o)) ≡ ok o
unfolding to_option
optional_numeral-stable none f h = refl
optional_numeral-stable (some t) f h = rw (to_unsigned_string-str t f h)

pub normalize_closure_event-value :
    (c : Closure) → IsNormal c → normalize_closure_event (closure_value c) ≡ ok c
unfolding normalize_closure_event closure_value assert_object get or_else is_record
normalize_closure_event-value c h = ground (
  arith,
  assert_non_empty_string-str c.event_name "eventName" h.event_name,
  assert_non_empty_string-str c.contract_id "contractId" h.contract_id,
  to_unsigned_string-str c.nonce "nonce" h.nonce,
  assert_non_empty_string-str c.closer "closer" h.closer,
  assert_non_empty_string-str c.txid "txid" h.txid,
  to_unsigned_string-str c.block_height "blockHeight" h.block_height,
  to_unsigned_string-str c.expires_at "expiresAt" h.expires_at,
  optional_numeral-stable c.closure_my_balance "closureMyBalance" h.closure_my_balance,
)

-- A closure that came out of `normalizeClosureEvent` goes through it again unchanged.
pub normalize_closure_event_idem :
    (event : Value) (c : Closure)
    → normalize_closure_event event ≡ ok c
    → normalize_closure_event (closure_value c) ≡ ok c
normalize_closure_event_idem event c h =
    normalize_closure_event-value c (normalize_closure_event-IsNormal event h)
