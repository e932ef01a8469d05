-- ===== src/Agent/Utils.antt =====
-- packages/stackflow-agent/src/utils.js: normalising what comes from outside, and the decision
-- whether a dispute pays.
pub mod Normal
pub mod NormalState
pub mod PipeId
pub mod Leaves
use stackflow.Common.{
  ℕ, String, ◌++◌, Bool, true, false, not, ◌&&◌, ◌||◌, Option, none, some, List, [], ◌∷◌, leb, ltb,
  if◌then◌else◌,
}
use stackflow.Js.Text.{
  Text, codes, text_eq, is_empty, trim, is_unsigned, big_int, decimal, lower, with_0x, is_0x_hex,
}
use stackflow.Js.Outcome.{
  Error, must_be_object, must_be_non_empty_string, must_be_non_empty, must_be_unsigned,
  must_be_non_negative, must_be_hex, not_a_closure_event, event_and_state_required, Outcome, ok,
  err, ◌>>=◌, ◌>>◌, require, traverse,
}
use stackflow.Js.Value.{
  Value, bigint, negative, str, truthy, is_record, is_true, get, or_else, to_option, to_text,
}

-- `String(value ?? "").trim()`
unfoldable pub trimmed_text : Value → Text
trimmed_text v = trim (to_text (or_else v (str [])))

unfoldable pub assert_object : Value → String → Outcome (Unit {0})
assert_object v field = require (is_record v) (must_be_object field)

unfoldable pub assert_non_empty_string : Value → String → Outcome Text
assert_non_empty_string v field =
    let text = trimmed_text v in
    if is_empty text then err (must_be_non_empty_string field) else ok text

-- The helper of the same name in agent-service.js, db.js and event-source.js, with its own message.
unfoldable pub assert_non_empty : Value → String → Outcome Text
assert_non_empty v field =
    let text = trimmed_text v in if is_empty text then err (must_be_non_empty field) else ok text

unfoldable pub parse_unsigned_bigint : Value → String → Outcome ℕ
parse_unsigned_bigint v field =
    let text = trimmed_text v in
    if is_unsigned text then ok (big_int text) else err (must_be_unsigned field)

unfoldable pub to_unsigned_string : Value → String → Outcome Text
to_unsigned_string (bigint n) field = ok (decimal n)
to_unsigned_string (negative n) field = err (must_be_non_negative field)
to_unsigned_string v field = parse_unsigned_bigint v field >>= λ n. ok (decimal n)

unfoldable pub normalize_hex : Value → String → Outcome Text
normalize_hex v field =
    let normalized = with_0x (lower (trimmed_text v)) in
    if is_0x_hex normalized then ok normalized else err (must_be_hex field)

-- `value ? String(value).trim() : null`
unfoldable pub token_text : Value → Option Text
token_text v = if truthy v then some (trim (to_text v)) else none

unfoldable pub bar : Text
bar = codes "|"

unfoldable pub stx : Text
stx = codes "stx"

unfoldable pub token_part : Option Text → Text
token_part none = stx
token_part (some t) = t

unfoldable pub build_pipe_id : Value → Value → Outcome Text
unfolding token_part
build_pipe_id contract_id pipe_key = do
  contract ← assert_non_empty_string contract_id "contractId"
  assert_object pipe_key "pipeKey"
  principal_1 ← assert_non_empty_string (get pipe_key "principal-1") "pipeKey.principal-1"
  principal_2 ← assert_non_empty_string (get pipe_key "principal-2") "pipeKey.principal-2"
  let token = token_part (token_text (get pipe_key "token"))
  ok (contract ++ (bar ++ (token ++ (bar ++ (principal_1 ++ (bar ++ principal_2))))))

unfoldable pub force_cancel : Text
force_cancel = codes "force-cancel"

unfoldable pub force_close : Text
force_close = codes "force-close"

pub record Closure : Type 0 where
  pub contract_id : Text
  pub pipe_id : Text
  pub pipe_key : Value
  pub event_name : Text
  pub nonce : Text
  pub closer : Text
  pub txid : Text
  pub block_height : Text
  pub expires_at : Text
  pub closure_my_balance : Option Text

unfoldable pub zero_text : Value
zero_text = str (codes "0")

unfoldable pub one_text : Value
one_text = str (codes "1")

unfoldable pub is_closure_name : Text → Bool
is_closure_name name = text_eq name force_cancel || text_eq name force_close

unfoldable pub normalize_closure_event : Value → Outcome Closure
normalize_closure_event event = do
  assert_object event "closure event"
  event_name ← assert_non_empty_string (get event "eventName") "eventName"
  require (is_closure_name event_name) not_a_closure_event
  contract_id ← assert_non_empty_string (get event "contractId") "contractId"
  assert_object (get event "pipeKey") "pipeKey"
  pipe_id ← build_pipe_id (str contract_id) (get event "pipeKey")
  nonce ←
      to_unsigned_string (or_else (or_else (get event "nonce") (get event "pipeNonce")) zero_text)
        "nonce"
  closer ← assert_non_empty_string (get event "closer") "closer"
  txid ← assert_non_empty_string (get event "txid") "txid"
  block_height ← to_unsigned_string (get event "blockHeight") "blockHeight"
  expires_at ← to_unsigned_string (get event "expiresAt") "expiresAt"
  closure_my_balance ←
      traverse (λ v. to_unsigned_string v "closureMyBalance")
        (to_option (get event "closureMyBalance"))
  ok (record {
    contract_id = contract_id;
    pipe_id = pipe_id;
    pipe_key = get event "pipeKey";
    event_name = event_name;
    nonce = nonce;
    closer = closer;
    txid = txid;
    block_height = block_height;
    expires_at = expires_at;
    closure_my_balance = closure_my_balance;
  })

pub record SignatureState : Type 0 where
  pub contract_id : Text
  pub pipe_id : Text
  pub pipe_key : Value
  pub for_principal : Text
  pub with_principal : Text
  pub token : Option Text
  pub my_balance : Text
  pub their_balance : Text
  pub nonce : Text
  pub action : Text
  pub actor : Text
  pub my_signature : Text
  pub their_signature : Text
  pub secret : Option Text
  pub valid_after : Option Text
  pub beneficial_only : Bool
  pub updated_at : Text

-- `now` is the clock's `new Date().toISOString()`.
unfoldable pub normalize_signature_state : Text → Value → Outcome SignatureState
normalize_signature_state now input = do
  assert_object input "signature state"
  contract_id ← assert_non_empty_string (get input "contractId") "contractId"
  assert_object (get input "pipeKey") "pipeKey"
  pipe_id ← build_pipe_id (str contract_id) (get input "pipeKey")
  for_principal ← assert_non_empty_string (get input "forPrincipal") "forPrincipal"
  with_principal ← assert_non_empty_string (get input "withPrincipal") "withPrincipal"
  my_balance ← to_unsigned_string (get input "myBalance") "myBalance"
  their_balance ← to_unsigned_string (get input "theirBalance") "theirBalance"
  nonce ← to_unsigned_string (get input "nonce") "nonce"
  action ← to_unsigned_string (or_else (get input "action") one_text) "action"
  actor ← assert_non_empty_string (get input "actor") "actor"
  my_signature ← normalize_hex (get input "mySignature") "mySignature"
  their_signature ← normalize_hex (get input "theirSignature") "theirSignature"
  secret ← traverse (λ v. normalize_hex v "secret") (to_option (get input "secret"))
  valid_after ←
      traverse (λ v. to_unsigned_string v "validAfter") (to_option (get input "validAfter"))
  ok (record {
    contract_id = contract_id;
    pipe_id = pipe_id;
    pipe_key = get input "pipeKey";
    for_principal = for_principal;
    with_principal = with_principal;
    token = token_text (get input "token");
    my_balance = my_balance;
    their_balance = their_balance;
    nonce = nonce;
    action = action;
    actor = actor;
    my_signature = my_signature;
    their_signature = their_signature;
    secret = secret;
    valid_after = valid_after;
    beneficial_only = is_true (get input "beneficialOnly");
    updated_at = if truthy (get input "updatedAt") then to_text (get input "updatedAt") else now;
  })

-- The balance test: `!closureMyBalance` is true of null and of the empty text.
unfoldable pub beats_closure_balance : Option Text → SignatureState → Outcome Bool
beats_closure_balance none state = ok true
beats_closure_balance (some []) state = ok true
beats_closure_balance (some (c ∷ text)) state = do
  closure_balance ← parse_unsigned_bigint (str (c ∷ text)) "closureMyBalance"
  state_balance ← parse_unsigned_bigint (str state.my_balance) "myBalance"
  ok (ltb closure_balance state_balance)

unfoldable pub is_dispute_beneficial : Option Closure → Option SignatureState → Bool → Outcome Bool
is_dispute_beneficial none state only_beneficial = ok false
is_dispute_beneficial (some closure) none only_beneficial = ok false
is_dispute_beneficial (some closure) (some state) only_beneficial = do
  closure_nonce ← parse_unsigned_bigint (str closure.nonce) "closure nonce"
  state_nonce ← parse_unsigned_bigint (str state.nonce) "state nonce"
  let positive = parse_unsigned_bigint (str state.my_balance) "myBalance" >>= λ b. ok (ltb 0 b)
  if leb state_nonce closure_nonce
      then ok false
      else if not only_beneficial && not state.beneficial_only
      then ok true
      else if text_eq closure.closer state.for_principal
      then ok false
      else if text_eq closure.event_name force_cancel
      then positive
      else beats_closure_balance closure.closure_my_balance state

pub record DisputeCall : Type 0 where
  pub contract_id : Text
  pub function_name : Text
  pub function_args : List (Option Text)

unfoldable pub build_dispute_call_input :
    Option Closure → Option SignatureState → Outcome DisputeCall
build_dispute_call_input none state = err event_and_state_required
build_dispute_call_input (some closure) none = err event_and_state_required
build_dispute_call_input (some closure) (some state) = ok (record {
  contract_id = closure.contract_id;
  function_name = codes "dispute-closure-for";
  function_args =
      some state.for_principal
      ∷ state.token
      ∷ some state.with_principal
      ∷ some state.my_balance
      ∷ some state.their_balance
      ∷ some state.my_signature
      ∷ some state.their_signature
      ∷ some state.nonce
      ∷ some state.action
      ∷ some state.actor
      ∷ state.secret
      ∷ state.valid_after
      ∷ [];
})
