-- ===== src/X402/PipeSource.antt =====
-- packages/x402-client/src/pipe-state-source.js: the pipe of a counterparty among those that the
-- stackflow node lists, its status, and the copy of it in the client's database. The node is an
-- argument, a function from principal and limit to its answer.
pub mod Best
pub mod Mirror
pub mod Synced
use stackflow.Common.{
  ℕ, Bool, true, false, not, ◌&&◌, ◌||◌, Option, none, some, List, [], ◌∷◌, leb, ltb, ◌==◌,
  if◌then◌else◌, String, is_some,
}
use stackflow.Js.Text.{Text, codes, text_lt, is_empty, is_unsigned, big_int, decimal}
use stackflow.Js.Outcome.{
  Outcome, ok, err, Error, ◌>>=◌, ◌>>◌, require, must_be_principal, must_be_contract_id,
  is_required, returned_non_json, request_failed,
}
use stackflow.Js.Value.{
  Value, undefined, null, str, arr, obj, Items, nil, cons, end, prop, is_record, get, to_text,
  or_else,
}
use stackflow.Agent.Utils.{trimmed_text}
use stackflow.Agent.Service.Accept.{is_text}
use stackflow.X402.Numbers.{normalize_int}
use stackflow.X402.Store.{X402Store, build_pipe_state_key, set_pipe_state}
use stackflow.X402.Client.{Runtime, drop_slash}

unfoldable pub assert_principal : Value → String → Outcome Text
assert_principal v field =
    let text = trimmed_text v in if is_empty text then err (must_be_principal field) else ok text

unfoldable pub has_dot : Text → Bool
has_dot [] = false
has_dot (c ∷ s) = let rest = has_dot s in c == b'.' || rest

unfoldable pub assert_contract_id : Value → String → Outcome Text
assert_contract_id v field =
    let text = trimmed_text v in
    if is_empty text || not (has_dot text) then err (must_be_contract_id field) else ok text

unfoldable pub parse_unsigned_big_int : Value → Option ℕ
parse_unsigned_big_int (str t) = if is_unsigned t then some (big_int t) else none
parse_unsigned_big_int _ = none

abbrev pub or_zero : Option ℕ → ℕ
or_zero none = 0
or_zero (some n) = n

-- `typeof value === "string" ? value : null`
unfoldable pub string_of : Value → Option Text
string_of (str t) = some t
string_of _ = none

-- `text || null`
unfoldable pub or_null : Option Text → Option Text
or_null none = none
or_null (some t) = if is_empty t then none else some t

unfoldable pub pipe_key_of : Value → Option Value
pipe_key_of pipe = if is_record (get pipe "pipeKey") then some (get pipe "pipeKey") else none

-- The principals of a pipe that are texts
unfoldable pub principal_of : String → Value → Option Text
principal_of name pipe = elim (pipe_key_of pipe) [
  | none ↦ none
  | some key ↦ string_of (get key name)
]

module _ (principal counterparty contract_id : Text) where
  same_pair : Option Text → Option Text → Bool
  same_pair (some p) (some q) =
      (is_text (str p) principal && is_text (str q) counterparty)
      || (is_text (str p) counterparty && is_text (str q) principal)
  same_pair _ _ = false

  -- The tests of the loop that skip a candidate
  unfoldable pub is_candidate : Value → Bool
  unfolding same_pair
  is_candidate c =
      is_record c
      && is_text (get c "contractId") contract_id
      && same_pair (or_null (principal_of "principal-1" c)) (or_null (principal_of "principal-2" c))

unfoldable pub pipe_nonce : Value → ℕ
pipe_nonce c = or_zero (
    parse_unsigned_big_int
      (elim (string_of (get c "nonce")) [ some t ↦ str t | none ↦ str (codes "0") ]))

unfoldable pub updated_of : Value → Text
updated_of c = elim (string_of (get c "updatedAt")) [ some t ↦ t | none ↦ [] ]

-- `nonce > bestNonce || (nonce === bestNonce && updatedAt > bestUpdatedAt)`
unfoldable pub beats_best : Value → Value → Bool
beats_best c best =
    ltb (pipe_nonce best) (pipe_nonce c)
    || (pipe_nonce best == pipe_nonce c && text_lt (updated_of best) (updated_of c))

unfoldable pub better : Value → Option Value → Option Value
better c none = some c
better c (some best) = if beats_best c best then some c else some best

module _ (principal counterparty contract_id : Text) where
  -- The loop, with the best candidate so far
  unfoldable pub best_of : Option Value → Items → Option Value
  best_of best nil = best
  best_of best (cons c items) =
      best_of (if is_candidate principal counterparty contract_id c then better c best else best)
        items

  unfoldable pub select_best_pipe_from_node : Value → Option Value
  select_best_pipe_from_node (arr items) = best_of none items
  select_best_pipe_from_node _ = none

pub record PipeStatus : Type 0 where
  pub has_pipe : Bool
  pub can_pay : Bool
  pub my_confirmed : Text
  pub my_pending : Text
  pub their_confirmed : Text
  pub their_pending : Text
  pub nonce : Text
  pub source : Option Text
  pub event : Option Text
  pub updated_at : Option Text
  pub contract_id : Option Text
  pub token : Option Text
  pub for_principal : Option Text
  pub with_principal : Option Text
  pub pipe_key : Option Value

-- `parseUnsignedBigInt(String(pipe.k ?? "0")) ?? 0n`
unfoldable pub amount_of : String → Value → ℕ
amount_of k pipe =
    or_zero (parse_unsigned_big_int (str (to_text (or_else (get pipe k) (str (codes "0"))))))

no_pipe : PipeStatus
no_pipe = record {
  has_pipe = false;
  can_pay = false;
  my_confirmed = codes "0";
  my_pending = codes "0";
  their_confirmed = codes "0";
  their_pending = codes "0";
  nonce = codes "0";
  source = none;
  event = none;
  updated_at = none;
  contract_id = none;
  token = none;
  for_principal = none;
  with_principal = none;
  pipe_key = none;
}

-- `principal1 === principal`
unfoldable pub is_first : Text → Value → Bool
is_first principal pipe = elim (principal_of "principal-1" pipe) [
  | some p ↦ is_text (str p) principal
  | none ↦ false
]

unfoldable pub to_pipe_status : Text → Value → PipeStatus
unfolding no_pipe
to_pipe_status principal pipe =
    if not (is_record pipe)
    then no_pipe
    else (let first = is_first principal pipe in
        let mine = if first then amount_of "balance1" pipe else amount_of "balance2" pipe in
        record {
          has_pipe =
              is_some (or_null (principal_of "principal-1" pipe))
              && is_some (or_null (principal_of "principal-2" pipe));
          can_pay = ltb 0 mine;
          my_confirmed = decimal mine;
          my_pending =
              decimal (
                if first then amount_of "pending1Amount" pipe else amount_of "pending2Amount" pipe);
          their_confirmed =
              decimal (if first then amount_of "balance2" pipe else amount_of "balance1" pipe);
          their_pending =
              decimal (
                if first then amount_of "pending2Amount" pipe else amount_of "pending1Amount" pipe);
          nonce = decimal (amount_of "nonce" pipe);
          source = string_of (get pipe "source");
          event = string_of (get pipe "event");
          updated_at = string_of (get pipe "updatedAt");
          contract_id = string_of (get pipe "contractId");
          token = principal_of "token" pipe;
          for_principal = or_null (some principal);
          with_principal =
              or_null (
                if first then principal_of "principal-2" pipe else principal_of "principal-1" pipe);
          pipe_key = pipe_key_of pipe;
        })

-- `toPipeStatusFromObservedPipe` of null or of the selected pipe
unfoldable pub status_of : Text → Option Value → PipeStatus
unfolding no_pipe
status_of principal none = no_pipe
status_of principal (some pipe) = to_pipe_status principal pipe

-- The node's answer; `body` is none where `response.json()` throws.
pub record NodeReply : Type 0 where
  pub status : ℕ
  pub body : Option Value

pub record SourceOptions : Type 0 where
  pub stackflow_node_base_url : Value
  pub timeout : Value
  pub limit : Value
  pub has_fetch : Bool

pub record NodeSource : Type 0 where
  pub node_url : Text
  pub timeout_ms : ℕ
  pub pipes_limit : ℕ

-- The constructor of `StackflowNodePipeStateSource`
unfoldable pub new_source : Runtime → SourceOptions → Outcome NodeSource
new_source js options = do
  require (not (is_empty (trimmed_text options.stackflow_node_base_url)))
      (is_required "stackflowNodeBaseUrl")
  parsed ← js.origin_of (trimmed_text options.stackflow_node_base_url)
  timeout_ms ← normalize_int options.timeout 10000 "timeoutMs"
  pipes_limit ← normalize_int options.limit 200 "pipesLimit"
  require options.has_fetch (is_required "fetchFn")
  ok (record { node_url = drop_slash parsed; timeout_ms = timeout_ms; pipes_limit = pipes_limit })

unfoldable pub read_pipes : NodeReply → Outcome Value
read_pipes reply = elim reply.body [
  | none ↦ err (returned_non_json reply.status)
  | some body ↦
      if leb 200 reply.status && ltb reply.status 300 && is_record body
      then ok (get body "pipes")
      else err (request_failed reply.status)
]

module _ (source : NodeSource) (node : Text → ℕ → Outcome NodeReply) where
  unfoldable pub get_pipe_status : Value → Value → Value → Outcome PipeStatus
  get_pipe_status principal counterparty contract_id = do
    me ← assert_principal principal "principal"
    other ← assert_principal counterparty "counterpartyPrincipal"
    contract ← assert_contract_id contract_id "contractId"
    reply ← node me source.pipes_limit
    pipes ← read_pipes reply
    ok (status_of me (select_best_pipe_from_node me other contract pipes))

  -- The field of an object whose value is a text or null
  unfoldable pub nullable : Option Text → Value
  nullable none = null
  nullable (some t) = str t

  unfoldable pub state_object : Text → PipeStatus → Value
  state_object pipe_key status = obj (
      prop "pipeKey" (str pipe_key) (
        prop "contractId" (nullable status.contract_id) (
          prop "forPrincipal" (nullable status.for_principal) (
            prop "withPrincipal" (nullable status.with_principal) (
              prop "token" (nullable status.token) (
                prop "nonce" (str status.nonce) (
                  prop "myBalance" (str status.my_confirmed)
                    (prop "theirBalance" (str status.their_confirmed) end))))))))

  -- Without a store, with `store` none
  unfoldable pub store_status : ℕ → PipeStatus → Option X402Store → Outcome (Option X402Store)
  store_status now status none = ok none
  store_status now status (some s) = if not status.has_pipe then ok (some s) else (do
    pipe_key ←
        build_pipe_state_key (nullable status.contract_id) (nullable status.for_principal)
          (nullable status.with_principal) (nullable status.token)
    stored ← set_pipe_state now (state_object pipe_key status) s
    ok (some stored))

  unfoldable pub sync_pipe_state :
      ℕ → Value → Value → Value → Option X402Store → Outcome (PipeStatus × Option X402Store)
  sync_pipe_state now principal counterparty contract_id store = do
    status ← get_pipe_status principal counterparty contract_id
    stored ← store_status now status store
    ok (status, stored)
