-- ===== src/Agent/Store/Methods.antt =====
-- packages/stackflow-agent/src/db.js: the methods of `AgentStateStore`. A method that throws changes
-- nothing, since each runs one statement, at its end.
use stackflow.Common.{Bool, false, Option, none, some, List, ltb, if◌then◌else◌}
use mathlib.Core.Option
use stackflow.Js.Text.{Text, codes}
use stackflow.Js.Outcome.{store_is_closed, store_constraint, Outcome, ok, ◌>>=◌, ◌>>◌, require}
use stackflow.Js.Value.{Value, str, truthy, to_text, to_option}
use stackflow.Js.Json.{copy, bindable, json_copy}
use stackflow.Agent.Utils.{
  assert_non_empty, token_text, parse_unsigned_bigint, Closure, normalize_closure_event,
  SignatureState, normalize_signature_state,
}
use stackflow.Table.{find, upsert, update}
use stackflow.Agent.Store.Rows.{
  TrackedPipe, StateRow, ClosureRow, Store, merge_tracked, merge_state, merge_closure, set_disputed,
  select_latest, index_is_unique, order_by_time, state_id_of, txid_of,
}

unfoldable pub close : Store → Store
close s = record s { is_open = false }

unfoldable pub assert_open : Store → Outcome (Unit {0})
assert_open s = require s.is_open store_is_closed

-- The argument of `upsertTrackedPipe`.
pub record TrackInput : Type 0 where
  pub pipe_id : Value
  pub contract_id : Value
  pub pipe_key : Value
  pub local_principal : Value
  pub counterparty_principal : Value
  pub token : Value
  pub status : Value
  pub last_chain_nonce : Value

status_text : Value → Text
status_text v = if truthy v then to_text v else codes "open"

unfoldable pub upsert_tracked_pipe : Text → TrackInput → Store → Outcome Store
unfolding assert_open status_text
upsert_tracked_pipe now input s = do
  assert_open s
  pipe_id ← assert_non_empty input.pipe_id "pipeId"
  contract_id ← assert_non_empty input.contract_id "contractId"
  copied ← copy input.pipe_key
  local_principal ← assert_non_empty input.local_principal "localPrincipal"
  counterparty_principal ← assert_non_empty input.counterparty_principal "counterpartyPrincipal"
  pipe_key ← bindable copied
  let row : TrackedPipe = record {
    pipe_id = pipe_id;
    contract_id = contract_id;
    pipe_key = pipe_key;
    local_principal = local_principal;
    counterparty_principal = counterparty_principal;
    token = token_text input.token;
    status = status_text input.status;
    last_chain_nonce = Option.map to_text (to_option input.last_chain_nonce);
    updated_at = now;
  }
  ok (record s {
    tracked_pipes = upsert (λ (p : TrackedPipe). p.pipe_id) merge_tracked row s.tracked_pipes;
  })

unfoldable pub list_tracked_pipes : Store → Outcome (List TrackedPipe)
unfolding assert_open
list_tracked_pipes s = do assert_open s; ok (order_by_time s.tracked_pipes)

unfoldable pub get_tracked_pipe : Value → Store → Outcome (Option TrackedPipe)
unfolding assert_open
get_tracked_pipe pipe_id s = do
  assert_open s
  id ← assert_non_empty pipe_id "pipeId"
  ok (find (λ (p : TrackedPipe). p.pipe_id) id s.tracked_pipes)

unfoldable pub get_latest_signature_state : Value → Value → Store → Outcome (Option SignatureState)
unfolding assert_open
get_latest_signature_state pipe_id for_principal s = do
  assert_open s
  id ← assert_non_empty pipe_id "pipeId"
  principal ← assert_non_empty for_principal "forPrincipal"
  ok (select_latest id principal s.signature_states)

pub data UpsertResult : Type 0 where
  nonce_too_low : SignatureState → UpsertResult
  replaced stored : SignatureState → UpsertResult

-- `incomingNonce < existingNonce`, with both nonces parsed
unfoldable pub is_stale : Option SignatureState → SignatureState → Outcome Bool
is_stale none state = ok false
is_stale (some existing) state = do
  existing_nonce ← parse_unsigned_bigint (str existing.nonce) "existing nonce"
  incoming_nonce ← parse_unsigned_bigint (str state.nonce) "incoming nonce"
  ok (ltb incoming_nonce existing_nonce)

-- The INSERT statement, which throws where it would break the unique index.
unfoldable pub write_state : SignatureState → Store → Outcome Store
write_state state s = do
  pipe_key ← json_copy state.pipe_key
  let row : StateRow = record {
    state_id = state_id_of state.pipe_id state.for_principal;
    state = record state { pipe_key = pipe_key };
  }
  let rows = upsert (λ (r : StateRow). r.state_id) merge_state row s.signature_states
  require (index_is_unique rows) store_constraint
  ok (record s { signature_states = rows })

unfoldable pub stored_or_replaced : Option SignatureState → SignatureState → UpsertResult
stored_or_replaced none state = stored state
stored_or_replaced (some existing) state = replaced state

unfoldable pub refusal : Option SignatureState → SignatureState → UpsertResult
refusal none state = stored state
refusal (some existing) state = nonce_too_low existing

unfoldable pub upsert_signature_state : Text → Value → Store → Outcome (UpsertResult × Store)
unfolding assert_open stored_or_replaced refusal
upsert_signature_state now input s = do
  assert_open s
  state ← normalize_signature_state now input
  existing ← get_latest_signature_state (str state.pipe_id) (str state.for_principal) s
  stale ← is_stale existing state
  let written = write_state state s >>= λ s'. ok (stored_or_replaced existing state, s')
  if stale then ok (refusal existing state, s) else written

unfoldable pub record_closure : Text → Value → Store → Outcome (Closure × Store)
unfolding assert_open
record_closure now event s = do
  assert_open s
  closure ← normalize_closure_event event
  pipe_key ← json_copy closure.pipe_key
  let row : ClosureRow = record {
    closure = record closure { pipe_key = pipe_key };
    disputed = false;
    dispute_txid = none;
    created_at = now;
  }
  ok (closure, record s { closures = upsert txid_of merge_closure row s.closures })

unfoldable pub mark_closure_disputed : Value → Value → Store → Outcome Store
unfolding assert_open
mark_closure_disputed txid dispute_txid s = do
  assert_open s
  dispute ← assert_non_empty dispute_txid "disputeTxid"
  id ← assert_non_empty txid "txid"
  ok (record s { closures = update txid_of id (set_disputed dispute) s.closures })

unfoldable pub get_closure : Value → Store → Outcome (Option ClosureRow)
unfolding assert_open
get_closure txid s = do
  assert_open s
  id ← assert_non_empty txid "txid"
  ok (find txid_of id s.closures)

unfoldable pub get_watcher_cursor : Store → Outcome Text
unfolding assert_open
get_watcher_cursor s = do assert_open s; ok s.last_block_height

unfoldable pub set_watcher_cursor : Text → Text → Store → Outcome Store
unfolding assert_open
set_watcher_cursor now block_height s = do
  assert_open s
  ok (record s { last_block_height = block_height; cursor_updated_at = now })
