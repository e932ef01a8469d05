-- ===== src/X402/Store.antt =====
-- packages/x402-client/src/sqlite-state-store.js: the database of the x402 client, with its pipe
-- states, consumed proofs and locks. Clocks are arguments, in milliseconds; tables are lists of rows.
pub mod Locks
pub mod Proofs
pub mod PipeRows
use stackflow.Common.{
  ℕ, suc, ◌+◌, Bool, true, false, not, Option, none, some, List, [], ◌∷◌, ◌++◌, ltb, leb, ◌&&◌,
  length, if◌then◌else◌, is_some,
}
use mathlib.Core.Option
use stackflow.Js.Text.{Text, codes, text_eq, trim, lower}
use stackflow.Js.Outcome.{Outcome, ok, err, ◌>>=◌, ◌>>◌, require, store_is_closed, type_error}
use stackflow.Js.Value.{Value, str, truthy, is_nullish, to_option, get, to_text}
use stackflow.Agent.Utils.{assert_non_empty_string, token_text, token_part, bar}
use stackflow.Table.{find, upsert}
use stackflow.X402.Numbers.{assert_positive_integer, assert_uint_string}

unfoldable pub build_pipe_state_key : Value → Value → Value → Value → Outcome Text
build_pipe_state_key contract_id for_principal with_principal token = do
  contract ← assert_non_empty_string contract_id "contractId"
  for_text ← assert_non_empty_string for_principal "forPrincipal"
  with_text ← assert_non_empty_string with_principal "withPrincipal"
  ok (
      contract
      ++ (bar ++ (token_part (token_text token) ++ (bar ++ (for_text ++ (bar ++ with_text))))))

-- pipe_states
pub record PipeRow : Type 0 where
  pub pipe_key : Text
  pub contract_id : Text
  pub for_principal : Text
  pub with_principal : Text
  pub token : Option Text
  pub nonce : Text
  pub my_balance : Text
  pub their_balance : Text
  pub updated_at_ms : ℕ

-- consumed_proofs
pub record ProofRow : Type 0 where
  pub proof_hash : Text
  pub expires_at_ms : ℕ
  pub created_at_ms : ℕ

-- pipe_locks
pub record LockRow : Type 0 where
  pub pipe_key : Text
  pub lock_token : Text
  pub expires_at_ms : ℕ
  pub updated_at_ms : ℕ

-- The constructor's settings.
pub record Waits : Type 0 where
  pub lock_ttl_ms : ℕ
  pub lock_wait_timeout_ms : ℕ
  pub lock_poll_interval_ms : ℕ

pub record X402Store : Type 0 where
  pub is_open : Bool
  pub pipe_states : List PipeRow
  pub consumed_proofs : List ProofRow
  pub pipe_locks : List LockRow

unfoldable pub assert_store_open : X402Store → Outcome (Unit {0})
assert_store_open s = require s.is_open store_is_closed

unfoldable pub close_store : X402Store → X402Store
close_store s = record s { is_open = false }

unfoldable pub get_pipe_state : Value → X402Store → Outcome (Option PipeRow)
unfolding assert_store_open
get_pipe_state pipe_key s = do
  assert_store_open s
  key ← assert_non_empty_string pipe_key "pipeKey"
  ok (find (λ (r : PipeRow). r.pipe_key) key s.pipe_states)

-- ON CONFLICT(pipe_key) DO UPDATE SET every other column
unfoldable pub merge_pipe : PipeRow → PipeRow → PipeRow
merge_pipe old new = record new { pipe_key = old.pipe_key }

-- What `setPipeState` writes of its argument
unfoldable pub pipe_row : ℕ → Value → Outcome PipeRow
pipe_row now state = do
  require (not (is_nullish state)) type_error
  pipe_key ← assert_non_empty_string (get state "pipeKey") "state.pipeKey"
  contract_id ← assert_non_empty_string (get state "contractId") "state.contractId"
  for_principal ← assert_non_empty_string (get state "forPrincipal") "state.forPrincipal"
  with_principal ← assert_non_empty_string (get state "withPrincipal") "state.withPrincipal"
  nonce ← assert_uint_string (get state "nonce") "state.nonce"
  my_balance ← assert_uint_string (get state "myBalance") "state.myBalance"
  their_balance ← assert_uint_string (get state "theirBalance") "state.theirBalance"
  ok (record {
    pipe_key = pipe_key;
    contract_id = contract_id;
    for_principal = for_principal;
    with_principal = with_principal;
    token = Option.map (λ t. trim (to_text t)) (to_option (get state "token"));
    nonce = nonce;
    my_balance = my_balance;
    their_balance = their_balance;
    updated_at_ms = now;
  })

unfoldable pub set_pipe_state : ℕ → Value → X402Store → Outcome X402Store
unfolding assert_store_open
set_pipe_state now state s = do
  assert_store_open s
  row ← pipe_row now state
  ok (record s { pipe_states = upsert (λ (r : PipeRow). r.pipe_key) merge_pipe row s.pipe_states })

-- ON CONFLICT(proof_hash) DO UPDATE SET expires_at_ms = excluded.expires_at_ms
unfoldable pub merge_proof : ProofRow → ProofRow → ProofRow
merge_proof old new = record old { expires_at_ms = new.expires_at_ms }

unfoldable pub mark_consumed_proof : ℕ → Value → Value → X402Store → Outcome X402Store
unfolding assert_store_open
mark_consumed_proof now proof_hash expires_at_ms s = do
  assert_store_open s
  hash ← assert_non_empty_string proof_hash "proofHash"
  expires ← assert_positive_integer expires_at_ms "expiresAtMs"
  let row : ProofRow = record {
    proof_hash = lower hash;
    expires_at_ms = expires;
    created_at_ms = now;
  }
  ok (record s {
    consumed_proofs = upsert (λ (r : ProofRow). r.proof_hash) merge_proof row s.consumed_proofs;
  })

-- WHERE proof_hash = ? AND expires_at_ms > ?
unfoldable pub is_live_proof : Text → ℕ → List ProofRow → Bool
is_live_proof hash now [] = false
is_live_proof hash now (r ∷ rs) =
    let rest = is_live_proof hash now rs in
    if text_eq r.proof_hash hash && ltb now r.expires_at_ms then true else rest

unfoldable pub is_proof_consumed : Value → Value → X402Store → Outcome Bool
unfolding assert_store_open
is_proof_consumed proof_hash now_ms s = do
  assert_store_open s
  hash ← assert_non_empty_string proof_hash "proofHash"
  now ← assert_positive_integer now_ms "nowMs"
  ok (is_live_proof (lower hash) now s.consumed_proofs)

-- DELETE ... WHERE expires_at_ms <= ?
module _ {Row : Type 0} (expires_at_ms : Row → ℕ) where
  unfoldable pub live_rows : ℕ → List Row → List Row
  live_rows now [] = []
  live_rows now (r ∷ rs) =
      let rest = live_rows now rs in if leb (expires_at_ms r) now then rest else r ∷ rest

  unfoldable pub count_expired : ℕ → List Row → ℕ
  count_expired now [] = 0
  count_expired now (r ∷ rs) =
      let rest = count_expired now rs in if leb (expires_at_ms r) now then suc rest else rest

pub record Purged : Type 0 where
  pub consumed_deleted : ℕ
  pub locks_deleted : ℕ

abbrev pub proof_expiry : ProofRow → ℕ
proof_expiry r = r.expires_at_ms

abbrev pub lock_expiry : LockRow → ℕ
lock_expiry r = r.expires_at_ms

unfoldable pub purge_expired : Value → X402Store → Outcome (Purged × X402Store)
unfolding assert_store_open
purge_expired now_ms s = do
  assert_store_open s
  now ← assert_positive_integer now_ms "nowMs"
  ok (
    record {
      consumed_deleted = count_expired proof_expiry now s.consumed_proofs;
      locks_deleted = count_expired lock_expiry now s.pipe_locks;
    },
    record s {
      consumed_proofs = live_rows proof_expiry now s.consumed_proofs;
      pipe_locks = live_rows lock_expiry now s.pipe_locks;
    },
  )
