-- ===== src/Agent/Service/Outgoing.antt =====
-- packages/stackflow-agent/src/agent-service.js: the constructor, `trackPipe`,
-- `buildOutgoingTransfer`, `buildOpenPipeCall` and `openPipe`.
use stackflow.Common.{ℕ, ◌+◌, ◌-◌, Bool, true, not, ◌||◌, Option, none, some, ltb, if◌then◌else◌}
use stackflow.Js.Text.{Text, codes, text_eq, is_empty, trim, decimal}
use stackflow.Js.Outcome.{
  pipe_is_not_tracked, amount_not_positive, insufficient_balance, actor_must_match, Outcome, ok,
  err, ◌>>=◌, ◌>>◌, require,
}
use stackflow.Js.Value.{Value, null, str, truthy, is_nullish, is_true, or_else, to_text}
use stackflow.Agent.Utils.{
  assert_non_empty, parse_unsigned_bigint, to_unsigned_string, build_pipe_id, zero_text,
  SignatureState,
}
use stackflow.Agent.Store.Rows.{TrackedPipe, Store}
use stackflow.Agent.Store.Methods.{
  upsert_tracked_pipe, get_tracked_pipe, get_latest_signature_state,
}
use stackflow.Agent.Service.Wallet.{Agent}

unfoldable pub normalize_boolean : Value → Bool → Bool
normalize_boolean v fallback = if is_nullish v then fallback else is_true v

-- The constructor, given a store and a signer.
unfoldable pub create_agent : Value → Value → Agent
create_agent network only_beneficial = record {
  network = trim (if truthy network then to_text network else codes "devnet");
  dispute_only_beneficial = normalize_boolean only_beneficial true;
}

pub record TrackRequest : Type 0 where
  pub contract_id : Value
  pub pipe_key : Value
  pub local_principal : Value
  pub counterparty_principal : Value
  pub token : Value

-- What `trackPipe` returns: the id, and what it was given.
pub record Tracked : Type 0 where
  pub pipe_id : Text
  pub contract_id : Value
  pub pipe_key : Value
  pub local_principal : Value
  pub counterparty_principal : Value
  pub token : Value

unfoldable pub track_pipe : Text → TrackRequest → Store → Outcome (Tracked × Store)
track_pipe now req s = do
  pipe_id ← build_pipe_id req.contract_id req.pipe_key
  s' ←
      upsert_tracked_pipe now
        (record {
          pipe_id = str pipe_id;
          contract_id = req.contract_id;
          pipe_key = req.pipe_key;
          local_principal = req.local_principal;
          counterparty_principal = req.counterparty_principal;
          token = req.token;
          status = str (codes "open");
          last_chain_nonce = null;
        })
        s
  ok (
    record {
      pipe_id = pipe_id;
      contract_id = req.contract_id;
      pipe_key = req.pipe_key;
      local_principal = req.local_principal;
      counterparty_principal = req.counterparty_principal;
      token = or_else req.token null;
    },
    s',
  )

pub record TransferRequest : Type 0 where
  pub pipe_id : Value
  pub amount : Value
  pub actor : Value
  pub action : Value
  pub secret : Value
  pub valid_after : Value
  pub beneficial_only : Value
  pub base_my_balance : Value
  pub base_their_balance : Value
  pub base_nonce : Value

pub record Outgoing : Type 0 where
  pub contract_id : Text
  pub pipe_key : Value
  pub for_principal : Text
  pub with_principal : Text
  pub token : Option Text
  pub my_balance : Text
  pub their_balance : Text
  pub nonce : Text
  pub action : Text
  pub actor : Text
  pub secret : Value
  pub valid_after : Value
  pub beneficial_only : Bool

-- What the transfer starts from: the balances and the nonce.
pub record Base : Type 0 where
  pub my_balance : ℕ
  pub their_balance : ℕ
  pub nonce : ℕ

unfoldable pub current_base : Option SignatureState → TransferRequest → Outcome Base
current_base (some latest) req = do
  my_balance ← parse_unsigned_bigint (str latest.my_balance) "latest.myBalance"
  their_balance ← parse_unsigned_bigint (str latest.their_balance) "latest.theirBalance"
  nonce ← parse_unsigned_bigint (str latest.nonce) "latest.nonce"
  ok (record { my_balance = my_balance; their_balance = their_balance; nonce = nonce })
current_base none req = do
  my_balance ← parse_unsigned_bigint (or_else req.base_my_balance zero_text) "baseMyBalance"
  their_balance ←
      parse_unsigned_bigint (or_else req.base_their_balance zero_text) "baseTheirBalance"
  nonce ← parse_unsigned_bigint (or_else req.base_nonce zero_text) "baseNonce"
  ok (record { my_balance = my_balance; their_balance = their_balance; nonce = nonce })

unfoldable pub normalized_actor : Value → Text → Outcome Text
normalized_actor actor local_principal =
    if is_nullish actor || is_empty (trim (to_text actor))
    then ok local_principal
    else assert_non_empty actor "actor"

or_not_tracked : Value → Option TrackedPipe → Outcome TrackedPipe
or_not_tracked pipe_id none = err (pipe_is_not_tracked (to_text pipe_id))
or_not_tracked pipe_id (some tracked) = ok tracked

-- The transfer from `base`, once the pipe is known.
unfoldable pub transfer_from : TrackedPipe → TransferRequest → Base → Outcome Outgoing
transfer_from tracked req base = do
  amount ← parse_unsigned_bigint req.amount "amount"
  require (ltb 0 amount) amount_not_positive
  require (not (ltb base.my_balance amount)) insufficient_balance
  actor ← normalized_actor req.actor tracked.local_principal
  require (text_eq actor tracked.local_principal) actor_must_match
  action ← to_unsigned_string req.action "action"
  ok (record {
    contract_id = tracked.contract_id;
    pipe_key = tracked.pipe_key;
    for_principal = tracked.local_principal;
    with_principal = tracked.counterparty_principal;
    token = tracked.token;
    my_balance = decimal (base.my_balance - amount);
    their_balance = decimal (base.their_balance + amount);
    nonce = decimal (base.nonce + 1);
    action = action;
    actor = actor;
    secret = req.secret;
    valid_after = req.valid_after;
    beneficial_only = is_true req.beneficial_only;
  })

unfoldable pub build_outgoing_transfer : TransferRequest → Store → Outcome Outgoing
unfolding or_not_tracked
build_outgoing_transfer req s = do
  found ← get_tracked_pipe req.pipe_id s
  tracked ← or_not_tracked req.pipe_id found
  latest ← get_latest_signature_state (str tracked.pipe_id) (str tracked.local_principal) s
  base ← current_base latest req
  transfer_from tracked req base

-- The arguments of `fund-pipe`.
pub record OpenCall : Type 0 where
  pub contract_id : Text
  pub function_name : Text
  pub token : Value
  pub amount : Text
  pub counterparty_principal : Text
  pub nonce : Text

unfoldable pub build_open_pipe_call : Value → Value → Value → Value → Value → Outcome OpenCall
build_open_pipe_call contract_id token amount counterparty nonce = do
  contract ← assert_non_empty contract_id "contractId"
  amount_text ← to_unsigned_string amount "amount"
  principal ← assert_non_empty counterparty "counterpartyPrincipal"
  nonce_text ← to_unsigned_string nonce "nonce"
  ok (record {
    contract_id = contract;
    function_name = codes "fund-pipe";
    token = token;
    amount = amount_text;
    counterparty_principal = principal;
    nonce = nonce_text;
  })

-- `openPipe`: the call goes to the signer's `callContract`, with the network.
unfoldable pub open_pipe :
    (OpenCall → Text → Outcome Value)
    → Agent
    → Value
    → Value
    → Value
    → Value
    → Value
    → Outcome Value
open_pipe call_contract agent contract_id token amount counterparty nonce = do
  call ← build_open_pipe_call contract_id token amount counterparty nonce
  call_contract call agent.network
