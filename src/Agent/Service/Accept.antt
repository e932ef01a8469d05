-- ===== src/Agent/Service/Accept.antt =====
-- packages/stackflow-agent/src/agent-service.js: `signTransferMessage` and `acceptIncomingTransfer`,
-- which signs a valid incoming state and stores it with both signatures.
pub mod Rounding
use mathlib.Core.Option
use stackflow.Common.{ℕ, ◌≡◌, Bool, true, false, Option, none, some, List, [], ◌∷◌, if◌then◌else◌}
use stackflow.Js.Text.{Text, text_eq}
use stackflow.Js.Outcome.{Error, Outcome, ok, err, ◌>>=◌}
use stackflow.Js.Value.{Value, null, bool, str, obj, end, prop, is_nullish, get, to_text, to_option}
use stackflow.Js.Double.{number_of}
use stackflow.Agent.Utils.Normal.{text_or_null}
use stackflow.Agent.Store.Rows.{Store}
use stackflow.Agent.Store.Methods.{UpsertResult, upsert_signature_state}
use stackflow.Agent.Service.Wallet.{Message, Signer}
use stackflow.Agent.Service.Incoming.{
  Reason, Verdict, accept, refuse, throw, IncomingState, validate_incoming_transfer,
}

-- `value === text`
unfoldable pub is_text : Value → Text → Bool
is_text (str t) u = text_eq t u
is_text _ u = false

-- The balances go by the order of the principals in the pipe's key.
unfoldable pub message_of : IncomingState → Message
message_of st =
    let local_is_first = is_text (get st.pipe_key "principal-1") st.for_principal in
    record {
      principal_1 = get st.pipe_key "principal-1";
      principal_2 = get st.pipe_key "principal-2";
      token = Option.map to_text (to_option (get st.pipe_key "token"));
      balance_1 = number_of (if local_is_first then st.my_balance else st.their_balance);
      balance_2 = number_of (if local_is_first then st.their_balance else st.my_balance);
      nonce = number_of st.nonce;
      action = number_of st.action;
      actor = st.actor;
      hashed_secret = st.secret;
      valid_after = Option.map number_of st.valid_after;
    }

-- The object `{ ...state, mySignature }` that is handed to `upsertSignatureState`.
unfoldable pub state_value : IncomingState → Value → Value
state_value st my_signature = obj (
    prop "contractId" (str st.contract_id) (
      prop "pipeId" (str st.pipe_id) (
        prop "pipeKey" st.pipe_key (
          prop "forPrincipal" (str st.for_principal) (
            prop "withPrincipal" (str st.with_principal) (
              prop "token" (text_or_null st.token) (
                prop "myBalance" (str st.my_balance) (
                  prop "theirBalance" (str st.their_balance) (
                    prop "nonce" (str st.nonce) (
                      prop "action" (str st.action) (
                        prop "actor" (str st.actor) (
                          prop "mySignature" my_signature (
                            prop "theirSignature" (str st.their_signature) (
                              prop "secret" (text_or_null st.secret) (
                                prop "validAfter" (text_or_null st.valid_after) (
                                  prop "beneficialOnly" (bool st.beneficial_only)
                                    end))))))))))))))))

pub data Acceptance : Type 0 where
  refused : Reason → Acceptance
  accepted : Value → UpsertResult → IncomingState → Acceptance

sign_and_store : Signer → Text → IncomingState → Store → Outcome (Acceptance × Store)
sign_and_store signer now st s = do
  my_signature ← signer.sip018_sign st.contract_id (message_of st)
  written ← upsert_signature_state now (state_value st my_signature) s
  let (upsert, s') = written
  ok (accepted my_signature upsert st, s')

on_verdict : Signer → Text → Store → Verdict IncomingState → Outcome (Acceptance × Store)
on_verdict signer now s (accept st) = sign_and_store signer now st s
on_verdict signer now s (refuse r) = ok (refused r, s)
on_verdict signer now s (throw e) = err e

unfoldable pub accept_incoming_transfer :
    Signer → Text → Value → Value → Store → Outcome (Acceptance × Store)
unfolding sign_and_store on_verdict
accept_incoming_transfer signer now pipe_id payload s =
    on_verdict signer now s (validate_incoming_transfer pipe_id payload s)
