-- ===== src/Node/Counterparty/Signing.antt =====
-- server/src/counterparty-service.ts: `signTransfer` and `signSignatureRequest`. The signer, which checks
-- the other side's signature and makes one's own, and the node, which stores the state, are arguments.
pub mod Authorised
use stackflow.Common.{ℕ, Bool, true, false, not, Option, none, some, List, [], ◌∷◌, if◌then◌else◌}
use stackflow.Js.Text.{Text, codes, is_empty}
use stackflow.Js.Outcome.{
  Outcome, ok, err, Error, ◌>>=◌, ◌>>◌, require, rethrow, service_error, wrapped,
  signature_validation_error, principal_not_watched_error,
}
use stackflow.Js.Value.{Value}
use stackflow.Node.Counterparty.{
  SignRequest, RequestOptions, parse_sign_request, action_close, action_transfer, action_deposit,
  action_withdrawal,
}
use stackflow.Node.Counterparty.Policy.{NodeStatus, enforce_signing_policy}

pub record Verification : Type 0 where
  pub valid : Bool
  pub reason : Option Text

pub record CounterpartySigner : Type 0 where
  pub ensure_ready : Outcome (Unit {0})
  pub counterparty_principal : Option Text
  pub verify_counterparty_signature : SignRequest → Outcome Verification
  pub sign_my_signature : SignRequest → Outcome Text

-- What the service asks of the signer and of the node, in order
pub data Call : Type 0 where
  verifies signs : SignRequest → Call
  stores : SignRequest → Text → Call

pub record SignResult (Upsert : Type 0) : Type 0 where
  pub request : SignRequest
  pub my_signature : Text
  pub upsert : Upsert

-- The `catch` of `signState`
unfoldable pub store_error : Error → Error
store_error (signature_validation_error message) =
    service_error 401 "signature-validation" (message ∷ [])
store_error (principal_not_watched_error message) =
    service_error 403 "principal-not-watched" (message ∷ [])
store_error e = e

module _ {Upsert : Type 0} (serialize : Text → Outcome (List ℕ)) (sha256_hex : Text → Text)
    (signer : CounterpartySigner) (status : NodeStatus)
    (upsert_signature_state : SignRequest → Text → Outcome Upsert) where
  configured : Option Text → Outcome Text
  configured none = err (service_error 503 "counterparty signing is not configured" [])
  configured (some p) =
      if is_empty p
      then err (service_error 503 "counterparty signing is not configured" [])
      else ok p

  -- The part that makes no call of the signer
  unfoldable pub accept_request : Value → List Text → Option Text → Outcome SignRequest
  unfolding configured
  accept_request payload allowed_actions default_action = do
    signer.ensure_ready
    principal ← configured signer.counterparty_principal
    request ← parse_sign_request serialize sha256_hex payload (record {
      counterparty_principal = principal;
      allowed_actions = allowed_actions;
      default_action = default_action;
    })
    enforce_signing_policy serialize request status
    ok request

  on_stored : SignRequest → Text → Outcome Upsert → Outcome (SignResult Upsert) × List Call
  on_stored request signature stored = (
    rethrow store_error stored >>= λ upsert.
        ok (record { request = request; my_signature = signature; upsert = upsert }),
    verifies request ∷ signs request ∷ stores request signature ∷ [],
  )

  on_signed : SignRequest → Outcome Text → Outcome (SignResult Upsert) × List Call
  on_signed request (err e) = (err e, verifies request ∷ signs request ∷ [])
  on_signed request (ok signature) =
      on_stored request signature (upsert_signature_state request signature)

  invalid_reason : Option Text → Text
  invalid_reason none = codes "counterparty signature invalid"
  invalid_reason (some t) = if is_empty t then codes "counterparty signature invalid" else t

  on_verified : SignRequest → Outcome Verification → Outcome (SignResult Upsert) × List Call
  unfolding invalid_reason
  on_verified request (err e) = (err e, verifies request ∷ [])
  on_verified request (ok v) =
      if not v.valid
      then (err (service_error 401 "invalid" (invalid_reason v.reason ∷ [])), verifies request ∷ [])
      else on_signed request (signer.sign_my_signature request)

  on_accepted : Outcome SignRequest → Outcome (SignResult Upsert) × List Call
  on_accepted (err e) = (err e, [])
  on_accepted (ok request) = on_verified request (signer.verify_counterparty_signature request)

  -- `signState`, with the calls that it makes
  unfoldable pub sign_state :
      Value → List Text → Option Text → Outcome (SignResult Upsert) × List Call
  unfolding on_stored on_signed on_verified on_accepted
  sign_state payload allowed_actions default_action =
      on_accepted (accept_request payload allowed_actions default_action)

  unfoldable pub sign_transfer : Value → Outcome (SignResult Upsert) × List Call
  sign_transfer payload = sign_state payload (action_transfer ∷ []) (some action_transfer)

  unfoldable pub sign_signature_request : Value → Outcome (SignResult Upsert) × List Call
  sign_signature_request payload =
      sign_state payload (action_close ∷ action_deposit ∷ action_withdrawal ∷ []) none
