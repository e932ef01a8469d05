-- ===== src/Agent/Service/Wallet.antt =====
-- The signer of `StackflowAgentService` (packages/stackflow-agent/src/agent-service.js), which the
-- program is handed: what it is asked, and its answers as functions of all that it was asked before.
use stackflow.Common.{ℕ, Bool, Option, List}
use stackflow.Js.Text.{Text}
use stackflow.Js.Outcome.{Outcome}
use stackflow.Js.Value.{Value}
use stackflow.Agent.Utils.{Closure, SignatureState}

-- The Clarity tuple that is signed. A number is a double; none stands for Infinity.
pub record Message : Type 0 where
  pub principal_1 : Value
  pub principal_2 : Value
  pub token : Option Text
  pub balance_1 : Option ℕ
  pub balance_2 : Option ℕ
  pub nonce : Option ℕ
  pub action : Option ℕ
  pub actor : Text
  pub hashed_secret : Option Text
  pub valid_after : Option (Option ℕ)

-- A dispute that was handed to the signer.
pub record Submission : Type 0 where
  pub closure : Closure
  pub state : SignatureState
  pub network : Text

-- `sip018Sign` and `submitDispute`; the list holds the submissions so far, the last one first.
pub record Signer : Type 0 where
  pub sip018_sign : Text → Message → Outcome Value
  pub submit_dispute : List Submission → Submission → Outcome Value

-- The service's settings.
pub record Agent : Type 0 where
  pub network : Text
  pub dispute_only_beneficial : Bool
