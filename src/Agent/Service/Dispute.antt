-- ===== src/Agent/Service/Dispute.antt =====
-- packages/stackflow-agent/src/agent-service.js: `evaluateClosureForDispute` and `disputeClosure`.
pub mod Decides
use stackflow.Common.{
  ℕ, ◌≡◌, Bool, true, false, not, Option, none, some, List, [], ◌∷◌, if◌then◌else◌,
}
use stackflow.Js.Text.{Text, is_empty}
use stackflow.Js.Outcome.{Error, type_error, Outcome, ok, err, ◌>>=◌}
use stackflow.Js.Value.{Value, str, is_nullish, get}
use stackflow.Agent.Utils.{
  Closure, SignatureState, normalize_closure_event, is_dispute_beneficial, DisputeCall,
  build_dispute_call_input,
}
use stackflow.Agent.Utils.Normal.{closure_value}
use stackflow.Agent.Store.Rows.{TrackedPipe, Store}
use stackflow.Agent.Store.Methods.{
  get_tracked_pipe, get_latest_signature_state, mark_closure_disputed,
}
use stackflow.Agent.Service.Wallet.{Agent, Signer, Submission}

pub data DecisionReason : Type 0 where
  pipe_not_tracked no_local_signature_state eligible not_beneficial_or_stale : DecisionReason

pub record Decision : Type 0 where
  pub closure : Closure
  pub tracked : Bool
  pub should_dispute : Bool
  pub reason : DecisionReason
  pub latest_state : Option SignatureState

unfoldable pub decide_on : Agent → Closure → Option SignatureState → Outcome Decision
decide_on agent closure none = ok (record {
  closure = closure;
  tracked = true;
  should_dispute = false;
  reason = no_local_signature_state;
  latest_state = none;
})
decide_on agent closure (some latest) = do
  should ← is_dispute_beneficial (some closure) (some latest) agent.dispute_only_beneficial
  ok (record {
    closure = closure;
    tracked = true;
    should_dispute = should;
    reason = if should then eligible else not_beneficial_or_stale;
    latest_state = some latest;
  })

unfoldable pub decide_for : Agent → Closure → Store → Option TrackedPipe → Outcome Decision
decide_for agent closure s none = ok (record {
  closure = closure;
  tracked = false;
  should_dispute = false;
  reason = pipe_not_tracked;
  latest_state = none;
})
decide_for agent closure s (some tracked) = do
  latest ← get_latest_signature_state (str closure.pipe_id) (str tracked.local_principal) s
  decide_on agent closure latest

unfoldable pub evaluate_closure_for_dispute : Agent → Value → Store → Outcome Decision
unfolding decide_on decide_for
evaluate_closure_for_dispute agent event s = do
  closure ← normalize_closure_event event
  tracked ← get_tracked_pipe (str closure.pipe_id) s
  decide_for agent closure s tracked

-- The database, and what was submitted so far.
pub record World : Type 0 where
  pub store : Store
  pub submissions : List Submission

text_of : Value → Option Text
text_of (str t) = some t
text_of _ = none

first_text : Option Text → Option Text → Option Text
first_text none b = b
first_text (some a) b = some a

-- `typeof result.txid === "string" ? … : typeof result.data?.txid === "string" ? … : null`
unfoldable pub dispute_txid_of : Value → Outcome (Option Text)
unfolding text_of first_text
dispute_txid_of result =
    if is_nullish result
    then err type_error
    else ok (first_text (text_of (get result "txid")) (text_of (get (get result "data") "txid")))

pub record Submitted : Type 0 where
  pub dispute_txid : Option Text
  pub call_input : DisputeCall
  pub decision : Decision
  pub raw : Value

pub data DisputeResult : Type 0 where
  not_submitted : DecisionReason → Decision → DisputeResult
  submitted : Submitted → DisputeResult

-- `if (disputeTxid) markClosureDisputed(...)`
unfoldable pub mark_if_named : Option Text → Closure → Store → Outcome Store
mark_if_named none closure s = ok s
mark_if_named (some t) closure s =
    if is_empty t then ok s else mark_closure_disputed (str closure.txid) (str t) s

-- After the signer has answered; an error leaves the database as it is.
unfoldable pub finish :
    Decision → Option SignatureState → Value → Store → Outcome (DisputeResult × Store)
finish d latest result s = do
  txid ← dispute_txid_of result
  s' ← mark_if_named txid d.closure s
  call ← build_dispute_call_input (some d.closure) latest
  ok (submitted (record { dispute_txid = txid; call_input = call; decision = d; raw = result }), s')

unfoldable pub settle : World → Outcome (DisputeResult × Store) → Outcome DisputeResult × World
settle w (err e) = (err e, w)
settle w (ok (r, s')) = (ok r, record w { store = s' })

unfoldable pub submit :
    Agent → Signer → Decision → SignatureState → World → Outcome DisputeResult × World
unfolding finish settle
submit agent signer d latest w =
    let sub : Submission = record {
      closure = d.closure;
      state = latest;
      network = agent.network;
    } in
    let w' : World = record { store = w.store; submissions = sub ∷ w.submissions } in
    settle w'
      (signer.submit_dispute w.submissions sub >>= λ result. finish d (some latest) result w.store)

unfoldable pub act_on :
    Agent → Signer → Decision → Option SignatureState → World → Outcome DisputeResult × World
act_on agent signer d none w = (ok (not_submitted d.reason d), w)
act_on agent signer d (some latest) w =
    if d.should_dispute then submit agent signer d latest w else (ok (not_submitted d.reason d), w)

unfoldable pub on_decision :
    Agent → Signer → World → Outcome Decision → Outcome DisputeResult × World
on_decision agent signer w (err e) = (err e, w)
on_decision agent signer w (ok d) = act_on agent signer d d.latest_state w

-- A decision to dispute always has a latest state (`act_on` with none is never reached then).
unfoldable pub dispute_closure : Agent → Signer → Value → World → Outcome DisputeResult × World
unfolding act_on on_decision
dispute_closure agent signer event w =
    on_decision agent signer w (evaluate_closure_for_dispute agent event w.store)
