-- ===== src/Agent/Watcher/Run/Safety.antt =====
-- What is claimed of the world during a run of packages/stackflow-agent/src/watcher.js (`Runs`),
-- and the lemmas on the calls that a run makes.
use stackflow.Common.{
  ◌≡◌, refl, sym, ◌∙◌, ap, false, Option, none, some, List, ◌∷◌, Bool-cases, inl, inr,
}
use mathlib.Core.Path.{subst}
use mathlib.Core.Bool.{false≢true}
use stackflow.Js.Text.{Text, is_empty}
use stackflow.Js.Outcome.{Outcome, ok, err, after_ok}
use stackflow.Js.Value.{Value, str}
use stackflow.Agent.Utils.{
  Closure, SignatureState, normalize_closure_event, is_dispute_beneficial, build_dispute_call_input,
}
use stackflow.Agent.Utils.Leaves.{IsName, assert_non_empty-str}
use stackflow.Agent.Utils.Normal.{IsNormal, closure_value, normalize_closure_event-value}
use stackflow.Table.{find}
use stackflow.Agent.Store.Rows.{TrackedPipe, ClosureRow, Store, txid_of}
use stackflow.Agent.Store.Invariant.{IsValid}
use stackflow.Agent.Store.Methods.{
  assert_open, get_closure, get_tracked_pipe, get_latest_signature_state,
}
use stackflow.Agent.Store.Growth.{flag_of, Grows, Grows-refl, Grows-trans, is_disputed}
use stackflow.Agent.Store.Steps.{value_of_ok, second_of_ok}
use stackflow.Agent.Store.Cursor.{KeepsCursor, KeepsCursor-refl, mark_closure_disputed-KeepsCursor}
use stackflow.Agent.Service.Wallet.{Agent, Signer, Submission}
use stackflow.Agent.Service.Dispute.{
  Decision, World, DisputeResult, dispute_txid_of, mark_if_named, finish, settle, decide_on,
  decide_for, submit, act_on, on_decision, evaluate_closure_for_dispute, dispute_closure,
}
use stackflow.Agent.Watcher.Run.{already_disputed}

-- Submissions made since the database was `s` and the submissions were `old`, none of them for a
-- closure that was marked as disputed then.
pub data Since (s : Store) (old : List Submission) : List Submission → Type 0 where
  start : Since s old old
  more :
      {subs : List Submission} (sub : Submission)
      → is_disputed sub.closure.txid s ≡ false
      → Since s old subs
      → Since s old (sub ∷ subs)

-- What holds of the world during a run that began at `w`.
pub record Runs (w w' : World) : Type 0 where
  pub valid : IsValid w'.store
  pub grows : Grows w.store w'.store
  pub cursor : w'.store.last_block_height ≡ w.store.last_block_height
  pub since : Since w.store w.submissions w'.submissions

pub Runs-refl : (w : World) → IsValid w.store → Runs w w
Runs-refl w v = record { valid = v; grows = Grows-refl w.store; cursor = refl; since = start }

-- A database call in the middle of a run
pub Runs-store :
    (w w' : World) (s : Store)
    → Runs w w'
    → KeepsCursor w'.store s
    → Runs w (record w' { store = s })
Runs-store w w' s r k = record {
  valid = k.keeps.valid;
  grows = Grows-trans r.grows k.keeps.grows;
  cursor = k.cursor ∙ r.cursor;
  since = r.since;
}

mark_if_named-KeepsCursor :
    (t : Option Text) (c : Closure) (s : Store) {s' : Store}
    → IsValid s
    → mark_if_named t c s ≡ ok s'
    → KeepsCursor s s'
unfolding mark_if_named
mark_if_named-KeepsCursor none c s {s'} v h =
    subst (KeepsCursor s) (value_of_ok h) (KeepsCursor-refl s v)
mark_if_named-KeepsCursor (some t) c s {s'} v h = elim (Bool-cases (is_empty t)) [
  | inl blank ↦ subst (KeepsCursor s) (value_of_ok (rw blank at h)) (KeepsCursor-refl s v)
  | inr named ↦ mark_closure_disputed-KeepsCursor (str c.txid) (str t) s v (rw named at h)
]

finish-KeepsCursor :
    (d : Decision) (latest : Option SignatureState) (result : Value) (s : Store) {r : DisputeResult}
    {s' : Store}
    → IsValid s
    → finish d latest result s ≡ ok (r, s')
    → KeepsCursor s s'
unfolding finish
finish-KeepsCursor d latest result s {r} {s'} v h = after_ok (dispute_txid_of result) _ h λ t _ h1.
    after_ok (mark_if_named t d.closure s) _ h1 λ s2 marked h2.
      after_ok (build_dispute_call_input (some d.closure) latest) _ h2 λ _ _ h3.
        subst (KeepsCursor s) (second_of_ok h3) (mark_if_named-KeepsCursor t d.closure s v marked)

settle-Runs :
    (w0 w : World) (r : Outcome (DisputeResult × Store))
    → Runs w0 w
    → ((d : DisputeResult) (s : Store) → r ≡ ok (d, s) → KeepsCursor w.store s)
    → Runs w0 (settle w r).1
unfolding settle
settle-Runs w0 w (err e) run keep = run
settle-Runs w0 w (ok (d, s)) run keep = Runs-store w0 w s run (keep d s refl)

decide_on-closure :
    (agent : Agent) (c : Closure) (latest : Option SignatureState) {d : Decision}
    → decide_on agent c latest ≡ ok d
    → d.closure ≡ c
unfolding decide_on
decide_on-closure agent c none h = ap (λ (x : Decision). x.closure) (sym (value_of_ok h))
decide_on-closure agent c (some latest) {d} h =
    after_ok (is_dispute_beneficial (some c) (some latest) agent.dispute_only_beneficial) _ h
      λ should _ h1. ap (λ (x : Decision). x.closure) (sym (value_of_ok h1))

decide_for-closure :
    (agent : Agent) (c : Closure) (s : Store) (t : Option TrackedPipe) {d : Decision}
    → decide_for agent c s t ≡ ok d
    → d.closure ≡ c
unfolding decide_for
decide_for-closure agent c s none h = ap (λ (x : Decision). x.closure) (sym (value_of_ok h))
decide_for-closure agent c s (some tracked) {d} h =
    after_ok (get_latest_signature_state (str c.pipe_id) (str tracked.local_principal) s) _ h
      λ latest _ h1. decide_on-closure agent c latest {d = d} h1

evaluate-closure :
    (agent : Agent) (c : Closure) (s : Store) {d : Decision}
    → IsNormal c
    → evaluate_closure_for_dispute agent (closure_value c) s ≡ ok d
    → d.closure ≡ c
unfolding evaluate_closure_for_dispute
evaluate-closure agent c s {d} n h =
    after_ok (normalize_closure_event (closure_value c)) _ h λ c' normalized h1.
      after_ok (get_tracked_pipe (str c'.pipe_id) s) _ h1 λ t _ h2.
        decide_for-closure agent c' s t {d = d} h2
        ∙ value_of_ok (sym normalized ∙ normalize_closure_event-value c n)

module _ (agent : Agent) (signer : Signer) (w0 : World) where
  submit-Runs :
      (d : Decision) (latest : SignatureState) (w : World)
      → is_disputed d.closure.txid w0.store ≡ false
      → Runs w0 w
      → Runs w0 (submit agent signer d latest w).1
  unfolding submit
  submit-Runs d latest w fresh run =
      let sub : Submission = record {
        closure = d.closure;
        state = latest;
        network = agent.network;
      } in
      settle-Runs w0 (record { store = w.store; submissions = sub ∷ w.submissions }) _
        (record {
          valid = run.valid;
          grows = run.grows;
          cursor = run.cursor;
          since = more sub fresh run.since;
        })
        (λ r s e. after_ok (signer.submit_dispute w.submissions sub) _ e λ result _ e1.
          finish-KeepsCursor d (some latest) result w.store {r = r} {s' = s} run.valid e1)

  act_on-Runs :
      (d : Decision) (latest : Option SignatureState) (w : World)
      → is_disputed d.closure.txid w0.store ≡ false
      → Runs w0 w
      → Runs w0 (act_on agent signer d latest w).1
  unfolding act_on
  act_on-Runs d none w fresh run = run
  act_on-Runs d (some latest) w fresh run = elim (Bool-cases d.should_dispute) [
    | inl yes_dispute ↦ simp yes_dispute (submit-Runs d latest w fresh run)
    | inr no_dispute ↦ simp no_dispute run
  ]

  on_decision-Runs :
      (r : Outcome Decision) (w : World)
      → ((d : Decision) → r ≡ ok d → is_disputed d.closure.txid w0.store ≡ false)
      → Runs w0 w
      → Runs w0 (on_decision agent signer w r).1
  unfolding on_decision
  on_decision-Runs (err e) w fresh run = run
  on_decision-Runs (ok d) w fresh run = act_on-Runs d d.latest_state w (fresh d refl) run

  -- Disputing a closure that was not marked when the run began keeps what holds of the run.
  pub dispute_closure-Runs :
      (c : Closure) (w : World)
      → IsNormal c
      → is_disputed c.txid w0.store ≡ false
      → Runs w0 w
      → Runs w0 (dispute_closure agent signer (closure_value c) w).1
  unfolding dispute_closure
  dispute_closure-Runs c w n fresh run =
      on_decision-Runs (evaluate_closure_for_dispute agent (closure_value c) w.store) w
        (λ d e.
          rw (ap (λ (x : Closure). x.txid) (evaluate-closure agent c w.store {d = d} n e)) fresh)
        run

get_closure-str :
    (txid : Text) (s : Store) {existing : Option ClosureRow}
    → get_closure (str txid) s ≡ ok existing
    → IsName txid
    → find txid_of txid s.closures ≡ existing
unfolding get_closure
get_closure-str txid s {existing} h n =
    after_ok (assert_open s) _ h
      λ _ _ h1. value_of_ok (rw (assert_non_empty-str txid "txid" n) at h1)

already_disputed-flag : (o : Option ClosureRow) → already_disputed o ≡ flag_of o
unfolding already_disputed
already_disputed-flag none = refl
already_disputed-flag (some r) = refl

-- A closure that is not marked now was not marked when the run began.
pub not_disputed_before :
    (w0 w : World) (c : Closure) (existing : Option ClosureRow)
    → IsName c.txid
    → Runs w0 w
    → get_closure (str c.txid) w.store ≡ ok existing
    → already_disputed existing ≡ false
    → is_disputed c.txid w0.store ≡ false
not_disputed_before w0 w c existing n run h fresh =
    let found = get_closure-str c.txid w.store h n in
    let now_fresh : is_disputed c.txid w.store ≡ false =
      rw found (sym (already_disputed-flag existing) ∙ fresh) in
    elim (Bool-cases (is_disputed c.txid w0.store)) [
      | inr before ↦ before
      | inl marked ↦ absurd (false≢true (sym now_fresh ∙ run.grows.disputed c.txid marked))
    ]
