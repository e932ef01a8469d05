-- ===== src/Node/Disputes/Once.antt =====
-- `tryDisputeClosure` of server/src/stackflow-node.ts, run again after a dispute was submitted.
use stackflow.Common.{
  not, ◌≡◌, refl, sym, ◌∙◌, ap, Bool, true, false, Option, none, some, [], ◌∷◌, if◌then◌else◌,
  Bool-cases, Option-cases, inl, inr,
}
use mathlib.Core.Path.{subst}
use stackflow.Js.Text.{Text, big_int}
use stackflow.Js.Outcome.{ok}
use stackflow.Table.{find, upsert}
use stackflow.Table.Laws.{merged, KeepsKey, find-upsert_self}
use stackflow.Node.Counterparty.Policy.{SignedState}
use stackflow.Node.Disputes.{
  Trigger, ClosureRecord, NodeStore, DisputeAttempt, Submission, Executor, first_that, is_eligible,
  candidates, some_text, attempt_id_of, secret_allows, attempt_key, attempt_of, replace_attempt,
  already_submitted, submission_of, submit_for, with_closer, try_dispute_closure,
}

replace_attempt-KeepsKey : KeepsKey attempt_key replace_attempt
unfolding replace_attempt
replace_attempt-KeepsKey old new = refl

unfoldable with_attempt : DisputeAttempt → NodeStore → NodeStore
with_attempt a store = record store {
  attempts = upsert attempt_key replace_attempt a store.attempts;
}

merged-success :
    (a : DisputeAttempt) (o : Option DisputeAttempt)
    → a.success ≡ true
    → (merged attempt_key replace_attempt a o).success ≡ true
unfolding replace_attempt
merged-success a none e = e
merged-success a (some old) e = e

already_submitted-with_attempt :
    (a : DisputeAttempt) (store : NodeStore)
    → a.success ≡ true
    → already_submitted (with_attempt a store) a.attempt_id ≡ true
unfolding already_submitted with_attempt
already_submitted-with_attempt a store e =
    rw
      (
        already_submitted,
        find-upsert_self attempt_key replace_attempt a store.attempts replace_attempt-KeepsKey,
      )
      (merged-success a (find attempt_key a.attempt_id store.attempts) e)

module _ (only_beneficial : Bool) (event : Trigger) (closure : ClosureRecord) where
  submit_for-eq :
      (executor : Executor) (now : Text) (store : NodeStore) (s : SignedState)
      → already_submitted store (attempt_id_of event closure s) ≡ false
      → submit_for only_beneficial executor now store event closure s ≡ (
        with_attempt
            (attempt_of only_beneficial executor now event closure s
              (executor.submit (submission_of store closure s)))
            store,
        submission_of store closure s ∷ [],
      )
  unfolding submit_for with_attempt
  submit_for-eq executor now store s fresh = rw fresh refl

  -- What the first run has written
  Wrote : Executor → Text → NodeStore → NodeStore → SignedState → Type 0
  Wrote executor now store store' s =
      (a : DisputeAttempt) × (a.attempt_id ≡ attempt_id_of event closure s)
      × (a.success ≡ true)
      × (store' ≡ with_attempt a store)

  submit_for-Wrote :
      (executor : Executor) (now : Text) (store store' : NodeStore) (s : SignedState)
      (sent : Submission) (txid : Text)
      → submit_for only_beneficial executor now store event closure s ≡ (store', sent ∷ [])
      → executor.submit sent ≡ ok txid
      → Wrote executor now store store' s
  unfolding Wrote submit_for
  submit_for-Wrote executor now store store' s sent txid first went =
      elim (Bool-cases (already_submitted store (attempt_id_of event closure s))) [
        | inl done ↦ absurd (cc (simp done at first))
        | inr fresh ↦
            let pair = sym (submit_for-eq executor now store s fresh) ∙ first in
            let same : submission_of store closure s ≡ sent = cc (pair) in
            let result : executor.submit (submission_of store closure s) ≡ ok txid =
              ap executor.submit same ∙ went in
            (
              attempt_of only_beneficial executor now event closure s
                  (executor.submit (submission_of store closure s)),
              refl,
              ap (λ r. (attempt_of only_beneficial executor now event closure s r).success) result,
              sym (ap (λ r. r.0) pair),
            )
      ]

  submit_for-done :
      (executor : Executor) (now : Text) (store : NodeStore) (s : SignedState)
      → already_submitted store (attempt_id_of event closure s) ≡ true
      → submit_for only_beneficial executor now store event closure s ≡ (store, [])
  unfolding submit_for
  submit_for-done executor now store s done = rw done refl

  -- Either the run submits nothing, or it is for the state that is chosen.
  Runs : Executor → Text → NodeStore → Option SignedState → Type 0
  Runs executor now store none =
      try_dispute_closure only_beneficial executor now store event closure ≡ (store, [])
  Runs executor now store (some s) =
      try_dispute_closure only_beneficial executor now store event closure
      ≡ submit_for only_beneficial executor now store event closure s

  chosen : Executor → NodeStore → Option SignedState
  chosen executor store = if not executor.enabled then none else elim closure.nonce [
    | none ↦ none
    | some nonce ↦ elim (some_text closure.closer) [
      | none ↦ none
      | some closer ↦
          first_that (is_eligible only_beneficial store event (big_int nonce))
            (candidates store closure closer)
    ]
  ]

  chosen-Runs :
      (executor : Executor) (now : Text) (store : NodeStore)
      → Runs executor now store (chosen executor store)
  unfolding Runs chosen try_dispute_closure with_closer
  chosen-Runs executor now store = elim (Bool-cases executor.enabled) [
    | inr off ↦ simp off refl
    | inl on ↦ elim (Option-cases closure.nonce) [
      | inl absent ↦ simp (on, absent) refl
      | inr (nonce, given) ↦ elim (Option-cases (some_text closure.closer)) [
        | inl nobody ↦ simp (on, given, nobody) refl
        | inr (closer, closed) ↦
            elim (Option-cases (
              first_that (is_eligible only_beneficial store event (big_int nonce))
                (candidates store closure closer))) [
                  | inl nothing ↦ simp (on, given, closed, nothing) (rw (with_closer, nothing) refl)
                  | inr (s, found) ↦ simp (on, given, closed, found) (rw (with_closer, found) refl)
                ]
      ]
    ]
  ]

  disabled :
      (executor : Executor) (now : Text) (store : NodeStore)
      → executor.enabled ≡ false
      → try_dispute_closure only_beneficial executor now store event closure ≡ (store, [])
  unfolding try_dispute_closure
  disabled executor now store off = simp off refl

  same_choice :
      (executor again : Executor) (a : DisputeAttempt) (store : NodeStore) (s : SignedState)
      → again.enabled ≡ true
      → chosen executor store ≡ some s
      → chosen again (with_attempt a store) ≡ some s
  unfolding chosen with_attempt candidates is_eligible secret_allows
  same_choice executor again a store s on found = elim (Bool-cases executor.enabled) [
    | inr off ↦ absurd (cc (simp off at found))
    | inl was_on ↦ simp on (simp was_on at found)
  ]

  -- After a dispute that was submitted with success, the same event does not submit it again, whatever
  -- executor is there then.
  pub try_dispute_closure-once :
      (executor again : Executor) (now later : Text) (store store' : NodeStore) (sent : Submission)
      (txid : Text)
      → try_dispute_closure only_beneficial executor now store event closure ≡ (store', sent ∷ [])
      → executor.submit sent ≡ ok txid
      → try_dispute_closure only_beneficial again later store' event closure ≡ (store', [])
  unfolding Runs Wrote
  try_dispute_closure-once executor again now later store store' sent txid first went =
      elim (Bool-cases again.enabled) [
        | inr off ↦ disabled again later store' off
        | inl on ↦ elim (Option-cases (chosen executor store)) [
          | inl nothing ↦
              let idle = subst (Runs executor now store) nothing (chosen-Runs executor now store) in
              absurd (cc (idle, first))
          | inr (s, found) ↦
              let ran = subst (Runs executor now store) found (chosen-Runs executor now store) in
              let (a, key, success, stored) =
                submit_for-Wrote executor now store store' s sent txid (sym ran ∙ first) went in
              let choice : chosen again store' ≡ some s =
                rw stored (same_choice executor again a store s on found) in
              let runs = subst (Runs again later store') choice (chosen-Runs again later store') in
              let done : already_submitted store' (attempt_id_of event closure s) ≡ true =
                rw (stored, ← key) (already_submitted-with_attempt a store success) in
              runs ∙ submit_for-done again later store' s done
        ]
      ]
