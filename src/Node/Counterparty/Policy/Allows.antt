-- ===== src/Node/Counterparty/Policy/Allows.antt =====
-- `enforceSigningPolicy` of server/src/counterparty-service.ts.
use stackflow.Common.{
  ℕ, ◌+◌, ◌≤◌, ◌<◌, ◌≡◌, refl, ◌⊎◌, ◌↔◌, inl, inr, Bool, true, false, Option, none, some, List, ltb,
  leb, ◌==◌, arith, Bool-cases,
}
use stackflow.Js.Text.{Text, text_eq, big_int}
use stackflow.Js.Outcome.{Outcome, ok, Error, require, after_ok}
use stackflow.Node.Counterparty.{SignRequest, action_transfer}
use stackflow.Node.Counterparty.Policy.{
  Baseline, NodeStatus, resolve_current_baseline, check_policy, check_transfer,
  enforce_signing_policy,
}

-- A later nonce, no loss for the counterparty, and for a transfer the same total and a gain.
pub record Allowed (request : SignRequest) (b : Baseline) : Type 0 where
  pub later : b.nonce_value < big_int request.nonce
  pub no_loss : b.my_balance_value ≤ big_int request.my_balance
  pub transfer :
      (text_eq request.action action_transfer ≡ false)
      ⊎ (big_int request.my_balance + big_int request.their_balance
          ≡ b.my_balance_value + b.their_balance_value)
        × (b.my_balance_value < big_int request.my_balance)

pub required : (b : Bool) (e : Error) {u : Unit {0}} → require b e ≡ ok u → b ≡ true
required true e h = refl
required false e h = absurd (cc)

check_transfer-moves :
    (request : SignRequest) (b : Baseline)
    → check_transfer request b ≡ ok tt
    → (big_int request.my_balance + big_int request.their_balance
        ≡ b.my_balance_value + b.their_balance_value)
      × (b.my_balance_value < big_int request.my_balance)
unfolding check_transfer
check_transfer-moves request b passed =
    after_ok
      (require
        (big_int request.my_balance + big_int request.their_balance
          == b.my_balance_value + b.their_balance_value)
        _)
      _ passed
      λ _ total rest.
        let equal = required _ _ total in
        let gains = required _ _ rest in (ground arith, ground arith)

check_policy-Allowed :
    (request : SignRequest) (b : Baseline)
    → check_policy request (some b) ≡ ok tt
    → Allowed request b
unfolding check_policy
check_policy-Allowed request b passed =
    after_ok (require (ltb b.nonce_value (big_int request.nonce)) _) _ passed λ _ above rest.
      after_ok (require (leb b.my_balance_value (big_int request.my_balance)) _) _ rest
        λ _ kept last.
          let later = required _ _ above in
          let no_loss = required _ _ kept in
          elim (Bool-cases (text_eq request.action action_transfer)) [
            | inr other ↦ record {
              later = ground arith;
              no_loss = ground arith;
              transfer = inl other;
            }
            | inl moves ↦ record {
              later = ground arith;
              no_loss = ground arith;
              transfer = inr (check_transfer-moves request b (simp moves at last));
            }
          ]

Allowed-check_policy :
    (request : SignRequest) (b : Baseline)
    → Allowed request b
    → check_policy request (some b) ≡ ok tt
unfolding check_policy check_transfer
Allowed-check_policy request b allowed =
    let above : ltb b.nonce_value (big_int request.nonce) ≡ true =
      let h = allowed.later in ground arith in
    let kept : leb b.my_balance_value (big_int request.my_balance) ≡ true =
      let h = allowed.no_loss in ground arith in
    elim allowed.transfer [
      | inl other ↦ rw (above, kept, other) refl
      | inr (equal, gains) ↦
          let total : (big_int request.my_balance + big_int request.their_balance
                == b.my_balance_value + b.their_balance_value)
              ≡ true =
            ground arith in
          let more : ltb b.my_balance_value (big_int request.my_balance) ≡ true = ground arith in
          elim (Bool-cases (text_eq request.action action_transfer)) [
            | inl moves ↦ rw (above, kept, moves, total, more) refl
            | inr other ↦ rw (above, kept, other) refl
          ]
    ]

module _ (serialize : Text → Outcome (List ℕ)) where
  pub enforce_signing_policy_iff :
      (request : SignRequest) (status : NodeStatus)
      → (enforce_signing_policy serialize request status ≡ ok tt)
        ↔ (b : Baseline) × (resolve_current_baseline serialize request status ≡ ok (some b))
          × Allowed request b
  unfolding enforce_signing_policy check_policy
  enforce_signing_policy_iff request status = (
    λ passed.
        after_ok (resolve_current_baseline serialize request status) _ passed
          λ o resolved rest. from_baseline o resolved rest,
    λ (b, resolved, allowed). rw resolved (Allowed-check_policy request b allowed),
  )
    where
      from_baseline :
          (o : Option Baseline)
          → resolve_current_baseline serialize request status ≡ ok o
          → check_policy request o ≡ ok tt
          → (b : Baseline) × (resolve_current_baseline serialize request status ≡ ok (some b))
            × Allowed request b
      from_baseline none resolved rest = absurd (cc)
      from_baseline (some b) resolved rest = (b, resolved, check_policy-Allowed request b rest)
