-- ===== src/Node/Counterparty/Signing/Authorised.antt =====
-- What `signState` of server/src/counterparty-service.ts signs and stores.
use stackflow.Common.{
  ℕ, ◌+◌, ◌<◌, ◌≡◌, refl, inl, inr, true, Option, some, List, [], ◌∷◌, Bool-cases, All,
}
use mathlib.Core.Path.{subst}
use stackflow.Js.Text.{Text, text_eq, big_int}
use stackflow.Js.Outcome.{Outcome, ok, err, after_ok, Outcome-cases, require}
use stackflow.Js.Value.{Value, is_record, get}
use stackflow.Agent.Store.Steps.{value_of_ok}
use stackflow.Node.Counterparty.{
  SignRequest, RequestOptions, one_of, parse_sign_request, check_for_principal, action_or_default,
  parse_uint_field, amount_of_request, normalize_optional_hex_buff, check_secrets, request_fields,
  action_transfer,
}
use stackflow.Node.Counterparty.Policy.{
  Baseline, NodeStatus, resolve_current_baseline, enforce_signing_policy,
}
use stackflow.Node.Counterparty.Policy.Allows.{required, Allowed, enforce_signing_policy_iff}
use stackflow.Node.Counterparty.Signing.{
  Verification, CounterpartySigner, Call, verifies, signs, stores, configured, accept_request,
  on_stored, on_signed, on_verified, on_accepted, sign_state, sign_transfer,
}

module _ {Upsert : Type 0} (serialize : Text → Outcome (List ℕ)) (sha256_hex : Text → Text)
    (signer : CounterpartySigner) (status : NodeStatus)
    (upsert_signature_state : SignRequest → Text → Outcome Upsert) where
  -- The request was accepted for these actions.
  Accepted : List Text → SignRequest → Type 0
  Accepted actions request =
      (one_of request.action actions ≡ true)
      × (b : Baseline) × (resolve_current_baseline serialize request status ≡ ok (some b))
      × Allowed request b

  Verified : SignRequest → Type 0
  Verified request =
      (v : Verification) × (signer.verify_counterparty_signature request ≡ ok v) × (v.valid ≡ true)

  -- A signature is made, and a state stored, only of an accepted request whose signature was verified.
  pub Authorised : List Text → Call → Type 0
  Authorised actions (verifies request) = Accepted actions request
  Authorised actions (signs request) = Accepted actions request × Verified request
  Authorised actions (stores request signature) = Accepted actions request × Verified request

  parse-action :
      (input : Value) (options : RequestOptions) (request : SignRequest)
      → parse_sign_request serialize sha256_hex input options ≡ ok request
      → one_of request.action options.allowed_actions ≡ true
  unfolding parse_sign_request
  parse-action input options request parsed =
      after_ok (require (is_record input) _) _ parsed λ _ _ h1.
        after_ok (check_for_principal serialize sha256_hex (get input "forPrincipal") _) _ h1
          λ _ _ h2.
            after_ok (action_or_default (get input "action") options.default_action) _ h2
              λ given _ h3. after_ok (parse_uint_field given "action") _ h3 λ action _ h4.
                after_ok (require (one_of action options.allowed_actions) _) _ h4 λ _ listed h5.
                  after_ok (amount_of_request serialize sha256_hex action (get input "amount")) _ h5
                    λ _ _ h6.
                      after_ok
                        (normalize_optional_hex_buff (get input "hashedSecret") 32 "hashedSecret") _
                        h6
                        λ hashed _ h7.
                          after_ok (normalize_optional_hex_buff (get input "secret") 32 "secret") _
                            h7
                            λ raw _ h8. after_ok (check_secrets action hashed raw) _ h8 λ _ _ h9.
                              after_ok (request_fields serialize sha256_hex input) _ h9 λ _ _ h10.
                                subst
                                  (λ (r : SignRequest).
                                    one_of r.action options.allowed_actions ≡ true)
                                  (value_of_ok h10) (required _ _ listed)

  accept_request-Accepted :
      (payload : Value) (actions : List Text) (default : Option Text) (request : SignRequest)
      → accept_request serialize sha256_hex signer status upsert_signature_state payload actions
          default
        ≡ ok request
      → Accepted actions request
  unfolding accept_request Accepted
  accept_request-Accepted payload actions default request accepted =
      after_ok signer.ensure_ready _ accepted λ _ _ h1.
        after_ok
          (configured serialize sha256_hex signer status upsert_signature_state
            signer.counterparty_principal)
          _ h1
          λ principal _ h2.
            after_ok (parse_sign_request serialize sha256_hex payload _) _ h2 λ request' parsed h3.
              after_ok (enforce_signing_policy serialize request' status) _ h3 λ _ passed h4.
                let same : request' ≡ request = value_of_ok h4 in
                let (b, resolved, allowed) =
                  (enforce_signing_policy_iff serialize request' status).0 passed in
                subst (Accepted actions) same
                  (parse-action payload _ request' parsed, b, resolved, allowed)

  on_signed-Authorised :
      (actions : List Text) (request : SignRequest) (signature : Outcome Text)
      → Accepted actions request
      → Verified request
      → All
          (Authorised actions)
          (on_signed serialize sha256_hex signer status upsert_signature_state request signature).1
  unfolding on_signed on_stored Authorised
  on_signed-Authorised actions request (err e) accepted verified =
      (accepted, ((accepted, verified), tt))
  on_signed-Authorised actions request (ok signature) accepted verified =
      (accepted, ((accepted, verified), ((accepted, verified), tt)))

  on_verified-Authorised :
      (actions : List Text) (request : SignRequest) (v : Outcome Verification)
      → Accepted actions request
      → signer.verify_counterparty_signature request ≡ v
      → All
          (Authorised actions)
          (on_verified serialize sha256_hex signer status upsert_signature_state request v).1
  unfolding on_verified Authorised Verified
  on_verified-Authorised actions request (err e) accepted asked = (accepted, tt)
  on_verified-Authorised actions request (ok v) accepted asked = elim (Bool-cases v.valid) [
    | inr invalid ↦ rw invalid (accepted, tt)
    | inl valid ↦ rw valid (on_signed-Authorised actions request _ accepted (v, asked, valid))
  ]

  -- Whatever a call of the service ends with, it asks for a signature, and stores a state, only of a
  -- request with an allowed action that meets the policy and whose other signature was found valid.
  pub sign_state-Authorised :
      (payload : Value) (actions : List Text) (default : Option Text)
      → All
          (Authorised actions)
          (sign_state serialize sha256_hex signer status upsert_signature_state payload actions
            default).1
  unfolding sign_state on_accepted
  sign_state-Authorised payload actions default =
      elim (Outcome-cases (
        accept_request serialize sha256_hex signer status upsert_signature_state payload actions
          default)) [
            | inl (e, refused) ↦ rw refused tt
            | inr (request, accepted) ↦ rw accepted (
                on_verified-Authorised actions request
                  (signer.verify_counterparty_signature request)
                  (accept_request-Accepted payload actions default request accepted) refl)
          ]

  pub IsGain : Call → Type 0
  IsGain (verifies request) = Unit
  IsGain (signs request) =
      (b : Baseline) × (resolve_current_baseline serialize request status ≡ ok (some b))
      × (b.nonce_value < big_int request.nonce)
      × (b.my_balance_value < big_int request.my_balance)
      × (big_int request.my_balance + big_int request.their_balance
          ≡ b.my_balance_value + b.their_balance_value)
  IsGain (stores request signature) = Unit

  only_one : (a b : Text) → one_of a (b ∷ []) ≡ true → text_eq a b ≡ true
  unfolding one_of
  only_one a b e = elim (Bool-cases (text_eq a b)) [
    | inl same ↦ same
    | inr apart ↦ absurd (cc (simp apart at e))
  ]

  paid_of : (call : Call) → Authorised (action_transfer ∷ []) call → IsGain call
  unfolding Authorised Accepted IsGain
  paid_of (verifies request) h = tt
  paid_of (stores request signature) h = tt
  paid_of (signs request) ((listed, b, resolved, allowed), verified) =
      let transfer = only_one request.action action_transfer listed in
      elim allowed.transfer [
        | inl other ↦ absurd (cc (transfer, other))
        | inr (total, more) ↦ (b, resolved, allowed.later, more, total)
      ]

  map-All :
      (P Q : Call → Type 0) (calls : List Call)
      → ((c : Call) → P c → Q c)
      → All P calls
      → All Q calls
  map-All P Q [] f tt = tt
  map-All P Q (c ∷ calls) f (here, rest) = (f c here, map-All P Q calls f rest)

  -- A transfer is signed only if the counterparty gains by it, against the newest state that the node
  -- knows of the pipe, at the same total of the balances and with a later nonce.
  pub sign_transfer-IsGain :
      (payload : Value)
      → All IsGain
          (sign_transfer serialize sha256_hex signer status upsert_signature_state payload).1
  unfolding sign_transfer
  sign_transfer-IsGain payload =
      map-All (Authorised (action_transfer ∷ [])) IsGain _ paid_of
        (sign_state-Authorised payload (action_transfer ∷ []) (some action_transfer))
