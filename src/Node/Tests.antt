-- ===== src/Node/Tests.antt =====
-- The theorems on server/src at concrete values.
mod OfDisputes
use stackflow.Common.{ℕ, ◌≡◌, refl, Bool, true, false, none, some, List, [], ◌∷◌, All}
use mathlib.Core.Bool.{false≢true}
use stackflow.Js.Text.{Text, codes, text_eq, text_eq_iff}
use stackflow.Js.Outcome.{Outcome, ok}
use stackflow.Js.Value.{Value, str, obj, prop, end}
use stackflow.Node.Principals.{canonical_pipe_key}
use stackflow.Node.Principals.Ordered.{canonical_pipe_key-sym}
use stackflow.Node.Counterparty.{SignRequest, action_transfer}
use stackflow.Node.Counterparty.Policy.{
  ObservedPipe, SignedState, NodeStatus, newest_baseline, observed_candidate, signed_candidate,
}
use stackflow.Node.Counterparty.Policy.Newest.{outdoes, newest_baseline-outdone}
use stackflow.Node.Counterparty.Signing.{CounterpartySigner, sign_state, sign_transfer}
use stackflow.Node.Counterparty.Signing.Authorised.{
  Authorised, IsGain, sign_state-Authorised, sign_transfer-IsGain,
}

-- The codes of the text in place of its serialisation
abbrev serialize : Text → Outcome (List ℕ)
serialize t = ok t

apart : codes "SB" ≡ codes "SA" → ⊥
unfolding codes text_eq
apart e =
    let same : false ≡ true = (text_eq_iff (codes "SB") (codes "SA")).1 e in
    absurd (false≢true same)

canonical_pipe_key-sym_example :
    canonical_pipe_key serialize none (codes "SB") (codes "SA")
    ≡ canonical_pipe_key serialize none (codes "SA") (codes "SB")
canonical_pipe_key-sym_example =
    canonical_pipe_key-sym serialize none (codes "SB") (codes "SA") (codes "SB") (codes "SA") refl
      refl apart

abbrev request : SignRequest
request = record {
  contract_id = codes "C.p";
  for_principal = codes "SA";
  with_principal = codes "SB";
  token = none;
  amount = codes "0";
  my_balance = codes "8";
  their_balance = codes "2";
  their_signature = codes "0x11";
  nonce = codes "5";
  action = codes "1";
  actor = codes "SB";
  secret = none;
  valid_after = none;
  beneficial_only = false;
}

abbrev observed : ObservedPipe
observed = record {
  contract_id = codes "C.p";
  pipe_id = codes "stx|SA|SB";
  pipe_key = record { token = none; principal_1 = codes "SA"; principal_2 = codes "SB" };
  balance1 = some (codes "5");
  balance2 = some (codes "5");
  nonce = some (codes "1");
  updated_at = codes "t1";
}

abbrev pub signed : SignedState
signed = record {
  contract_id = codes "C.p";
  pipe_id = codes "stx|SA|SB";
  state_id = codes "C.p|stx|SA|SB|SA";
  for_principal = codes "SA";
  with_principal = codes "SB";
  token = none;
  amount = codes "0";
  my_signature = codes "0x22";
  their_signature = codes "0x11";
  action = codes "1";
  actor = codes "SB";
  secret = none;
  valid_after = none;
  beneficial_only = false;
  my_balance = codes "7";
  their_balance = codes "3";
  nonce = codes "4";
  updated_at = codes "t2";
}

abbrev status : NodeStatus
status = record { observed_pipes = observed ∷ []; signature_states = signed ∷ [] }

newest_baseline-outdone_example :
    All
      (λ o.
        outdoes
          (newest_baseline request status (codes "stx|SA|SB"))
          (observed_candidate request (codes "stx|SA|SB") o)
        ≡ false)
      status.observed_pipes
    × All
        (λ s.
          outdoes
            (newest_baseline request status (codes "stx|SA|SB"))
            (signed_candidate request (codes "stx|SA|SB") s)
          ≡ false)
        status.signature_states
newest_baseline-outdone_example = newest_baseline-outdone request status (codes "stx|SA|SB")

abbrev signer : CounterpartySigner
signer = record {
  ensure_ready = ok tt;
  counterparty_principal = some (codes "SA");
  verify_counterparty_signature = λ r. ok (record { valid = true; reason = none });
  sign_my_signature = λ r. ok (codes "0x22");
}

abbrev upsert : SignRequest → Text → Outcome Bool
upsert r signature = ok true

abbrev payload : Value
payload = obj (
    prop "contractId" (str (codes "C.p")) (
      prop "withPrincipal" (str (codes "SB")) (
        prop "myBalance" (str (codes "8")) (
          prop "theirBalance" (str (codes "2")) (
            prop "theirSignature"
              (str (
                codes
                  "0x1111111111111111111111111111111111111111111111111111111111111111111111111111111111111111111111111111111111111111111111111111111111"))
              (prop "nonce" (str (codes "5")) (prop "actor" (str (codes "SB")) end)))))))

sign_state-Authorised_example :
    All
      (Authorised serialize (λ t. t) signer status upsert (action_transfer ∷ []))
      (sign_state serialize
        (λ t. t)
        signer
        status
        upsert
        payload
        (action_transfer ∷ [])
        (some action_transfer)).1
sign_state-Authorised_example =
    sign_state-Authorised serialize (λ t. t) signer status upsert payload (action_transfer ∷ [])
      (some action_transfer)

sign_transfer-IsGain_example :
    All
      (IsGain serialize (λ t. t) signer status upsert)
      (sign_transfer serialize (λ t. t) signer status upsert payload).1
sign_transfer-IsGain_example = sign_transfer-IsGain serialize (λ t. t) signer status upsert payload
