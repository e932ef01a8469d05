-- ===== src/Agent/Service/Incoming/Sound.antt =====
-- The payloads that `validateIncomingTransfer` (packages/stackflow-agent/src/agent-service.js)
-- accepts.
use mathlib.Core.Path.{subst}
use mathlib.Core.Logic.{◌↔◌}
use stackflow.Common.{
  ◌+◌, ◌≤◌, ◌≡◌, refl, sym, ◌∙◌, ap, Bool, true, false, not, Option, none, some, arith,
}
use stackflow.Js.Text.{Text, text_eq, text_eq_iff, big_int, is_empty}
use stackflow.Js.Outcome.{Error, Outcome, ok, err}
use stackflow.Js.Value.{Value, str, get, or_else, is_object}
use stackflow.Agent.Utils.{
  to_unsigned_string, normalize_hex, one_text, trimmed_text, SignatureState,
}
use stackflow.Agent.Utils.Leaves.{
  IsNumeral, IsHex, to_unsigned_string-IsNumeral, parse_unsigned_bigint-str, normalize_hex-IsHex,
}
use stackflow.Agent.Store.Rows.{TrackedPipe, Store}
use stackflow.Agent.Store.Methods.{get_tracked_pipe, get_latest_signature_state}
use stackflow.Agent.Store.Invariant.{IsValid}
use stackflow.Agent.Service.Amounts.{HasAmounts, get_latest-HasAmounts}
use stackflow.Agent.Service.Incoming.{
  Reason, contract_mismatch, pipe_id_mismatch, for_principal_mismatch, with_principal_mismatch,
  payload_invalid, pipe_not_tracked, token_mismatch, actor_missing, actor_mismatch, accept, check,
  lift, catch, or_refuse, caught, same_option, payload_token, payload_secret, payload_valid_after,
  payload_contract, names_pipe, missing_or_invalid_their_signature, IncomingState, check_pipe_key,
  check_pipe, tracked_token, Numbers, read_numbers, check_latest, validate_payload,
  validate_incoming_transfer, after_accept,
}

-- The new amounts follow the latest ones: the next nonce, the same sum, nothing taken from me.
pub record Follows (latest : SignatureState) (n : Numbers) : Type 0 where
  pub nonce : big_int n.nonce ≡ big_int latest.nonce + 1
  pub sum :
      big_int n.my_balance + big_int n.their_balance
      ≡ big_int latest.my_balance + big_int latest.their_balance
  pub not_less : big_int latest.my_balance ≤ big_int n.my_balance

pub record AreNumerals (n : Numbers) : Type 0 where
  pub nonce : IsNumeral n.nonce
  pub action : IsNumeral n.action
  pub my_balance : IsNumeral n.my_balance
  pub their_balance : IsNumeral n.their_balance

catch-eq-accept {ℓ} :
    {A : Type ℓ} (f : Error → Reason) (m : Outcome A) {a : A} → catch f m ≡ accept a → m ≡ ok a
catch-eq-accept f (ok a) h = cc
catch-eq-accept f (err e) h = cc

lift-eq-accept {ℓ} : {A : Type ℓ} (m : Outcome A) {a : A} → lift m ≡ accept a → m ≡ ok a
lift-eq-accept (ok a) h = cc
lift-eq-accept (err e) h = cc

check-eq-accept : (b : Bool) (r : Reason) {u : Unit {0}} → check b r ≡ accept u → b ≡ true
check-eq-accept true r h = refl
check-eq-accept false r h = cc

value_of_accept {ℓ} : {A : Type ℓ} {a b : A} → accept a ≡ accept b → a ≡ b
value_of_accept h = cc

pub read_numbers-AreNumerals : (d : Value) {n : Numbers} → read_numbers d ≡ accept n → AreNumerals n
unfolding read_numbers
read_numbers-AreNumerals d {n} h =
    after_accept (catch caught (to_unsigned_string (get d "nonce") "nonce")) _ h λ nonce e1 h1.
      after_accept (catch caught (to_unsigned_string (or_else (get d "action") one_text) "action"))
        _ h1
        λ action e2 h2.
          after_accept (catch caught (to_unsigned_string (get d "myBalance") "myBalance")) _ h2
            λ mine e3 h3.
              after_accept (catch caught (to_unsigned_string (get d "theirBalance") "theirBalance"))
                _ h3
                λ theirs e4 h4. subst AreNumerals (value_of_accept h4) (record {
                  nonce = to_unsigned_string-IsNumeral _ "nonce" (catch-eq-accept caught _ e1);
                  action = to_unsigned_string-IsNumeral _ "action" (catch-eq-accept caught _ e2);
                  my_balance =
                      to_unsigned_string-IsNumeral _ "myBalance" (catch-eq-accept caught _ e3);
                  their_balance =
                      to_unsigned_string-IsNumeral _ "theirBalance" (catch-eq-accept caught _ e4);
                })

check_latest-Follows :
    (latest : SignatureState) (n : Numbers)
    → HasAmounts latest
    → AreNumerals n
    → check_latest (some latest) n ≡ accept tt
    → Follows latest n
unfolding check_latest
check_latest-Follows latest n a b h = ground (
  arith,
  parse_unsigned_bigint-str latest.nonce "existing nonce" a.nonce,
  parse_unsigned_bigint-str n.nonce "incoming nonce" b.nonce,
  parse_unsigned_bigint-str latest.my_balance "existing myBalance" a.my_balance,
  parse_unsigned_bigint-str latest.their_balance "existing theirBalance" a.their_balance,
  parse_unsigned_bigint-str n.my_balance "incoming myBalance" b.my_balance,
  parse_unsigned_bigint-str n.their_balance "incoming theirBalance" b.their_balance,
)

pub check_latest-accepts :
    (latest : SignatureState) (n : Numbers)
    → HasAmounts latest
    → AreNumerals n
    → Follows latest n
    → check_latest (some latest) n ≡ accept tt
unfolding check_latest
check_latest-accepts latest n a b f = ground (
  arith,
  parse_unsigned_bigint-str latest.nonce "existing nonce" a.nonce,
  parse_unsigned_bigint-str n.nonce "incoming nonce" b.nonce,
  parse_unsigned_bigint-str latest.my_balance "existing myBalance" a.my_balance,
  parse_unsigned_bigint-str latest.their_balance "existing theirBalance" a.their_balance,
  parse_unsigned_bigint-str n.my_balance "incoming myBalance" b.my_balance,
  parse_unsigned_bigint-str n.their_balance "incoming theirBalance" b.their_balance,
)

-- For a latest state and new amounts whose numbers are printed naturals, the comparison passes
-- exactly if the new amounts follow the latest ones.
pub check_latest_iff :
    (latest : SignatureState) (n : Numbers)
    → HasAmounts latest
    → AreNumerals n
    → (check_latest (some latest) n ≡ accept tt) ↔ Follows latest n
check_latest_iff latest n a b =
    (check_latest-Follows latest n a b, check_latest-accepts latest n a b)

abbrev pub numbers_of : IncomingState → Numbers
numbers_of st = record {
  nonce = st.nonce;
  action = st.action;
  my_balance = st.my_balance;
  their_balance = st.their_balance;
}

-- The state that was accepted is one of the tracked pipe, for its two principals, made by the
-- counterparty, with well-formed amounts and signature, and it follows the latest state.
pub record IsSound (tracked : TrackedPipe) (s : Store) (st : IncomingState) : Type 0 where
  pub contract_id : st.contract_id ≡ tracked.contract_id
  pub pipe_id : st.pipe_id ≡ tracked.pipe_id
  pub pipe_key : st.pipe_key ≡ tracked.pipe_key
  pub for_principal : st.for_principal ≡ tracked.local_principal
  pub with_principal : st.with_principal ≡ tracked.counterparty_principal
  pub actor : st.actor ≡ tracked.counterparty_principal
  pub token : st.token ≡ tracked_token tracked
  pub amounts : AreNumerals (numbers_of st)
  pub their_signature : IsHex st.their_signature
  pub follows :
      (latest : SignatureState)
      → get_latest_signature_state (str tracked.pipe_id) (str tracked.local_principal) s
        ≡ ok (some latest)
      → Follows latest (numbers_of st)

check_pipe-parts :
    (tracked : TrackedPipe) (d : Value) {c : Text}
    → check_pipe tracked d ≡ accept c
    → (c ≡ tracked.contract_id)
      × (trimmed_text (get d "forPrincipal") ≡ tracked.local_principal)
      × (trimmed_text (get d "withPrincipal") ≡ tracked.counterparty_principal)
unfolding check_pipe
check_pipe-parts tracked d {c} h =
    after_accept
      (check (text_eq (payload_contract tracked d) tracked.contract_id) contract_mismatch) _ h
      λ _ e1 h1. after_accept (check (names_pipe tracked d) pipe_id_mismatch) _ h1 λ _ _ h2.
        after_accept (check_pipe_key (payload_contract tracked d) tracked d) _ h2 λ _ _ h3.
          after_accept
            (check (text_eq (trimmed_text (get d "forPrincipal")) tracked.local_principal)
              for_principal_mismatch)
            _ h3
            λ _ e4 h4.
              after_accept
                (check
                  (text_eq (trimmed_text (get d "withPrincipal")) tracked.counterparty_principal)
                  with_principal_mismatch)
                _ h4
                λ _ e5 h5. (
                  sym (value_of_accept h5)
                      ∙ (text_eq_iff _ _).0 (check-eq-accept _ contract_mismatch e1),
                  (text_eq_iff _ _).0 (check-eq-accept _ for_principal_mismatch e4),
                  (text_eq_iff _ _).0 (check-eq-accept _ with_principal_mismatch e5),
                )

validate_payload-IsSound :
    (tracked : TrackedPipe) (d : Value) (s : Store) {st : IncomingState}
    → IsValid s
    → validate_payload tracked d s ≡ accept st
    → IsSound tracked s st
unfolding validate_payload
validate_payload-IsSound tracked d s {st} v h =
    after_accept (check (is_object d) payload_invalid) _ h λ _ _ h1.
      after_accept (check_pipe tracked d) _ h1 λ c pipe h2.
        after_accept
          (check (same_option (payload_token tracked d) (tracked_token tracked)) token_mismatch) _
          h2
          λ _ _ h3.
            after_accept
              (catch (λ _. missing_or_invalid_their_signature)
                (normalize_hex (get d "theirSignature") "theirSignature"))
              _ h3
              λ sig signed h4. after_accept (read_numbers d) _ h4 λ n numbers h5.
                after_accept (check (not (is_empty (trimmed_text (get d "actor")))) actor_missing) _
                  h5
                  λ _ _ h6.
                    after_accept
                      (check (text_eq (trimmed_text (get d "actor")) tracked.counterparty_principal)
                        actor_mismatch)
                      _ h6
                      λ _ actor h7.
                        after_accept
                          (lift (
                            get_latest_signature_state (str tracked.pipe_id)
                              (str tracked.local_principal) s))
                          _ h7
                          λ latest found h8.
                            after_accept (check_latest latest n) _ h8 λ _ compared h9.
                              after_accept (catch caught (payload_secret d)) _ h9 λ secret _ h10.
                                after_accept (lift (payload_valid_after d)) _ h10
                                  λ valid_after _ h11.
                                    let (same_contract, same_for, same_with) =
                                      check_pipe-parts tracked d pipe in
                                    let amounts = read_numbers-AreNumerals d numbers in
                                    subst (IsSound tracked s) (value_of_accept h11) (record {
                                      contract_id = same_contract;
                                      pipe_id = refl;
                                      pipe_key = refl;
                                      for_principal = same_for;
                                      with_principal = same_with;
                                      actor =
                                          (text_eq_iff _ _).0
                                            (check-eq-accept _ actor_mismatch actor);
                                      token = refl;
                                      amounts = amounts;
                                      their_signature =
                                          normalize_hex-IsHex (get d "theirSignature")
                                            "theirSignature"
                                            (catch-eq-accept
                                              (λ _. missing_or_invalid_their_signature) _ signed);
                                      follows = λ old e.
                                          let amounts_of =
                                            get_latest-HasAmounts (str tracked.pipe_id)
                                              (str tracked.local_principal) s {st = old} v e in
                                          let same : latest ≡ some old =
                                            cc (lift-eq-accept _ found, e) in
                                          check_latest-Follows old n amounts_of amounts
                                            (rw same at compared);
                                    })

or_refuse-eq-accept {ℓ} :
    {A : Type ℓ} (o : Option A) (r : Reason) {a : A} → or_refuse o r ≡ accept a → o ≡ some a
or_refuse-eq-accept none r h = absurd (cc h)
or_refuse-eq-accept (some a) r h = cc h

-- On a valid database, a payload that is accepted is for a tracked pipe, and the state that it
-- gives is one of that pipe and its two principals, made by the counterparty, with numerals for
-- the amounts and a hex signature; it follows the latest state, where there is one: the next
-- nonce, the same sum, and no less for the local side.
pub validate_incoming_transfer-IsSound :
    (pipe_id payload : Value) (s : Store) {st : IncomingState}
    → IsValid s
    → validate_incoming_transfer pipe_id payload s ≡ accept st
    → (tracked : TrackedPipe) × (get_tracked_pipe pipe_id s ≡ ok (some tracked))
      × IsSound tracked s st
unfolding validate_incoming_transfer
validate_incoming_transfer-IsSound pipe_id payload s {st} v h =
    after_accept (lift (get_tracked_pipe pipe_id s)) _ h λ o found h1.
      after_accept (or_refuse o pipe_not_tracked) _ h1 λ tracked is_tracked h2. (
        tracked,
        lift-eq-accept _ found ∙ ap ok (or_refuse-eq-accept o pipe_not_tracked is_tracked),
        validate_payload-IsSound tracked payload s {st = st} v h2,
      )
