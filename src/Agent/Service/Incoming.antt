-- ===== src/Agent/Service/Incoming.antt =====
-- packages/stackflow-agent/src/agent-service.js: `validateIncomingTransfer`, whose verdict is a state
-- that may be signed, a refusal with its reason, or a thrown error.
pub mod Sound
use mathlib.Core.Option
use stackflow.Common.{
  ℕ, ◌+◌, ◌≡◌, refl, String, Bool, true, false, not, ◌||◌, Option, none, some, leb, ltb, ◌==◌,
  if◌then◌else◌,
}
use stackflow.Js.Text.{Text, codes, text_eq, is_empty, trim}
use stackflow.Js.Outcome.{Error, Outcome, ok, err}
use stackflow.Js.Value.{
  Value, str, is_nullish, is_object, is_record, is_true, get, or_else, to_option, to_text,
}
use stackflow.Agent.Utils.{
  parse_unsigned_bigint, to_unsigned_string, normalize_hex, build_pipe_id, one_text, trimmed_text,
  SignatureState,
}
use stackflow.Agent.Store.Rows.{TrackedPipe, Store}
use stackflow.Agent.Store.Methods.{get_tracked_pipe, get_latest_signature_state}

pub data Reason : Type 0 where
  pipe_not_tracked payload_invalid contract_mismatch pipe_id_mismatch pipe_key_invalid : Reason
  pipe_key_mismatch for_principal_mismatch with_principal_mismatch token_mismatch : Reason
  missing_or_invalid_their_signature actor_missing actor_mismatch : Reason
  -- with the nonce of the latest state
  nonce_too_low nonce_not_sequential : Text → Reason
  balance_sum_mismatch balance_direction_invalid : Reason
  -- the message of an error that was caught
  caught : Error → Reason

pub data Verdict {ℓ} (A : Type ℓ) : Type ℓ where
  accept : A → Verdict A
  refuse : Reason → Verdict A
  throw : Error → Verdict A

infixl 5 ◌>>=◌ ◌>>◌
abbrev pub ◌>>=◌ {ℓ κ} : {A : Type ℓ} {B : Type κ} → Verdict A → (A → Verdict B) → Verdict B
accept a >>= f = f a
refuse r >>= f = refuse r
throw e >>= f = throw e

abbrev pub ◌>>◌ {ℓ} : {B : Type ℓ} → Verdict (Unit {0}) → Verdict B → Verdict B
m >> k = m >>= λ _. k

abbrev pub check : Bool → Reason → Verdict (Unit {0})
check true r = accept tt
check false r = refuse r

-- A step outside of any `try`
abbrev pub lift {ℓ} : {A : Type ℓ} → Outcome A → Verdict A
lift (ok a) = accept a
lift (err e) = throw e

-- A step whose error the code catches
abbrev pub catch {ℓ} : {A : Type ℓ} → (Error → Reason) → Outcome A → Verdict A
catch f (ok a) = accept a
catch f (err e) = refuse (f e)

abbrev pub or_refuse {ℓ} : {A : Type ℓ} → Option A → Reason → Verdict A
or_refuse none r = refuse r
or_refuse (some a) r = accept a

unfoldable pub same_option : Option Text → Option Text → Bool
same_option none none = true
same_option (some a) (some b) = text_eq a b
same_option _ _ = false

-- The state of a valid payload; `mySignature` is null there.
pub record IncomingState : Type 0 where
  pub contract_id : Text
  pub pipe_id : Text
  pub pipe_key : Value
  pub for_principal : Text
  pub with_principal : Text
  pub token : Option Text
  pub my_balance : Text
  pub their_balance : Text
  pub nonce : Text
  pub action : Text
  pub actor : Text
  pub their_signature : Text
  pub secret : Option Text
  pub valid_after : Option Text
  pub beneficial_only : Bool

-- `data.pipeKey`, where it is given, is a key of the tracked pipe.
unfoldable pub check_pipe_key : Text → TrackedPipe → Value → Verdict (Unit {0})
check_pipe_key contract_id tracked data_ =
    let pipe_key = get data_ "pipeKey" in
    let given = do
      check (is_record pipe_key) pipe_key_invalid
      incoming ← catch (λ _. pipe_key_invalid) (build_pipe_id (str contract_id) pipe_key)
      check (text_eq incoming tracked.pipe_id) pipe_key_mismatch
    in if is_nullish pipe_key then accept tt else given

unfoldable pub payload_contract : TrackedPipe → Value → Text
payload_contract tracked data_ =
    trim (to_text (or_else (get data_ "contractId") (str tracked.contract_id)))

-- `data.pipeId` is missing, or the tracked pipe's.
unfoldable pub names_pipe : TrackedPipe → Value → Bool
names_pipe tracked data_ =
    is_nullish (get data_ "pipeId") || text_eq (trim (to_text (get data_ "pipeId"))) tracked.pipe_id

-- The contract, the pipe and the two principals are those of the tracked pipe.
unfoldable pub check_pipe : TrackedPipe → Value → Verdict Text
check_pipe tracked data_ = do
  let contract_id = payload_contract tracked data_
  check (text_eq contract_id tracked.contract_id) contract_mismatch
  check (names_pipe tracked data_) pipe_id_mismatch
  check_pipe_key contract_id tracked data_
  check (text_eq (trimmed_text (get data_ "forPrincipal")) tracked.local_principal)
      for_principal_mismatch
  check (text_eq (trimmed_text (get data_ "withPrincipal")) tracked.counterparty_principal)
      with_principal_mismatch
  accept contract_id

unfoldable pub tracked_token : TrackedPipe → Option Text
tracked_token tracked = Option.map trim tracked.token

unfoldable pub payload_token : TrackedPipe → Value → Option Text
payload_token tracked data_ =
    if is_nullish (get data_ "token")
    then tracked_token tracked
    else some (trim (to_text (get data_ "token")))

pub record Numbers : Type 0 where
  pub nonce : Text
  pub action : Text
  pub my_balance : Text
  pub their_balance : Text

unfoldable pub read_numbers : Value → Verdict Numbers
read_numbers data_ = do
  nonce ← catch caught (to_unsigned_string (get data_ "nonce") "nonce")
  action ← catch caught (to_unsigned_string (or_else (get data_ "action") one_text) "action")
  my_balance ← catch caught (to_unsigned_string (get data_ "myBalance") "myBalance")
  their_balance ← catch caught (to_unsigned_string (get data_ "theirBalance") "theirBalance")
  accept (record {
    nonce = nonce;
    action = action;
    my_balance = my_balance;
    their_balance = their_balance;
  })

-- The comparison with the latest state, where there is one.
unfoldable pub check_latest : Option SignatureState → Numbers → Verdict (Unit {0})
check_latest none n = accept tt
check_latest (some latest) n = do
  existing ← lift (parse_unsigned_bigint (str latest.nonce) "existing nonce")
  incoming ← lift (parse_unsigned_bigint (str n.nonce) "incoming nonce")
  check (not (leb incoming existing)) (nonce_too_low latest.nonce)
  check (incoming == existing + 1) (nonce_not_sequential latest.nonce)
  existing_my ← lift (parse_unsigned_bigint (str latest.my_balance) "existing myBalance")
  existing_their ← lift (parse_unsigned_bigint (str latest.their_balance) "existing theirBalance")
  incoming_my ← lift (parse_unsigned_bigint (str n.my_balance) "incoming myBalance")
  incoming_their ← lift (parse_unsigned_bigint (str n.their_balance) "incoming theirBalance")
  check (incoming_my + incoming_their == existing_my + existing_their) balance_sum_mismatch
  check (not (ltb incoming_my existing_my || ltb existing_their incoming_their))
      balance_direction_invalid

unfoldable pub optional : (Value → Outcome Text) → Value → Outcome (Option Text)
optional f v = elim (to_option v) [
  | none ↦ ok none
  | some w ↦ elim (f w) [ ok t ↦ ok (some t) | err e ↦ err e ]
]

unfoldable pub payload_secret : Value → Outcome (Option Text)
unfolding optional
payload_secret data_ = optional (λ v. normalize_hex v "secret") (get data_ "secret")

unfoldable pub payload_valid_after : Value → Outcome (Option Text)
unfolding optional
payload_valid_after data_ =
    optional (λ v. to_unsigned_string v "validAfter") (get data_ "validAfter")

unfoldable pub validate_payload : TrackedPipe → Value → Store → Verdict IncomingState
unfolding payload_token
validate_payload tracked data_ s = do
  check (is_object data_) payload_invalid
  contract_id ← check_pipe tracked data_
  check (same_option (payload_token tracked data_) (tracked_token tracked)) token_mismatch
  their_signature ←
      catch (λ _. missing_or_invalid_their_signature)
        (normalize_hex (get data_ "theirSignature") "theirSignature")
  n ← read_numbers data_
  check (not (is_empty (trimmed_text (get data_ "actor")))) actor_missing
  check (text_eq (trimmed_text (get data_ "actor")) tracked.counterparty_principal) actor_mismatch
  latest ← lift (get_latest_signature_state (str tracked.pipe_id) (str tracked.local_principal) s)
  check_latest latest n
  secret ← catch caught (payload_secret data_)
  valid_after ← lift (payload_valid_after data_)
  accept (record {
    contract_id = contract_id;
    pipe_id = tracked.pipe_id;
    pipe_key = tracked.pipe_key;
    for_principal = trimmed_text (get data_ "forPrincipal");
    with_principal = trimmed_text (get data_ "withPrincipal");
    token = tracked_token tracked;
    my_balance = n.my_balance;
    their_balance = n.their_balance;
    nonce = n.nonce;
    action = n.action;
    actor = trimmed_text (get data_ "actor");
    their_signature = their_signature;
    secret = secret;
    valid_after = valid_after;
    beneficial_only = is_true (get data_ "beneficialOnly");
  })

unfoldable pub validate_incoming_transfer : Value → Value → Store → Verdict IncomingState
validate_incoming_transfer pipe_id payload s = do
  found ← lift (get_tracked_pipe pipe_id s)
  tracked ← or_refuse found pipe_not_tracked
  validate_payload tracked payload s

-- A step that was passed, for a proof that goes on from its value.
pub after_accept {ℓ κ μ} :
    {A : Type ℓ} {B : Type κ} {P : Type μ} (m : Verdict A) (f : A → Verdict B) {b : B}
    → (m >>= f) ≡ accept b
    → ((a : A) → m ≡ accept a → f a ≡ accept b → P)
    → P
after_accept (accept a) f h go = go a refl h
after_accept (refuse r) f h go = absurd (cc)
after_accept (throw e) f h go = absurd (cc)
