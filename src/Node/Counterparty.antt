-- ===== src/Node/Counterparty.antt =====
-- server/src/counterparty-service.ts: the service that countersigns transfers and the other changes of a
-- pipe. This file reads a request; SHA-256 and the serialisation of principals are parameters.
pub mod Policy
pub mod Signing
use stackflow.Common.{
  ℕ, Bool, true, false, not, ◌&&◌, ◌||◌, Option, none, some, List, [], ◌∷◌, ◌==◌, if◌then◌else◌,
  String, is_some,
}
use stackflow.Js.Text.{Text, codes, text_eq, is_empty, trim, lower, with_0x}
use stackflow.Js.Outcome.{
  Outcome, ok, err, Error, ◌>>=◌, ◌>>◌, require, rethrow, service_error, wrapped,
}
use stackflow.Js.Value.{Value, str, bool, is_record, get, or_else, to_text}
use stackflow.Node.Principals.{
  is_blank_input, is_valid_hex, parse_uint, parse_optional_uint, split_contract_id, parse_principal,
}

abbrev pub action_close : Text
action_close = codes "0"

abbrev pub action_transfer : Text
action_transfer = codes "1"

abbrev pub action_deposit : Text
action_deposit = codes "2"

abbrev pub action_withdrawal : Text
action_withdrawal = codes "3"

unfoldable pub one_of : Text → List Text → Bool
one_of t [] = false
one_of t (u ∷ us) = let rest = one_of t us in text_eq t u || rest

unfoldable pub normalize_contract_id : Value → Outcome Text
normalize_contract_id (str t) =
    if is_empty (trim t)
    then err (service_error 400 "contractId must be a non-empty string" [])
    else (rethrow (λ _. service_error 400 "invalid contractId" []) (split_contract_id (trim t))
        >>= λ _. ok (trim t))
normalize_contract_id _ = err (service_error 400 "contractId must be a non-empty string" [])

unfoldable pub normalize_hex_buff : Value → ℕ → String → Outcome Text
normalize_hex_buff (str t) bytes field =
    if is_empty (trim t)
    then err (service_error 400 "must be a hex string" (codes field ∷ []))
    else (if is_valid_hex (lower (trim t)) bytes
        then ok (with_0x (lower (trim t)))
        else err (service_error 400 "must be bytes of hex" (codes field ∷ [])))
normalize_hex_buff _ bytes field = err (service_error 400 "must be a hex string" (codes field ∷ []))

unfoldable pub normalize_optional_hex_buff : Value → ℕ → String → Outcome (Option Text)
normalize_optional_hex_buff v bytes field =
    if is_blank_input v then ok none else (normalize_hex_buff v bytes field >>= λ t. ok (some t))

read_bool : Text → Outcome Bool
read_bool t =
    if one_of t (codes "1" ∷ codes "true" ∷ codes "yes" ∷ codes "y" ∷ codes "on" ∷ [])
    then ok true
    else (if one_of t (codes "0" ∷ codes "false" ∷ codes "no" ∷ codes "n" ∷ codes "off" ∷ [])
        then ok false
        else err (service_error 400 "beneficialOnly must be a boolean" []))

unfoldable pub normalize_bool : Value → Bool → Outcome Bool
unfolding read_bool
normalize_bool (bool b) fallback = ok b
normalize_bool v fallback =
    if is_blank_input v then ok fallback else read_bool (lower (trim (to_text v)))

uint_error : String → Error → Error
uint_error field e = service_error 400 "must be a uint" (codes field ∷ [])

unfoldable pub parse_uint_field : Value → String → Outcome Text
unfolding uint_error
parse_uint_field v field = rethrow (uint_error field) (parse_uint v)

unfoldable pub parse_optional_uint_field : Value → String → Outcome (Option Text)
unfolding uint_error
parse_optional_uint_field v field = rethrow (uint_error field) (parse_optional_uint v)

pub record SignRequest : Type 0 where
  pub contract_id : Text
  pub for_principal : Text
  pub with_principal : Text
  pub token : Option Text
  pub amount : Text
  pub my_balance : Text
  pub their_balance : Text
  pub their_signature : Text
  pub nonce : Text
  pub action : Text
  pub actor : Text
  pub secret : Option Text
  pub valid_after : Option Text
  pub beneficial_only : Bool

pub record RequestOptions : Type 0 where
  pub counterparty_principal : Text
  pub allowed_actions : List Text
  pub default_action : Option Text

pub record RequestFields : Type 0 where
  pub contract_id : Text
  pub with_principal : Text
  pub token : Option Text
  pub my_balance : Text
  pub their_balance : Text
  pub their_signature : Text
  pub nonce : Text
  pub actor : Text
  pub valid_after : Option Text
  pub beneficial_only : Bool

unfoldable pub action_or_default : Value → Option Text → Outcome Value
action_or_default v none =
    if is_blank_input v then err (service_error 400 "action is required" []) else ok v
action_or_default v (some default) = ok (if is_blank_input v then str default else v)

-- The hash and the secret may both be given only if they agree, and a hash alone only for a transfer.
unfoldable pub check_secrets : Text → Option Text → Option Text → Outcome (Unit {0})
check_secrets action (some hashed) (some raw) =
    require (text_eq hashed raw)
      (service_error 400 "hashedSecret and secret must match when both are provided" [])
check_secrets action (some hashed) none =
    require (text_eq action action_transfer)
      (service_error 400 "hashedSecret is only supported for transfer actions" [])
check_secrets action none raw = ok tt

module _ (serialize : Text → Outcome (List ℕ)) (sha256_hex : Text → Text) where
  unfoldable pub parse_principal_field : Value → String → Outcome Text
  parse_principal_field v field = rethrow (wrapped 400) (parse_principal serialize v field)

  unfoldable pub normalize_token : Value → Outcome (Option Text)
  normalize_token v =
      if is_blank_input v then ok none else (parse_principal_field v "token" >>= λ t. ok (some t))

  unfoldable pub check_for_principal : Value → Text → Outcome (Unit {0})
  check_for_principal v mine = if is_blank_input v then ok tt else (do
    parsed ← parse_principal_field v "forPrincipal"
    require (text_eq parsed mine)
        (service_error 400 "forPrincipal must match counterparty principal" (mine ∷ [])))

  unfoldable pub amount_of_request : Text → Value → Outcome Text
  amount_of_request action v =
      if text_eq action action_deposit || text_eq action action_withdrawal
      then parse_uint_field v "amount"
      else (parse_optional_uint_field v "amount" >>= λ given.
          ok (elim given [ none ↦ codes "0" | some t ↦ if is_empty t then codes "0" else t ]))

  unfoldable pub secret_of_request : Text → Option Text → Option Text → Option Text
  secret_of_request action (some hashed) raw = some hashed
  secret_of_request action none (some raw) =
      if text_eq action action_transfer then some raw else some (sha256_hex raw)
  secret_of_request action none none = none

  -- The fields that do not depend on the action
  unfoldable pub request_fields : Value → Outcome RequestFields
  request_fields input = do
    contract_id ← normalize_contract_id (get input "contractId")
    with_principal ← parse_principal_field (get input "withPrincipal") "withPrincipal"
    token ← normalize_token (get input "token")
    my_balance ← parse_uint_field (get input "myBalance") "myBalance"
    their_balance ← parse_uint_field (get input "theirBalance") "theirBalance"
    their_signature ←
        normalize_hex_buff
          (or_else (get input "theirSignature") (get input "counterpartySignature")) 65
          "theirSignature"
    nonce ← parse_uint_field (get input "nonce") "nonce"
    actor ← parse_principal_field (get input "actor") "actor"
    valid_after ← parse_optional_uint_field (get input "validAfter") "validAfter"
    beneficial_only ← normalize_bool (get input "beneficialOnly") false
    ok (record {
      contract_id = contract_id;
      with_principal = with_principal;
      token = token;
      my_balance = my_balance;
      their_balance = their_balance;
      their_signature = their_signature;
      nonce = nonce;
      actor = actor;
      valid_after = valid_after;
      beneficial_only = beneficial_only;
    })

  -- `parseCounterpartySignRequest`
  unfoldable pub parse_sign_request : Value → RequestOptions → Outcome SignRequest
  parse_sign_request input options = do
    require (is_record input) (service_error 400 "payload must be an object" [])
    check_for_principal (get input "forPrincipal") options.counterparty_principal
    action_input ← action_or_default (get input "action") options.default_action
    action ← parse_uint_field action_input "action"
    require (one_of action options.allowed_actions)
        (service_error 400 "action is not allowed for this endpoint" (action ∷ []))
    amount ← amount_of_request action (get input "amount")
    hashed ← normalize_optional_hex_buff (get input "hashedSecret") 32 "hashedSecret"
    raw ← normalize_optional_hex_buff (get input "secret") 32 "secret"
    check_secrets action hashed raw
    fields ← request_fields input
    ok (record {
      contract_id = fields.contract_id;
      for_principal = options.counterparty_principal;
      with_principal = fields.with_principal;
      token = fields.token;
      amount = amount;
      my_balance = fields.my_balance;
      their_balance = fields.their_balance;
      their_signature = fields.their_signature;
      nonce = fields.nonce;
      action = action;
      actor = fields.actor;
      secret = secret_of_request action hashed raw;
      valid_after = fields.valid_after;
      beneficial_only = fields.beneficial_only;
    })
