-- ===== src/Agent/Utils/NormalState.antt =====
-- What `normalizeSignatureState` guarantees of its result.
use stackflow.Common.{String, ◌≡◌, true, Option, none, some, arith}
use stackflow.Js.Text.{Text}
use stackflow.Js.Outcome.{ok, traverse}
use stackflow.Js.Value.{Value, str, is_record, get, or_else, to_option}
use stackflow.Agent.Utils.{
  assert_object, normalize_hex, build_pipe_id, SignatureState, normalize_signature_state, one_text,
}
use stackflow.Agent.Utils.Leaves.{
  IsName, IsNumeral, IsHex, assert_non_empty_string-IsName, to_unsigned_string-IsNumeral,
  normalize_hex-IsHex,
}
use stackflow.Agent.Utils.Normal.{IsOptionalNumeral, traverse-IsOptionalNumeral}

abbrev pub IsOptionalHex : Option Text → Type 0
IsOptionalHex none = Unit {0}
IsOptionalHex (some t) = IsHex t

traverse-IsOptionalHex :
    (o : Option Value) (f : String) {r : Option Text}
    → traverse (λ v. normalize_hex v f) o ≡ ok r
    → IsOptionalHex r
traverse-IsOptionalHex none f {r = none} h = tt
traverse-IsOptionalHex none f {r = some t} h = cc
traverse-IsOptionalHex (some v) f {r = none} h = ground arith
traverse-IsOptionalHex (some v) f {r = some t} h = normalize_hex-IsHex v f {t = t} (ground arith)

pub record IsNormalState (st : SignatureState) : Type 0 where
  pub contract_id : IsName st.contract_id
  pub key_is_record : is_record st.pipe_key ≡ true
  pub pipe_id : build_pipe_id (str st.contract_id) st.pipe_key ≡ ok st.pipe_id
  pub for_principal : IsName st.for_principal
  pub with_principal : IsName st.with_principal
  pub my_balance : IsNumeral st.my_balance
  pub their_balance : IsNumeral st.their_balance
  pub nonce : IsNumeral st.nonce
  pub action : IsNumeral st.action
  pub actor : IsName st.actor
  pub my_signature : IsHex st.my_signature
  pub their_signature : IsHex st.their_signature
  pub secret : IsOptionalHex st.secret
  pub valid_after : IsOptionalNumeral st.valid_after

pub normalize_signature_state-IsNormalState :
    (now : Text) (input : Value) {st : SignatureState}
    → normalize_signature_state now input ≡ ok st
    → IsNormalState st
unfolding normalize_signature_state assert_object
normalize_signature_state-IsNormalState now input {st} h = record {
  contract_id = assert_non_empty_string-IsName (get input "contractId") "contractId" (ground arith);
  key_is_record = ground arith;
  pipe_id = ground arith;
  for_principal =
      assert_non_empty_string-IsName (get input "forPrincipal") "forPrincipal" (ground arith);
  with_principal =
      assert_non_empty_string-IsName (get input "withPrincipal") "withPrincipal" (ground arith);
  my_balance = to_unsigned_string-IsNumeral (get input "myBalance") "myBalance" (ground arith);
  their_balance =
      to_unsigned_string-IsNumeral (get input "theirBalance") "theirBalance" (ground arith);
  nonce = to_unsigned_string-IsNumeral (get input "nonce") "nonce" (ground arith);
  action =
      to_unsigned_string-IsNumeral (or_else (get input "action") one_text) "action" (ground arith);
  actor = assert_non_empty_string-IsName (get input "actor") "actor" (ground arith);
  my_signature = normalize_hex-IsHex (get input "mySignature") "mySignature" (ground arith);
  their_signature =
      normalize_hex-IsHex (get input "theirSignature") "theirSignature" (ground arith);
  secret = traverse-IsOptionalHex (to_option (get input "secret")) "secret" (ground arith);
  valid_after =
      traverse-IsOptionalNumeral (to_option (get input "validAfter")) "validAfter" (ground arith);
}
