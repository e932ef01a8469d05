-- ===== src/Agent/Tests/OfService.antt =====
-- The theorems on packages/stackflow-agent/src/agent-service.js and utils.js at concrete values.
use mathlib.Core.Logic.{◌≢◌}
use stackflow.Common.{true, arith}
use stackflow.Js.Text.{text_eq}
use stackflow.Agent.Utils.{
  is_dispute_beneficial, normalize_closure_event, is_closure_name, force_cancel, force_close,
  zero_text,
}
use stackflow.Agent.Utils.Leaves.{IsNumeral}
use stackflow.Agent.Utils.Normal.{closure_value, normalize_closure_event_idem}
use stackflow.Agent.Service.Dispute.Decides.{helps, is_dispute_beneficial-eq}
use stackflow.Agent.Service.Accept.{message_of}
use stackflow.Agent.Service.Accept.Rounding.{
  my_signed_balance, their_signed_balance, signed_balances_exact, signed_balance_rounded,
}
use stackflow.Common.{◌≡◌, refl, false, none, some}
use stackflow.Js.Outcome.{ok}
use mathlib.Core.Logic.{◌↔◌}
use stackflow.Agent.Service.Amounts.{HasAmounts}
use stackflow.Agent.Service.Incoming.{accept, IncomingState, Numbers}
use stackflow.Agent.Service.Incoming.Sound.{
  AreNumerals, Follows, IsSound, check_latest_iff, validate_incoming_transfer-IsSound,
}
use stackflow.Agent.Service.Outgoing.{TransferRequest, Outgoing}
use stackflow.Agent.Service.Moves.{MovesFrom, base_of, build_outgoing_transfer-MovesFrom}
use stackflow.Js.Text.{
  codes, text_eq, is_empty, is_space, trim_start, trim_end, trim, is_digit, all_digits, is_unsigned,
  big_from, big_int, decimal_from, decimal, lower_unit, lower, is_hex_digit, all_hex, with_0x,
  is_0x_hex,
}
use stackflow.Js.Value.{
  to_text, is_nullish, truthy, is_object, is_record, is_true, get_field, get, or_else, to_option,
  null, str,
}
use stackflow.Agent.Utils.{
  trimmed_text, assert_object, assert_non_empty_string, assert_non_empty, parse_unsigned_bigint,
  to_unsigned_string, normalize_hex, token_text, bar, stx, token_part, build_pipe_id, one_text,
  normalize_signature_state,
}
use stackflow.Table.{find, upsert}
use stackflow.Agent.Store.Rows.{
  create, merge_state, belongs_to, is_newer, newest, select_latest, state_id_of, TrackedPipe,
}
use stackflow.Agent.Store.Methods.{assert_open, get_tracked_pipe, get_latest_signature_state}
use stackflow.Agent.Service.Outgoing.{
  current_base, normalized_actor, transfer_from, build_outgoing_transfer, TransferRequest, Outgoing,
}
use stackflow.Agent.Service.Incoming.{
  same_option, check_pipe_key, payload_contract, names_pipe, check_pipe, tracked_token,
  payload_token, read_numbers, check_latest, optional, payload_secret, payload_valid_after,
  validate_payload, validate_incoming_transfer, IncomingState, accept, Numbers,
}
use stackflow.Agent.Tests.Samples.{
  closure_0, key, state_1, input_2, pipe_1, tracking, tracking-IsValid, id_1,
}

abbrev incoming_2 : IncomingState
incoming_2 = record {
  contract_id = codes "C.p";
  pipe_id = codes "C.p|stx|ST1|ST2";
  pipe_key = key;
  for_principal = codes "ST1";
  with_principal = codes "ST2";
  token = none;
  my_balance = codes "7";
  their_balance = codes "3";
  nonce = codes "2";
  action = codes "1";
  actor = codes "ST2";
  their_signature = codes "0xbb";
  secret = none;
  valid_after = none;
  beneficial_only = false;
}

accepts_2 : validate_incoming_transfer id_1 input_2 tracking ≡ accept incoming_2
unfolding normalize_signature_state build_pipe_id assert_object assert_non_empty_string trimmed_text
    to_unsigned_string parse_unsigned_bigint normalize_hex token_text token_part bar stx one_text
    get get_field or_else is_nullish is_record is_true to_option truthy to_text codes trim
    trim_start trim_end is_space is_empty is_digit all_digits is_unsigned big_int big_from decimal
    decimal_from lower lower_unit is_hex_digit all_hex with_0x is_0x_hex text_eq select_latest
    belongs_to newest is_newer upsert merge_state state_id_of validate_incoming_transfer
    validate_payload get_tracked_pipe get_latest_signature_state assert_open assert_non_empty find
    check_pipe check_pipe_key payload_contract names_pipe tracked_token payload_token same_option
    read_numbers check_latest optional payload_secret payload_valid_after is_object create
accepts_2 = refl

validate_incoming_transfer-IsSound_example :
    (tracked : TrackedPipe) × (get_tracked_pipe id_1 tracking ≡ ok (some tracked))
    × IsSound tracked tracking incoming_2
validate_incoming_transfer-IsSound_example =
    validate_incoming_transfer-IsSound id_1 input_2 tracking tracking-IsValid accepts_2

abbrev numbers_2 : Numbers
numbers_2 = record {
  nonce = codes "2";
  action = codes "1";
  my_balance = codes "7";
  their_balance = codes "3";
}

amounts_1 : HasAmounts state_1
unfolding codes is_unsigned is_empty all_digits is_digit big_int big_from decimal decimal_from
amounts_1 = record { nonce = (refl, refl); my_balance = (refl, refl); their_balance = (refl, refl) }

amounts_2 : AreNumerals numbers_2
unfolding codes is_unsigned is_empty all_digits is_digit big_int big_from decimal decimal_from
amounts_2 = record {
  nonce = (refl, refl);
  action = (refl, refl);
  my_balance = (refl, refl);
  their_balance = (refl, refl);
}

check_latest_iff_example :
    (check_latest (some state_1) numbers_2 ≡ accept tt) ↔ Follows state_1 numbers_2
check_latest_iff_example = check_latest_iff state_1 numbers_2 amounts_1 amounts_2

abbrev request_1 : TransferRequest
request_1 = record {
  pipe_id = id_1;
  amount = str (codes "1");
  actor = null;
  action = str (codes "1");
  secret = null;
  valid_after = null;
  beneficial_only = null;
  base_my_balance = null;
  base_their_balance = null;
  base_nonce = null;
}

abbrev outgoing_2 : Outgoing
outgoing_2 = record {
  contract_id = codes "C.p";
  pipe_key = key;
  for_principal = codes "ST1";
  with_principal = codes "ST2";
  token = none;
  my_balance = codes "3";
  their_balance = codes "7";
  nonce = codes "2";
  action = codes "1";
  actor = codes "ST1";
  secret = null;
  valid_after = null;
  beneficial_only = false;
}

builds_2 : build_outgoing_transfer request_1 tracking ≡ ok outgoing_2
unfolding normalize_signature_state build_pipe_id assert_object assert_non_empty_string trimmed_text
    to_unsigned_string parse_unsigned_bigint normalize_hex token_text token_part bar stx one_text
    get get_field or_else is_nullish is_record is_true to_option truthy to_text codes trim
    trim_start trim_end is_space is_empty is_digit all_digits is_unsigned big_int big_from decimal
    decimal_from lower lower_unit is_hex_digit all_hex with_0x is_0x_hex text_eq select_latest
    belongs_to newest is_newer upsert merge_state state_id_of build_outgoing_transfer
    get_tracked_pipe get_latest_signature_state assert_open assert_non_empty find current_base
    transfer_from normalized_actor create
builds_2 = refl

finds_pipe : get_tracked_pipe id_1 tracking ≡ ok (some pipe_1)
unfolding normalize_signature_state build_pipe_id assert_object assert_non_empty_string trimmed_text
    to_unsigned_string parse_unsigned_bigint normalize_hex token_text token_part bar stx one_text
    get get_field or_else is_nullish is_record is_true to_option truthy to_text codes trim
    trim_start trim_end is_space is_empty is_digit all_digits is_unsigned big_int big_from decimal
    decimal_from lower lower_unit is_hex_digit all_hex with_0x is_0x_hex text_eq get_tracked_pipe
    assert_open assert_non_empty find create
finds_pipe = refl

finds_state : get_latest_signature_state id_1 (str (codes "ST1")) tracking ≡ ok (some state_1)
unfolding normalize_signature_state build_pipe_id assert_object assert_non_empty_string trimmed_text
    to_unsigned_string parse_unsigned_bigint normalize_hex token_text token_part bar stx one_text
    get get_field or_else is_nullish is_record is_true to_option truthy to_text codes trim
    trim_start trim_end is_space is_empty is_digit all_digits is_unsigned big_int big_from decimal
    decimal_from lower lower_unit is_hex_digit all_hex with_0x is_0x_hex text_eq select_latest
    belongs_to newest is_newer upsert merge_state state_id_of get_latest_signature_state assert_open
    assert_non_empty create
finds_state = refl

build_outgoing_transfer-MovesFrom_example : MovesFrom pipe_1 request_1 (base_of state_1) outgoing_2
build_outgoing_transfer-MovesFrom_example =
    build_outgoing_transfer-MovesFrom request_1 tracking pipe_1 state_1 tracking-IsValid finds_pipe
      finds_state builds_2

zero_IsNumeral : IsNumeral (codes "0")
unfolding codes is_unsigned is_empty all_digits is_digit big_int big_from decimal decimal_from
zero_IsNumeral = (refl, refl)

two_IsNumeral : IsNumeral (codes "2")
unfolding codes is_unsigned is_empty all_digits is_digit big_int big_from decimal decimal_from
two_IsNumeral = (refl, refl)

is_dispute_beneficial-eq_example :
    is_dispute_beneficial (some closure_0) (some state_1) true ≡ ok (helps closure_0 state_1 true)
is_dispute_beneficial-eq_example =
    is_dispute_beneficial-eq closure_0 state_1 true zero_IsNumeral two_IsNumeral amounts_1

helps_here : helps closure_0 state_1 true ≡ true
unfolding codes big_int big_from text_eq force_cancel
helps_here = refl

normalizes_0 : normalize_closure_event (closure_value closure_0) ≡ ok closure_0
unfolding build_pipe_id assert_object assert_non_empty_string trimmed_text to_unsigned_string
    parse_unsigned_bigint normalize_hex token_text token_part bar stx one_text get get_field or_else
    is_nullish is_record is_true to_option truthy to_text codes trim trim_start trim_end is_space
    is_empty is_digit all_digits is_unsigned big_int big_from decimal decimal_from lower lower_unit
    is_hex_digit all_hex with_0x is_0x_hex text_eq normalize_closure_event closure_value
    is_closure_name force_cancel force_close zero_text
normalizes_0 = refl

normalize_closure_event_idem_example :
    normalize_closure_event (closure_value closure_0) ≡ ok closure_0
normalize_closure_event_idem_example =
    normalize_closure_event_idem (closure_value closure_0) closure_0 normalizes_0

signed_balances_exact_example :
    (my_signed_balance incoming_2 (message_of incoming_2) ≡ some (big_int (codes "7")))
    × (their_signed_balance incoming_2 (message_of incoming_2) ≡ some (big_int (codes "3")))
unfolding codes big_int big_from
signed_balances_exact_example = signed_balances_exact incoming_2 (omega arith) (omega arith)

-- The same state with a balance of 2 ^ 53 + 1
abbrev incoming_large : IncomingState
incoming_large = record incoming_2 { my_balance = codes "9007199254740993" }

signed_balance_rounded_example :
    my_signed_balance incoming_large (message_of incoming_large)
    ≢ some (big_int (codes "9007199254740993"))
unfolding codes big_int big_from
signed_balance_rounded_example =
    signed_balance_rounded incoming_large (omega arith) (omega arith) refl
