-- ===== src/Agent/Tests/Samples.antt =====
-- One pipe and its signed states, for the theorems on packages/stackflow-agent/src.
use stackflow.Common.{◌≡◌, refl, false, none, some, [], ◌∷◌, arith}
use stackflow.Js.Outcome.{ok}
use stackflow.Agent.Store.Keys.{NoBar}
use stackflow.Agent.Store.Invariant.{IsValid, IsValid-create}
use stackflow.Agent.Store.Upsert.{with_rows, upsert-latest}
use stackflow.Agent.Store.Latest.{latest}
use stackflow.Js.Text.{
  codes, text_eq, is_empty, is_space, trim_start, trim_end, trim, is_digit, all_digits, is_unsigned,
  big_from, big_int, decimal_from, decimal, lower_unit, lower, is_hex_digit, all_hex, with_0x,
  is_0x_hex, Text,
}
use stackflow.Js.Value.{
  to_text, is_nullish, truthy, is_record, is_true, get_field, get, or_else, to_option, Value, null,
  str, obj, end, prop,
}
use stackflow.Js.Json.{copy, bindable, json_copy}
use stackflow.Agent.Utils.{
  Closure, trimmed_text, assert_object, assert_non_empty_string, parse_unsigned_bigint,
  to_unsigned_string, normalize_hex, token_text, bar, stx, token_part, build_pipe_id, one_text,
  normalize_signature_state, SignatureState,
}
use stackflow.Table.{upsert}
use stackflow.Agent.Store.Rows.{
  create, merge_state, belongs_to, is_newer, newest, select_latest, state_id_of, TrackedPipe, Store,
}

abbrev pub noon : Text
noon = codes "2026-01-01T12:00:00.000Z"

abbrev pub key : Value
key = obj (
    prop "token" null
      (prop "principal-1" (str (codes "ST1")) (prop "principal-2" (str (codes "ST2")) end)))

-- A state of the pipe with a nonce and my balance, of 10 in all.
abbrev pub state_of : Text → Text → Text → SignatureState
state_of nonce mine theirs = record {
  contract_id = codes "C.p";
  pipe_id = codes "C.p|stx|ST1|ST2";
  pipe_key = key;
  for_principal = codes "ST1";
  with_principal = codes "ST2";
  token = none;
  my_balance = mine;
  their_balance = theirs;
  nonce = nonce;
  action = codes "1";
  actor = codes "ST2";
  my_signature = codes "0xaa";
  their_signature = codes "0xbb";
  secret = none;
  valid_after = none;
  beneficial_only = false;
  updated_at = noon;
}

abbrev pub input_of : Text → Text → Text → Value
input_of nonce mine theirs = obj (
    prop "contractId" (str (codes "C.p")) (
      prop "pipeKey" key (
        prop "forPrincipal" (str (codes "ST1")) (
          prop "withPrincipal" (str (codes "ST2")) (
            prop "myBalance" (str mine) (
              prop "theirBalance" (str theirs) (
                prop "nonce" (str nonce) (
                  prop "actor" (str (codes "ST2")) (
                    prop "mySignature" (str (codes "AA"))
                      (prop "theirSignature" (str (codes "0xBB")) end))))))))))

abbrev pub state_1 : SignatureState
state_1 = state_of (codes "1") (codes "4") (codes "6")

abbrev pub state_2 : SignatureState
state_2 = state_of (codes "2") (codes "7") (codes "3")

abbrev pub input_1 : Value
input_1 = input_of (codes "1") (codes "4") (codes "6")

abbrev pub input_2 : Value
input_2 = input_of (codes "2") (codes "7") (codes "3")

pub normal_1 : normalize_signature_state noon input_1 ≡ ok state_1
unfolding normalize_signature_state build_pipe_id assert_object assert_non_empty_string trimmed_text
    to_unsigned_string parse_unsigned_bigint normalize_hex token_text token_part bar stx one_text
    get get_field or_else is_nullish is_record is_true to_option truthy to_text codes trim
    trim_start trim_end is_space is_empty is_digit all_digits is_unsigned big_int big_from decimal
    decimal_from lower lower_unit is_hex_digit all_hex with_0x is_0x_hex text_eq
normal_1 = refl

pub normal_2 : normalize_signature_state noon input_2 ≡ ok state_2
unfolding normalize_signature_state build_pipe_id assert_object assert_non_empty_string trimmed_text
    to_unsigned_string parse_unsigned_bigint normalize_hex token_text token_part bar stx one_text
    get get_field or_else is_nullish is_record is_true to_option truthy to_text codes trim
    trim_start trim_end is_space is_empty is_digit all_digits is_unsigned big_int big_from decimal
    decimal_from lower lower_unit is_hex_digit all_hex with_0x is_0x_hex text_eq
normal_2 = refl

-- The database with the first state.
abbrev pub signed : Store
signed = with_rows (create noon) state_1 key

pub no_bar : NoBar (codes "ST1")
unfolding codes
no_bar = (refl, (refl, (refl, tt)))

pub copied : json_copy key ≡ ok key
unfolding copy bindable json_copy codes
copied = refl

pub none_yet : latest state_1.pipe_id state_1.for_principal (create noon) ≡ none
unfolding select_latest belongs_to newest is_newer text_eq create upsert merge_state state_id_of bar
    codes
none_yet = refl

pub one_there : latest state_2.pipe_id state_2.for_principal signed ≡ some state_1
unfolding select_latest belongs_to newest is_newer text_eq create upsert merge_state state_id_of bar
    codes
one_there = refl

pub signed-IsValid : IsValid signed
unfolding codes select_latest belongs_to newest is_newer text_eq create upsert merge_state
    state_id_of bar big_int big_from
signed-IsValid =
    (upsert-latest noon input_1 (create noon) state_1 key (IsValid-create noon) refl normal_1 copied
      no_bar (omega arith)).1

abbrev pub pipe_1 : TrackedPipe
pipe_1 = record {
  pipe_id = codes "C.p|stx|ST1|ST2";
  contract_id = codes "C.p";
  pipe_key = key;
  local_principal = codes "ST1";
  counterparty_principal = codes "ST2";
  token = none;
  status = codes "open";
  last_chain_nonce = none;
  updated_at = noon;
}

-- The database with the pipe and its state.
abbrev pub tracking : Store
tracking = record signed { tracked_pipes = pipe_1 ∷ [] }

pub tracking-IsValid : IsValid tracking
tracking-IsValid = record {
  states = signed-IsValid.states;
  closures_distinct = signed-IsValid.closures_distinct;
  cursor = signed-IsValid.cursor;
}

abbrev pub id_1 : Value
id_1 = str (codes "C.p|stx|ST1|ST2")

-- A closure of the pipe with nonce 0
abbrev pub closure_0 : Closure
closure_0 = record {
  contract_id = codes "C.p";
  pipe_id = codes "C.p|stx|ST1|ST2";
  pipe_key = key;
  event_name = codes "force-close";
  nonce = codes "0";
  closer = codes "ST2";
  txid = codes "0xt";
  block_height = codes "12";
  expires_at = codes "40";
  closure_my_balance = some (codes "2");
}
