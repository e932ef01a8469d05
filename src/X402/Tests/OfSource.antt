-- ===== src/X402/Tests/OfSource.antt =====
-- The theorems on packages/x402-client/src/pipe-state-source.js at concrete values.
use stackflow.Common.{ℕ, ◌≡◌, refl, true, none, some, [], ◌∷◌, ltb}
use stackflow.Js.Text.{
  Text, codes, text_eq, text_lt, is_empty, is_space, trim_start, trim_end, trim, is_digit,
  decimal_from, decimal, all_digits, is_unsigned, big_from, big_int,
}
use stackflow.Js.Outcome.{Outcome, ok}
use stackflow.Js.Value.{
  Value, Items, nil, cons, arr, str, obj, prop, end, null, to_text, is_nullish, is_record, get,
  get_field, or_else, to_option, truthy,
}
use stackflow.Agent.Utils.{trimmed_text, assert_non_empty_string, token_text, bar, stx, token_part}
use stackflow.Agent.Service.Accept.{is_text}
use stackflow.Table.{upsert}
use stackflow.X402.Numbers.{assert_uint_string}
use stackflow.X402.Store.{
  X402Store, assert_store_open, merge_pipe, pipe_row, set_pipe_state, build_pipe_state_key,
}
use stackflow.X402.PipeSource.{
  NodeSource, NodeReply, assert_principal, has_dot, assert_contract_id, parse_unsigned_big_int,
  string_of, or_null, pipe_key_of, principal_of, is_candidate, pipe_nonce, updated_of, beats_best,
  better, best_of, select_best_pipe_from_node, amount_of, is_first, to_pipe_status, status_of,
  read_pipes, get_pipe_status, nullable, state_object, store_status, sync_pipe_state,
}
use stackflow.X402.PipeSource.Best.{values, Chosen, select-Chosen}
use stackflow.X402.PipeSource.Mirror.{to_pipe_status-mirror}
use stackflow.X402.PipeSource.Synced.{Copied, sync_pipe_state-Copied}

abbrev pipe_at : Text → Value
pipe_at nonce = obj (
    prop "contractId" (str (codes "C.p")) (
      prop "pipeKey"
        (obj (prop "principal-1" (str (codes "A")) (prop "principal-2" (str (codes "B")) end)))
        (prop "nonce" (str nonce)
          (prop "balance1" (str (codes "7")) (prop "balance2" (str (codes "2")) end)))))

abbrev listed : Items
listed =
    cons (pipe_at (codes "3"))
      (cons null (cons (pipe_at (codes "12")) (cons (pipe_at (codes "4")) nil)))

select-Chosen_example :
    Chosen
      (codes "B")
      (codes "A")
      (codes "C.p")
      (values listed)
      (select_best_pipe_from_node (codes "B") (codes "A") (codes "C.p") (arr listed))
select-Chosen_example = select-Chosen (codes "B") (codes "A") (codes "C.p") listed

to_pipe_status-mirror_example : to_pipe_status (codes "B") (pipe_at (codes "3")) ≡ (
    let s = to_pipe_status (codes "A") (pipe_at (codes "3")) in
    record s {
      can_pay = ltb 0 (amount_of "balance2" (pipe_at (codes "3")));
      my_confirmed = s.their_confirmed;
      my_pending = s.their_pending;
      their_confirmed = s.my_confirmed;
      their_pending = s.my_pending;
      for_principal = s.with_principal;
      with_principal = s.for_principal;
    })
unfolding is_record principal_of pipe_key_of get get_field string_of codes text_eq is_empty
to_pipe_status-mirror_example =
    to_pipe_status-mirror (codes "A") (codes "B") (pipe_at (codes "3")) refl refl refl refl refl
      refl

abbrev source : NodeSource
source = record { node_url = codes "http://n"; timeout_ms = 10; pipes_limit = 200 }

abbrev node : Text → ℕ → Outcome NodeReply
node principal limit =
    ok (record { status = 200; body = some (obj (prop "pipes" (arr listed) end)) })

abbrev empty_store : X402Store
empty_store = record { is_open = true; pipe_states = []; consumed_proofs = []; pipe_locks = [] }

abbrev synced_store : X402Store
synced_store = record empty_store {
  pipe_states =
      record {
        pipe_key = codes "C.p|stx|B|A";
        contract_id = codes "C.p";
        for_principal = codes "B";
        with_principal = codes "A";
        token = none;
        nonce = codes "12";
        my_balance = codes "2";
        their_balance = codes "7";
        updated_at_ms = 8;
      }
      ∷ [];
}

sync_pipe_state-Copied_example :
    Copied source node 8 (to_pipe_status (codes "B") (pipe_at (codes "12"))) synced_store
unfolding sync_pipe_state store_status state_object nullable get_pipe_status read_pipes status_of
    to_pipe_status is_first amount_of select_best_pipe_from_node best_of better beats_best
    updated_of pipe_nonce is_candidate principal_of pipe_key_of or_null string_of
    parse_unsigned_big_int assert_contract_id has_dot assert_principal build_pipe_state_key
    set_pipe_state pipe_row merge_pipe assert_store_open assert_uint_string upsert is_text
    token_text bar stx token_part trimmed_text assert_non_empty_string to_text is_nullish is_record
    get get_field or_else to_option truthy codes text_eq text_lt is_empty is_space trim_start
    trim_end trim is_digit decimal_from decimal all_digits is_unsigned big_from big_int
sync_pipe_state-Copied_example =
    sync_pipe_state-Copied source node 8 (str (codes "B")) (str (codes "A")) (str (codes "C.p"))
      empty_store synced_store (to_pipe_status (codes "B") (pipe_at (codes "12"))) refl refl
