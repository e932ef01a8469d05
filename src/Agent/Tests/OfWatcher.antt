-- ===== src/Agent/Tests/OfWatcher.antt =====
-- The theorems on packages/stackflow-agent/src/watcher.js at concrete values.
use stackflow.Common.{length}
use stackflow.Agent.Utils.Normal.{closure_value}
use stackflow.Agent.Service.Dispute.{
  decide_on, decide_for, evaluate_closure_for_dispute, dispute_txid_of, mark_if_named, finish,
  settle, submit, act_on, on_decision, dispute_closure,
}
use stackflow.Agent.Watcher.Run.{
  stored, writing, continue, ◌>>=◌, report, already_disputed, try_dispute, count_dispute,
  skip_or_dispute, handle_closure, raise_block, scan_normalized, scan_event, scan_events,
}
use stackflow.Agent.Watcher.Once.{exclusively, quiet, finish_events, scan_items, on_listed}
use stackflow.Agent.Service.Wallet.{Agent, Signer}
use stackflow.Agent.Watcher.Run.{Watcher}
use stackflow.Agent.Watcher.Once.{items_of, run_once_by_events, run_once_by_readonly_pipe, run_once}
use stackflow.Agent.Watcher.Totals.{EventRun, IsSafe, count_listed, run_once_by_events-EventRun}
use stackflow.Agent.Watcher.Pipes.{
  PipeRun, pipes_of, run_once_by_readonly_pipe-PipeRun, run_once-IsSafe, run_once-running,
}
use stackflow.Common.{ℕ, ◌≡◌, refl, true, false, none, []}
use stackflow.Js.Outcome.{Outcome, ok}
use stackflow.Js.Text.{
  codes, text_eq, is_empty, is_space, trim_start, trim_end, trim, is_digit, all_digits, is_unsigned,
  big_from, big_int, decimal_from, decimal, Text,
}
use stackflow.Js.Value.{
  to_text, is_nullish, truthy, is_record, is_true, get_field, get, or_else, to_option, Value, null,
  str, arr, obj, end, prop, nil, cons,
}
use stackflow.Js.Json.{copy, bindable, json_copy}
use stackflow.Agent.Utils.{
  trimmed_text, assert_object, assert_non_empty_string, assert_non_empty, parse_unsigned_bigint,
  to_unsigned_string, token_text, bar, stx, token_part, build_pipe_id, force_cancel, force_close,
  zero_text, one_text, is_closure_name, normalize_closure_event, beats_closure_balance,
  is_dispute_beneficial, build_dispute_call_input,
}
use stackflow.Table.{find, upsert, update}
use stackflow.Agent.Store.Rows.{
  create, merge_closure, set_disputed, belongs_to, is_newer, newest, select_latest, TrackedPipe,
}
use stackflow.Agent.Store.Methods.{
  assert_open, list_tracked_pipes, get_tracked_pipe, get_latest_signature_state, record_closure,
  mark_closure_disputed, get_closure, get_watcher_cursor, set_watcher_cursor,
}
use stackflow.Agent.Tests.Samples.{noon, key, tracking, tracking-IsValid}

abbrev agent_1 : Agent
agent_1 = record { network = codes "devnet"; dispute_only_beneficial = true }

-- A signer that signs with one text and answers a dispute with a transaction id.
abbrev signer_1 : Signer
signer_1 = record {
  sip018_sign = λ c m. ok (str (codes "0xcc"));
  submit_dispute = λ before s. ok (obj (prop "txid" (str (codes "0xdd")) end));
}

abbrev event_0 : Value
event_0 = obj (
    prop "contractId" (str (codes "C.p")) (
      prop "pipeKey" key (
        prop "eventName" (str (codes "force-close")) (
          prop "nonce" (str (codes "0")) (
            prop "closer" (str (codes "ST2")) (
              prop "txid" (str (codes "0xt")) (
                prop "blockHeight" (str (codes "12"))
                  (prop "expiresAt" (str (codes "40")) end))))))))

-- One closure, and something that is none.
abbrev list_events : Text → Outcome Value
list_events from = ok (arr (cons event_0 (cons null nil)))

abbrev watcher_1 : Watcher
watcher_1 = record {
  world = record { store = tracking; submissions = [] };
  running = false;
  reports = [];
}

abbrev clock : ℕ → Text
clock i = noon

-- The run submits one dispute and moves the cursor.
first_run :
    let w = (run_once_by_events agent_1 signer_1 clock list_events watcher_1).1 in
    (w.world.store.last_block_height ≡ codes "12") × (length w.world.submissions ≡ 1)
unfolding build_pipe_id assert_object assert_non_empty_string trimmed_text to_unsigned_string
    parse_unsigned_bigint token_text token_part bar stx one_text zero_text get get_field or_else
    is_nullish is_record is_true to_option truthy to_text codes trim trim_start trim_end is_space
    is_empty is_digit all_digits is_unsigned big_int big_from decimal decimal_from text_eq
    select_latest belongs_to newest is_newer upsert merge_closure update set_disputed find create
    copy bindable json_copy normalize_closure_event is_closure_name force_cancel force_close
    assert_open assert_non_empty get_tracked_pipe get_latest_signature_state record_closure
    mark_closure_disputed get_closure get_watcher_cursor set_watcher_cursor beats_closure_balance
    is_dispute_beneficial build_dispute_call_input closure_value decide_on decide_for
    evaluate_closure_for_dispute dispute_txid_of mark_if_named finish settle submit act_on
    on_decision dispute_closure stored writing continue ◌>>=◌ report already_disputed try_dispute
    count_dispute skip_or_dispute handle_closure raise_block scan_normalized scan_event scan_events
    exclusively items_of quiet finish_events scan_items on_listed run_once_by_events
first_run = (refl, refl)

run_once_by_events-EventRun_example :
    EventRun 2
      (codes "0")
      watcher_1.world
      (run_once_by_events agent_1 signer_1 clock list_events watcher_1)
unfolding create items_of count_listed
run_once_by_events-EventRun_example =
    run_once_by_events-EventRun agent_1 signer_1 clock list_events watcher_1 tracking-IsValid refl

run_once-IsSafe_example :
    IsSafe watcher_1.world (run_once agent_1 signer_1 clock none list_events watcher_1).1.world
run_once-IsSafe_example =
    run_once-IsSafe agent_1 signer_1 clock list_events none watcher_1 tracking-IsValid

-- Each tracked pipe is being closed by the counterparty, with nonce 0.
abbrev closing_state : TrackedPipe → Outcome Value
closing_state p = ok (
    obj (
      prop "closer" (str (codes "ST2")) (
        prop "nonce" (str (codes "0")) (
          prop "expires-at" (str (codes "40"))
            (prop "balance-1" (str (codes "2")) (prop "balance-2" (str (codes "8")) end))))))

run_once_by_readonly_pipe-PipeRun_example :
    PipeRun closing_state
      (pipes_of (list_tracked_pipes tracking))
      watcher_1.world
      (run_once_by_readonly_pipe agent_1 signer_1 clock closing_state watcher_1)
run_once_by_readonly_pipe-PipeRun_example =
    run_once_by_readonly_pipe-PipeRun agent_1 signer_1 clock closing_state watcher_1
      tracking-IsValid refl

run_once-running_example :
    (run_once agent_1 signer_1 clock none list_events watcher_1).1.running ≡ false
run_once-running_example = run_once-running agent_1 signer_1 clock list_events none watcher_1
