-- ===== src/Agent/Watcher/Once.antt =====
-- packages/stackflow-agent/src/watcher.js: a whole run, `runOnceByEvents`, `runOnceByReadonlyPipe` and
-- `runOnce`, with the flag that keeps two runs apart.
use stackflow.Common.{
  ℕ, suc, ◌+◌, Bool, true, false, Option, none, some, List, [], ◌∷◌, ltb, if◌then◌else◌,
}
use stackflow.Js.Text.{Text, decimal}
use stackflow.Js.Outcome.{Outcome, ok, err}
use stackflow.Js.Value.{Value, str, arr, Items, nil, cons}
use stackflow.Agent.Utils.{Closure, normalize_closure_event, parse_unsigned_bigint}
use stackflow.Agent.Store.Rows.{TrackedPipe, Store}
use stackflow.Agent.Store.Methods.{list_tracked_pipes, get_watcher_cursor, set_watcher_cursor}
use stackflow.Agent.Service.Wallet.{Agent, Signer}
use stackflow.Agent.Watcher.PipeState.{to_closure_from_pipe_state}
use stackflow.Agent.Watcher.Run.{
  listing, fetching, Tally, Act, pure, reading, writing, ◌>>=◌, ◌>>◌, report, handle_closure,
  scan_events,
}

pub record EventSummary : Type 0 where
  pub is_ok : Bool
  pub tally : Tally
  pub list_errors : ℕ
  pub from_block_height : Text
  pub to_block_height : Text

pub record PipeTally : Type 0 where
  pub pipes_scanned : ℕ
  pub closures_found : ℕ
  pub fetch_errors : ℕ
  pub tally : Tally

pub data RunResult : Type 0 where
  already_running : RunResult
  by_events : EventSummary → RunResult
  by_pipes : PipeTally → RunResult

-- No events so far, above the block that the run starts from.
abbrev pub start_tally : ℕ → Tally
start_tally block = record {
  scanned = 0;
  invalid_events = 0;
  disputes_submitted = 0;
  skipped_already_disputed = 0;
  dispute_errors = 0;
  highest_block = block;
}

abbrev pub no_pipes : PipeTally
no_pipes = record { pipes_scanned = 0; closures_found = 0; fetch_errors = 0; tally = start_tally 0 }

-- `if (this.running) return …; this.running = true; try { … } finally { this.running = false; }`
unfoldable pub exclusively : Act RunResult → Act RunResult
exclusively body w =
    let (r, w') = body (record w { running = true }) in
    if w.running then (ok already_running, w) else (r, record w' { running = false })

abbrev pub without_value : Outcome Store → Outcome (Unit {0} × Store)
without_value (ok s) = ok (tt, s)
without_value (err e) = err e

-- The array's elements, none where it is no array
unfoldable pub items_of : Value → Items
items_of (arr items) = items
items_of _ = nil

unfoldable pub quiet : Bool → ℕ → Text → RunResult
quiet is_ok list_errors from = by_events (record {
  is_ok = is_ok;
  tally = start_tally 0;
  list_errors = list_errors;
  from_block_height = from;
  to_block_height = from;
})

-- The cursor moves only if no dispute failed.
unfoldable pub finish_events : Text → Text → Tally → Act RunResult
finish_events now from t = do
  let failed = ltb 0 t.dispute_errors
  let to = if failed then from else decimal t.highest_block
  let moved = writing (λ s. without_value (set_watcher_cursor now to s))
  if failed then pure tt else moved
  pure (
      by_events (record {
        is_ok = true;
        tally = t;
        list_errors = 0;
        from_block_height = from;
        to_block_height = to;
      }))

module _ (agent : Agent) (signer : Signer) (now : ℕ → Text) where
  -- The clock's reading 0 is the cursor's, and i + 1 is that of entry i.
  unfoldable pub scan_items : Text → Items → Act RunResult
  unfolding quiet
  scan_items from nil = pure (quiet true 0 from)
  scan_items from (cons event rest) = do
    block ← reading (λ _. parse_unsigned_bigint (str from) "fromBlockHeight")
    t ← scan_events agent signer now 1 (cons event rest) (start_tally block)
    finish_events (now 0) from t

  unfoldable pub on_listed : Text → Outcome Value → Act RunResult
  unfolding quiet scan_items items_of
  on_listed from (err e) = do report e listing; pure (quiet false 1 from)
  on_listed from (ok events) = scan_items from (items_of events)

  unfoldable pub run_once_by_events : (Text → Outcome Value) → Act RunResult
  unfolding scan_items on_listed items_of quiet
  run_once_by_events list_closure_events =
      exclusively (do from ← reading get_watcher_cursor; on_listed from (list_closure_events from))

  unfoldable pub found : ℕ → PipeTally → Closure → Act PipeTally
  found i p closure = do
    t ← handle_closure agent signer (now i) closure p.tally
    pure (record p { closures_found = p.closures_found + 1; tally = t })

  unfoldable pub on_normalized : ℕ → PipeTally → Outcome Closure → Act PipeTally
  on_normalized i p (err e) = pure p
  on_normalized i p (ok closure) = found i p closure

  unfoldable pub on_raw : ℕ → PipeTally → Option Value → Act PipeTally
  on_raw i p none = pure p
  on_raw i p (some raw) = on_normalized i p (normalize_closure_event raw)

  unfoldable pub on_fetched : ℕ → TrackedPipe → PipeTally → Outcome Value → Act PipeTally
  on_fetched i tracked p (err e) = do
    report e (fetching tracked.contract_id tracked.pipe_id)
    pure (record p { fetch_errors = p.fetch_errors + 1 })
  on_fetched i tracked p (ok state) = on_raw i p (to_closure_from_pipe_state tracked state)

  module _ (get_pipe_state : TrackedPipe → Outcome Value) where
    -- One round of the loop over the tracked pipes
    unfoldable pub scan_pipe : ℕ → TrackedPipe → PipeTally → Act PipeTally
    unfolding found on_normalized on_raw on_fetched
    scan_pipe i tracked p =
        on_fetched i tracked (record p { pipes_scanned = p.pipes_scanned + 1 })
          (get_pipe_state tracked)

    unfoldable pub scan_pipes : ℕ → List TrackedPipe → PipeTally → Act PipeTally
    scan_pipes i [] p = pure p
    scan_pipes i (tracked ∷ rest) p = do p' ← scan_pipe i tracked p; scan_pipes (suc i) rest p'

    unfoldable pub run_once_by_readonly_pipe : Act RunResult
    run_once_by_readonly_pipe =
        exclusively (do
          pipes ← reading list_tracked_pipes
          p ← scan_pipes 1 pipes no_pipes
          pure (by_pipes p))

  -- `runOnce`: the read-only call goes before the event list; the constructor wants one of them.
  unfoldable pub run_once :
      Option (TrackedPipe → Outcome Value) → (Text → Outcome Value) → Act RunResult
  run_once (some get_pipe_state) list_closure_events = run_once_by_readonly_pipe get_pipe_state
  run_once none list_closure_events = run_once_by_events list_closure_events
