-- ===== src/Agent/Watcher/Totals.antt =====
-- Whole runs of `runOnceByEvents` (packages/stackflow-agent/src/watcher.js): the counters, the
-- cursor and the database.
use stackflow.Common.{
  ℕ, suc, ◌+◌, ◌≤◌, ◌≡◌, refl, sym, ap, Bool, true, false, arith, ltb, Bool-cases, inl, inr,
}
use stackflow.Js.Text.{Text, decimal, big_int}
use stackflow.Js.Text.Decimal.{big_int-decimal}
use stackflow.Js.Outcome.{Outcome, ok, err, after_ok, Outcome-cases}
use stackflow.Js.Value.{Value, Items, nil, cons}
use stackflow.Agent.Utils.Leaves.{IsNumeral, IsNumeral-decimal, parse_unsigned_bigint-str}
use stackflow.Agent.Store.Rows.{Store}
use stackflow.Agent.Store.Invariant.{IsValid}
use stackflow.Agent.Store.Methods.{get_watcher_cursor, set_watcher_cursor, assert_open}
use stackflow.Agent.Store.Growth.{Grows, Grows-trans}
use stackflow.Agent.Store.Steps.{value_of_ok, set_watcher_cursor-Keeps}
use stackflow.Agent.Service.Wallet.{Agent, Signer}
use stackflow.Agent.Service.Dispute.{World}
use stackflow.Agent.Watcher.Run.{Watcher, Tally, writing, stored, ◌>>=◌, continue, report}
use stackflow.Agent.Watcher.Run.Rules.{OnOk}
use stackflow.Agent.Watcher.Run.Safety.{Runs, Runs-refl, Since}
use stackflow.Agent.Watcher.Loops.{decided, Scanned, count_items, During, scan_events-Holds}
use stackflow.Agent.Watcher.Once.{
  EventSummary, RunResult, already_running, by_events, by_pipes, start_tally, exclusively, items_of,
  quiet, finish_events, scan_items, on_listed, run_once_by_events,
}

-- The database stays valid and only grows, and no submission is for a closure that was marked as
-- disputed before.
pub record IsSafe (w w' : World) : Type 0 where
  pub valid : IsValid w'.store
  pub grows : Grows w.store w'.store
  pub since : Since w.store w.submissions w'.submissions

pub Runs-IsSafe : {w w' : World} → Runs w w' → IsSafe w w'
Runs-IsSafe r = record { valid = r.valid; grows = r.grows; since = r.since }

-- What a run over `n` listed events reports, and where it leaves the cursor.
pub record IsAccounted (n : ℕ) (before after : Text) (e : EventSummary) : Type 0 where
  pub all : e.tally.scanned + e.tally.invalid_events ≡ n
  pub decisions : decided e.tally ≤ e.tally.scanned
  pub from : e.from_block_height ≡ before
  pub cursor : after ≡ e.to_block_height
  pub not_back : big_int before ≤ big_int after
  pub held : (ltb 0 e.tally.dispute_errors ≡ true) → after ≡ before

unfoldable pub count_listed : Outcome Value → ℕ
unfolding items_of
count_listed (ok v) = count_items (items_of v)
count_listed (err e) = 0

-- A run that throws leaves the cursor; one that returns accounts for its events.
abbrev pub Accounted : ℕ → Text → Outcome RunResult → Text → Type 0
Accounted n before (err e) after = after ≡ before
Accounted n before (ok already_running) after = false ≡ true
Accounted n before (ok (by_pipes p)) after = false ≡ true
Accounted n before (ok (by_events e)) after = IsAccounted n before after e

pub record EventRun (n : ℕ) (before : Text) (w0 : World) (rw : Outcome RunResult × Watcher)
    : Type 0 where
  pub safe : IsSafe w0 rw.1.world
  pub accounted : Accounted n before rw.0 rw.1.world.store.last_block_height

held_back :
    (n block : ℕ) (from : Text) (t : Tally)
    → Scanned n (start_tally block) t
    → IsAccounted n from from (record {
      is_ok = true;
      tally = t;
      list_errors = 0;
      from_block_height = from;
      to_block_height = from;
    })
held_back n block from t sc = record {
  all = omega arith;
  decisions = omega arith;
  from = refl;
  cursor = refl;
  not_back = omega arith;
  held = λ _. refl;
}

moved_on :
    (n : ℕ) (from : Text) (t : Tally)
    → ltb 0 t.dispute_errors ≡ false
    → Scanned n (start_tally (big_int from)) t
    → IsAccounted n from (decimal t.highest_block) (record {
      is_ok = true;
      tally = t;
      list_errors = 0;
      from_block_height = from;
      to_block_height = decimal t.highest_block;
    })
moved_on n from t no_error sc = record {
  all = omega arith;
  decisions = omega arith;
  from = refl;
  cursor = refl;
  not_back = rw (big_int-decimal t.highest_block) sc.block;
  held = λ e. absurd (cc);
}

cursor_moved :
    (now to : Text) (s : Store) {s' : Store}
    → set_watcher_cursor now to s ≡ ok s'
    → s'.last_block_height ≡ to
unfolding set_watcher_cursor
cursor_moved now to s {s'} h =
    after_ok (assert_open s) _ h
      λ _ _ h1. ap (λ (x : Store). x.last_block_height) (sym (value_of_ok h1))

at_rest :
    (b : Bool) (errors : ℕ) (from : Text)
    → IsAccounted 0 from from (record {
      is_ok = b;
      tally = start_tally 0;
      list_errors = errors;
      from_block_height = from;
      to_block_height = from;
    })
at_rest b errors from = record {
  all = refl;
  decisions = omega arith;
  from = refl;
  cursor = refl;
  not_back = omega arith;
  held = λ _. refl;
}

module _ (w0 : World) where
  moved_IsSafe :
      (now to : Text) (w : World) {s' : Store}
      → IsNumeral to
      → Runs w0 w
      → set_watcher_cursor now to w.store ≡ ok s'
      → IsSafe w0 (record w { store = s' })
  moved_IsSafe now to w {s'} num run h =
      let k = set_watcher_cursor-Keeps now to w.store {s' = s'} run.valid num h in
      record { valid = k.valid; grows = Grows-trans run.grows k.grows; since = run.since }

  finish_events-EventRun :
      (now : Text) (n : ℕ) (t : Tally) (w : Watcher)
      → During w0 w
      → Scanned n (start_tally (big_int w0.store.last_block_height)) t
      → EventRun n w0.store.last_block_height w0 (finish_events now w0.store.last_block_height t w)
  unfolding finish_events writing stored ◌>>=◌ continue
  finish_events-EventRun now n t w run sc = elim (Bool-cases (ltb 0 t.dispute_errors)) [
    | inl failed ↦ rw failed (record {
      safe = Runs-IsSafe run;
      accounted =
          rw run.cursor
            (held_back n (big_int w0.store.last_block_height) w0.store.last_block_height t sc);
    })
    | inr clean ↦
        elim (Outcome-cases (set_watcher_cursor now (decimal t.highest_block) w.world.store)) [
          | inr (s', moved) ↦
              rw (clean, moved)
                (record {
                  safe =
                      moved_IsSafe now (decimal t.highest_block) w.world
                        (IsNumeral-decimal t.highest_block) run moved;
                  accounted =
                      rw (cursor_moved now (decimal t.highest_block) w.world.store moved)
                        (moved_on n w0.store.last_block_height t clean sc);
                })
          | inl (e, closed) ↦
              rw (clean, closed) (record { safe = Runs-IsSafe run; accounted = run.cursor })
        ]
  ]

  module _ (agent : Agent) (signer : Signer) (now : ℕ → Text) where
    after_scan :
        (n : ℕ) (r : Outcome Tally) (w : Watcher)
        → During w0 w
        → OnOk (Scanned n (start_tally (big_int w0.store.last_block_height))) r
        → EventRun n w0.store.last_block_height w0
            (continue r (finish_events (now 0) w0.store.last_block_height) w)
    unfolding continue
    after_scan n (err e) w run sc = record { safe = Runs-IsSafe run; accounted = run.cursor }
    after_scan n (ok t) w run sc = finish_events-EventRun (now 0) n t w run sc

    scan_items-EventRun :
        (items : Items) (w : Watcher)
        → IsNumeral w0.store.last_block_height
        → During w0 w
        → EventRun
            (count_items items)
            w0.store.last_block_height
            w0
            (scan_items agent signer now w0.store.last_block_height items w)
    unfolding scan_items quiet ◌>>=◌ continue
    scan_items-EventRun nil w num run = record {
      safe = Runs-IsSafe run;
      accounted = rw run.cursor (at_rest true 0 w0.store.last_block_height);
    }
    scan_items-EventRun (cons event rest) w num run =
        let (kept, counted) =
          (scan_events-Holds w0 agent signer now 1 (cons event rest)
              (start_tally (big_int w0.store.last_block_height))).at
            w run in
        rw (parse_unsigned_bigint-str w0.store.last_block_height "fromBlockHeight" num)
          (after_scan (suc (count_items rest)) _ _ kept counted)

    on_listed-EventRun :
        (r : Outcome Value) (w : Watcher)
        → IsNumeral w0.store.last_block_height
        → During w0 w
        → EventRun
            (count_listed r)
            w0.store.last_block_height
            w0
            (on_listed agent signer now w0.store.last_block_height r w)
    unfolding on_listed count_listed quiet ◌>>=◌ continue report
    on_listed-EventRun (ok v) w num run = scan_items-EventRun (items_of v) w num run
    on_listed-EventRun (err e) w num run = record {
      safe = record { valid = run.valid; grows = run.grows; since = run.since };
      accounted = rw run.cursor (at_rest false 1 w0.store.last_block_height);
    }

    after_cursor :
        (list_closure_events : Text → Outcome Value) (r : Outcome Text) (w : Watcher)
        → get_watcher_cursor w0.store ≡ r
        → IsNumeral w0.store.last_block_height
        → During w0 w
        → EventRun
            (count_listed (list_closure_events w0.store.last_block_height))
            w0.store.last_block_height
            w0
            (continue r (λ from. on_listed agent signer now from (list_closure_events from)) w)
    unfolding continue get_watcher_cursor
    after_cursor list_closure_events (err e) w h num run = record {
      safe = Runs-IsSafe run;
      accounted = run.cursor;
    }
    after_cursor list_closure_events (ok from) w h num run =
        let same : w0.store.last_block_height ≡ from =
          after_ok (assert_open w0.store) _ h λ _ _ h1. value_of_ok h1 in
        rw (← same) (on_listed-EventRun (list_closure_events w0.store.last_block_height) w num run)

module _ (agent : Agent) (signer : Signer) (now : ℕ → Text)
    (list_closure_events : Text → Outcome Value) where
  -- On a valid database, while no run is on: the database is valid, has only grown and nothing was
  -- submitted for a closure disputed before; if the run throws, the cursor is where it was; if it
  -- returns, it returns a summary in which each listed event is scanned or invalid, at most one
  -- dispute is decided for a scanned event, `from` is the cursor before and `to` is the cursor
  -- after, which is not below it, and is it when a dispute failed.
  pub run_once_by_events-EventRun :
      (w : Watcher)
      → IsValid w.world.store
      → w.running ≡ false
      → EventRun
          (count_listed (list_closure_events w.world.store.last_block_height))
          w.world.store.last_block_height
          w.world
          (run_once_by_events agent signer now list_closure_events w)
  unfolding run_once_by_events exclusively ◌>>=◌ continue
  run_once_by_events-EventRun w v idle =
      let run =
        after_cursor w.world agent signer now list_closure_events (get_watcher_cursor w.world.store)
          (record w { running = true }) refl v.cursor (Runs-refl w.world v) in
      rw idle (record { safe = run.safe; accounted = run.accounted })
