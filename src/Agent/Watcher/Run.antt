-- ===== src/Agent/Watcher/Run.antt =====
-- packages/stackflow-agent/src/watcher.js: `runOnceByEvents` and `runOnceByReadonlyPipe`. The event
-- source and the read-only call are parameters; `now i` is the clock at the i-th entry.
pub mod Rules
pub mod Safety
use stackflow.Common.{
  ℕ, suc, ◌+◌, ◌≡◌, Bool, true, false, not, Option, none, some, List, [], ◌∷◌, ltb, if◌then◌else◌,
}
use stackflow.Js.Text.{Text, decimal}
use stackflow.Js.Outcome.{Error, Outcome, ok, err}
use stackflow.Js.Value.{Value, str, arr, Items, nil, cons}
use stackflow.Agent.Utils.{Closure, normalize_closure_event, parse_unsigned_bigint}
use stackflow.Agent.Utils.Normal.{closure_value}
use stackflow.Agent.Store.Rows.{TrackedPipe, ClosureRow, Store}
use stackflow.Agent.Store.Methods.{
  list_tracked_pipes, record_closure, get_closure, get_watcher_cursor, set_watcher_cursor,
}
use stackflow.Agent.Service.Wallet.{Agent, Signer}
use stackflow.Agent.Service.Dispute.{
  World, DisputeResult, not_submitted, submitted, dispute_closure,
}
use stackflow.Agent.Watcher.PipeState.{to_closure_from_pipe_state}

pub data Context : Type 0 where
  listing : Context
  fetching : Text → Text → Context
  disputing : Text → Context

-- What `reportError` was told.
pub record Report : Type 0 where
  pub error : Error
  pub context : Context

pub record Watcher : Type 0 where
  pub world : World
  pub running : Bool
  pub reports : List Report

-- The counters of a run.
pub record Tally : Type 0 where
  pub scanned : ℕ
  pub invalid_events : ℕ
  pub disputes_submitted : ℕ
  pub skipped_already_disputed : ℕ
  pub dispute_errors : ℕ
  pub highest_block : ℕ

-- A step that may throw; what it wrote before stays written.
abbrev pub Act : Type 0 → Type 0
Act A = Watcher → Outcome A × Watcher

module _ {A : Type 0} where
  abbrev pub pure : A → Act A
  pure a w = (ok a, w)

  -- A call that only reads the database
  abbrev pub reading : (Store → Outcome A) → Act A
  reading f w = (f w.world.store, w)

  unfoldable pub stored : Outcome (A × Store) → Watcher → Outcome A × Watcher
  stored (err e) w = (err e, w)
  stored (ok (a, s)) w = (ok a, record w { world = record w.world { store = s } })

  -- A call that writes the database
  unfoldable pub writing : (Store → Outcome (A × Store)) → Act A
  unfolding stored
  writing f w = stored (f w.world.store) w

infixl 5 ◌>>=◌ ◌>>◌
module _ {A B : Type 0} where
  unfoldable pub continue : Outcome A → (A → Act B) → Act B
  continue (ok a) f w = f a w
  continue (err e) f w = (err e, w)

  unfoldable pub ◌>>=◌ : Act A → (A → Act B) → Act B
  unfolding continue
  ◌>>=◌ m f w = let (r, w') = m w in continue r f w'

abbrev pub ◌>>◌ : {B : Type 0} → Act (Unit {0}) → Act B → Act B
m >> k = m >>= λ _. k

unfoldable pub report : Error → Context → Act (Unit {0})
report e c w = (ok tt, record w { reports = record { error = e; context = c } ∷ w.reports })

unfoldable pub already_disputed : Option ClosureRow → Bool
already_disputed none = false
already_disputed (some r) = r.disputed

module _ (agent : Agent) (signer : Signer) where
  -- The call of `disputeClosure` inside its `try`
  unfoldable pub try_dispute : Closure → Act (Outcome DisputeResult)
  try_dispute closure w =
      let (r, world) = dispute_closure agent signer (closure_value closure) w.world in
      (ok r, record w { world = world })

  unfoldable pub count_dispute : Closure → Tally → Outcome DisputeResult → Act Tally
  count_dispute closure t (err e) = do
    report e (disputing closure.txid)
    pure (record t { dispute_errors = t.dispute_errors + 1 })
  count_dispute closure t (ok (not_submitted reason d)) = pure t
  count_dispute closure t (ok (submitted d)) =
      pure (record t { disputes_submitted = t.disputes_submitted + 1 })

  unfoldable pub skip_or_dispute : Closure → Tally → Option ClosureRow → Act Tally
  skip_or_dispute closure t existing = do
    let skipped = pure (record t { skipped_already_disputed = t.skipped_already_disputed + 1 })
    let disputed = do result ← try_dispute closure; count_dispute closure t result
    if already_disputed existing then skipped else disputed

  -- `existing`, `recordClosure`, and the dispute unless it is marked already
  unfoldable pub handle_closure : Text → Closure → Tally → Act Tally
  handle_closure now closure t = do
    existing ← reading (get_closure (str closure.txid))
    writing (record_closure now (closure_value closure)) >>= λ _. skip_or_dispute closure t existing

  unfoldable pub raise_block : Closure → Tally → Act Tally
  raise_block closure t = do
    block ← reading (λ _. parse_unsigned_bigint (str closure.block_height) "blockHeight")
    pure (record t { highest_block = if ltb t.highest_block block then block else t.highest_block })

  unfoldable pub scan_normalized : Text → Outcome Closure → Tally → Act Tally
  scan_normalized now (err e) t = pure (record t { invalid_events = t.invalid_events + 1 })
  scan_normalized now (ok closure) t = do
    t' ← handle_closure now closure (record t { scanned = t.scanned + 1 })
    raise_block closure t'

  -- One round of the loop over the events
  unfoldable pub scan_event : Text → Value → Tally → Act Tally
  unfolding count_dispute already_disputed skip_or_dispute handle_closure raise_block
      scan_normalized
  scan_event now event t = scan_normalized now (normalize_closure_event event) t

  unfoldable pub scan_events : (ℕ → Text) → ℕ → Items → Tally → Act Tally
  scan_events now i nil t = pure t
  scan_events now i (cons event rest) t = do
    t' ← scan_event (now i) event t
    scan_events now (suc i) rest t'
