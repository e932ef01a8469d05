-- ===== src/Agent/Watcher/Pipes.antt =====
-- `runOnceByReadonlyPipe` and `runOnce` of packages/stackflow-agent/src/watcher.js as whole runs.
use stackflow.Common.{ℕ, ◌≡◌, refl, true, false, Option, none, some, List, [], Bool-cases, inl, inr}
use stackflow.Js.Text.{Text}
use stackflow.Js.Outcome.{Outcome, ok, err}
use stackflow.Js.Value.{Value}
use stackflow.Agent.Store.Rows.{TrackedPipe}
use stackflow.Agent.Store.Invariant.{IsValid}
use stackflow.Agent.Store.Methods.{list_tracked_pipes}
use stackflow.Agent.Service.Wallet.{Agent, Signer}
use stackflow.Agent.Service.Dispute.{World}
use stackflow.Agent.Watcher.Run.{Watcher, Act, pure, ◌>>=◌, continue}
use stackflow.Agent.Watcher.Run.Rules.{OnOk}
use stackflow.Agent.Watcher.Run.Safety.{Runs, Runs-refl}
use stackflow.Agent.Watcher.Loops.{During}
use stackflow.Agent.Watcher.Totals.{IsSafe, Runs-IsSafe, run_once_by_events-EventRun}
use stackflow.Agent.Watcher.Scan.{Looked, scan_pipes-Holds}
use stackflow.Agent.Watcher.Once.{
  PipeTally, RunResult, already_running, by_events, by_pipes, no_pipes, exclusively, scan_pipes,
  run_once_by_readonly_pipe, run_once, run_once_by_events,
}

module _ (get_pipe_state : TrackedPipe → Outcome Value) where
  -- A run that returns counted what the read-only calls for the tracked pipes show.
  abbrev pub PipesAccounted : List TrackedPipe → Outcome RunResult → Type 0
  PipesAccounted pipes (err e) = Unit {0}
  PipesAccounted pipes (ok already_running) = false ≡ true
  PipesAccounted pipes (ok (by_events e)) = false ≡ true
  PipesAccounted pipes (ok (by_pipes p)) = Looked get_pipe_state pipes no_pipes p

  pub record PipeRun (pipes : List TrackedPipe) (w0 : World) (rw : Outcome RunResult × Watcher)
      : Type 0 where
    pub kept : Runs w0 rw.1.world
    pub accounted : PipesAccounted pipes rw.0

  after_scan :
      (w0 : World) (pipes : List TrackedPipe) (r : Outcome PipeTally) (w : Watcher)
      → During w0 w
      → OnOk (Looked get_pipe_state pipes no_pipes) r
      → PipeRun pipes w0 (continue r (λ p. pure (by_pipes p)) w)
  unfolding continue
  after_scan w0 pipes (err e) w run h = record { kept = run; accounted = tt }
  after_scan w0 pipes (ok p) w run h = record { kept = run; accounted = h }

abbrev pub pipes_of : Outcome (List TrackedPipe) → List TrackedPipe
pipes_of (ok pipes) = pipes
pipes_of (err e) = []

module _ (agent : Agent) (signer : Signer) (now : ℕ → Text) where
  module _ (get_pipe_state : TrackedPipe → Outcome Value) where
    after_listing :
        (w0 : World) (r : Outcome (List TrackedPipe)) (w : Watcher)
        → During w0 w
        → PipeRun get_pipe_state (pipes_of r) w0 (
            continue r
              (λ pipes. scan_pipes agent signer now get_pipe_state 1 pipes no_pipes >>= λ p.
                pure (by_pipes p))
              w)
    unfolding continue ◌>>=◌
    after_listing w0 (err e) w run = record { kept = run; accounted = tt }
    after_listing w0 (ok pipes) w run =
        let (kept, looked) =
          (scan_pipes-Holds get_pipe_state w0 agent signer now 1 pipes no_pipes).at w run in
        after_scan get_pipe_state w0 pipes _ _ kept looked

    -- On a valid database, while no run is on: after the run the database is valid, has only grown and
    -- has the same cursor, and each submission that was added is for a closure that was not marked
    -- as disputed before. A run that returns has counted, over the list of tracked pipes, the pipes,
    -- the read-only calls that throw, and the closures that the fetched states show, with at most
    -- one decided dispute for each of these closures.
    pub run_once_by_readonly_pipe-PipeRun :
        (w : Watcher)
        → IsValid w.world.store
        → w.running ≡ false
        → PipeRun get_pipe_state
            (pipes_of (list_tracked_pipes w.world.store))
            w.world
            (run_once_by_readonly_pipe agent signer now get_pipe_state w)
    unfolding run_once_by_readonly_pipe exclusively ◌>>=◌
    run_once_by_readonly_pipe-PipeRun w v idle =
        let run =
          after_listing w.world (list_tracked_pipes w.world.store) (record w { running = true })
            (Runs-refl w.world v) in
        rw idle (record { kept = run.kept; accounted = run.accounted })

  module _ (list_closure_events : Text → Outcome Value) where
    exclusively-running :
        (body : Act RunResult) (w : Watcher) → (exclusively body w).1.running ≡ w.running
    unfolding exclusively
    exclusively-running body w = elim (Bool-cases w.running) [
      | inl busy ↦ rw busy refl
      | inr idle ↦ rw idle refl
    ]

    -- With either source, the `running` flag is after `runOnce` what it was before.
    pub run_once-running :
        (source : Option (TrackedPipe → Outcome Value)) (w : Watcher)
        → (run_once agent signer now source list_closure_events w).1.running ≡ w.running
    unfolding run_once run_once_by_events run_once_by_readonly_pipe
    run_once-running none w = exclusively-running _ w
    run_once-running (some f) w = exclusively-running _ w

    exclusively-busy :
        (body : Act RunResult) (w : Watcher)
        → w.running ≡ true
        → exclusively body w ≡ (ok already_running, w)
    unfolding exclusively
    exclusively-busy body w busy = rw busy refl

    run_once-busy :
        (source : Option (TrackedPipe → Outcome Value)) (w : Watcher)
        → w.running ≡ true
        → run_once agent signer now source list_closure_events w ≡ (ok already_running, w)
    unfolding run_once run_once_by_events run_once_by_readonly_pipe
    run_once-busy none w busy = exclusively-busy _ w busy
    run_once-busy (some f) w busy = exclusively-busy _ w busy

    idle-IsSafe :
        (source : Option (TrackedPipe → Outcome Value)) (w : Watcher)
        → IsValid w.world.store
        → w.running ≡ false
        → IsSafe w.world (run_once agent signer now source list_closure_events w).1.world
    unfolding run_once
    idle-IsSafe none w v idle =
        (run_once_by_events-EventRun agent signer now list_closure_events w v idle).safe
    idle-IsSafe (some f) w v idle = Runs-IsSafe (run_once_by_readonly_pipe-PipeRun f w v idle).kept

    -- On a valid database, with either source and whatever it, the signer and the clock answer:
    -- after `runOnce` the database is valid and has only grown, and each submission that was added
    -- is for a closure that was not marked as disputed before the run.
    pub run_once-IsSafe :
        (source : Option (TrackedPipe → Outcome Value)) (w : Watcher)
        → IsValid w.world.store
        → IsSafe w.world (run_once agent signer now source list_closure_events w).1.world
    run_once-IsSafe source w v = elim (Bool-cases w.running) [
      | inl busy ↦ rw (run_once-busy source w busy) (Runs-IsSafe (Runs-refl w.world v))
      | inr idle ↦ idle-IsSafe source w v idle
    ]
