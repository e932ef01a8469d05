-- ===== src/X402/Store/Locks.antt =====
-- The locks of packages/x402-client/src/sqlite-state-store.js: `acquirePipeLock`, `releasePipeLock` and
-- `withPipeLock`. Other processes use the same table; what they do to it while this one sleeps is an
-- argument, and so are the clock's readings.
pub mod Table
pub mod Exclusive
pub mod Waiting
use stackflow.Common.{
  ℕ, zero, suc, ◌+◌, String, Bool, not, ◌&&◌, Option, none, some, List, [], ◌∷◌, leb, length, ◌==◌,
  true, false, if◌then◌else◌,
}
use mathlib.Core.Option
use stackflow.Js.Text.{Text, text_eq}
use stackflow.Js.Outcome.{Outcome, ok, err, ◌>>=◌, ◌>>◌, lock_timed_out}
use stackflow.Js.Value.{Value, str, truthy, get}
use stackflow.Agent.Utils.{assert_non_empty_string}
use stackflow.X402.Numbers.{assert_positive_integer}
use stackflow.X402.Store.{LockRow, Waits, X402Store, assert_store_open}

-- INSERT ... ON CONFLICT(pipe_key) DO UPDATE ... WHERE pipe_locks.expires_at_ms <= ?, or none where the
-- statement changes no row.
unfoldable pub try_lock : ℕ → LockRow → List LockRow → Option (List LockRow)
try_lock now new [] = some (new ∷ [])
try_lock now new (r ∷ rs) =
    let rest = try_lock now new rs in
    if text_eq r.pipe_key new.pipe_key
    then (if leb r.expires_at_ms now
        then some (record new { pipe_key = r.pipe_key } ∷ rs)
        else none)
    else Option.map (λ more. r ∷ more) rest

-- DELETE ... WHERE pipe_key = ? AND lock_token = ?
unfoldable pub delete_lock : Text → Text → List LockRow → List LockRow
delete_lock key token [] = []
delete_lock key token (r ∷ rs) =
    let rest = delete_lock key token rs in
    if text_eq r.pipe_key key && text_eq r.lock_token token then rest else r ∷ rest

unfoldable pub release_pipe_lock : Value → Value → X402Store → Outcome (Bool × X402Store)
release_pipe_lock pipe_key lock_token s = do
  assert_store_open s
  key ← assert_non_empty_string pipe_key "pipeKey"
  token ← assert_non_empty_string lock_token "lockToken"
  let left = delete_lock key token s.pipe_locks
  ok (not (length left == length s.pipe_locks), record s { pipe_locks = left })

-- What `acquirePipeLock` has read of its arguments.
pub record LockRequest : Type 0 where
  pub key : Text
  pub timeout_ms : ℕ
  pub ttl_ms : ℕ
  pub poll_ms : ℕ

-- `options.x ? assertPositiveInteger(options.x, ...) : this.x`
unfoldable pub option_ms : Value → ℕ → String → Outcome ℕ
option_ms v default field = if truthy v then assert_positive_integer v field else ok default

unfoldable pub lock_request : Waits → Value → Value → X402Store → Outcome LockRequest
unfolding option_ms
lock_request waits pipe_key options s = do
  assert_store_open s
  key ← assert_non_empty_string pipe_key "pipeKey"
  timeout_ms ← option_ms (get options "timeoutMs") waits.lock_wait_timeout_ms "options.timeoutMs"
  ttl_ms ← option_ms (get options "ttlMs") waits.lock_ttl_ms "options.ttlMs"
  poll_ms ←
      option_ms (get options "pollIntervalMs") waits.lock_poll_interval_ms "options.pollIntervalMs"
  ok (record { key = key; timeout_ms = timeout_ms; ttl_ms = ttl_ms; poll_ms = poll_ms })

-- `Date.now()` at the beginning, at the i-th test of the loop and in its i-th round, and what others do
-- to the table while the i-th round sleeps.
pub record Schedule : Type 0 where
  pub start : ℕ
  pub test_at : ℕ → ℕ
  pub now_at : ℕ → ℕ
  pub others : ℕ → List LockRow → List LockRow

module _ (plan : Schedule) (token key : Text) (ttl_ms : ℕ) where
  abbrev pub new_lock : ℕ → LockRow
  new_lock i = record {
    pipe_key = key;
    lock_token = token;
    expires_at_ms = plan.now_at i + ttl_ms;
    updated_at_ms = plan.now_at i;
  }

  -- `while (Date.now() <= deadline)`, on fuel; none if that runs out
  unfoldable pub acquire_rounds : ℕ → ℕ → ℕ → List LockRow → Option (Outcome Text × List LockRow)
  acquire_rounds deadline zero i rows = none
  acquire_rounds deadline (suc fuel) i rows =
      let asleep = acquire_rounds deadline fuel (suc i) (plan.others i rows) in
      if leb (plan.test_at i) deadline
      then elim (try_lock (plan.now_at i) (new_lock i) rows) [
        | some locked ↦ some (ok token, locked)
        | none ↦ asleep
      ]
      else some (err (lock_timed_out key), rows)

with_locks : X402Store → Outcome Text × List LockRow → Outcome Text × X402Store
with_locks s (r, rows) = (r, record s { pipe_locks = rows })

-- `token` is the `randomUUID()` of the call.
unfoldable pub acquire_for :
    Schedule → Text → ℕ → X402Store → Outcome LockRequest → Option (Outcome Text × X402Store)
unfolding with_locks
acquire_for plan token fuel s (err e) = some (err e, s)
acquire_for plan token fuel s (ok req) =
    Option.map (with_locks s) (
      acquire_rounds plan token req.key req.ttl_ms (plan.start + req.timeout_ms) fuel 0
        s.pipe_locks)

unfoldable pub acquire_pipe_lock :
    Waits → Schedule → Text → ℕ → Value → Value → X402Store → Option (Outcome Text × X402Store)
unfolding acquire_for
acquire_pipe_lock waits plan token fuel pipe_key options s =
    acquire_for plan token fuel s (lock_request waits pipe_key options s)

module _ {A : Type 0} where
  -- `finally`: an error of the release takes the place of the body's result.
  unfoldable pub released :
      Outcome A → X402Store → Outcome (Bool × X402Store) → Outcome A × X402Store
  released r s (ok (changed, s')) = (r, s')
  released r s (err e) = (err e, s)

  unfoldable pub run_locked :
      Value → (X402Store → Outcome A × X402Store) → Outcome Text × X402Store → Outcome A × X402Store
  run_locked pipe_key body (err e, s) = (err e, s)
  run_locked pipe_key body (ok token, s) =
      let (r, s') = body s in released r s' (release_pipe_lock pipe_key (str token) s')

  unfoldable pub with_pipe_lock :
      Waits
      → Schedule
      → Text
      → ℕ
      → Value
      → (X402Store → Outcome A × X402Store)
      → Value
      → X402Store
      → Option (Outcome A × X402Store)
  with_pipe_lock waits plan token fuel pipe_key body options s =
      Option.map (run_locked pipe_key body)
        (acquire_pipe_lock waits plan token fuel pipe_key options s)
