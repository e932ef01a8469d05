-- ===== src/X402/Store/Locks/Waiting.antt =====
-- The waiting loop of `acquirePipeLock` (packages/x402-client/src/sqlite-state-store.js).
use stackflow.Common.{
  ℕ, zero, suc, ◌+◌, ◌≤◌, ◌<◌, ◌≡◌, Option, some, List, leb, arith, Bool-cases, Option-cases, inl,
  inr,
}
use stackflow.Js.Text.{Text}
use stackflow.Js.Outcome.{Outcome, ok, err, lock_timed_out}
use stackflow.X402.Store.{LockRow}
use stackflow.X402.Store.Locks.{Schedule, try_lock, new_lock, acquire_rounds}
use stackflow.X402.Store.Locks.Table.{lock_on, try_lock-lock_on}

module _ (plan : Schedule) (token key : Text) (ttl_ms deadline : ℕ) where
  -- How the loop ends: with the lock, taken in a round that began in time, or after the deadline.
  pub data Ends : Option (Outcome Text × List LockRow) → Type 0 where
    taken :
        (i : ℕ) (rows : List LockRow)
        → plan.test_at i ≤ deadline
        → lock_on key rows ≡ some (new_lock plan token key ttl_ms i)
        → Ends (some (ok token, rows))
    late :
        (i : ℕ) (rows : List LockRow)
        → deadline < plan.test_at i
        → Ends (some (err (lock_timed_out key), rows))

  -- If the clock goes on at each test and the fuel is more than the milliseconds from its first
  -- reading to the deadline and one, waiting ends: with the lock in the table, taken in a round
  -- that began in time, or with an error at a reading after the deadline.
  pub acquire_rounds-Ends :
      (fuel i : ℕ) (rows : List LockRow)
      → ((j : ℕ) → plan.test_at j < plan.test_at (suc j))
      → 0 < fuel
      → suc deadline < fuel + plan.test_at i
      → Ends (acquire_rounds plan token key ttl_ms deadline fuel i rows)
  unfolding acquire_rounds
  acquire_rounds-Ends zero i rows ticks some_fuel enough = absurd (omega arith)
  acquire_rounds-Ends (suc fuel) i rows ticks some_fuel enough =
      elim (Bool-cases (leb (plan.test_at i) deadline)) [
        | inr over ↦ rw over (late i rows (ground arith))
        | inl in_time ↦
            let early : plan.test_at i ≤ deadline = ground arith in
            elim (Option-cases (try_lock (plan.now_at i) (new_lock plan token key ttl_ms i) rows)) [
              | inr (locked, went) ↦
                  rw (in_time, went)
                    (taken i locked early (
                      try_lock-lock_on (plan.now_at i) (new_lock plan token key ttl_ms i) rows
                        {rows' = locked} went))
              | inl blocked ↦
                  let tick = ticks i in
                  rw (in_time, blocked)
                    (acquire_rounds-Ends fuel (suc i) (plan.others i rows) ticks (omega arith)
                      (omega arith))
            ]
      ]
