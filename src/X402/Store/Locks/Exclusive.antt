-- ===== src/X402/Store/Locks/Exclusive.antt =====
-- Several processes on the table of locks of packages/x402-client/src/sqlite-state-store.js: the
-- statements that the others run, as a step relation.
use stackflow.Common.{ℕ, ◌<◌, ◌≡◌, ◌∙◌, false, none, some, List, Bool-cases, inl, inr}
use stackflow.Js.Text.{Text, text_eq, text_eq_iff}
use stackflow.X402.Store.{LockRow, lock_expiry, live_rows}
use stackflow.X402.Store.Locks.{try_lock, delete_lock}
use stackflow.X402.Store.Locks.Table.{
  lock_on, try_lock-held, try_lock-lock_on, try_lock-lock_on_ne, delete_lock-lock_on_ne,
  live_rows-lock_on,
}

-- A statement at a time, none of them with the token `mine`.
pub data LockStep (mine : Text) (now : ℕ) (rows rows' : List LockRow) : Type 0 where
  takes : (new : LockRow) → try_lock now new rows ≡ some rows' → LockStep mine now rows rows'
  frees :
      (key token : Text)
      → text_eq mine token ≡ false
      → rows' ≡ delete_lock key token rows
      → LockStep mine now rows rows'
  purges : rows' ≡ live_rows lock_expiry now rows → LockStep mine now rows rows'

-- Statements of others, all before the time `until`.
pub data Others (mine : Text) (until : ℕ) (rows : List LockRow) : List LockRow → Type 0 where
  idle : Others mine until rows rows
  after :
      {t u : List LockRow} (now : ℕ)
      → Others mine until rows t
      → now < until
      → LockStep mine now t u
      → Others mine until rows u

step_keeps :
    (key : Text) (r : LockRow) (now : ℕ) (t u : List LockRow)
    → lock_on key t ≡ some r
    → now < r.expires_at_ms
    → LockStep r.lock_token now t u
    → lock_on key u ≡ some r
step_keeps key r now t u h live (takes new e) = elim (Bool-cases (text_eq new.pipe_key key)) [
  | inl same ↦
      let mine : lock_on new.pipe_key t ≡ some r = rw ((text_eq_iff _ _).0 same) h in
      absurd (cc (e, try_lock-held now new t {r = r} mine live))
  | inr other ↦ try_lock-lock_on_ne now new key t {rows' = u} other e ∙ h
]
step_keeps key r now t u h live (frees k token other e) =
    rw e (delete_lock-lock_on_ne k token key t {r = r} h other)
step_keeps key r now t u h live (purges e) = rw e (live_rows-lock_on now key t {r = r} h live)

Others-keep :
    (key : Text) (r : LockRow) (rows rows' : List LockRow)
    → lock_on key rows ≡ some r
    → Others r.lock_token r.expires_at_ms rows rows'
    → lock_on key rows' ≡ some r
Others-keep key r rows rows' h idle = h
Others-keep key r rows rows' h (after {t} {u} now before live st) =
    step_keeps key r now t rows' (Others-keep key r rows t h before) live st

-- A lock that was taken stays on its key, whatever statements without its token the others run
-- before it expires, and until then an attempt with another row on that key takes nothing.
pub lock_excludes :
    (now at : ℕ) (mine new : LockRow) (rows locked later : List LockRow)
    → try_lock now mine rows ≡ some locked
    → Others mine.lock_token mine.expires_at_ms locked later
    → new.pipe_key ≡ mine.pipe_key
    → at < mine.expires_at_ms
    → (lock_on mine.pipe_key later ≡ some mine) × (try_lock at new later ≡ none)
lock_excludes now at mine new rows locked later took others same early =
    let held =
      Others-keep mine.pipe_key mine locked later
        (try_lock-lock_on now mine rows {rows' = locked} took) others in
    (held, try_lock-held at new later {r = mine} (rw same held) early)
