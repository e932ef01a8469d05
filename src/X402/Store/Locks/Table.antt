-- ===== src/X402/Store/Locks/Table.antt =====
-- Looking up a lock after the statements of packages/x402-client/src/sqlite-state-store.js on the table
-- of locks.
use stackflow.Common.{
  ℕ, ◌<◌, ◌≡◌, refl, ap, false, ◌&&◌, Option, none, some, List, [], ◌∷◌, leb, arith, Bool-cases,
  Option-cases, inl, inr,
}
use stackflow.Js.Text.{Text, text_eq, text_eq_iff}
use stackflow.Table.{find}
use stackflow.X402.Store.{LockRow, lock_expiry, live_rows}
use stackflow.X402.Store.Locks.{try_lock, delete_lock}

abbrev pub key_of : LockRow → Text
key_of r = r.pipe_key

-- The row of a key
abbrev pub lock_on : Text → List LockRow → Option LockRow
lock_on key rows = find key_of key rows

-- The statement sees the row of its key.
pub try_lock-held :
    (now : ℕ) (new : LockRow) (rows : List LockRow) {r : LockRow}
    → lock_on new.pipe_key rows ≡ some r
    → now < r.expires_at_ms
    → try_lock now new rows ≡ none
unfolding try_lock find
try_lock-held now new [] h live = absurd (cc h)
try_lock-held now new (x ∷ rows) {r} h live = elim (Bool-cases (text_eq x.pipe_key new.pipe_key)) [
  | inl same ↦
      let here : x ≡ r = cc (rw same at h) in
      let unexpired : leb x.expires_at_ms now ≡ false = rw here (ground arith) in
      rw (same, unexpired)
  | inr differ ↦ rw differ (rw (try_lock-held now new rows {r = r} (rw differ at h) live))
]

pub try_lock-lock_on_ne :
    (now : ℕ) (new : LockRow) (key : Text) (rows : List LockRow) {rows' : List LockRow}
    → text_eq new.pipe_key key ≡ false
    → try_lock now new rows ≡ some rows'
    → lock_on key rows' ≡ lock_on key rows
unfolding try_lock find
try_lock-lock_on_ne now new key [] {rows'} other h =
    let wrote : new ∷ [] ≡ rows' = cc h in rw (← wrote) (rw other)
try_lock-lock_on_ne now new key (x ∷ rows) {rows'} other h =
    elim (Bool-cases (text_eq x.pipe_key new.pipe_key)) [
      | inl same ↦ elim (Bool-cases (leb x.expires_at_ms now)) [
        | inl expired ↦
            let wrote : record new { pipe_key = x.pipe_key } ∷ rows ≡ rows' =
              cc (rw (same, expired) at h) in
            let also : text_eq x.pipe_key key ≡ false = rw ((text_eq_iff _ _).0 same) other in
            rw (← wrote) (rw also)
        | inr live ↦ absurd (cc (rw (same, live) at h))
      ]
      | inr differ ↦ elim (Option-cases (try_lock now new rows)) [
        | inl nothing ↦ absurd (cc (rw (differ, nothing) at h))
        | inr (more, went) ↦
            let wrote : x ∷ more ≡ rows' = cc (rw (differ, went) at h) in
            let rest = try_lock-lock_on_ne now new key rows {rows' = more} other went in
            rw (← wrote) (rw rest)
      ]
    ]

-- The row that a statement which went through leaves
pub try_lock-lock_on :
    (now : ℕ) (new : LockRow) (rows : List LockRow) {rows' : List LockRow}
    → try_lock now new rows ≡ some rows'
    → lock_on new.pipe_key rows' ≡ some new
unfolding try_lock find
try_lock-lock_on now new [] {rows'} h =
    let wrote : new ∷ [] ≡ rows' = cc h in
    rw (← wrote) (rw ((text_eq_iff new.pipe_key new.pipe_key).1 refl))
try_lock-lock_on now new (x ∷ rows) {rows'} h =
    elim (Bool-cases (text_eq x.pipe_key new.pipe_key)) [
      | inl same ↦ elim (Bool-cases (leb x.expires_at_ms now)) [
        | inl expired ↦
            let wrote : record new { pipe_key = x.pipe_key } ∷ rows ≡ rows' =
              cc (rw (same, expired) at h) in
            let key : x.pipe_key ≡ new.pipe_key = (text_eq_iff _ _).0 same in
            rw (← wrote) (rw (same) (ap (λ (k : Text). some (record new { pipe_key = k })) key))
        | inr live ↦ absurd (cc (rw (same, live) at h))
      ]
      | inr differ ↦ elim (Option-cases (try_lock now new rows)) [
        | inl nothing ↦ absurd (cc (rw (differ, nothing) at h))
        | inr (more, went) ↦
            let wrote : x ∷ more ≡ rows' = cc (rw (differ, went) at h) in
            rw (← wrote) (rw differ (try_lock-lock_on now new rows {rows' = more} went))
      ]
    ]

-- Deleting another token's lock
pub delete_lock-lock_on_ne :
    (k token key : Text) (rows : List LockRow) {r : LockRow}
    → lock_on key rows ≡ some r
    → text_eq r.lock_token token ≡ false
    → lock_on key (delete_lock k token rows) ≡ some r
unfolding delete_lock find
delete_lock-lock_on_ne k token key [] h other = absurd (cc h)
delete_lock-lock_on_ne k token key (x ∷ rows) {r} h other =
    elim (Bool-cases (text_eq x.pipe_key key)) [
      | inl same ↦
          let here : x ≡ r = cc (rw same at h) in
          let kept : text_eq x.lock_token token ≡ false = rw here other in
          let stays : (text_eq x.pipe_key k && text_eq x.lock_token token) ≡ false = ground arith in
          rw stays (rw same (ap some here))
      | inr differ ↦
          let rest = delete_lock-lock_on_ne k token key rows {r = r} (rw differ at h) other in
          elim (Bool-cases (text_eq x.pipe_key k && text_eq x.lock_token token)) [
            | inl gone ↦ rw gone rest
            | inr stays ↦ rw stays (rw differ rest)
          ]
    ]

-- Deleting expired locks
pub live_rows-lock_on :
    (now : ℕ) (key : Text) (rows : List LockRow) {r : LockRow}
    → lock_on key rows ≡ some r
    → now < r.expires_at_ms
    → lock_on key (live_rows lock_expiry now rows) ≡ some r
unfolding live_rows find
live_rows-lock_on now key [] h live = absurd (cc h)
live_rows-lock_on now key (x ∷ rows) {r} h live = elim (Bool-cases (text_eq x.pipe_key key)) [
  | inl same ↦
      let here : x ≡ r = cc (rw same at h) in
      let kept : leb x.expires_at_ms now ≡ false = rw here (ground arith) in
      rw kept (rw same (ap some here))
  | inr differ ↦
      let rest = live_rows-lock_on now key rows {r = r} (rw differ at h) live in
      elim (Bool-cases (leb x.expires_at_ms now)) [
        | inl gone ↦ rw gone rest
        | inr stays ↦ rw stays (rw differ rest)
      ]
]

-- A released lock is gone, whoever took it.
pub delete_lock-lock_on :
    (key token : Text) (rows : List LockRow) {r : LockRow}
    → lock_on key (delete_lock key token rows) ≡ some r
    → text_eq r.lock_token token ≡ false
unfolding delete_lock find
delete_lock-lock_on key token [] h = absurd (cc h)
delete_lock-lock_on key token (x ∷ rows) {r} h =
    elim (Bool-cases (text_eq x.pipe_key key && text_eq x.lock_token token)) [
      | inl gone ↦ delete_lock-lock_on key token rows {r = r} (rw gone at h)
      | inr stays ↦ elim (Bool-cases (text_eq x.pipe_key key)) [
        | inl same ↦
            let here : x ≡ r = cc (rw (stays, same) at h) in
            let other : text_eq x.lock_token token ≡ false = ground arith in rw (← here) other
        | inr differ ↦ delete_lock-lock_on key token rows {r = r} (rw (stays, differ) at h)
      ]
    ]
