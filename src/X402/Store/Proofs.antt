-- ===== src/X402/Store/Proofs.antt =====
-- The consumed proofs and the purging of packages/x402-client/src/sqlite-state-store.js: what a later
-- call sees of them.
use stackflow.Common.{
  ℕ, ◌≤◌, ◌≡◌, refl, sym, ◌∙◌, ap, Bool, true, false, Option, none, some, List, [], ◌∷◌, leb, ltb,
  arith, is_some, if◌then◌else◌, Bool-cases, inl, inr,
}
use mathlib.Core.Option
use mathlib.Core.Path.{subst}
use stackflow.Js.Text.{Text, text_eq, text_eq_iff, lower}
use stackflow.Js.Outcome.{ok, after_ok}
use stackflow.Js.Value.{Value}
use stackflow.Agent.Utils.{assert_non_empty_string}
use stackflow.Table.{upsert, Fresh, Distinct}
use stackflow.Agent.Store.Steps.{value_of_ok, second_of_ok}
use stackflow.Table.Laws.{text_eq_sym}
use stackflow.X402.Numbers.{assert_positive_integer}
use stackflow.X402.Store.{
  ProofRow, LockRow, X402Store, Purged, merge_proof, is_live_proof, live_rows, proof_expiry,
  lock_expiry, assert_store_open, mark_consumed_proof, is_proof_consumed, purge_expired,
}
use stackflow.X402.Store.Locks.{try_lock}
use stackflow.X402.Store.Locks.Table.{key_of}

abbrev pub hash_of : ProofRow → Text
hash_of r = r.proof_hash

is_live_proof-Fresh :
    (h : Text) (at : ℕ) (rows : List ProofRow)
    → Fresh hash_of h rows
    → is_live_proof h at rows ≡ false
unfolding is_live_proof
is_live_proof-Fresh h at [] fresh = refl
is_live_proof-Fresh h at (r ∷ rows) (here, fresh) = rw here (is_live_proof-Fresh h at rows fresh)

-- After a proof was written, its own expiry counts, and for others nothing changed.
is_live_proof-upsert :
    (new : ProofRow) (h : Text) (at : ℕ) (rows : List ProofRow)
    → Distinct hash_of rows
    → is_live_proof h at (upsert hash_of merge_proof new rows)
      ≡ (if text_eq new.proof_hash h then ltb at new.expires_at_ms else is_live_proof h at rows)
unfolding is_live_proof upsert merge_proof
is_live_proof-upsert new h at [] distinct = ground arith
is_live_proof-upsert new h at (r ∷ rows) (fresh, distinct) =
    elim (Bool-cases (text_eq r.proof_hash new.proof_hash)) [
      | inl same ↦
          let e = (text_eq_iff _ _).0 same in
          elim (Bool-cases (text_eq r.proof_hash h)) [
            | inl mine ↦
                let own : text_eq new.proof_hash h ≡ true = rw (← e) mine in
                let none_left : is_live_proof h at rows ≡ false =
                  is_live_proof-Fresh h at rows
                    (subst (λ k. Fresh hash_of k rows) ((text_eq_iff _ _).0 mine) fresh) in
                rw same (rw (mine, own, none_left) (ground arith))
            | inr other ↦
                let also : text_eq new.proof_hash h ≡ false = rw (← e) other in
                rw same (rw (other, also))
          ]
      | inr differ ↦ elim (Bool-cases (text_eq r.proof_hash h)) [
        | inl mine ↦
            let not_new : text_eq new.proof_hash h ≡ false =
              text_eq_sym new.proof_hash h
              ∙ subst (λ k. text_eq k new.proof_hash ≡ false) ((text_eq_iff _ _).0 mine) differ in
            rw differ (rw (is_live_proof-upsert new h at rows distinct) (rw (mine, not_new)))
        | inr other ↦ rw differ (rw other (is_live_proof-upsert new h at rows distinct))
      ]
    ]

is_live_proof-live_rows :
    (now at : ℕ) (h : Text) (rows : List ProofRow)
    → now ≤ at
    → is_live_proof h at (live_rows proof_expiry now rows) ≡ is_live_proof h at rows
unfolding is_live_proof live_rows
is_live_proof-live_rows now at h [] later = refl
is_live_proof-live_rows now at h (r ∷ rows) later =
    let rest = is_live_proof-live_rows now at h rows later in
    elim (Bool-cases (leb r.expires_at_ms now)) [
      | inl gone ↦
          let dead : ltb at r.expires_at_ms ≡ false = ground arith in
          rw gone (rw (dead, rest) (ground arith))
      | inr stays ↦ rw stays (rw rest)
    ]

-- The statement on locks
try_lock-Fresh :
    (at : ℕ) (new : LockRow) (rows : List LockRow)
    → Fresh key_of new.pipe_key rows
    → is_some (try_lock at new rows) ≡ true
unfolding try_lock
try_lock-Fresh at new [] fresh = refl
try_lock-Fresh at new (r ∷ rows) (here, fresh) =
    rw here (mapped (try_lock at new rows) (try_lock-Fresh at new rows fresh))
  where
    mapped :
        (o : Option (List LockRow))
        → is_some o ≡ true
        → is_some (Option.map (λ more. r ∷ more) o) ≡ true
    mapped (some more) e = refl
    mapped none e = e

Fresh-live_rows :
    {Row : Type 0} (key : Row → Text) (expiry : Row → ℕ) (k : Text) (now : ℕ) (rows : List Row)
    → Fresh key k rows
    → Fresh key k (live_rows expiry now rows)
unfolding live_rows
Fresh-live_rows key expiry k now [] fresh = tt
Fresh-live_rows key expiry k now (r ∷ rows) (here, fresh) = elim (Bool-cases (leb (expiry r) now)) [
  | inl gone ↦ rw gone (Fresh-live_rows key expiry k now rows fresh)
  | inr stays ↦ rw stays (here, Fresh-live_rows key expiry k now rows fresh)
]

pub Distinct-live_rows :
    {Row : Type 0} (key : Row → Text) (expiry : Row → ℕ) (now : ℕ) (rows : List Row)
    → Distinct key rows
    → Distinct key (live_rows expiry now rows)
unfolding live_rows
Distinct-live_rows key expiry now [] d = tt
Distinct-live_rows key expiry now (r ∷ rows) (fresh, d) = elim (Bool-cases (leb (expiry r) now)) [
  | inl gone ↦ rw gone (Distinct-live_rows key expiry now rows d)
  | inr stays ↦
      rw stays (
        Fresh-live_rows key expiry (key r) now rows fresh,
        Distinct-live_rows key expiry now rows d,
      )
]

try_lock-live_rows :
    (now at : ℕ) (new : LockRow) (rows : List LockRow)
    → now ≤ at
    → Distinct key_of rows
    → is_some (try_lock at new (live_rows lock_expiry now rows)) ≡ is_some (try_lock at new rows)
unfolding try_lock live_rows
try_lock-live_rows now at new [] later d = refl
try_lock-live_rows now at new (r ∷ rows) later (fresh, d) =
    elim (Bool-cases (leb r.expires_at_ms now)) [
      | inl gone ↦ elim (Bool-cases (text_eq r.pipe_key new.pipe_key)) [
        | inl same ↦
            let dead : leb r.expires_at_ms at ≡ true = ground arith in
            let absent = subst (λ k. Fresh key_of k rows) ((text_eq_iff _ _).0 same) fresh in
            rw gone (
              rw (same, dead)
                (try_lock-Fresh at new (live_rows lock_expiry now rows)
                  (Fresh-live_rows key_of lock_expiry new.pipe_key now rows absent)))
        | inr differ ↦ rw gone (
            rw differ (
              try_lock-live_rows now at new rows later d
              ∙ sym (map-is_some (try_lock at new rows))))
      ]
      | inr stays ↦ elim (Bool-cases (text_eq r.pipe_key new.pipe_key)) [
        | inl same ↦ elim (Bool-cases (leb r.expires_at_ms at)) [
          | inl dead ↦ rw stays (rw (same, dead))
          | inr live ↦ rw stays (rw (same, live))
        ]
        | inr differ ↦ rw stays (
            rw differ (
              map-is_some (try_lock at new (live_rows lock_expiry now rows))
              ∙ try_lock-live_rows now at new rows later d
              ∙ sym (map-is_some (try_lock at new rows))))
      ]
    ]
  where
    map-is_some :
        (o : Option (List LockRow)) → is_some (Option.map (λ more. r ∷ more) o) ≡ is_some o
    map-is_some none = refl
    map-is_some (some more) = refl

is_proof_consumed-eq :
    (hash at_ms : Value) (s : X402Store) {h : Text} {at : ℕ}
    → s.is_open ≡ true
    → assert_non_empty_string hash "proofHash" ≡ ok h
    → assert_positive_integer at_ms "nowMs" ≡ ok at
    → is_proof_consumed hash at_ms s ≡ ok (is_live_proof (lower h) at s.consumed_proofs)
unfolding is_proof_consumed assert_store_open
is_proof_consumed-eq hash at_ms s opened named timed = simp (opened, named, timed)

unfoldable marked_row : ℕ → Text → ℕ → ProofRow
marked_row now h e = record { proof_hash = lower h; expires_at_ms = e; created_at_ms = now }

unfoldable after_mark : ProofRow → X402Store → X402Store
after_mark new s = record s { consumed_proofs = upsert hash_of merge_proof new s.consumed_proofs }

mark_consumed_proof-eq :
    (now : ℕ) (hash expires : Value) (s : X402Store) {h : Text} {e : ℕ}
    → s.is_open ≡ true
    → assert_non_empty_string hash "proofHash" ≡ ok h
    → assert_positive_integer expires "expiresAtMs" ≡ ok e
    → mark_consumed_proof now hash expires s ≡ ok (after_mark (marked_row now h e) s)
unfolding mark_consumed_proof assert_store_open marked_row after_mark
mark_consumed_proof-eq now hash expires s opened named until = simp (opened, named, until)

mark_consumed_proof-is_open :
    (now : ℕ) (hash expires : Value) (s s' : X402Store)
    → mark_consumed_proof now hash expires s ≡ ok s'
    → s.is_open ≡ true
unfolding mark_consumed_proof assert_store_open
mark_consumed_proof-is_open now hash expires s s' marked = elim (Bool-cases s.is_open) [
  | inr closed ↦ absurd (cc (simp closed at marked))
  | inl opened ↦ opened
]

-- A store that answers is open, so that it can be marked.
pub mark_consumed_proof-open :
    (now : ℕ) (hash other at_ms expires : Value) (s : X402Store) (b : Bool) (h : Text) (e : ℕ)
    → is_proof_consumed other at_ms s ≡ ok b
    → assert_non_empty_string hash "proofHash" ≡ ok h
    → assert_positive_integer expires "expiresAtMs" ≡ ok e
    → (s' : X402Store) × (mark_consumed_proof now hash expires s ≡ ok s')
unfolding is_proof_consumed assert_store_open
mark_consumed_proof-open now hash other at_ms expires s b h e answered named until =
    elim (Bool-cases s.is_open) [
      | inr closed ↦ absurd (cc (simp closed at answered))
      | inl opened ↦ (
        after_mark (marked_row now h e) s,
        mark_consumed_proof-eq now hash expires s {h = h} {e = e} opened named until,
      )
    ]

ok-if : (b : Bool) (x y : Bool) → ok (if b then x else y) ≡ (if b then ok x else ok y)
ok-if true x y = refl
ok-if false x y = refl

-- Where no proof has two rows, after a proof was marked it is consumed exactly until the expiry
-- that was given, and every other proof is answered as before.
pub mark_consumed_proof-is_proof_consumed :
    (now : ℕ) (hash expires other at_ms : Value) (s s' : X402Store) (h g : Text) (e at : ℕ)
    → Distinct hash_of s.consumed_proofs
    → mark_consumed_proof now hash expires s ≡ ok s'
    → assert_non_empty_string hash "proofHash" ≡ ok h
    → assert_positive_integer expires "expiresAtMs" ≡ ok e
    → assert_non_empty_string other "proofHash" ≡ ok g
    → assert_positive_integer at_ms "nowMs" ≡ ok at
    → is_proof_consumed other at_ms s'
      ≡ (if text_eq (lower h) (lower g) then ok (ltb at e) else is_proof_consumed other at_ms s)
unfolding marked_row after_mark
mark_consumed_proof-is_proof_consumed now hash expires other at_ms s s' h g e at d marked named
      until named' timed =
    let opened = mark_consumed_proof-is_open now hash expires s s' marked in
    let new = marked_row now h e in
    let wrote : after_mark new s ≡ s' = value_of_ok (
      sym (mark_consumed_proof-eq now hash expires s {h = h} {e = e} opened named until)
      ∙ marked) in
    let before = is_proof_consumed-eq other at_ms s {h = g} {at = at} opened named' timed in
    let after =
      is_proof_consumed-eq other at_ms (after_mark new s) {h = g} {at = at} opened named' timed in
    rw (← wrote) (
      rw before (
        after
        ∙ ap ok (is_live_proof-upsert new (lower g) at s.consumed_proofs d)
        ∙ ok-if (text_eq (lower h) (lower g)) _ _))

unfoldable after_purge : ℕ → X402Store → X402Store
after_purge now s = record s {
  consumed_proofs = live_rows proof_expiry now s.consumed_proofs;
  pipe_locks = live_rows lock_expiry now s.pipe_locks;
}

purge_expired-eq :
    (now_ms : Value) (s s' : X402Store) (p : Purged) (now : ℕ)
    → purge_expired now_ms s ≡ ok (p, s')
    → assert_positive_integer now_ms "nowMs" ≡ ok now
    → (s.is_open ≡ true) × (s' ≡ after_purge now s)
unfolding purge_expired assert_store_open after_purge
purge_expired-eq now_ms s s' p now purged cleaned = elim (Bool-cases s.is_open) [
  | inr closed ↦ absurd (cc (simp closed at purged))
  | inl opened ↦ (
    opened,
    after_ok (assert_store_open s) _ purged λ _ _ h1.
        after_ok (assert_positive_integer now_ms "nowMs") _ h1 λ now' e h2.
          sym (second_of_ok h2) ∙ ap (λ n. after_purge n s) (value_of_ok (sym e ∙ cleaned)),
  )
]

live_rows-live_rows :
    {Row : Type 0} (expiry : Row → ℕ) (now at : ℕ) (rows : List Row)
    → now ≤ at
    → live_rows expiry at (live_rows expiry now rows) ≡ live_rows expiry at rows
unfolding live_rows
live_rows-live_rows expiry now at [] later = refl
live_rows-live_rows expiry now at (r ∷ rows) later =
    let rest = live_rows-live_rows expiry now at rows later in
    elim (Bool-cases (leb (expiry r) now)) [
      | inl gone ↦ let dead : leb (expiry r) at ≡ true = ground arith in rw gone (rw dead rest)
      | inr stays ↦ rw stays (rw rest refl)
    ]

-- Where no key has two locks, a purge that goes through changes, at the time of the purge or later,
-- neither the answer whether a proof is consumed nor whether an attempt at a lock succeeds, nor the
-- proofs and locks that have not expired, and at no time the pipe states.
pub purge_expired-Forgets :
    (now_ms hash at_ms : Value) (s s' : X402Store) (p : Purged) (h : Text) (now at : ℕ)
    (new : LockRow)
    → Distinct key_of s.pipe_locks
    → purge_expired now_ms s ≡ ok (p, s')
    → assert_positive_integer now_ms "nowMs" ≡ ok now
    → assert_non_empty_string hash "proofHash" ≡ ok h
    → assert_positive_integer at_ms "nowMs" ≡ ok at
    → now ≤ at
    → (is_proof_consumed hash at_ms s' ≡ is_proof_consumed hash at_ms s)
      × (is_some (try_lock at new s'.pipe_locks) ≡ is_some (try_lock at new s.pipe_locks))
      × (live_rows proof_expiry at s'.consumed_proofs ≡ live_rows proof_expiry at s.consumed_proofs)
      × (live_rows lock_expiry at s'.pipe_locks ≡ live_rows lock_expiry at s.pipe_locks)
      × (s'.pipe_states ≡ s.pipe_states)
unfolding after_purge
purge_expired-Forgets now_ms hash at_ms s s' p h now at new d purged cleaned named timed later =
    let (opened, wrote) = purge_expired-eq now_ms s s' p now purged cleaned in
    let before = is_proof_consumed-eq hash at_ms s {h = h} {at = at} opened named timed in
    let after =
      is_proof_consumed-eq hash at_ms (after_purge now s) {h = h} {at = at} opened named timed in
    rw wrote (
      after ∙ ap ok (is_live_proof-live_rows now at (lower h) s.consumed_proofs later) ∙ sym before,
      try_lock-live_rows now at new s.pipe_locks later d,
      live_rows-live_rows proof_expiry now at s.consumed_proofs later,
      live_rows-live_rows lock_expiry now at s.pipe_locks later,
      refl,
    )
