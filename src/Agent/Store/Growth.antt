-- ===== src/Agent/Store/Growth.antt =====
-- What `Grows` says of two states of the database (packages/stackflow-agent/src/db.js): on nonces,
-- on the marks of disputed closures and on tracked pipes.
use mathlib.Core.Option
use stackflow.Common.{
  ◌≤◌, ◌≡◌, refl, Bool, true, false, Option, none, some, List, arith, is_some, Bool-cases, inl, inr,
}
use stackflow.Js.Text.{Text, text_eq, text_eq_iff}
use stackflow.Table.{find, upsert, update}
use stackflow.Table.Laws.{
  KeepsKey, merged, find-upsert_self, find-upsert_ne, find-update_self, find-update_ne,
}
use stackflow.Agent.Store.Rows.{
  TrackedPipe, ClosureRow, Store, merge_tracked, merge_closure, set_disputed, txid_of,
}
use stackflow.Agent.Store.Keys.{NoBar}
use stackflow.Agent.Store.Latest.{latest}
use stackflow.Agent.Store.Upsert.{nonce_of}

abbrev pub flag_of : Option ClosureRow → Bool
flag_of none = false
flag_of (some r) = r.disputed

-- The closure's row says that it was disputed.
abbrev pub is_disputed : Text → Store → Bool
is_disputed txid s = flag_of (find txid_of txid s.closures)

abbrev pub pipe_id_of : TrackedPipe → Text
pipe_id_of p = p.pipe_id

abbrev pub is_tracked : Text → Store → Bool
is_tracked id s = is_some (find pipe_id_of id s.tracked_pipes)

pub record Grows (s s' : Store) : Type 0 where
  pub nonces : (q g : Text) → NoBar g → nonce_of (latest q g s) ≤ nonce_of (latest q g s')
  pub disputed : (txid : Text) → is_disputed txid s ≡ true → is_disputed txid s' ≡ true
  pub tracked : (id : Text) → is_tracked id s ≡ true → is_tracked id s' ≡ true

pub Grows-refl : (s : Store) → Grows s s
Grows-refl s = record { nonces = λ q g ng. omega arith; disputed = λ t h. h; tracked = λ t h. h }

pub Grows-trans : {a b c : Store} → Grows a b → Grows b c → Grows a c
Grows-trans g h = record {
  nonces = λ q f nf. omega (arith, g.nonces q f nf, h.nonces q f nf);
  disputed = λ t d. h.disputed t (g.disputed t d);
  tracked = λ t d. h.tracked t (g.tracked t d);
}

pub merge_closure-KeepsKey : KeepsKey txid_of merge_closure
unfolding merge_closure
merge_closure-KeepsKey r new = refl

pub merge_tracked-KeepsKey : KeepsKey pipe_id_of merge_tracked
unfolding merge_tracked
merge_tracked-KeepsKey r new = refl

flag_of-merged :
    (new : ClosureRow) (o : Option ClosureRow)
    → flag_of o ≡ true
    → (merged txid_of merge_closure new o).disputed ≡ true
unfolding merge_closure
flag_of-merged new none h = cc
flag_of-merged new (some old) h = rw h

-- A closure that is written again keeps its mark.
pub disputed-upsert :
    (new : ClosureRow) (rows : List ClosureRow) (txid : Text)
    → flag_of (find txid_of txid rows) ≡ true
    → flag_of (find txid_of txid (upsert txid_of merge_closure new rows)) ≡ true
disputed-upsert new rows txid h = elim (Bool-cases (text_eq (txid_of new) txid)) [
  | inl same ↦
      let e = (text_eq_iff (txid_of new) txid).0 same in
      let found = find-upsert_self txid_of merge_closure new rows merge_closure-KeepsKey in
      let kept = flag_of-merged new (find txid_of (txid_of new) rows) (rw e h) in
      rw (← e, found) kept
  | inr differ ↦
      rw (find-upsert_ne txid_of merge_closure new txid rows merge_closure-KeepsKey differ) h
]

pub tracked-upsert :
    (new : TrackedPipe) (rows : List TrackedPipe) (id : Text)
    → is_some (find pipe_id_of id rows) ≡ true
    → is_some (find pipe_id_of id (upsert pipe_id_of merge_tracked new rows)) ≡ true
tracked-upsert new rows id h = elim (Bool-cases (text_eq (pipe_id_of new) id)) [
  | inl same ↦
      let e = (text_eq_iff (pipe_id_of new) id).0 same in
      rw (← e, find-upsert_self pipe_id_of merge_tracked new rows merge_tracked-KeepsKey)
  | inr differ ↦
      rw (find-upsert_ne pipe_id_of merge_tracked new id rows merge_tracked-KeepsKey differ) h
]

pub set_disputed_key : (d : Text) (r : ClosureRow) → txid_of (set_disputed d r) ≡ txid_of r
unfolding set_disputed
set_disputed_key d r = refl

flag_of-set_disputed :
    (d : Text) (o : Option ClosureRow)
    → flag_of o ≡ true
    → flag_of (Option.map (set_disputed d) o) ≡ true
unfolding set_disputed
flag_of-set_disputed d none h = h
flag_of-set_disputed d (some r) h = refl

pub disputed-update :
    (d txid : Text) (rows : List ClosureRow) (j : Text)
    → flag_of (find txid_of j rows) ≡ true
    → flag_of (find txid_of j (update txid_of txid (set_disputed d) rows)) ≡ true
disputed-update d txid rows j h = elim (Bool-cases (text_eq txid j)) [
  | inl same ↦
      let e = (text_eq_iff txid j).0 same in
      let found = find-update_self txid_of txid (set_disputed d) rows (set_disputed_key d) in
      let kept = flag_of-set_disputed d (find txid_of txid rows) (rw e h) in rw (← e, found) kept
  | inr differ ↦
      rw (find-update_ne txid_of txid j (set_disputed d) rows (set_disputed_key d) differ) h
]
