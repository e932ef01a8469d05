-- ===== src/Agent/Store/Invariant.antt =====
-- The invariant of the database of packages/stackflow-agent/src/db.js, and the statement that
-- writes a signature state.
use mathlib.Core.Bool.{and-eq-true_iff, false≢true}
use stackflow.Common.{◌≡◌, refl, sym, ◌∙◌, true, false, List, [], ◌∷◌, All, Bool-cases, inl, inr}
use stackflow.Js.Text.{Text, text_eq, text_eq_iff, codes, decimal}
use stackflow.Agent.Utils.Leaves.{IsNumeral, IsNumeral-decimal}
use stackflow.Agent.Utils.NormalState.{IsNormalState}
use stackflow.Agent.Utils.{SignatureState}
use stackflow.Js.Value.{Value}
use stackflow.Table.{Fresh, Distinct, upsert}
use stackflow.Table.Laws.{KeepsKey, Distinct-upsert, All-upsert}
use stackflow.Agent.Store.Rows.{
  StateRow, Store, same_index, no_other, index_is_unique, state_id_of, merge_state, txid_of, create,
}
use stackflow.Agent.Store.Keys.{IsKeyed, NoBar, state_id}

-- The amounts of a row are printed natural numbers.
pub record HasNumerals (r : StateRow) : Type 0 where
  pub nonce : IsNumeral r.state.nonce
  pub my_balance : IsNumeral r.state.my_balance
  pub their_balance : IsNumeral r.state.their_balance

pub record AreValid (rows : List StateRow) : Type 0 where
  pub keyed : All IsKeyed rows
  pub distinct : Distinct state_id rows
  pub numerals : All HasNumerals rows

pub record IsValid (s : Store) : Type 0 where
  pub states : AreValid s.signature_states
  pub closures_distinct : Distinct txid_of s.closures
  pub cursor : IsNumeral s.last_block_height

pub IsValid-create : (now : Text) → IsValid (create now)
unfolding create codes decimal
IsValid-create now = record {
  states = record { keyed = tt; distinct = tt; numerals = tt };
  closures_distinct = tt;
  cursor = IsNumeral-decimal 0;
}

not_same_index :
    (a b : StateRow)
    → IsKeyed a
    → IsKeyed b
    → text_eq b.state_id a.state_id ≡ false
    → same_index a b ≡ false
unfolding same_index
not_same_index a b ka kb differ = elim (Bool-cases (same_index a b)) [
  | inr no_match ↦ no_match
  | inl agrees ↦
      let (front, _) = (and-eq-true_iff _ (text_eq b.state.nonce a.state.nonce)).0 agrees in
      let (sp, sf) = (and-eq-true_iff (text_eq b.state.pipe_id a.state.pipe_id) _).0 front in
      let ep = (text_eq_iff _ _).0 sp in
      let ef = (text_eq_iff _ _).0 sf in
      let e : b.state_id ≡ a.state_id = cc (ep, ef, ka.key, kb.key) in
      absurd (false≢true (sym differ ∙ (text_eq_iff _ _).1 e))
]

no_other_of_Fresh :
    (a : StateRow) (rs : List StateRow)
    → IsKeyed a
    → All IsKeyed rs
    → Fresh state_id a.state_id rs
    → no_other a rs ≡ true
unfolding no_other
no_other_of_Fresh a [] ka ks h = refl
no_other_of_Fresh a (b ∷ rs) ka (kb, ks) (here, rest) =
    cc (not_same_index a b ka kb here, no_other_of_Fresh a rs ka ks rest)

-- Rows under distinct keys of their own satisfy the unique index.
pub index_is_unique_of_keys :
    (rs : List StateRow) → All IsKeyed rs → Distinct state_id rs → index_is_unique rs ≡ true
unfolding index_is_unique
index_is_unique_of_keys [] ks ds = refl
index_is_unique_of_keys (r ∷ rs) (k, ks) (fresh, ds) =
    cc (no_other_of_Fresh r rs k ks fresh, index_is_unique_of_keys rs ks ds)

-- The row that `upsertSignatureState` writes.
abbrev pub row_of : SignatureState → Value → StateRow
row_of state pipe_key = record {
  state_id = state_id_of state.pipe_id state.for_principal;
  state = record state { pipe_key = pipe_key };
}

abbrev pub rows_after : SignatureState → Value → List StateRow → List StateRow
rows_after state pipe_key rows = upsert state_id merge_state (row_of state pipe_key) rows

pub merge_state-KeepsKey : KeepsKey state_id merge_state
unfolding merge_state
merge_state-KeepsKey r new = refl

module _ (state : SignatureState) (pipe_key : Value) (rows : List StateRow) where
  pub rows_after-AreValid :
      IsNormalState state
      → NoBar state.for_principal
      → AreValid rows
      → AreValid (rows_after state pipe_key rows)
  unfolding merge_state
  rows_after-AreValid n nf h = record {
    keyed =
        All-upsert state_id IsKeyed merge_state (row_of state pipe_key) rows
          (λ r k _. record { key = k.key; no_bar = k.no_bar }) (record { key = refl; no_bar = nf })
          h.keyed;
    distinct =
        Distinct-upsert state_id merge_state (row_of state pipe_key) rows merge_state-KeepsKey
          h.distinct;
    numerals =
        All-upsert state_id HasNumerals merge_state (row_of state pipe_key) rows
          (λ r k _. record {
            nonce = n.nonce;
            my_balance = n.my_balance;
            their_balance = n.their_balance;
          })
          (record { nonce = n.nonce; my_balance = n.my_balance; their_balance = n.their_balance })
          h.numerals;
  }

  -- The statement is never refused by the unique index.
  pub rows_after-index_is_unique :
      IsNormalState state
      → NoBar state.for_principal
      → AreValid rows
      → index_is_unique (rows_after state pipe_key rows) ≡ true
  rows_after-index_is_unique n nf h =
      let v = rows_after-AreValid n nf h in index_is_unique_of_keys _ v.keyed v.distinct
