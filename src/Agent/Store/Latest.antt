-- ===== src/Agent/Store/Latest.antt =====
-- The latest signature state of a pipe and a principal (packages/stackflow-agent/src/db.js): what the
-- query finds, and what it finds after a state was written.
use mathlib.Core.Option
use stackflow.Common.{
  ◌≡◌, refl, sym, ◌∙◌, ap, true, false, Option, none, some, List, Bool-cases, Option-cases, inl,
  inr,
}
use stackflow.Js.Text.{Text, text_eq, text_eq_iff}
use stackflow.Js.Outcome.{ok}
use stackflow.Js.Value.{Value, str}
use stackflow.Agent.Utils.{SignatureState}
use stackflow.Agent.Utils.Leaves.{IsName, IsNumeral, assert_non_empty-str}
use stackflow.Agent.Utils.NormalState.{IsNormalState}
use stackflow.Table.{find}
use stackflow.Table.Laws.{find-upsert_self, find-upsert_ne, find-All}
use stackflow.Agent.Store.Rows.{StateRow, Store, merge_state, select_latest, state_id_of}
use stackflow.Agent.Store.Keys.{NoBar, state_id, state_id_inj, select_latest-eq-find}
use stackflow.Agent.Store.Invariant.{
  HasNumerals, AreValid, row_of, rows_after, merge_state-KeepsKey, rows_after-AreValid,
}
use stackflow.Agent.Store.Methods.{get_latest_signature_state}

-- The latest state of a pipe and a principal, as the query finds it.
abbrev pub latest : Text → Text → Store → Option SignatureState
latest pipe_id for_principal s = select_latest pipe_id for_principal s.signature_states

-- Reading with names that need no trimming.
pub get_latest_signature_state-str :
    (p f : Text) (s : Store)
    → s.is_open ≡ true
    → IsName p
    → IsName f
    → get_latest_signature_state (str p) (str f) s ≡ ok (latest p f s)
unfolding get_latest_signature_state
get_latest_signature_state-str p f s opened np nf =
    rw (opened, assert_non_empty-str p "pipeId" np, assert_non_empty-str f "forPrincipal" nf)

-- The latest state is one of the rows, so its amounts are numerals.
pub latest-HasNumerals :
    (p f : Text) (rows : List StateRow) {old : SignatureState}
    → NoBar f
    → AreValid rows
    → select_latest p f rows ≡ some old
    → IsNumeral old.nonce × IsNumeral old.my_balance × IsNumeral old.their_balance
latest-HasNumerals p f rows {old} nf v e =
    elim (Option-cases (find state_id (state_id_of p f) rows)) [
      | inl missing ↦
          let found = sym e ∙ select_latest-eq-find p f rows nf v.keyed v.distinct in
          cc (found, missing)
      | inr (r, here) ↦
          let found = sym e ∙ select_latest-eq-find p f rows nf v.keyed v.distinct in
          let n = find-All state_id HasNumerals (state_id_of p f) rows v.numerals here in
          let same : r.state ≡ old = cc (found, here) in
          rw (← same) (n.nonce, n.my_balance, n.their_balance)
    ]

-- The state that a write leaves where `old` was the latest.
abbrev pub state_after : Option SignatureState → SignatureState → Value → SignatureState
state_after none st pipe_key = record st { pipe_key = pipe_key }
state_after (some old) st pipe_key = record st {
  contract_id = old.contract_id;
  pipe_id = old.pipe_id;
  pipe_key = old.pipe_key;
  for_principal = old.for_principal;
  with_principal = old.with_principal;
  token = old.token;
}

module _ (st : SignatureState) (k : Value) (rows : List StateRow) (n : IsNormalState st)
    (nf : NoBar st.for_principal) (v : AreValid rows) where
  pub select_latest-rows_after :
      select_latest st.pipe_id st.for_principal (rows_after st k rows)
      ≡ some (state_after (select_latest st.pipe_id st.for_principal rows) st k)
  select_latest-rows_after =
      let w = rows_after-AreValid st k rows n nf v in
      let before = select_latest-eq-find st.pipe_id st.for_principal rows nf v.keyed v.distinct in
      let after =
        select_latest-eq-find st.pipe_id st.for_principal (rows_after st k rows) nf w.keyed
          w.distinct in
      let wrote = find-upsert_self state_id merge_state (row_of st k) rows merge_state-KeepsKey in
      rw (after, wrote, before)
        (elim (Option-cases (find state_id (state_id_of st.pipe_id st.for_principal) rows)) [
          | inl missing ↦ rw missing
          | inr (r, here) ↦ rw here (unfold merge_state in refl)
        ])

  pub select_latest-rows_after_ne :
      (q g : Text)
      → NoBar g
      → ((st.pipe_id ≡ q) × (st.for_principal ≡ g) → ⊥)
      → select_latest q g (rows_after st k rows) ≡ select_latest q g rows
  select_latest-rows_after_ne q g ng other =
      let w = rows_after-AreValid st k rows n nf v in
      let before = select_latest-eq-find q g rows ng v.keyed v.distinct in
      let after = select_latest-eq-find q g (rows_after st k rows) ng w.keyed w.distinct in
      let differ : text_eq (state_id_of st.pipe_id st.for_principal) (state_id_of q g) ≡ false =
        elim (Bool-cases (text_eq (state_id_of st.pipe_id st.for_principal) (state_id_of q g))) [
          | inr no_match ↦ no_match
          | inl same ↦ absurd (
              other (state_id_inj st.pipe_id q st.for_principal g nf ng ((text_eq_iff _ _).0 same)))
        ] in
      after
      ∙ ap (Option.map (λ (r : StateRow). r.state)) (
          find-upsert_ne state_id merge_state (row_of st k) (state_id_of q g) rows
            merge_state-KeepsKey differ)
      ∙ sym before
