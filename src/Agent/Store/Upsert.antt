-- ===== src/Agent/Store/Upsert.antt =====
-- `upsertSignatureState` of packages/stackflow-agent/src/db.js on a valid, open database.
use stackflow.Common.{
  ℕ, ◌≤◌, ◌<◌, ◌≡◌, refl, ◌∙◌, true, false, Option, none, some, arith, ltb, if◌then◌else◌,
}
use stackflow.Js.Text.{Text, big_int}
use stackflow.Js.Outcome.{ok}
use stackflow.Js.Value.{Value, str}
use stackflow.Js.Json.{json_copy}
use stackflow.Agent.Utils.{SignatureState, normalize_signature_state}
use stackflow.Agent.Utils.Leaves.{IsNumeral, parse_unsigned_bigint-str}
use stackflow.Agent.Utils.NormalState.{IsNormalState, normalize_signature_state-IsNormalState}
use stackflow.Agent.Utils.PipeId.{build_pipe_id-IsName}
use stackflow.Agent.Store.Rows.{Store}
use stackflow.Agent.Store.Keys.{NoBar}
use stackflow.Agent.Store.Invariant.{
  IsValid, rows_after, rows_after-AreValid, rows_after-index_is_unique,
}
use stackflow.Agent.Store.Methods.{
  get_latest_signature_state, nonce_too_low, is_stale, write_state, stored_or_replaced, refusal,
  upsert_signature_state,
}
use stackflow.Agent.Store.Latest.{
  latest, get_latest_signature_state-str, latest-HasNumerals, state_after, select_latest-rows_after,
  select_latest-rows_after_ne,
}

-- The nonce as a number, 0 where there is no state.
abbrev pub nonce_of : Option SignatureState → ℕ
nonce_of none = 0
nonce_of (some st) = big_int st.nonce

abbrev pub with_rows : Store → SignatureState → Value → Store
with_rows s st k = record s { signature_states = rows_after st k s.signature_states }

is_stale-eq-ltb :
    (o : Option SignatureState) (st : SignatureState)
    → ((old : SignatureState) → o ≡ some old → IsNumeral old.nonce)
    → IsNumeral st.nonce
    → is_stale o st ≡ ok (ltb (big_int st.nonce) (nonce_of o))
unfolding is_stale
is_stale-eq-ltb none st h n = ground arith
is_stale-eq-ltb (some old) st h n = rw (
  parse_unsigned_bigint-str old.nonce "existing nonce" (h old refl),
  parse_unsigned_bigint-str st.nonce "incoming nonce" n,
)

-- The facts that a call of `upsertSignatureState` on an open database starts from.
module _ (now : Text) (input : Value) (s : Store) (st : SignatureState) (k : Value)
    (valid : IsValid s) (opened : s.is_open ≡ true)
    (normal : normalize_signature_state now input ≡ ok st) (copied : json_copy st.pipe_key ≡ ok k)
    (nf : NoBar st.for_principal) where
  is_normal : IsNormalState st
  is_normal = normalize_signature_state-IsNormalState now input normal

  reads_latest :
      get_latest_signature_state (str st.pipe_id) (str st.for_principal) s
      ≡ ok (latest st.pipe_id st.for_principal s)
  reads_latest =
      get_latest_signature_state-str st.pipe_id st.for_principal s opened
        (build_pipe_id-IsName (str st.contract_id) st.pipe_key is_normal.pipe_id)
        is_normal.for_principal

  compares :
      is_stale (latest st.pipe_id st.for_principal s) st
      ≡ ok (ltb (big_int st.nonce) (nonce_of (latest st.pipe_id st.for_principal s)))
  compares =
      is_stale-eq-ltb (latest st.pipe_id st.for_principal s) st
        (λ old e.
          (latest-HasNumerals st.pipe_id st.for_principal s.signature_states nf valid.states e).0)
        is_normal.nonce

  writes : write_state st s ≡ ok (with_rows s st k)
  unfolding write_state
  writes = rw (copied, rows_after-index_is_unique st k s.signature_states is_normal nf valid.states)

  -- The two ways of the call, by the nonce
  pub upsert_signature_state-eq :
      let before = latest st.pipe_id st.for_principal s in
      upsert_signature_state now input s ≡ (
        if ltb (big_int st.nonce) (nonce_of before)
        then ok (refusal before st, s)
        else ok (stored_or_replaced before st, with_rows s st k))
  unfolding upsert_signature_state
  upsert_signature_state-eq = simp (opened, normal, reads_latest, compares, writes)

  -- On a valid, open database, for an input that is normalised to a state for a principal without
  -- a bar and whose pipe key can be copied: a state whose nonce is below the one of the latest
  -- state of its pipe and principal is refused with that latest state, and the database stays as it
  -- is.
  pub upsert_refuses_lower :
      (old : SignatureState)
      → latest st.pipe_id st.for_principal s ≡ some old
      → big_int st.nonce < big_int old.nonce
      → upsert_signature_state now input s ≡ ok (nonce_too_low old, s)
  unfolding refusal
  upsert_refuses_lower old e lower =
      let less : ltb (big_int st.nonce) (big_int old.nonce) ≡ true = ground arith in
      upsert_signature_state-eq ∙ simp e (rw less)

  -- On a valid, open database, for an input that is normalised to a state for a principal without
  -- a bar and whose pipe key can be copied, a state whose nonce is at least the latest one is
  -- written, and the database is valid again. For its pipe and principal the query then finds the
  -- state itself, with the copied pipe key, where there was none, and where there was one a state
  -- with the new balances, nonce, action, actor, signatures, secret, validAfter, beneficialOnly and
  -- updatedAt, but the old contract id, pipe key, withPrincipal and token. For any other pipe or principal without a
  -- bar it finds what it found before.
  pub upsert-latest :
      nonce_of (latest st.pipe_id st.for_principal s) ≤ big_int st.nonce
      → (upsert_signature_state now input s
          ≡ ok (stored_or_replaced (latest st.pipe_id st.for_principal s) st, with_rows s st k))
        × IsValid (with_rows s st k)
        × (latest st.pipe_id st.for_principal (with_rows s st k)
            ≡ some (state_after (latest st.pipe_id st.for_principal s) st k))
        × ((q g : Text)
            → NoBar g
            → ((st.pipe_id ≡ q) × (st.for_principal ≡ g) → ⊥)
            → latest q g (with_rows s st k) ≡ latest q g s)
  upsert-latest enough =
      let no_less : ltb (big_int st.nonce) (nonce_of (latest st.pipe_id st.for_principal s))
          ≡ false =
        ground arith in
      (
        upsert_signature_state-eq ∙ simp no_less,
        record {
          states = rows_after-AreValid st k s.signature_states is_normal nf valid.states;
          closures_distinct = valid.closures_distinct;
          cursor = valid.cursor;
        },
        select_latest-rows_after st k s.signature_states is_normal nf valid.states,
        select_latest-rows_after_ne st k s.signature_states is_normal nf valid.states,
      )
