-- ===== src/Agent/Store/Steps.antt =====
-- The methods of `AgentStateStore` (packages/stackflow-agent/src/db.js) as steps of the database.
use mathlib.Core.Path.{subst}
use stackflow.Table.{upsert}
use stackflow.Common.{
  ◌≤◌, ◌≡◌, refl, sym, ◌∙◌, ap, true, Option, none, some, arith, ltb, Bool-cases, inl, inr,
}
use mathlib.Core.Bool.{false≢true}
use native.Mathlib.Nat.{le_of_eq}
use stackflow.Js.Text.{Text, text_eq, text_eq_iff, big_int}
use stackflow.Js.Outcome.{Outcome, ok, after_ok}
use stackflow.Js.Value.{Value, str}
use stackflow.Js.Json.{copy, bindable, json_copy}
use stackflow.Agent.Utils.{
  assert_non_empty, Closure, normalize_closure_event, SignatureState, normalize_signature_state,
}
use stackflow.Agent.Utils.Leaves.{IsNumeral}
use stackflow.Table.Laws.{Distinct-upsert, Distinct-update}
use stackflow.Agent.Store.Rows.{ClosureRow, Store, merge_closure, set_disputed, txid_of}
use stackflow.Agent.Store.Keys.{NoBar}
use stackflow.Agent.Store.Invariant.{IsValid}
use stackflow.Agent.Store.Methods.{
  assert_open, TrackInput, upsert_tracked_pipe, get_latest_signature_state, UpsertResult, is_stale,
  write_state, upsert_signature_state, record_closure, mark_closure_disputed, set_watcher_cursor,
  close,
}
use stackflow.Agent.Store.Latest.{latest, state_after}
use stackflow.Agent.Store.Upsert.{nonce_of, with_rows, upsert-latest, upsert_signature_state-eq}
use stackflow.Agent.Store.Growth.{
  Grows, Grows-refl, merge_closure-KeepsKey, set_disputed_key, disputed-upsert, disputed-update,
  tracked-upsert,
}

-- What a method must keep.
pub record Keeps (s s' : Store) : Type 0 where
  pub valid : IsValid s'
  pub grows : Grows s s'

pub Keeps-refl : (s : Store) → IsValid s → Keeps s s
Keeps-refl s v = record { valid = v; grows = Grows-refl s }

pub second_of_ok {ℓ κ} :
    {A : Type ℓ} {B : Type κ} {a b : A} {x y : B}
    → ◌≡◌ {A = Outcome (A × B)} (ok (a, x)) (ok (b, y))
    → x ≡ y
second_of_ok h = cc

pub value_of_ok {ℓ} : {A : Type ℓ} {a b : A} → ok a ≡ ok b → a ≡ b
value_of_ok h = cc

closures_written :
    (s : Store) (row : ClosureRow)
    → IsValid s
    → Keeps s (record s { closures = upsert txid_of merge_closure row s.closures })
closures_written s row v = record {
  valid = record {
    states = v.states;
    closures_distinct =
        Distinct-upsert txid_of merge_closure row s.closures merge_closure-KeepsKey
          v.closures_distinct;
    cursor = v.cursor;
  };
  grows = record {
    nonces = λ q g ng. omega arith;
    disputed = λ t d. disputed-upsert row s.closures t d;
    tracked = λ t d. d;
  };
}

pub record_closure-Keeps :
    (now : Text) (event : Value) (s : Store) {c : Closure} {s' : Store}
    → IsValid s
    → record_closure now event s ≡ ok (c, s')
    → Keeps s s'
unfolding record_closure
record_closure-Keeps now event s {c} {s'} v h = after_ok (assert_open s) _ h λ _ _ h1.
    after_ok (normalize_closure_event event) _ h1 λ closure _ h2.
      after_ok (json_copy closure.pipe_key) _ h2
        λ k _ h3. subst (Keeps s) (second_of_ok h3) (closures_written s _ v)

pub mark_closure_disputed-Keeps :
    (txid dispute_txid : Value) (s : Store) {s' : Store}
    → IsValid s
    → mark_closure_disputed txid dispute_txid s ≡ ok s'
    → Keeps s s'
unfolding mark_closure_disputed
mark_closure_disputed-Keeps txid dispute_txid s {s'} v h = after_ok (assert_open s) _ h λ _ _ h1.
    after_ok (assert_non_empty dispute_txid "disputeTxid") _ h1 λ d _ h2.
      after_ok (assert_non_empty txid "txid") _ h2 λ id _ h3.
        subst (Keeps s) (value_of_ok h3) (record {
          valid = record {
            states = v.states;
            closures_distinct =
                Distinct-update txid_of id (set_disputed d) s.closures (set_disputed_key d)
                  v.closures_distinct;
            cursor = v.cursor;
          };
          grows = record {
            nonces = λ q g ng. omega arith;
            disputed = λ t h. disputed-update d id s.closures t h;
            tracked = λ t h. h;
          };
        })

pub upsert_tracked_pipe-Keeps :
    (now : Text) (input : TrackInput) (s : Store) {s' : Store}
    → IsValid s
    → upsert_tracked_pipe now input s ≡ ok s'
    → Keeps s s'
unfolding upsert_tracked_pipe
upsert_tracked_pipe-Keeps now input s {s'} v h = after_ok (assert_open s) _ h λ _ _ h1.
    after_ok (assert_non_empty input.pipe_id "pipeId") _ h1 λ _ _ h2.
      after_ok (assert_non_empty input.contract_id "contractId") _ h2 λ _ _ h3.
        after_ok (copy input.pipe_key) _ h3 λ k _ h4.
          after_ok (assert_non_empty input.local_principal "localPrincipal") _ h4 λ _ _ h5.
            after_ok (assert_non_empty input.counterparty_principal "counterpartyPrincipal") _ h5
              λ _ _ h6. after_ok (bindable k) _ h6 λ _ _ h7.
                subst (Keeps s) (value_of_ok h7) (record {
                  valid = record {
                    states = v.states;
                    closures_distinct = v.closures_distinct;
                    cursor = v.cursor;
                  };
                  grows = record {
                    nonces = λ q g ng. omega arith;
                    disputed = λ t d. d;
                    tracked = λ t d. tracked-upsert _ s.tracked_pipes t d;
                  };
                })

pub set_watcher_cursor-Keeps :
    (now block_height : Text) (s : Store) {s' : Store}
    → IsValid s
    → IsNumeral block_height
    → set_watcher_cursor now block_height s ≡ ok s'
    → Keeps s s'
unfolding set_watcher_cursor
set_watcher_cursor-Keeps now block_height s {s'} v n h = after_ok (assert_open s) _ h λ _ _ h1.
    subst (Keeps s) (value_of_ok h1) (record {
      valid = record { states = v.states; closures_distinct = v.closures_distinct; cursor = n };
      grows = record { nonces = λ q g ng. omega arith; disputed = λ t d. d; tracked = λ t d. d };
    })

pub close-Keeps : (s : Store) → IsValid s → Keeps s (close s)
unfolding close
close-Keeps s v = record {
  valid = record { states = v.states; closures_distinct = v.closures_distinct; cursor = v.cursor };
  grows = record { nonces = λ q g ng. omega arith; disputed = λ t d. d; tracked = λ t d. d };
}

nonce_of-state_after :
    (o : Option SignatureState) (st : SignatureState) (k : Value)
    → nonce_of (some (state_after o st k)) ≡ big_int st.nonce
nonce_of-state_after none st k = refl
nonce_of-state_after (some old) st k = refl

module _ (now : Text) (input : Value) (s : Store) (st : SignatureState) (k : Value) (v : IsValid s)
    (opened : s.is_open ≡ true) (normal : normalize_signature_state now input ≡ ok st)
    (copied : json_copy st.pipe_key ≡ ok k) (nf : NoBar st.for_principal) where
  nonces_written :
      nonce_of (latest st.pipe_id st.for_principal s) ≤ big_int st.nonce
      → (q g : Text) → NoBar g
      → nonce_of (latest q g s) ≤ nonce_of (latest q g (with_rows s st k))
  nonces_written enough q g ng =
      let (_, _, here, others) = upsert-latest now input s st k v opened normal copied nf enough in
      let elsewhere = λ (ne : (st.pipe_id ≡ q) × (st.for_principal ≡ g) → ⊥).
        le_of_eq (ap nonce_of (sym (others q g ng ne))) in
      elim (Bool-cases (text_eq st.pipe_id q)) [
        | inr differ ↦ elsewhere (λ e. false≢true (sym differ ∙ (text_eq_iff _ _).1 e.0))
        | inl same_q ↦ elim (Bool-cases (text_eq st.for_principal g)) [
          | inr differ ↦ elsewhere (λ e. false≢true (sym differ ∙ (text_eq_iff _ _).1 e.1))
          | inl same_g ↦
              let eq = (text_eq_iff _ _).0 same_q in
              let eg = (text_eq_iff _ _).0 same_g in
              let after =
                ap nonce_of here
                ∙ nonce_of-state_after (latest st.pipe_id st.for_principal s) st k in
              rw (← eq, ← eg) (omega (arith, after))
        ]
      ]

  upsert_copied-Keeps :
      {r : UpsertResult} {s' : Store} → upsert_signature_state now input s ≡ ok (r, s') → Keeps s s'
  upsert_copied-Keeps {r} {s'} h =
      let whole = sym (upsert_signature_state-eq now input s st k v opened normal copied nf) ∙ h in
      elim (Bool-cases (ltb (big_int st.nonce) (nonce_of (latest st.pipe_id st.for_principal s)))) [
        | inl lower ↦ subst (Keeps s) (second_of_ok (rw lower at whole)) (Keeps-refl s v)
        | inr enough ↦
            let bound : nonce_of (latest st.pipe_id st.for_principal s) ≤ big_int st.nonce =
              ground arith in
            let (_, valid, _, _) = upsert-latest now input s st k v opened normal copied nf bound in
            subst (Keeps s) (second_of_ok (rw enough at whole)) (record {
              valid = valid;
              grows = record {
                nonces = nonces_written bound;
                disputed = λ t d. d;
                tracked = λ t d. d;
              };
            })
      ]

assert_open-eq-ok : (s : Store) {u : Unit {0}} → assert_open s ≡ ok u → s.is_open ≡ true
unfolding assert_open
assert_open-eq-ok s h = ground arith

write_state-copies :
    (st : SignatureState) (s : Store) {s' : Store}
    → write_state st s ≡ ok s'
    → (k : Value) × (json_copy st.pipe_key ≡ ok k)
unfolding write_state
write_state-copies st s h = after_ok (json_copy st.pipe_key) _ h λ k copied _. (k, copied)

pub upsert_signature_state-Keeps :
    (now : Text) (input : Value) (s : Store) {r : UpsertResult} {s' : Store}
    → IsValid s
    → ((st : SignatureState) → normalize_signature_state now input ≡ ok st → NoBar st.for_principal)
    → upsert_signature_state now input s ≡ ok (r, s')
    → Keeps s s'
unfolding upsert_signature_state
upsert_signature_state-Keeps now input s {r} {s'} v bars h =
    after_ok (assert_open s) _ h λ _ opened h1.
      after_ok (normalize_signature_state now input) _ h1 λ st normal h2.
        after_ok (get_latest_signature_state (str st.pipe_id) (str st.for_principal) s) _ h2
          λ existing _ h3. after_ok (is_stale existing st) _ h3 λ stale _ h4.
            elim (Bool-cases stale) [
              | inl lower ↦ subst (Keeps s) (second_of_ok (rw lower at h4)) (Keeps-refl s v)
              | inr enough ↦ after_ok (write_state st s) _ (rw enough at h4) λ _ wrote _.
                  let (k, copied) = write_state-copies st s wrote in
                  upsert_copied-Keeps now input s st k v (assert_open-eq-ok s opened) normal copied
                    (bars st normal) h
            ]
