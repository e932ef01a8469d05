-- ===== src/Agent/Service/Amounts.antt =====
-- The amounts of the states that agent-service.js reads by the queries of
-- packages/stackflow-agent/src/db.js.
use stackflow.Common.{◌≡◌, refl, Option, none, some, List, [], ◌∷◌, All, Bool-cases, inl, inr}
use stackflow.Js.Text.{Text}
use stackflow.Js.Outcome.{ok, after_ok}
use stackflow.Js.Value.{Value}
use stackflow.Agent.Utils.{SignatureState, assert_non_empty}
use stackflow.Agent.Utils.Leaves.{IsNumeral}
use stackflow.Agent.Store.Rows.{StateRow, Store, belongs_to, is_newer, newest, select_latest}
use stackflow.Agent.Store.Invariant.{HasNumerals, IsValid}
use stackflow.Agent.Store.Methods.{assert_open, get_latest_signature_state}
use stackflow.Agent.Store.Steps.{value_of_ok}

-- The amounts of a stored state are numerals.
pub record HasAmounts (st : SignatureState) : Type 0 where
  pub nonce : IsNumeral st.nonce
  pub my_balance : IsNumeral st.my_balance
  pub their_balance : IsNumeral st.their_balance

-- What holds of both holds of the newer one.
newest-All :
    (a : SignatureState) (o : Option SignatureState) {st : SignatureState}
    → HasAmounts a
    → ((b : SignatureState) → o ≡ some b → HasAmounts b)
    → newest a o ≡ some st
    → HasAmounts st
unfolding newest
newest-All a none {st} ha hb h = let same : a ≡ st = cc h in rw (← same) ha
newest-All a (some b) {st} ha hb h = elim (Bool-cases (is_newer b a)) [
  | inl newer ↦ let shown : b ≡ st = cc (rw newer at h) in rw (← shown) (hb b refl)
  | inr older ↦ let shown : a ≡ st = cc (rw older at h) in rw (← shown) ha
]

select_latest-HasAmounts :
    (p f : Text) (rows : List StateRow) {st : SignatureState}
    → All HasNumerals rows
    → select_latest p f rows ≡ some st
    → HasAmounts st
unfolding select_latest
select_latest-HasAmounts p f [] all h = absurd (cc h)
select_latest-HasAmounts p f (r ∷ rs) {st} (n, all) h = elim (Bool-cases (belongs_to p f r)) [
  | inl mine ↦
      newest-All r.state (select_latest p f rs)
        (record { nonce = n.nonce; my_balance = n.my_balance; their_balance = n.their_balance })
        (λ b e. select_latest-HasAmounts p f rs {st = b} all e) (rw mine at h)
  | inr other ↦ select_latest-HasAmounts p f rs {st = st} all (rw other at h)
]

-- The latest state of a valid database has numerals for its amounts.
pub get_latest-HasAmounts :
    (pipe_id for_principal : Value) (s : Store) {st : SignatureState}
    → IsValid s
    → get_latest_signature_state pipe_id for_principal s ≡ ok (some st)
    → HasAmounts st
unfolding get_latest_signature_state
get_latest-HasAmounts pipe_id for_principal s {st} v h = after_ok (assert_open s) _ h λ _ _ h1.
    after_ok (assert_non_empty pipe_id "pipeId") _ h1 λ id _ h2.
      after_ok (assert_non_empty for_principal "forPrincipal") _ h2 λ principal _ h3.
        select_latest-HasAmounts id principal s.signature_states {st = st} v.states.numerals
          (value_of_ok h3)
