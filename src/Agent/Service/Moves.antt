-- ===== src/Agent/Service/Moves.antt =====
-- What `buildOutgoingTransfer` (packages/stackflow-agent/src/agent-service.js) asks the
-- counterparty to sign, against the state that it starts from.
use mathlib.Core.Path.{subst}
use stackflow.Common.{◌+◌, ◌-◌, ◌≤◌, ◌<◌, ◌≡◌, refl, true, false, not, some, arith, ltb, Bool}
use stackflow.Js.Text.{text_eq, text_eq_iff, big_int}
use stackflow.Js.Text.Decimal.{big_int-decimal}
use stackflow.Js.Outcome.{
  Error, ok, require, amount_not_positive, insufficient_balance, actor_must_match, after_ok,
}
use stackflow.Js.Value.{str}
use stackflow.Agent.Utils.{parse_unsigned_bigint, to_unsigned_string, SignatureState}
use stackflow.Agent.Utils.Leaves.{
  IsNumeral, parse_unsigned_bigint-str, to_unsigned_string-IsNumeral,
}
use stackflow.Agent.Store.Rows.{TrackedPipe, Store}
use stackflow.Agent.Store.Invariant.{IsValid}
use stackflow.Agent.Store.Methods.{get_tracked_pipe, get_latest_signature_state}
use stackflow.Agent.Store.Steps.{value_of_ok}
use stackflow.Agent.Service.Amounts.{HasAmounts, get_latest-HasAmounts}
use stackflow.Agent.Service.Outgoing.{
  TransferRequest, Outgoing, Base, current_base, normalized_actor, transfer_from,
  build_outgoing_transfer,
}

-- The transfer takes its amount from me, and the counterparty gets it.
pub record MovesFrom (tracked : TrackedPipe) (req : TransferRequest) (base : Base) (o : Outgoing)
    : Type 0 where
  pub amount :
      parse_unsigned_bigint req.amount "amount" ≡ ok (base.my_balance - big_int o.my_balance)
  pub positive : big_int o.my_balance < base.my_balance
  pub sum : big_int o.my_balance + big_int o.their_balance ≡ base.my_balance + base.their_balance
  pub nonce : big_int o.nonce ≡ base.nonce + 1
  pub actor : o.actor ≡ tracked.local_principal
  pub for_principal : o.for_principal ≡ tracked.local_principal
  pub with_principal : o.with_principal ≡ tracked.counterparty_principal
  pub action : IsNumeral o.action

require-eq-ok : (b : Bool) (e : Error) {u : Unit {0}} → require b e ≡ ok u → b ≡ true
require-eq-ok true e h = refl
require-eq-ok false e h = absurd (cc h)

pub transfer_from-MovesFrom :
    (tracked : TrackedPipe) (req : TransferRequest) (base : Base) {o : Outgoing}
    → transfer_from tracked req base ≡ ok o
    → MovesFrom tracked req base o
unfolding transfer_from
transfer_from-MovesFrom tracked req base {o} h =
    after_ok (parse_unsigned_bigint req.amount "amount") _ h λ amount e1 h1.
      after_ok (require (ltb 0 amount) amount_not_positive) _ h1 λ _ e2 h2.
        after_ok (require (not (ltb base.my_balance amount)) insufficient_balance) _ h2 λ _ e3 h3.
          after_ok (normalized_actor req.actor tracked.local_principal) _ h3 λ actor e4 h4.
            after_ok (require (text_eq actor tracked.local_principal) actor_must_match) _ h4
              λ _ e5 h5. after_ok (to_unsigned_string req.action "action") _ h5 λ action e6 h6.
                let above : ltb 0 amount ≡ true = require-eq-ok _ amount_not_positive e2 in
                let enough : not (ltb base.my_balance amount) ≡ true =
                  require-eq-ok _ insufficient_balance e3 in
                let mine = big_int-decimal (base.my_balance - amount) in
                let theirs = big_int-decimal (base.their_balance + amount) in
                let within : amount ≤ base.my_balance = ground arith in
                let back : base.my_balance - (base.my_balance - amount) ≡ amount = omega arith in
                let some_amount : 0 < amount = ground arith in
                subst (MovesFrom tracked req base) (value_of_ok h6) (record {
                  amount = rw (mine, back) e1;
                  positive = rw mine (omega arith);
                  sum = rw (mine, theirs) (omega arith);
                  nonce = big_int-decimal (base.nonce + 1);
                  actor = (text_eq_iff _ _).0 (require-eq-ok _ actor_must_match e5);
                  for_principal = refl;
                  with_principal = refl;
                  action = to_unsigned_string-IsNumeral req.action "action" e6;
                })

-- Where a transfer of a state starts.
abbrev pub base_of : SignatureState → Base
base_of st = record {
  my_balance = big_int st.my_balance;
  their_balance = big_int st.their_balance;
  nonce = big_int st.nonce;
}

current_base-HasAmounts :
    (st : SignatureState) (req : TransferRequest)
    → HasAmounts st
    → current_base (some st) req ≡ ok (base_of st)
unfolding current_base
current_base-HasAmounts st req a = simp (
  parse_unsigned_bigint-str st.my_balance "latest.myBalance" a.my_balance,
  parse_unsigned_bigint-str st.their_balance "latest.theirBalance" a.their_balance,
  parse_unsigned_bigint-str st.nonce "latest.nonce" a.nonce,
)

-- On a valid database, for a tracked pipe with a latest state, a transfer that is built takes the
-- requested amount, which is positive, from the local balance of the latest state, keeps the sum
-- of the balances, has the next nonce, and is by and for the local principal towards the
-- counterparty.
pub build_outgoing_transfer-MovesFrom :
    (req : TransferRequest) (s : Store) (tracked : TrackedPipe) (latest : SignatureState)
    {o : Outgoing}
    → IsValid s
    → get_tracked_pipe req.pipe_id s ≡ ok (some tracked)
    → get_latest_signature_state (str tracked.pipe_id) (str tracked.local_principal) s
      ≡ ok (some latest)
    → build_outgoing_transfer req s ≡ ok o
    → MovesFrom tracked req (base_of latest) o
unfolding build_outgoing_transfer
build_outgoing_transfer-MovesFrom req s tracked latest {o} v found at_latest h =
    let amounts = get_latest-HasAmounts _ _ s {st = latest} v at_latest in
    let base = current_base-HasAmounts latest req amounts in
    transfer_from-MovesFrom tracked req (base_of latest) {o = o}
      (simp (found, at_latest, base) at h)
