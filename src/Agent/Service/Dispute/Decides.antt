-- ===== src/Agent/Service/Dispute/Decides.antt =====
-- When a dispute of a closure helps (`isDisputeBeneficial`, packages/stackflow-agent/src/utils.js),
-- against an independent description of it.
use mathlib.Core.Bool.{false≢true}
use stackflow.Common.{
  ℕ, ◌≡◌, refl, inl, inr, Bool, true, false, not, ◌&&◌, ◌||◌, Option, none, some, [], ◌∷◌, arith,
  leb, ltb, if◌then◌else◌, Bool-cases,
}
use stackflow.Js.Text.{Text, text_eq, big_int, is_unsigned}
use stackflow.Js.Outcome.{ok}
use stackflow.Agent.Utils.{
  Closure, SignatureState, force_cancel, beats_closure_balance, is_dispute_beneficial,
}
use stackflow.Agent.Utils.Leaves.{IsNumeral, parse_unsigned_bigint-str}
use stackflow.Agent.Service.Amounts.{HasAmounts}

-- The closure's own balance of mine, where it names one, is a numeral.
abbrev pub HasBalance : Option Text → Type 0
HasBalance none = Unit {0}
HasBalance (some t) = IsNumeral t

-- My signed balance is more than what the closure pays me, where it says that.
abbrev pub beats : Option Text → SignatureState → Bool
beats none st = true
beats (some t) st = ltb (big_int t) (big_int st.my_balance)

-- What is at stake: all of my balance where the pipe is cancelled by force.
abbrev pub gains : Closure → SignatureState → Bool
gains c st =
    if text_eq c.event_name force_cancel
    then ltb 0 (big_int st.my_balance)
    else beats c.closure_my_balance st

-- I hold a later state, and where only beneficial disputes are wanted, another closed and I gain.
abbrev pub helps : Closure → SignatureState → Bool → Bool
helps c st only =
    ltb (big_int c.nonce) (big_int st.nonce)
    && (not (only || st.beneficial_only) || (not (text_eq c.closer st.for_principal) && gains c st))

beats_closure_balance-eq :
    (o : Option Text) (st : SignatureState)
    → HasBalance o
    → IsNumeral st.my_balance
    → beats_closure_balance o st ≡ ok (beats o st)
unfolding beats_closure_balance is_unsigned
beats_closure_balance-eq none st h n = refl
beats_closure_balance-eq (some []) st (blank, h) n = absurd (false≢true blank)
beats_closure_balance-eq (some (c ∷ t)) st h n = simp (
  parse_unsigned_bigint-str (c ∷ t) "closureMyBalance" h,
  parse_unsigned_bigint-str st.my_balance "myBalance" n,
)

decides :
    (m k : ℕ) (only selective mine cancelled positive beaten : Bool)
    → (if leb k m
        then ok false
        else if not only && not selective
        then ok true
        else if mine
        then ok false
        else if cancelled
        then ok positive
        else ok beaten)
      ≡ ok (
          ltb m k
          && (not (only || selective) || (not mine && (if cancelled then positive else beaten))))
decides m k only selective mine cancelled positive beaten = elim (Bool-cases (leb k m)) [
  | inl old ↦ let no_later : ltb m k ≡ false = ground arith in rw (old, no_later) refl
  | inr new ↦
      let later : ltb m k ≡ true = ground arith in
      rw (new, later) (by_flags only selective mine cancelled)
]
  where
    by_flags :
        (only selective mine cancelled : Bool)
        → (if not only && not selective
            then ok true
            else if mine
            then ok false
            else if cancelled
            then ok positive
            else ok beaten)
          ≡ ok (not (only || selective) || (not mine && (if cancelled then positive else beaten)))
    by_flags false false mine cancelled = refl
    by_flags false true true cancelled = refl
    by_flags false true false true = refl
    by_flags false true false false = refl
    by_flags true selective true cancelled = refl
    by_flags true selective false true = refl
    by_flags true selective false false = refl

-- For a closure and a state whose numbers are printed naturals, the test answers without an error:
-- true if the state is later and, where only beneficial disputes are wanted by the agent or the
-- state, someone else closed and the local side gains.
pub is_dispute_beneficial-eq :
    (c : Closure) (st : SignatureState) (only : Bool)
    → IsNumeral c.nonce
    → HasBalance c.closure_my_balance
    → HasAmounts st
    → is_dispute_beneficial (some c) (some st) only ≡ ok (helps c st only)
unfolding is_dispute_beneficial
is_dispute_beneficial-eq c st only n b a =
    let beaten = beats_closure_balance-eq c.closure_my_balance st b a.my_balance in
    let c_nonce = parse_unsigned_bigint-str c.nonce "closure nonce" n in
    let st_nonce = parse_unsigned_bigint-str st.nonce "state nonce" a.nonce in
    let mine = parse_unsigned_bigint-str st.my_balance "myBalance" a.my_balance in
    simp (c_nonce, st_nonce, mine, beaten)
      (decides (big_int c.nonce) (big_int st.nonce) only st.beneficial_only
        (text_eq c.closer st.for_principal) (text_eq c.event_name force_cancel)
        (ltb 0 (big_int st.my_balance)) (beats c.closure_my_balance st))
