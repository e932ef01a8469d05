-- ===== src/Node/Disputes/Sound.antt =====
-- What `tryDisputeClosure` of server/src/stackflow-node.ts submits.
use stackflow.Common.{
  ℕ, ◌<◌, ◌≡◌, refl, sym, ap, Bool, true, false, not, ◌&&◌, some, List, [], ◌∷◌, leb, arith, All,
  Bool-cases, Option-cases, inl, inr,
}
use mathlib.Core.Path.{subst}
use mathlib.Core.Option
use mathlib.Core.Option.{some_inj}
use mathlib.Core.List.{Memᴰ}
use mathlib.Core.List.Memᴰ
use mathlib.Core.List.Memᴰ.{head, tail}
use stackflow.Js.Text.{Text, text_eq, big_int}
use stackflow.Node.Counterparty.Policy.{SignedState}
use stackflow.Node.Disputes.{
  Trigger, ClosureRecord, NodeStore, Submission, Executor, sort_states, insert_state, sorts_before,
  select, first_that, is_eligible, of_pipe, is_other, candidates, some_text, attempt_id_of,
  already_submitted, submission_of, submit_for, with_closer, try_dispute_closure,
}

module _ {A : Type 0} (test : A → Bool) where
  first_that-Memᴰ :
      (xs : List A) {x : A} → first_that test xs ≡ some x → (test x ≡ true) × Memᴰ x xs
  unfolding first_that
  first_that-Memᴰ [] h = absurd (cc)
  first_that-Memᴰ (y ∷ xs) {x} h = elim (Bool-cases (test y)) [
    | inl good ↦
        let same : y ≡ x = some_inj.0 (simp good at h) in
        (subst (λ v. test v ≡ true) same good, head (sym same))
    | inr bad ↦ let (good, there) = first_that-Memᴰ xs {x = x} (simp bad at h) in (good, tail there)
  ]

  select-Memᴰ : (xs : List A) {x : A} → Memᴰ x (select test xs) → (test x ≡ true) × Memᴰ x xs
  unfolding select
  select-Memᴰ [] m = absurd (Memᴰ.not-nil m)
  select-Memᴰ (y ∷ xs) {x} m = elim (Bool-cases (test y)) [
    | inr bad ↦ let (good, there) = select-Memᴰ xs {x = x} (rw bad at m) in (good, tail there)
    | inl good ↦ elim (Memᴰ.cases_cons {a = x} {b = y} {l = select test xs} (rw good at m)) [
      | inl same ↦ (subst (λ v. test v ≡ true) (sym same) good, head same)
      | inr later ↦ let (fine, there) = select-Memᴰ xs {x = x} later in (fine, tail there)
    ]
  ]

insert_state-Memᴰ :
    (s : SignedState) (ts : List SignedState) {x : SignedState}
    → Memᴰ x (insert_state s ts)
    → Memᴰ x (s ∷ ts)
unfolding insert_state
insert_state-Memᴰ s [] m = m
insert_state-Memᴰ s (t ∷ ts) {x} m = elim (Bool-cases (sorts_before t s)) [
  | inr stays ↦ rw stays at m
  | inl passes ↦ elim (Memᴰ.cases_cons {a = x} {b = t} {l = insert_state s ts} (rw passes at m)) [
    | inl same ↦ tail (head same)
    | inr later ↦ elim (Memᴰ.cases_cons (insert_state-Memᴰ s ts {x = x} later)) [
      | inl same ↦ head same
      | inr there ↦ tail (tail there)
    ]
  ]
]

sort_states-Memᴰ : (ss : List SignedState) {x : SignedState} → Memᴰ x (sort_states ss) → Memᴰ x ss
unfolding sort_states
sort_states-Memᴰ [] m = m
sort_states-Memᴰ (s ∷ ss) {x} m =
    elim (Memᴰ.cases_cons (insert_state-Memᴰ s (sort_states ss) {x = x} m)) [
      | inl same ↦ head same
      | inr later ↦ tail (sort_states-Memᴰ ss later)
    ]

-- Why a state may be used against a closure with this nonce and closer
pub record Justified (only_beneficial : Bool) (store : NodeStore) (event : Trigger)
    (closure : ClosureRecord) (s : SignedState) : Type 0 where
  pub closure_nonce : ℕ
  pub closer : Text
  pub nonce_given : Option.map big_int closure.nonce ≡ some closure_nonce
  pub closer_given : some_text closure.closer ≡ some closer
  pub listed : Memᴰ s store.signature_states
  pub same_contract : text_eq s.contract_id closure.contract_id ≡ true
  pub same_pipe : text_eq s.pipe_id closure.pipe_id ≡ true
  pub by_other_side : text_eq s.for_principal closer ≡ false
  pub newer : closure_nonce < big_int s.nonce
  pub eligible : is_eligible only_beneficial store event closure_nonce s ≡ true
  pub not_yet : already_submitted store (attempt_id_of event closure s) ≡ false

eligible-newer :
    (only_beneficial : Bool) (store : NodeStore) (event : Trigger) (nonce : ℕ) (s : SignedState)
    → is_eligible only_beneficial store event nonce s ≡ true
    → nonce < big_int s.nonce
unfolding is_eligible
eligible-newer only_beneficial store event nonce s good =
    elim (Bool-cases (leb (big_int s.nonce) nonce)) [
      | inl low ↦ absurd (cc (simp low at good))
      | inr above ↦ ground arith
    ]

both : (a b : Bool) → (a && b) ≡ true → (a ≡ true) × (b ≡ true)
both true b e = (refl, e)
both false b e = absurd (cc)

negated : (a : Bool) → not a ≡ true → a ≡ false
negated true e = absurd (cc)
negated false e = refl

module _ (only_beneficial : Bool) (executor : Executor) (now : Text) (store : NodeStore)
    (event : Trigger) (closure : ClosureRecord) where
  pub Uses : Submission → Type 0
  Uses sent = Justified only_beneficial store event closure sent.signature_state

  chosen-Justified :
      (nonce : ℕ) (closer : Text) (s : SignedState)
      → Option.map big_int closure.nonce ≡ some nonce
      → some_text closure.closer ≡ some closer
      → first_that (is_eligible only_beneficial store event nonce) (candidates store closure closer)
        ≡ some s
      → already_submitted store (attempt_id_of event closure s) ≡ false
      → Justified only_beneficial store event closure s
  unfolding candidates of_pipe is_other
  chosen-Justified nonce closer s numbered closed found fresh =
      let (good, among) =
        first_that-Memᴰ (is_eligible only_beneficial store event nonce)
          (candidates store closure closer) {x = s} found in
      let (other, sorted) =
        select-Memᴰ (is_other closer)
          (sort_states (select (of_pipe closure) store.signature_states)) {x = s} among in
      let (pipe, listed) =
        select-Memᴰ (of_pipe closure) store.signature_states {x = s}
          (sort_states-Memᴰ (select (of_pipe closure) store.signature_states) {x = s} sorted) in
      let (contract, same) = both _ _ pipe in
      record {
        closure_nonce = nonce;
        closer = closer;
        nonce_given = numbered;
        closer_given = closed;
        listed = listed;
        same_contract = contract;
        same_pipe = same;
        by_other_side = negated _ other;
        newer = eligible-newer only_beneficial store event nonce s good;
        eligible = good;
        not_yet = fresh;
      }

  submit_for-Uses :
      (s : SignedState)
      → (already_submitted store (attempt_id_of event closure s) ≡ false
          → Justified only_beneficial store event closure s)
      → All Uses (submit_for only_beneficial executor now store event closure s).1
  unfolding submit_for Uses submission_of
  submit_for-Uses s justified =
      elim (Bool-cases (already_submitted store (attempt_id_of event closure s))) [
        | inl done ↦ rw done tt
        | inr fresh ↦ rw fresh (justified fresh, tt)
      ]

  with_closer-Uses :
      (nonce : ℕ) (closer : Text)
      → Option.map big_int closure.nonce ≡ some nonce
      → some_text closure.closer ≡ some closer
      → All Uses (with_closer only_beneficial executor now store event closure nonce closer).1
  unfolding with_closer
  with_closer-Uses nonce closer numbered closed =
      elim (Option-cases (
        first_that (is_eligible only_beneficial store event nonce)
          (candidates store closure closer))) [
            | inl absent ↦ rw (with_closer, absent) tt
            | inr (s, found) ↦
                rw (with_closer, found)
                  (submit_for-Uses s (chosen-Justified nonce closer s numbered closed found))
          ]

  -- A dispute is submitted only with a stored state of the closed pipe that was signed for a principal
  -- other than the closer, has a nonce above the closure's, passes the tests on height, balance and
  -- revealed secret, and was not submitted with success before.
  pub try_dispute_closure-Uses :
      All Uses (try_dispute_closure only_beneficial executor now store event closure).1
  unfolding try_dispute_closure
  try_dispute_closure-Uses = elim (Bool-cases executor.enabled) [
    | inr off ↦ simp off tt
    | inl on ↦ elim (Option-cases closure.nonce) [
      | inl absent ↦ simp (on, absent) tt
      | inr (nonce, given) ↦ elim (Option-cases (some_text closure.closer)) [
        | inl nobody ↦ simp (on, given, nobody) tt
        | inr (closer, closed) ↦
            simp (on, given, closed)
              (with_closer-Uses (big_int nonce) closer (ap (Option.map big_int) given) closed)
      ]
    ]
  ]
