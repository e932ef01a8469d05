-- ===== src/Node/Disputes.antt =====
-- server/src/stackflow-node.ts: `tryDisputeClosure`, which answers a closure by the other side with the
-- newest signed state that may be used. The executor and the tables of forwarded payments are
-- arguments; nonces, balances and heights in the tables are printed numbers.
pub mod Sound
pub mod Once
use stackflow.Common.{
  ℕ, Bool, true, false, not, ◌&&◌, ◌||◌, Option, none, some, List, [], ◌∷◌, ◌++◌, ltb, leb, ◌==◌,
  if◌then◌else◌, is_some,
}
use mathlib.Core.Option
use stackflow.Js.Text.{Text, codes, text_eq, text_lt, is_empty, big_int}
use stackflow.Js.Outcome.{Outcome, ok, err, Error}
use stackflow.Agent.Utils.{bar}
use stackflow.Table.{find, upsert}
use stackflow.Node.Principals.{PipeKey}
use stackflow.Node.Counterparty.{action_transfer}
use stackflow.Node.Counterparty.Policy.{SignedState}

pub record PipeBalances : Type 0 where
  pub balance_1 : Option Text
  pub balance_2 : Option Text

-- What the code reads of the event that closed the pipe
pub record Trigger : Type 0 where
  pub pipe_key : Option PipeKey
  pub pipe : Option PipeBalances
  pub block_height : Option Text
  pub txid : Option Text

pub record ClosureRecord : Type 0 where
  pub contract_id : Text
  pub pipe_id : Text
  pub closer : Option Text
  pub nonce : Option Text

pub record DisputeAttempt : Type 0 where
  pub attempt_id : Text
  pub contract_id : Text
  pub pipe_id : Text
  pub for_principal : Text
  pub trigger_txid : Option Text
  pub success : Bool
  pub dispute_txid : Option Text
  pub error : Option Error
  pub created_at : Text

-- The tables that a dispute reads and writes
pub record NodeStore : Type 0 where
  pub signature_states : List SignedState
  pub attempts : List DisputeAttempt
  pub has_payment_hash : Text → Bool
  pub revealed_secret : Text → Option Text

pub record Submission : Type 0 where
  pub signature_state : SignedState
  pub resolved_secret : Option Text
  pub closure : ClosureRecord

pub record Executor : Type 0 where
  pub enabled : Bool
  pub submit : Submission → Outcome Text

-- `sortSignatureStates`: the higher nonce first, then the later time. The times are ISO timestamps
-- of one form, on which `localeCompare` is the order of the code units.
unfoldable pub sorts_before : SignedState → SignedState → Bool
sorts_before a b =
    ltb (big_int b.nonce) (big_int a.nonce)
    || (big_int a.nonce == big_int b.nonce && text_lt b.updated_at a.updated_at)

unfoldable pub insert_state : SignedState → List SignedState → List SignedState
insert_state s [] = s ∷ []
insert_state s (t ∷ ts) =
    let rest = insert_state s ts in if sorts_before t s then t ∷ rest else s ∷ t ∷ ts

unfoldable pub sort_states : List SignedState → List SignedState
sort_states [] = []
sort_states (s ∷ ss) = insert_state s (sort_states ss)

module _ {A : Type 0} (test : A → Bool) where
  unfoldable pub select : List A → List A
  select [] = []
  select (x ∷ xs) = let rest = select xs in if test x then x ∷ rest else rest

  unfoldable pub first_that : List A → Option A
  first_that [] = none
  first_that (x ∷ xs) = let rest = first_that xs in if test x then some x else rest

unfoldable pub closure_side_balance : Trigger → Text → Option Text
closure_side_balance event for_principal = elim event.pipe_key [
  | none ↦ none
  | some key ↦ elim event.pipe [
    | none ↦ none
    | some pipe ↦
        if text_eq key.principal_1 for_principal
        then pipe.balance_1
        else (if text_eq key.principal_2 for_principal then pipe.balance_2 else none)
  ]
]

is_too_early : Option Text → Option Text → Bool
is_too_early (some valid_after) (some height) = ltb (big_int height) (big_int valid_after)
is_too_early _ _ = false

unfoldable pub some_text : Option Text → Option Text
some_text none = none
some_text (some t) = if is_empty t then none else some t

-- A forwarded payment is used only after its secret was revealed.
unfoldable pub secret_allows : NodeStore → SignedState → Bool
unfolding some_text
secret_allows store s =
    if text_eq s.action action_transfer
    then elim (some_text s.secret) [
      | none ↦ true
      | some hash ↦
          if store.has_payment_hash hash then is_some (store.revealed_secret hash) else true
    ]
    else true

module _ (only_beneficial : Bool) (store : NodeStore) (event : Trigger) (closure_nonce : ℕ) where
  -- The test of `candidates.find`
  unfoldable pub is_eligible : SignedState → Bool
  unfolding is_too_early
  is_eligible s =
      if leb (big_int s.nonce) closure_nonce
      then false
      else (if is_too_early s.valid_after event.block_height
          then false
          else (if not (only_beneficial || s.beneficial_only)
              then secret_allows store s
              else elim (closure_side_balance event s.for_principal) [
                | none ↦ false
                | some balance ↦
                    secret_allows store s && ltb (big_int balance) (big_int s.my_balance)
              ]))

of_pipe : ClosureRecord → SignedState → Bool
of_pipe closure s = text_eq s.contract_id closure.contract_id && text_eq s.pipe_id closure.pipe_id

is_other : Text → SignedState → Bool
is_other closer s = not (text_eq s.for_principal closer)

unfoldable pub candidates : NodeStore → ClosureRecord → Text → List SignedState
unfolding of_pipe is_other
candidates store closure closer =
    select (is_other closer) (sort_states (select (of_pipe closure) store.signature_states))

shown : Option Text → Text
shown none = codes "null"
shown (some t) = t

unfoldable pub attempt_id_of : Trigger → ClosureRecord → SignedState → Text
unfolding some_text shown
attempt_id_of event closure s =
    elim (some_text event.txid) [
      | some txid ↦ txid
      | none ↦ closure.contract_id ++ (bar ++ (closure.pipe_id ++ (bar ++ shown closure.nonce)))
    ]
    ++ (bar ++ s.for_principal)

unfoldable pub resolved_secret_of : NodeStore → SignedState → Option Text
unfolding some_text
resolved_secret_of store s =
    if text_eq s.action action_transfer
    then elim (some_text s.secret) [
      | none ↦ s.secret
      | some hash ↦ elim (store.revealed_secret hash) [
        | some secret ↦ some secret
        | none ↦ some hash
      ]
    ]
    else s.secret

abbrev pub attempt_key : DisputeAttempt → Text
attempt_key a = a.attempt_id

replace_attempt : DisputeAttempt → DisputeAttempt → DisputeAttempt
replace_attempt old new = record new { attempt_id = old.attempt_id }

unfoldable pub already_submitted : NodeStore → Text → Bool
already_submitted store id = elim (find attempt_key id store.attempts) [
  | none ↦ false
  | some a ↦ a.success
]

unfoldable pub submission_of : NodeStore → ClosureRecord → SignedState → Submission
submission_of store closure s = record {
  signature_state = s;
  resolved_secret = resolved_secret_of store s;
  closure = closure;
}

module _ (only_beneficial : Bool) (executor : Executor) (now : Text) where
  abbrev pub attempt_of : Trigger → ClosureRecord → SignedState → Outcome Text → DisputeAttempt
  attempt_of event closure s result = record {
    attempt_id = attempt_id_of event closure s;
    contract_id = closure.contract_id;
    pipe_id = closure.pipe_id;
    for_principal = s.for_principal;
    trigger_txid = event.txid;
    success = elim result [ ok _ ↦ true | err _ ↦ false ];
    dispute_txid = elim result [ ok txid ↦ some txid | err _ ↦ none ];
    error = elim result [ ok _ ↦ none | err e ↦ some e ];
    created_at = now;
  }

  submit_for : NodeStore → Trigger → ClosureRecord → SignedState → NodeStore × List Submission
  unfolding replace_attempt
  submit_for store event closure s =
      if already_submitted store (attempt_id_of event closure s)
      then (store, [])
      else (let sent = submission_of store closure s in
          let attempt = attempt_of event closure s (executor.submit sent) in
          (
            record store { attempts = upsert attempt_key replace_attempt attempt store.attempts },
            sent ∷ [],
          ))

  with_closer : NodeStore → Trigger → ClosureRecord → ℕ → Text → NodeStore × List Submission
  with_closer store event closure nonce closer =
      elim (first_that (is_eligible only_beneficial store event nonce)
        (candidates store closure closer)) [
          | none ↦ (store, [])
          | some s ↦ submit_for store event closure s
        ]

  -- The store, and what was submitted
  unfoldable pub try_dispute_closure :
      NodeStore → Trigger → ClosureRecord → NodeStore × List Submission
  unfolding submit_for with_closer
  try_dispute_closure store event closure =
      if not executor.enabled then (store, []) else elim closure.nonce [
        | none ↦ (store, [])
        | some nonce ↦ elim (some_text closure.closer) [
          | none ↦ (store, [])
          | some closer ↦ with_closer store event closure (big_int nonce) closer
        ]
      ]
