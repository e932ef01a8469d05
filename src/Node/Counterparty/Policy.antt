-- ===== src/Node/Counterparty/Policy.antt =====
-- server/src/counterparty-service.ts: the baseline, which is the newest state that the node knows of a
-- pipe, and the rules that a request must meet against it.
pub mod Allows
pub mod Newest
use stackflow.Common.{
  ℕ, ◌+◌, Bool, true, false, not, ◌&&◌, ◌||◌, Option, none, some, List, [], ◌∷◌, ◌++◌, ltb, leb,
  ◌==◌, if◌then◌else◌,
}
use stackflow.Js.Text.{Text, codes, text_eq, text_lt, is_empty, is_unsigned, big_int, decimal}
use stackflow.Js.Outcome.{Outcome, ok, err, ◌>>=◌, ◌>>◌, require, service_error}
use stackflow.Agent.Utils.{bar, stx}
use stackflow.Node.Principals.{PipeKey, canonical_pipe_key}
use stackflow.Node.Counterparty.{SignRequest, action_transfer}

-- `normalizePipeId` of server/src/observer-parser.ts, of a key that is there
unfoldable pub normalize_pipe_id : PipeKey → Text
normalize_pipe_id key =
    elim key.token [ none ↦ stx | some t ↦ if is_empty t then stx else t ]
    ++ (bar ++ (key.principal_1 ++ (bar ++ key.principal_2)))

pub data Origin : Type 0 where
  onchain signature_state : Origin

pub record Baseline : Type 0 where
  pub source : Origin
  pub nonce : Text
  pub nonce_value : ℕ
  pub my_balance : Text
  pub my_balance_value : ℕ
  pub their_balance : Text
  pub their_balance_value : ℕ
  pub updated_at : Text

unfoldable pub parse_unsigned : Option Text → Option ℕ
parse_unsigned none = none
parse_unsigned (some t) = if is_unsigned t then some (big_int t) else none

unfoldable pub replaces_source : Origin → Origin → Bool
replaces_source signature_state onchain = true
replaces_source _ _ = false

unfoldable pub should_replace_baseline : Baseline → Baseline → Bool
should_replace_baseline existing incoming =
    if not (incoming.nonce_value == existing.nonce_value)
    then ltb existing.nonce_value incoming.nonce_value
    else (if not (text_eq incoming.updated_at existing.updated_at)
        then text_lt existing.updated_at incoming.updated_at
        else replaces_source existing.source incoming.source)

-- What the code reads of an observed pipe, and a stored signature state (server/src/types.ts)
pub record ObservedPipe : Type 0 where
  pub contract_id : Text
  pub pipe_id : Text
  pub pipe_key : PipeKey
  pub balance1 : Option Text
  pub balance2 : Option Text
  pub nonce : Option Text
  pub updated_at : Text

pub record SignedState : Type 0 where
  pub state_id : Text
  pub pipe_id : Text
  pub contract_id : Text
  pub for_principal : Text
  pub with_principal : Text
  pub token : Option Text
  pub amount : Text
  pub my_balance : Text
  pub their_balance : Text
  pub my_signature : Text
  pub their_signature : Text
  pub nonce : Text
  pub action : Text
  pub actor : Text
  pub secret : Option Text
  pub valid_after : Option Text
  pub beneficial_only : Bool
  pub updated_at : Text

pub record NodeStatus : Type 0 where
  pub observed_pipes : List ObservedPipe
  pub signature_states : List SignedState

-- A candidate, if its three numbers can be read
unfoldable pub baseline_from :
    Origin → Text → Option Text → Option Text → Option Text → Option Baseline
baseline_from source updated_at (some nonce) (some mine) (some theirs) =
    elim (parse_unsigned (some nonce)) [
      | none ↦ none
      | some n ↦ elim (parse_unsigned (some mine)) [
        | none ↦ none
        | some m ↦ elim (parse_unsigned (some theirs)) [
          | none ↦ none
          | some t ↦ some (record {
            source = source;
            nonce = nonce;
            nonce_value = n;
            my_balance = mine;
            my_balance_value = m;
            their_balance = theirs;
            their_balance_value = t;
            updated_at = updated_at;
          })
        ]
      ]
    ]
baseline_from source updated_at _ _ _ = none

module _ (request : SignRequest) (pipe_id : Text) where
  unfoldable pub observed_candidate : ObservedPipe → Option Baseline
  observed_candidate o =
      let mine_first = text_eq o.pipe_key.principal_1 request.for_principal in
      if text_eq o.contract_id request.contract_id && text_eq o.pipe_id pipe_id
      then baseline_from onchain o.updated_at o.nonce
          (if mine_first then o.balance1 else o.balance2)
          (if mine_first then o.balance2 else o.balance1)
      else none

  unfoldable pub signed_candidate : SignedState → Option Baseline
  signed_candidate s =
      if text_eq s.contract_id request.contract_id
        && text_eq s.pipe_id pipe_id
        && text_eq s.for_principal request.for_principal
      then baseline_from signature_state s.updated_at (some s.nonce) (some s.my_balance)
          (some s.their_balance)
      else none

unfoldable pub consider : Option Baseline → Option Baseline → Option Baseline
consider best none = best
consider none (some candidate) = some candidate
consider (some best) (some candidate) =
    if should_replace_baseline best candidate then some candidate else some best

-- One of the loops, with its candidates
module _ {Row : Type 0} (candidate : Row → Option Baseline) where
  unfoldable pub best_among : Option Baseline → List Row → Option Baseline
  best_among best [] = best
  best_among best (r ∷ rs) = best_among (consider best (candidate r)) rs

unfoldable pub newest_baseline : SignRequest → NodeStatus → Text → Option Baseline
newest_baseline request status pipe_id =
    best_among (signed_candidate request pipe_id)
      (best_among (observed_candidate request pipe_id) none status.observed_pipes)
      status.signature_states

-- The nonce and the balances of a request are printed numbers, which `BigInt` reads.
unfoldable pub check_transfer : SignRequest → Baseline → Outcome (Unit {0})
check_transfer request b = do
  let mine : ℕ = big_int request.my_balance
  let theirs : ℕ = big_int request.their_balance
  require (mine + theirs == b.my_balance_value + b.their_balance_value) (
      service_error 403 "invalid-transfer-total"
        (decimal (b.my_balance_value + b.their_balance_value) ∷ decimal (mine + theirs) ∷ []))
  require (ltb b.my_balance_value mine) (
      service_error 403 "transfer-not-beneficial-for-counterparty"
        (b.my_balance ∷ request.my_balance ∷ []))

unfoldable pub check_policy : SignRequest → Option Baseline → Outcome (Unit {0})
check_policy request none = err (service_error 409 "unknown-pipe-state" [])
check_policy request (some b) = do
  let mine : ℕ = big_int request.my_balance
  require (ltb b.nonce_value (big_int request.nonce)) (
      service_error 409 "nonce-too-low"
        (request.nonce ∷ b.nonce ∷ b.my_balance ∷ b.their_balance ∷ b.updated_at ∷ []))
  require (leb b.my_balance_value mine) (
      service_error 403 "counterparty-balance-decrease-not-allowed"
        (b.my_balance ∷ request.my_balance ∷ []))
  if text_eq request.action action_transfer then check_transfer request b else ok tt

module _ (serialize : Text → Outcome (List ℕ)) where
  unfoldable pub resolve_current_baseline : SignRequest → NodeStatus → Outcome (Option Baseline)
  resolve_current_baseline request status = do
    key ← canonical_pipe_key serialize request.token request.for_principal request.with_principal
    let pipe_id : Text = normalize_pipe_id key
    ok (if is_empty pipe_id then none else newest_baseline request status pipe_id)

  unfoldable pub enforce_signing_policy : SignRequest → NodeStatus → Outcome (Unit {0})
  enforce_signing_policy request status = do
    baseline ← resolve_current_baseline request status
    check_policy request baseline
