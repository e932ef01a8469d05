-- ===== src/Node/Tests/OfDisputes.antt =====
-- The theorems on server/src/stackflow-node.ts at concrete values.
use stackflow.Common.{◌≡◌, refl, true, false, none, some, [], ◌∷◌, All}
use stackflow.Js.Text.{codes, text_eq, text_lt, is_empty, big_from, big_int}
use stackflow.Js.Outcome.{ok}
use stackflow.Agent.Utils.{bar}
use stackflow.Table.{find, upsert}
use stackflow.Node.Disputes.{
  Trigger, ClosureRecord, NodeStore, Submission, Executor, sorts_before, insert_state, sort_states,
  select, first_that, closure_side_balance, some_text, secret_allows, is_eligible, candidates,
  attempt_id_of, resolved_secret_of, attempt_of, submission_of, already_submitted,
  try_dispute_closure,
}
use stackflow.Node.Disputes.Sound.{Uses, try_dispute_closure-Uses}
use stackflow.Node.Disputes.Once.{try_dispute_closure-once}
use stackflow.Node.Tests.{signed}

abbrev store : NodeStore
store = record {
  signature_states = signed ∷ [];
  attempts = [];
  has_payment_hash = λ hash. false;
  revealed_secret = λ hash. none;
}

abbrev event : Trigger
event = record {
  pipe_key = none;
  pipe = none;
  block_height = some (codes "100");
  txid = some (codes "0xee");
}

abbrev closure : ClosureRecord
closure = record {
  contract_id = codes "C.p";
  pipe_id = codes "stx|SA|SB";
  closer = some (codes "SB");
  nonce = some (codes "2");
}

abbrev executor : Executor
executor = record { enabled = true; submit = λ sent. ok (codes "0xdd") }

try_dispute_closure-Uses_example :
    All
      (Uses false executor (codes "t3") store event closure)
      (try_dispute_closure false executor (codes "t3") store event closure).1
try_dispute_closure-Uses_example =
    try_dispute_closure-Uses false executor (codes "t3") store event closure

abbrev sent : Submission
sent = submission_of store closure signed

abbrev submitted : NodeStore
submitted = record store {
  attempts = attempt_of false executor (codes "t3") event closure signed (ok (codes "0xdd")) ∷ [];
}

try_dispute_closure-once_example :
    try_dispute_closure false executor (codes "t4") submitted event closure ≡ (submitted, [])
unfolding try_dispute_closure candidates is_eligible secret_allows closure_side_balance select
    first_that sort_states insert_state sorts_before some_text attempt_id_of resolved_secret_of
    submission_of already_submitted find upsert bar codes text_eq text_lt is_empty big_from big_int
try_dispute_closure-once_example =
    try_dispute_closure-once false event closure executor executor (codes "t3") (codes "t4") store
      submitted sent (codes "0xdd") refl refl
