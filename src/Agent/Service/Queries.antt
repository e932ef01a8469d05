-- ===== src/Agent/Service/Queries.antt =====
-- packages/stackflow-agent/src/agent-service.js: the operations that hand on to the state store.
use stackflow.Common.{List, Option}
use stackflow.Js.Text.{Text}
use stackflow.Js.Outcome.{Outcome}
use stackflow.Js.Value.{Value}
use stackflow.Agent.Utils.{SignatureState}
use stackflow.Agent.Store.Rows.{TrackedPipe, Store}
use stackflow.Agent.Store.Methods.{
  UpsertResult, list_tracked_pipes, get_latest_signature_state, upsert_signature_state,
}

unfoldable pub record_signed_state : Text → Value → Store → Outcome (UpsertResult × Store)
record_signed_state now input s = upsert_signature_state now input s

unfoldable pub get_tracked_pipes : Store → Outcome (List TrackedPipe)
get_tracked_pipes s = list_tracked_pipes s

unfoldable pub get_pipe_latest_state : Value → Value → Store → Outcome (Option SignatureState)
get_pipe_latest_state pipe_id for_principal s = get_latest_signature_state pipe_id for_principal s
