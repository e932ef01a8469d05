-- ===== src/Agent/Store/History.antt =====
-- Any sequence of calls on the agent's database (packages/stackflow-agent/src/db.js), as a step
-- relation.
use stackflow.Common.{◌≡◌}
use stackflow.Js.Text.{Text}
use stackflow.Js.Outcome.{ok}
use stackflow.Js.Value.{Value}
use stackflow.Agent.Utils.{Closure, SignatureState, normalize_signature_state}
use stackflow.Agent.Utils.Leaves.{IsNumeral}
use stackflow.Agent.Store.Rows.{Store}
use stackflow.Agent.Store.Keys.{NoBar}
use stackflow.Agent.Store.Invariant.{IsValid}
use stackflow.Agent.Store.Methods.{
  TrackInput, upsert_tracked_pipe, UpsertResult, upsert_signature_state, record_closure,
  mark_closure_disputed, set_watcher_cursor, close,
}
use stackflow.Agent.Store.Growth.{Grows, Grows-refl, Grows-trans}
use stackflow.Agent.Store.Steps.{
  Keeps, record_closure-Keeps, mark_closure_disputed-Keeps, upsert_tracked_pipe-Keeps,
  set_watcher_cursor-Keeps, close-Keeps, upsert_signature_state-Keeps,
}

-- One call that returns. Principals hold no bar, and the cursor is set to a printed block height.
pub data Step (s s' : Store) : Type 0 where
  tracks : (now : Text) (input : TrackInput) → upsert_tracked_pipe now input s ≡ ok s' → Step s s'
  signs :
      (now : Text) (input : Value) (r : UpsertResult)
      → ((st : SignatureState)
          → normalize_signature_state now input ≡ ok st
          → NoBar st.for_principal)
      → upsert_signature_state now input s ≡ ok (r, s')
      → Step s s'
  records :
      (now : Text) (event : Value) (c : Closure)
      → record_closure now event s ≡ ok (c, s')
      → Step s s'
  marks :
      (txid dispute_txid : Value) → mark_closure_disputed txid dispute_txid s ≡ ok s' → Step s s'
  moves_cursor :
      (now block_height : Text)
      → IsNumeral block_height
      → set_watcher_cursor now block_height s ≡ ok s'
      → Step s s'
  closes : s' ≡ close s → Step s s'

pub data Reach (s : Store) : Store → Type 0 where
  here : Reach s s
  next : {t u : Store} → Reach s t → Step t u → Reach s u

pub Step-Keeps : (s s' : Store) → IsValid s → Step s s' → Keeps s s'
Step-Keeps s s' v (tracks now input h) = upsert_tracked_pipe-Keeps now input s v h
Step-Keeps s s' v (signs now input r bars h) = upsert_signature_state-Keeps now input s v bars h
Step-Keeps s s' v (records now event c h) = record_closure-Keeps now event s v h
Step-Keeps s s' v (marks txid dispute h) = mark_closure_disputed-Keeps txid dispute s v h
Step-Keeps s s' v (moves_cursor now b n h) = set_watcher_cursor-Keeps now b s v n h
Step-Keeps s s' v (closes e) = rw e (close-Keeps s v)

-- From a valid database, after any sequence of calls that return: it is valid, the nonce of the
-- latest state of each pipe and principal without a bar is not lower, and a closure that was
-- disputed or a pipe that was tracked still is. The calls are those of `Step`, where states are
-- signed for principals without a bar and the cursor is set to a printed block height.
pub Reach-Keeps : (s : Store) {s' : Store} → IsValid s → Reach s s' → IsValid s' × Grows s s'
Reach-Keeps s v here = (v, Grows-refl s)
Reach-Keeps s v (next {t} {u} r st) =
    let (vt, grown) = Reach-Keeps s v r in
    let k = Step-Keeps t u vt st in (k.valid, Grows-trans grown k.grows)
