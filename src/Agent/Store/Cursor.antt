-- ===== src/Agent/Store/Cursor.antt =====
-- The statements on closures and the watcher's cursor (packages/stackflow-agent/src/db.js).
use stackflow.Common.{◌≡◌, refl, sym, ap}
use stackflow.Js.Text.{Text}
use stackflow.Js.Outcome.{ok, after_ok}
use stackflow.Js.Value.{Value}
use stackflow.Js.Json.{json_copy}
use stackflow.Agent.Utils.{assert_non_empty, Closure, normalize_closure_event}
use stackflow.Agent.Store.Rows.{Store}
use stackflow.Agent.Store.Invariant.{IsValid}
use stackflow.Agent.Store.Methods.{assert_open, record_closure, mark_closure_disputed}
use stackflow.Agent.Store.Steps.{
  Keeps, Keeps-refl, record_closure-Keeps, mark_closure_disputed-Keeps, value_of_ok, second_of_ok,
}

-- The database is kept, and its cursor is where it was.
pub record KeepsCursor (s s' : Store) : Type 0 where
  pub keeps : Keeps s s'
  pub cursor : s'.last_block_height ≡ s.last_block_height

pub KeepsCursor-refl : (s : Store) → IsValid s → KeepsCursor s s
KeepsCursor-refl s v = record { keeps = Keeps-refl s v; cursor = refl }

cursor_of_recorded :
    (now : Text) (event : Value) (s : Store) {c : Closure} {s' : Store}
    → record_closure now event s ≡ ok (c, s')
    → s'.last_block_height ≡ s.last_block_height
unfolding record_closure
cursor_of_recorded now event s {c} {s'} h = after_ok (assert_open s) _ h λ _ _ h1.
    after_ok (normalize_closure_event event) _ h1 λ closure _ h2.
      after_ok (json_copy closure.pipe_key) _ h2
        λ k _ h3. ap (λ (x : Store). x.last_block_height) (sym (second_of_ok h3))

cursor_of_marked :
    (txid dispute_txid : Value) (s : Store) {s' : Store}
    → mark_closure_disputed txid dispute_txid s ≡ ok s'
    → s'.last_block_height ≡ s.last_block_height
unfolding mark_closure_disputed
cursor_of_marked txid dispute_txid s {s'} h = after_ok (assert_open s) _ h λ _ _ h1.
    after_ok (assert_non_empty dispute_txid "disputeTxid") _ h1 λ d _ h2.
      after_ok (assert_non_empty txid "txid") _ h2
        λ id _ h3. ap (λ (x : Store). x.last_block_height) (sym (value_of_ok h3))

pub record_closure-KeepsCursor :
    (now : Text) (event : Value) (s : Store) {c : Closure} {s' : Store}
    → IsValid s
    → record_closure now event s ≡ ok (c, s')
    → KeepsCursor s s'
record_closure-KeepsCursor now event s {c} {s'} v h = record {
  keeps = record_closure-Keeps now event s {c = c} {s' = s'} v h;
  cursor = cursor_of_recorded now event s {c = c} {s' = s'} h;
}

pub mark_closure_disputed-KeepsCursor :
    (txid dispute_txid : Value) (s : Store) {s' : Store}
    → IsValid s
    → mark_closure_disputed txid dispute_txid s ≡ ok s'
    → KeepsCursor s s'
mark_closure_disputed-KeepsCursor txid dispute_txid s {s'} v h = record {
  keeps = mark_closure_disputed-Keeps txid dispute_txid s {s' = s'} v h;
  cursor = cursor_of_marked txid dispute_txid s {s' = s'} h;
}
