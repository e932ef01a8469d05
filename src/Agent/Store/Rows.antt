-- ===== src/Agent/Store/Rows.antt =====
-- packages/stackflow-agent/src/db.js: the schema, and the statements that read and write it.
use stackflow.Common.{
  ℕ, Bool, true, not, ◌&&◌, ◌||◌, Option, none, some, List, [], ◌∷◌, ◌++◌, ltb, ◌==◌, if◌then◌else◌,
}
use Prim.Native.Nat.{min}
use stackflow.Js.Text.{Text, text_eq, text_lt, big_int, codes}
use stackflow.Js.Value.{Value}
use stackflow.Agent.Utils.{Closure, SignatureState, bar}

-- tracked_pipes
pub record TrackedPipe : Type 0 where
  pub pipe_id : Text
  pub contract_id : Text
  pub pipe_key : Value
  pub local_principal : Text
  pub counterparty_principal : Text
  pub token : Option Text
  pub status : Text
  pub last_chain_nonce : Option Text
  pub updated_at : Text

-- signature_states
pub record StateRow : Type 0 where
  pub state_id : Text
  pub state : SignatureState

-- closures
pub record ClosureRow : Type 0 where
  pub closure : Closure
  pub disputed : Bool
  pub dispute_txid : Option Text
  pub created_at : Text

-- The database; its one watcher_cursor row is the pair of the last two fields.
pub record Store : Type 0 where
  pub is_open : Bool
  pub tracked_pipes : List TrackedPipe
  pub signature_states : List StateRow
  pub closures : List ClosureRow
  pub last_block_height : Text
  pub cursor_updated_at : Text

-- A new database: empty tables, and the cursor at '0'.
unfoldable pub create : Text → Store
create now = record {
  is_open = true;
  tracked_pipes = [];
  signature_states = [];
  closures = [];
  last_block_height = codes "0";
  cursor_updated_at = now;
}

abbrev pub txid_of : ClosureRow → Text
txid_of r = r.closure.txid

-- ON CONFLICT(pipe_id) DO UPDATE SET every other column
unfoldable pub merge_tracked : TrackedPipe → TrackedPipe → TrackedPipe
merge_tracked old new = record new { pipe_id = old.pipe_id }

-- ON CONFLICT(state_id) DO UPDATE SET all but state_id, pipe_id, contract_id, pipe_key_json,
-- for_principal, with_principal and token
unfoldable pub merge_state : StateRow → StateRow → StateRow
merge_state old new = record old {
  state = record new.state {
    contract_id = old.state.contract_id;
    pipe_id = old.state.pipe_id;
    pipe_key = old.state.pipe_key;
    for_principal = old.state.for_principal;
    with_principal = old.state.with_principal;
    token = old.state.token;
  };
}

coalesce : Option Text → Option Text → Option Text
coalesce none b = b
coalesce (some a) b = some a

-- ON CONFLICT(txid) DO UPDATE SET closure_my_balance = excluded.closure_my_balance,
-- disputed = MAX(...), dispute_txid = COALESCE(...)
unfoldable pub merge_closure : ClosureRow → ClosureRow → ClosureRow
unfolding coalesce
merge_closure old new = record old {
  closure = record old.closure { closure_my_balance = new.closure.closure_my_balance };
  disputed = old.disputed || new.disputed;
  dispute_txid = coalesce old.dispute_txid new.dispute_txid;
}

-- SET disputed = 1, dispute_txid = ?
unfoldable pub set_disputed : Text → ClosureRow → ClosureRow
set_disputed dispute_txid r = record r { disputed = true; dispute_txid = some dispute_txid }

-- CAST(nonce as INTEGER) saturates at the largest 64-bit integer.
unfoldable pub cast_integer : Text → ℕ
cast_integer t = min (big_int t) 9223372036854775807

unfoldable pub belongs_to : Text → Text → StateRow → Bool
belongs_to pipe_id for_principal r =
    text_eq r.state.pipe_id pipe_id && text_eq r.state.for_principal for_principal

-- `a` comes before `b` in ORDER BY CAST(nonce as INTEGER) DESC, updated_at DESC.
unfoldable pub is_newer : SignatureState → SignatureState → Bool
unfolding cast_integer
is_newer a b =
    ltb (cast_integer b.nonce) (cast_integer a.nonce)
    || (cast_integer a.nonce == cast_integer b.nonce && text_lt b.updated_at a.updated_at)

unfoldable pub newest : SignatureState → Option SignatureState → Option SignatureState
newest a none = some a
newest a (some b) = if is_newer b a then some b else some a

-- SELECT ... WHERE pipe_id = ? AND for_principal = ? ORDER BY ... LIMIT 1; rows that tie on both
-- columns come in no order that SQL states, and the first one is taken.
unfoldable pub select_latest : Text → Text → List StateRow → Option SignatureState
unfolding newest belongs_to is_newer
select_latest pipe_id for_principal [] = none
select_latest pipe_id for_principal (r ∷ rs) =
    let rest = select_latest pipe_id for_principal rs in
    if belongs_to pipe_id for_principal r then newest r.state rest else rest

-- idx_signature_states_pipe_for_nonce
unfoldable pub same_index : StateRow → StateRow → Bool
same_index a b =
    text_eq b.state.pipe_id a.state.pipe_id
    && text_eq b.state.for_principal a.state.for_principal
    && text_eq b.state.nonce a.state.nonce

unfoldable pub no_other : StateRow → List StateRow → Bool
no_other a [] = true
no_other a (b ∷ rs) = not (same_index a b) && no_other a rs

-- The unique index over (pipe_id, for_principal, nonce) holds.
unfoldable pub index_is_unique : List StateRow → Bool
unfolding same_index no_other
index_is_unique [] = true
index_is_unique (r ∷ rs) = no_other r rs && index_is_unique rs

insert_by_time : TrackedPipe → List TrackedPipe → List TrackedPipe
insert_by_time p [] = p ∷ []
insert_by_time p (q ∷ qs) =
    if text_lt p.updated_at q.updated_at then q ∷ insert_by_time p qs else p ∷ q ∷ qs

-- SELECT * FROM tracked_pipes ORDER BY updated_at DESC
unfoldable pub order_by_time : List TrackedPipe → List TrackedPipe
unfolding insert_by_time
order_by_time [] = []
order_by_time (p ∷ ps) = insert_by_time p (order_by_time ps)

-- `${state.pipeId}|${state.forPrincipal}`
unfoldable pub state_id_of : Text → Text → Text
state_id_of pipe_id for_principal = pipe_id ++ (bar ++ for_principal)
