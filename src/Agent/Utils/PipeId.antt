-- ===== src/Agent/Utils/PipeId.antt =====
-- `buildPipeId` of packages/stackflow-agent/src/utils.js: the parts of a pipe id.
use mathlib.Core.List.{append_assoc}
use stackflow.Common.{◌≡◌, ◌++◌}
use stackflow.Js.Text.{Text}
use stackflow.Js.Text.Shape.{trim-append, is_empty-append}
use stackflow.Js.Outcome.{ok, >>=-eq-ok}
use stackflow.Js.Value.{Value, get}
use stackflow.Agent.Utils.{
  assert_object, assert_non_empty_string, token_part, token_text, bar, build_pipe_id,
}
use stackflow.Agent.Utils.Leaves.{IsName, assert_non_empty_string-IsName}

-- `${contract}|${token}|${principal1}|${principal2}`
abbrev pub joined : Text → Text → Text → Text → Text
joined contract token principal_1 principal_2 =
    contract ++ (bar ++ (token ++ (bar ++ (principal_1 ++ (bar ++ principal_2)))))

-- The parts of the id of a contract and a key.
pub record Parts (contract_id pipe_key : Value) (id : Text) : Type 0 where
  pub contract : Text
  pub principal_1 : Text
  pub principal_2 : Text
  pub contract_lem : assert_non_empty_string contract_id "contractId" ≡ ok contract
  pub first :
      assert_non_empty_string (get pipe_key "principal-1") "pipeKey.principal-1" ≡ ok principal_1
  pub second :
      assert_non_empty_string (get pipe_key "principal-2") "pipeKey.principal-2" ≡ ok principal_2
  pub whole :
      joined contract (token_part (token_text (get pipe_key "token"))) principal_1 principal_2 ≡ id

pub build_pipe_id-Parts : (c k : Value) {id : Text} → build_pipe_id c k ≡ ok id → Parts c k id
unfolding build_pipe_id
build_pipe_id-Parts c k {id} h =
    let (contract, ec, h1) = >>=-eq-ok (assert_non_empty_string c "contractId") _ h in
    let (_, _, h2) = >>=-eq-ok (assert_object k "pipeKey") _ h1 in
    let (p1, e1, h3) =
      >>=-eq-ok (assert_non_empty_string (get k "principal-1") "pipeKey.principal-1") _ h2 in
    let (p2, e2, h4) =
      >>=-eq-ok (assert_non_empty_string (get k "principal-2") "pipeKey.principal-2") _ h3 in
    record {
      contract = contract;
      principal_1 = p1;
      principal_2 = p2;
      contract_lem = ec;
      first = e1;
      second = e2;
      whole = cc h4;
    }

-- A pipe id has no white space at its ends.
pub build_pipe_id-IsName : (c k : Value) {id : Text} → build_pipe_id c k ≡ ok id → IsName id
build_pipe_id-IsName c k {id} h =
    let parts = build_pipe_id-Parts c k h in
    let (hc, fc) = assert_non_empty_string-IsName c "contractId" parts.contract_lem in
    let (h2, f2) =
      assert_non_empty_string-IsName (get k "principal-2") "pipeKey.principal-2" parts.second in
    let token = token_part (token_text (get k "token")) in
    let middle = bar ++ (token ++ (bar ++ (parts.principal_1 ++ bar))) in
    let id_eq : parts.contract ++ (middle ++ parts.principal_2) ≡ id =
      simp append_assoc parts.whole in
    rw (← id_eq) (
      trim-append parts.contract middle parts.principal_2 hc fc h2 f2,
      is_empty-append parts.contract _ (is_empty-append middle _ f2),
    )
