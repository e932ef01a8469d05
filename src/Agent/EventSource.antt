-- ===== src/Agent/EventSource.antt =====
-- packages/stackflow-agent/src/event-source.js and pipe-state-source.js: the closures that a wallet's
-- pages of contract events hold, and a pipe's state. The wallet and the decoder are parameters.
pub mod Listed
pub mod Complete
use stackflow.Common.{
  ℕ, zero, suc, ◌+◌, Bool, true, false, Option, none, some, List, [], ◌∷◌, ◌++◌, ◌||◌, ◌==◌, ltb,
  if◌then◌else◌,
}
use stackflow.Js.Text.{Text, codes, trim}
use stackflow.Js.Outcome.{Outcome, ok, err, type_error, ◌>>=◌}
use stackflow.Js.Value.{Value, arr, Items, nil, cons, truthy, is_nullish, get, to_text}
use stackflow.Agent.Utils.{Closure, normalize_closure_event, assert_non_empty}

-- The constructor's settings.
pub record Source : Type 0 where
  pub contract_id : Text
  pub network : Text

unfoldable pub create_source : Value → Value → Outcome Source
create_source contract_id network = do
  contract ← assert_non_empty contract_id "contractId"
  ok (record {
    contract_id = contract;
    network = trim (if truthy network then to_text network else codes "devnet");
  })

-- The argument of `getContractEvents`.
pub record PageQuery : Type 0 where
  pub contract_id : Text
  pub from_height : Text
  pub to_height : Value
  pub limit : ℕ
  pub offset : ℕ
  pub network : Text

-- `Array.isArray(page.events) ? page.events : []`
unfoldable pub events_of : Value → Items
events_of (arr items) = items
events_of _ = nil

unfoldable pub count : Items → ℕ
count nil = 0
count (cons v rest) = suc (count rest)

-- A closure that does not normalise is left out.
unfoldable pub keep : Outcome Closure → List Closure
keep (ok c) = c ∷ []
keep (err e) = []

unfoldable pub found_in : Value → List Closure
unfolding keep
found_in decoded = if truthy decoded then keep (normalize_closure_event decoded) else []

module _ (decode_event : Value → Outcome Value) where
  -- The loop over a page; what the decoder throws is not caught.
  unfoldable pub decode_page : Items → Outcome (List Closure)
  unfolding found_in
  decode_page nil = ok []
  decode_page (cons event rest) = do
    decoded ← decode_event event
    more ← decode_page rest
    ok (found_in decoded ++ more)

  module _ (get_contract_events : PageQuery → Outcome Value) (source : Source) (from : Text)
      (to : Value) (page_size : ℕ) where
    -- `while (pages < maxPages)`, on the number of pages left; an empty page adds nothing, so that its
    -- `break` comes with the one of a short page.
    unfoldable pub list_pages : ℕ → ℕ → List Closure → Outcome (List Closure)
    list_pages zero offset closures = ok closures
    list_pages (suc pages) offset closures = do
      page ← get_contract_events (record {
        contract_id = source.contract_id;
        from_height = from;
        to_height = to;
        limit = page_size;
        offset = offset;
        network = source.network;
      })
      events ← if is_nullish page then err type_error else ok (events_of (get page "events"))
      found ← decode_page events
      let more = list_pages pages (offset + page_size) (closures ++ found)
      if count events == 0 || ltb (count events) page_size then ok (closures ++ found) else more

    unfoldable pub list_closure_events : ℕ → Outcome (List Closure)
    list_closure_events max_pages = list_pages max_pages 0 []

-- The argument of `getPipe`.
pub record PipeQuery : Type 0 where
  pub contract_id : Text
  pub token : Value
  pub for_principal : Text
  pub with_principal : Text
  pub network : Text

unfoldable pub get_pipe_state :
    (PipeQuery → Outcome Value) → Source → Value → Text → Text → Outcome Value
get_pipe_state get_pipe source token for_principal with_principal = get_pipe (record {
  contract_id = source.contract_id;
  token = token;
  for_principal = for_principal;
  with_principal = with_principal;
  network = source.network;
})
