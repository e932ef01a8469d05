-- ===== src/Agent/Tests/OfSource.antt =====
-- The theorems on packages/stackflow-agent/src/event-source.js at concrete values.
use stackflow.Common.{◌≡◌, refl, arith, All, [], ◌∷◌}
use stackflow.Js.Text.{
  codes, trim, trim_start, trim_end, is_space, is_empty, is_digit, all_digits, is_unsigned, big_int,
  big_from, decimal, decimal_from, text_eq,
}
use stackflow.Js.Outcome.{Outcome, ok}
use stackflow.Js.Value.{
  Value, null, nil, cons, Items, get, get_field, or_else, is_nullish, is_record, to_option, truthy,
  to_text,
}
use stackflow.Agent.Utils.{
  build_pipe_id, assert_object, assert_non_empty_string, trimmed_text, to_unsigned_string,
  parse_unsigned_bigint, token_text, token_part, bar, stx, zero_text, normalize_closure_event,
  is_closure_name, force_cancel, force_close,
}
use stackflow.Agent.Utils.Normal.{IsNormal, closure_value}
use stackflow.Agent.Tests.Samples.{closure_0}
use stackflow.Agent.EventSource.{
  Source, events_of, keep, found_in, count, list_pages, decode_page, list_closure_events,
}
use stackflow.Agent.EventSource.Listed.{list_closure_events-IsNormal}
use stackflow.Agent.EventSource.Complete.{paged, list_closure_events-paged}

abbrev source_1 : Source
source_1 = record { contract_id = codes "C.p"; network = codes "devnet" }

-- The decoder that takes an event as it is
abbrev as_is : Value → Outcome Value
as_is v = ok v

-- Three events, so two pages of two
abbrev events_3 : Items
events_3 = cons null (cons (closure_value closure_0) (cons (closure_value closure_0) nil))

list_closure_events-paged_example :
    list_closure_events as_is (paged events_3) source_1 (codes "0") null 2 2
    ≡ decode_page as_is events_3
unfolding count
list_closure_events-paged_example =
    list_closure_events-paged as_is events_3 source_1 (codes "0") null 2 2 (omega arith)
      (omega arith)

lists_two :
    list_closure_events as_is (paged events_3) source_1 (codes "0") null 2 2
    ≡ ok (closure_0 ∷ closure_0 ∷ [])
unfolding build_pipe_id assert_object assert_non_empty_string trimmed_text to_unsigned_string
    parse_unsigned_bigint token_text token_part bar stx zero_text get get_field or_else is_nullish
    is_record to_option truthy to_text codes trim trim_start trim_end is_space is_empty is_digit
    all_digits is_unsigned big_int big_from decimal decimal_from text_eq normalize_closure_event
    is_closure_name force_cancel force_close closure_value events_of keep found_in count decode_page
    list_pages list_closure_events
lists_two = refl

list_closure_events-IsNormal_example : All IsNormal (closure_0 ∷ closure_0 ∷ [])
list_closure_events-IsNormal_example =
    list_closure_events-IsNormal as_is (paged events_3) source_1 (codes "0") null 2 2 lists_two
