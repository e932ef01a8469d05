-- ===== src/Agent/Tests/OfStore.antt =====
-- The theorems on packages/stackflow-agent/src/db.js at concrete values.
use stackflow.Common.{◌≡◌, refl, some, arith}
use stackflow.Js.Outcome.{ok}
use mathlib.Core.Path.{subst, sym, ◌∙◌}
use mathlib.Core.Option
use stackflow.Agent.Store.Keys.{NoBar, state_id, select_latest-eq-find}
use stackflow.Agent.Store.History.{Reach, here, next, signs, Reach-Keeps}
use stackflow.Agent.Store.Growth.{Grows}
use stackflow.Agent.Store.Steps.{value_of_ok}
use stackflow.Agent.Store.Methods.{nonce_too_low}
use stackflow.Agent.Store.Invariant.{IsValid, IsValid-create}
use stackflow.Agent.Store.Upsert.{with_rows, upsert_refuses_lower, upsert-latest}
use stackflow.Agent.Store.Latest.{latest, state_after}
use stackflow.Js.Text.{
  codes, text_eq, is_empty, is_space, trim_start, trim_end, trim, is_digit, all_digits, is_unsigned,
  big_from, big_int, decimal_from, decimal, lower_unit, lower, is_hex_digit, all_hex, with_0x,
  is_0x_hex, Text,
}
use stackflow.Js.Value.{
  to_text, is_nullish, truthy, is_record, is_true, get_field, get, or_else, to_option, Value,
}
use stackflow.Agent.Utils.{
  trimmed_text, assert_object, assert_non_empty_string, parse_unsigned_bigint, to_unsigned_string,
  normalize_hex, token_text, bar, stx, token_part, build_pipe_id, one_text,
  normalize_signature_state, SignatureState,
}
use stackflow.Table.{find, upsert}
use stackflow.Agent.Store.Rows.{
  create, merge_state, belongs_to, is_newer, newest, select_latest, state_id_of, StateRow,
}
use stackflow.Agent.Store.Methods.{stored_or_replaced, upsert_signature_state}
use stackflow.Agent.Tests.Samples.{
  noon, key, state_of, input_of, state_1, state_2, input_1, input_2, normal_1, normal_2, signed,
  no_bar, copied, one_there, signed-IsValid,
}

upsert-latest_example :
    (upsert_signature_state noon input_2 signed
      ≡ ok (
        stored_or_replaced (latest state_2.pipe_id state_2.for_principal signed) state_2,
        with_rows signed state_2 key,
      ))
    × IsValid (with_rows signed state_2 key)
    × (latest state_2.pipe_id state_2.for_principal (with_rows signed state_2 key)
        ≡ some (state_after (latest state_2.pipe_id state_2.for_principal signed) state_2 key))
    × ((q g : Text)
        → NoBar g
        → ((state_2.pipe_id ≡ q) × (state_2.for_principal ≡ g) → ⊥)
        → latest q g (with_rows signed state_2 key) ≡ latest q g signed)
unfolding codes select_latest belongs_to newest is_newer text_eq create upsert merge_state
    state_id_of bar big_int big_from
upsert-latest_example =
    upsert-latest noon input_2 signed state_2 key signed-IsValid refl normal_2 copied no_bar
      (omega arith)

-- A state with a nonce below the latest one
abbrev state_0 : SignatureState
state_0 = state_of (codes "0") (codes "9") (codes "1")

abbrev input_0 : Value
input_0 = input_of (codes "0") (codes "9") (codes "1")

normal_0 : normalize_signature_state noon input_0 ≡ ok state_0
unfolding normalize_signature_state build_pipe_id assert_object assert_non_empty_string trimmed_text
    to_unsigned_string parse_unsigned_bigint normalize_hex token_text token_part bar stx one_text
    get get_field or_else is_nullish is_record is_true to_option truthy to_text codes trim
    trim_start trim_end is_space is_empty is_digit all_digits is_unsigned big_int big_from decimal
    decimal_from lower lower_unit is_hex_digit all_hex with_0x is_0x_hex text_eq
normal_0 = refl

upsert_refuses_lower_example :
    upsert_signature_state noon input_0 signed ≡ ok (nonce_too_low state_1, signed)
unfolding codes big_int big_from create
upsert_refuses_lower_example =
    upsert_refuses_lower noon input_0 signed state_0 key signed-IsValid refl normal_0 copied no_bar
      state_1 one_there (omega arith)

select_latest-eq-find_example :
    select_latest (codes "C.p|stx|ST1|ST2") (codes "ST1") signed.signature_states
    ≡ Option.map
        (λ (r : StateRow). r.state)
        (find state_id
          (state_id_of (codes "C.p|stx|ST1|ST2") (codes "ST1"))
          signed.signature_states)
unfolding codes
select_latest-eq-find_example =
    select_latest-eq-find (codes "C.p|stx|ST1|ST2") (codes "ST1") signed.signature_states no_bar
      signed-IsValid.states.keyed signed-IsValid.states.distinct

reaches_signed : Reach (create noon) signed
unfolding select_latest belongs_to text_eq create codes big_int big_from
reaches_signed = next here (
    signs noon input_1
      (stored_or_replaced (latest state_1.pipe_id state_1.for_principal (create noon)) state_1)
      (λ st e.
        subst (λ (x : SignatureState). NoBar x.for_principal) (value_of_ok (sym normal_1 ∙ e))
          no_bar)
      (upsert-latest noon input_1 (create noon) state_1 key (IsValid-create noon) refl normal_1
        copied no_bar (omega arith)).0)

Reach-Keeps_example : IsValid signed × Grows (create noon) signed
Reach-Keeps_example = Reach-Keeps (create noon) (IsValid-create noon) reaches_signed
