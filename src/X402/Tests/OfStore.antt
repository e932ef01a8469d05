-- ===== src/X402/Tests/OfStore.antt =====
-- The theorems on packages/x402-client/src/sqlite-state-store.js at concrete values.
use stackflow.Common.{
  ℕ, ◌+◌, ◌≡◌, refl, true, none, some, [], ◌∷◌, arith, if◌then◌else◌, ltb, is_some,
}
use stackflow.Js.Text.{
  Text, codes, text_eq, is_empty, is_space, trim_start, trim_end, trim, is_digit, all_digits,
  is_unsigned, big_from, big_int, decimal_from, decimal, lower_unit, lower,
}
use stackflow.Js.Double.{number_of, to_double, excess_bits, round_even}
use stackflow.Js.Outcome.{ok}
use stackflow.Js.Value.{
  Value, str, number, nat, obj, prop, end, null, to_text, is_nullish, get, get_field, or_else,
  to_option,
}
use stackflow.Agent.Utils.{trimmed_text, assert_non_empty_string}
use stackflow.Table.{upsert}
use stackflow.X402.Numbers.{
  leading_digits, after_plus, if_positive, parse_positive, assert_positive_integer,
  assert_uint_string,
}
use stackflow.X402.Store.{
  PipeRow, LockRow, X402Store, merge_proof, proof_expiry, lock_expiry, live_rows, count_expired,
  assert_store_open, mark_consumed_proof, is_proof_consumed, purge_expired, pipe_row,
  set_pipe_state, get_pipe_state,
}
use stackflow.X402.Store.Locks.{Schedule, try_lock, delete_lock, acquire_rounds}
use stackflow.X402.Store.Locks.Table.{lock_on}
use stackflow.X402.Store.Locks.Exclusive.{idle, after, frees, purges, lock_excludes}
use stackflow.X402.Store.Locks.Waiting.{Ends, acquire_rounds-Ends}
use stackflow.X402.Store.Proofs.{mark_consumed_proof-is_proof_consumed, purge_expired-Forgets}
use stackflow.X402.Store.PipeRows.{set_pipe_state-get_pipe_state}

abbrev lock_of : Text → ℕ → LockRow
lock_of token expires = record {
  pipe_key = codes "p";
  lock_token = token;
  expires_at_ms = expires;
  updated_at_ms = 5;
}

-- Another process frees what it does not hold, and a third one purges.
lock_excludes_example :
    (lock_on (codes "p") (lock_of (codes "a") 10 ∷ []) ≡ some (lock_of (codes "a") 10))
    × (try_lock 9 (lock_of (codes "b") 20) (lock_of (codes "a") 10 ∷ []) ≡ none)
unfolding codes text_eq try_lock delete_lock live_rows
lock_excludes_example =
    lock_excludes 5 9 (lock_of (codes "a") 10) (lock_of (codes "b") 20) []
      (lock_of (codes "a") 10 ∷ []) (lock_of (codes "a") 10 ∷ []) refl
      (after 7 (after 6 idle (omega arith) (frees (codes "p") (codes "b") refl refl)) (omega arith)
        (purges refl))
      refl (omega arith)

abbrev quiet : Schedule
quiet = record { start = 3; test_at = λ i. i + 3; now_at = λ i. i + 3; others = λ i rows. rows }

acquire_rounds-Ends_example :
    Ends quiet
      (codes "b")
      (codes "p")
      10
      5
      (acquire_rounds quiet (codes "b") (codes "p") 10 5 4 0 (lock_of (codes "a") 100 ∷ []))
acquire_rounds-Ends_example =
    acquire_rounds-Ends quiet (codes "b") (codes "p") 10 5 4 0 (lock_of (codes "a") 100 ∷ [])
      (λ j. omega arith) (omega arith) (omega arith)

abbrev opened : X402Store
opened = record {
  is_open = true;
  pipe_states = [];
  consumed_proofs = record { proof_hash = codes "ab"; expires_at_ms = 50; created_at_ms = 1 } ∷ [];
  pipe_locks = lock_of (codes "a") 10 ∷ [];
}

abbrev marked : X402Store
marked = record opened {
  consumed_proofs = record { proof_hash = codes "ab"; expires_at_ms = 90; created_at_ms = 1 } ∷ [];
}

mark_consumed_proof-is_proof_consumed_example :
    is_proof_consumed (str (codes "ab")) (number (nat 70)) marked ≡ (
      if text_eq (lower (codes "ab")) (lower (codes "ab"))
      then ok (ltb 70 90)
      else is_proof_consumed (str (codes "ab")) (number (nat 70)) opened)
unfolding mark_consumed_proof assert_store_open merge_proof upsert codes text_eq is_empty is_space
    trim_start trim_end trim is_digit decimal_from decimal lower_unit lower number_of to_double
    excess_bits round_even to_text is_nullish or_else trimmed_text assert_non_empty_string
    leading_digits after_plus if_positive parse_positive assert_positive_integer all_digits
    is_unsigned big_from big_int
mark_consumed_proof-is_proof_consumed_example =
    mark_consumed_proof-is_proof_consumed 60 (str (codes "AB")) (number (nat 90)) (str (codes "ab"))
      (number (nat 70)) opened marked (codes "AB") (codes "ab") 90 70 (tt, tt) refl refl refl refl
      refl

abbrev purged : X402Store
purged = record opened { pipe_locks = [] }

purge_expired-Forgets_example :
    (is_proof_consumed (str (codes "ab")) (number (nat 30)) purged
      ≡ is_proof_consumed (str (codes "ab")) (number (nat 30)) opened)
    × (is_some (try_lock 30 (lock_of (codes "b") 40) purged.pipe_locks)
        ≡ is_some (try_lock 30 (lock_of (codes "b") 40) opened.pipe_locks))
    × (live_rows proof_expiry 30 purged.consumed_proofs
        ≡ live_rows proof_expiry 30 opened.consumed_proofs)
    × (live_rows lock_expiry 30 purged.pipe_locks ≡ live_rows lock_expiry 30 opened.pipe_locks)
    × (purged.pipe_states ≡ opened.pipe_states)
unfolding purge_expired assert_store_open live_rows count_expired codes text_eq is_empty is_space
    trim_start trim_end trim is_digit decimal_from decimal lower_unit lower number_of to_double
    excess_bits round_even to_text is_nullish or_else trimmed_text assert_non_empty_string
    leading_digits after_plus if_positive parse_positive assert_positive_integer all_digits
    is_unsigned big_from big_int
purge_expired-Forgets_example =
    purge_expired-Forgets (number (nat 20)) (str (codes "ab")) (number (nat 30)) opened purged
      (record { consumed_deleted = 0; locks_deleted = 1 }) (codes "ab") 20 30
      (lock_of (codes "b") 40) (tt, tt) refl refl refl refl (omega arith)

abbrev state : Value
state = obj (
    prop "pipeKey" (str (codes "k")) (
      prop "contractId" (str (codes "C.p")) (
        prop "forPrincipal" (str (codes "A")) (
          prop "withPrincipal" (str (codes "B")) (
            prop "token" null (
              prop "nonce" (str (codes "3")) (
                prop "myBalance" (str (codes "7"))
                  (prop "theirBalance" (str (codes "2")) end))))))))

abbrev row : PipeRow
row = record {
  pipe_key = codes "k";
  contract_id = codes "C.p";
  for_principal = codes "A";
  with_principal = codes "B";
  token = none;
  nonce = codes "3";
  my_balance = codes "7";
  their_balance = codes "2";
  updated_at_ms = 8;
}

set_pipe_state-get_pipe_state_example :
    (s' : X402Store) × (set_pipe_state 8 state opened ≡ ok s')
    × (get_pipe_state (str (codes "k")) s' ≡ (
        if text_eq (codes "k") (codes "k")
        then ok (some row)
        else get_pipe_state (str (codes "k")) opened))
unfolding pipe_row get get_field assert_uint_string codes text_eq is_empty is_space trim_start
    trim_end trim is_digit to_text is_nullish or_else to_option trimmed_text assert_non_empty_string
    all_digits is_unsigned
set_pipe_state-get_pipe_state_example =
    set_pipe_state-get_pipe_state 8 state (str (codes "k")) opened row (codes "k") refl refl refl
