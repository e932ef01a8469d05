-- ===== src/X402/Tests/OfClient.antt =====
-- The theorems on packages/x402-client/src/client.js at concrete values.
use stackflow.Common.{
  ℕ, ◌+◌, ◌≤◌, ◌≡◌, refl, List, true, false, Option, none, some, [], ◌∷◌, arith, ltb, ◌<◌,
  Bool-cases, inl, inr,
}
use mathlib.Core.Path.{subst, sym, ap, ◌∙◌}
use mathlib.Core.Option.{some_inj}
use stackflow.Js.Text.{
  Text, codes, text_eq, is_empty, is_space, trim_start, trim_end, trim, is_digit, decimal_from,
  decimal, lower_unit, lower, all_digits, is_unsigned, big_from, big_int,
}
use stackflow.Js.Double.{number_of, to_double, excess_bits, round_even}
use stackflow.Js.Outcome.{Outcome, ok, Outcome-cases}
use stackflow.Js.Value.{
  Value, str, obj, prop, end, to_text, is_nullish, is_record, get, get_field, or_else,
}
use stackflow.Agent.Utils.{trimmed_text, assert_non_empty_string}
use stackflow.Agent.Service.Accept.{is_text}
use stackflow.X402.Numbers.{
  leading_digits, after_plus, if_positive, parse_positive, assert_positive_integer,
}
use stackflow.X402.Numbers.Printed.{assert_positive_integer-nat}
use stackflow.X402.Store.{X402Store, is_live_proof, assert_store_open, is_proof_consumed}
use stackflow.X402.Client.{
  Runtime, Settings, Outside, Target, Provider, Response, Sent, Exchange, again, ends, text_body,
  round, request, ensure_retryable_body, compute_proof_hash, encode_proof_header,
  parse_x402_challenge, consumed_in, emit, challenge_received, should_attach_proof, proof_hash_of,
  proof_request, is_success,
}
use stackflow.X402.Client.Bare.{store_after, bare_round-kept}
use stackflow.X402.Client.Attempts.{
  paid_count, unpaid_count, left_by, Running, begun, next, Running-Bounded,
}
use stackflow.X402.Client.Ends.{NeverReplays, request-Ends}
use stackflow.X402.Client.Replay.{round-marks, request-stuck}

abbrev platform : Runtime
platform = record {
  origin_of = λ t. ok t;
  sha256_hex = λ t. codes "ab";
  json_text = λ v. ok (to_text v);
  base64url = λ t. t;
}

abbrev settings : Settings
settings = record {
  gateway_url = codes "https://g";
  proactive_payment = false;
  max_payment_attempts = 2;
  payment_header_name = codes "x-x402-payment";
  local_replay_ttl_ms = 60000;
}

abbrev target : Target
target = record { method = codes "GET"; url = codes "https://g/a"; path = codes "/a"; search = [] }

abbrev challenge : Value
challenge = obj (
    prop "error" (str (codes "payment required"))
      (prop "payment" (obj end) (prop "reason" (str (codes "missing")) end)))

-- Unpaid requests are charged, paid ones are served.
abbrev gateway : List Sent → Sent → Outcome Response
gateway earlier new = elim new.payment_header [
  | none ↦ ok (record { status = 402; body = some challenge })
  | some header ↦ ok (record { status = 200; body = none })
]

abbrev keeps_store : Provider
keeps_store asked store = (ok (str (codes "proof")), store)

abbrev world_of : Provider → Outside
world_of provider = record {
  create_proof = some provider;
  fetch = gateway;
  tested_at = λ i. 40;
  answered_at = λ i. 50;
}

-- After the first request, which was charged
abbrev charged : Option X402Store → Exchange
charged store = record {
  challenge = some challenge;
  payment_attempts = 0;
  attempted_without_payment = true;
  store = store;
  sent = record { payment_header = none } ∷ [];
  events = challenge_received (str (codes "missing")) ∷ [];
}

Running-Bounded_example :
    (paid_count
        (left_by (round platform settings (world_of keeps_store) target 1 (charged none))).sent
      ≤ 2)
    × (unpaid_count
          (left_by (round platform settings (world_of keeps_store) target 1 (charged none))).sent
        ≤ 1)
unfolding round should_attach_proof parse_x402_challenge emit get get_field is_record is_text
    text_eq codes
Running-Bounded_example =
    Running-Bounded platform settings (world_of keeps_store) target none 1 (charged none)
      (omega arith) (next (charged none) begun refl)

abbrev empty_store : X402Store
empty_store = record { is_open = true; pipe_states = []; consumed_proofs = []; pipe_locks = [] }

proof_hash :
    proof_hash_of platform settings (world_of keeps_store) target (str (codes "proof"))
    ≡ ok (codes "ab")
unfolding proof_hash_of compute_proof_hash codes
proof_hash = refl

header : encode_proof_header platform (str (codes "proof")) ≡ ok (codes "proof")
unfolding encode_proof_header codes to_text
header = refl

unspent : consumed_in (some empty_store) (codes "ab") 40 ≡ ok false
unfolding consumed_in is_proof_consumed is_live_proof assert_store_open codes text_eq is_empty
    is_space trim_start trim_end trim is_digit decimal_from decimal lower_unit lower number_of
    to_double excess_bits round_even to_text is_nullish or_else trimmed_text assert_non_empty_string
    leading_digits after_plus if_positive parse_positive assert_positive_integer all_digits
    is_unsigned big_from big_int
unspent = refl

none_consumed : (hash : Text) → consumed_in (some empty_store) hash 40 ≡ ok true → ⊥
unfolding consumed_in is_proof_consumed is_live_proof assert_store_open
none_consumed hash spent =
    let timed = assert_positive_integer-nat 40 "nowMs" (omega arith) (omega arith) in
    elim (Outcome-cases (assert_non_empty_string (str hash) "proofHash")) [
      | inl (e, failed) ↦ absurd (cc (simp failed at spent))
      | inr (h, named) ↦ absurd (cc (simp (named, timed) at spent))
    ]

named : assert_non_empty_string (str (codes "ab")) "proofHash" ≡ ok (codes "ab")
unfolding codes is_empty is_space trim_start trim_end trim to_text is_nullish or_else trimmed_text
    assert_non_empty_string
named = refl

paid_round :
    (i : ℕ) (s : Exchange)
    → s.store ≡ some empty_store
    → should_attach_proof platform settings (world_of keeps_store) target s ≡ true
    → (s' : Exchange) × (round platform settings (world_of keeps_store) target i s
        ≡ ends (ok (record { status = 200; body = none })) s')
      × (consumed_in s'.store (codes "ab") 100 ≡ ok (ltb 100 (50 + 60000)))
unfolding is_success
paid_round i s kept paid =
    round-marks platform settings (world_of keeps_store) target i s keeps_store
      (str (codes "proof")) (codes "ab") (codes "proof") (codes "ab")
      (record { status = 200; body = none }) empty_store 100 paid refl
      (ap (λ st. (ok (str (codes "proof")), st)) kept) proof_hash named unspent header refl refl tt
      (omega arith) (omega arith) (omega arith) (omega arith)

-- A round that the loop goes on after left the empty store as it is.
round-keeps :
    (i : ℕ) (s s' : Exchange)
    → s.store ≡ some empty_store
    → round platform settings (world_of keeps_store) target i s ≡ again s'
    → s'.store ≡ some empty_store
round-keeps i s s' kept went =
    elim (Bool-cases (should_attach_proof platform settings (world_of keeps_store) target s)) [
      | inl paid ↦
          let (last, ended, marked) = paid_round i s kept paid in absurd (cc (sym went ∙ ended))
      | inr bare ↦
          ap store_after (sym went)
          ∙ bare_round-kept platform settings (world_of keeps_store) target i s bare
          ∙ kept
    ]

Running-keeps :
    {i : ℕ} {s : Exchange}
    → Running platform settings (world_of keeps_store) target (some empty_store) i s
    → s.store ≡ some empty_store
Running-keeps begun = refl
Running-keeps (next {i = i} {s = s} s' run went) = round-keeps i s s' (Running-keeps run) went

keeps-fresh : NeverReplays platform settings (world_of keeps_store) target (some empty_store)
unfolding consumed_in
keeps-fresh i s create_proof store' proof hash run attach given made hashed spent =
    let same : keeps_store ≡ create_proof = some_inj.0 given in
    let kept : some empty_store ≡ store' =
      sym (Running-keeps run)
      ∙ ap (λ r. r.1)
          (ap (λ f. f (proof_request platform settings (world_of keeps_store) target s) s.store)
              same
            ∙ made) in
    none_consumed hash (subst (λ st. consumed_in st hash 40 ≡ ok true) (sym kept) spent)

request-Ends_example :
    (result : Outcome Response) × (s : Exchange) × (request platform settings
        (world_of keeps_store)
        target
        3
        (text_body (codes "hello"))
        (some empty_store)
      ≡ some (result, s))
request-Ends_example =
    request-Ends platform settings (world_of keeps_store) target (some empty_store) keeps-fresh 3
      (text_body (codes "hello")) (omega arith)

round-marks_example :
    (s' : Exchange) × (round platform settings
        (world_of keeps_store)
        target
        1
        (charged (some empty_store))
      ≡ ends (ok (record { status = 200; body = none })) s')
    × (consumed_in s'.store (codes "ab") 100 ≡ ok (ltb 100 (50 + 60000)))
unfolding should_attach_proof is_success
round-marks_example =
    round-marks platform settings (world_of keeps_store) target 1 (charged (some empty_store))
      keeps_store (str (codes "proof")) (codes "ab") (codes "proof") (codes "ab")
      (record { status = 200; body = none }) empty_store 100 refl refl refl proof_hash named unspent
      header refl refl tt (omega arith) (omega arith) (omega arith) (omega arith)

-- The proof was paid with before, and counts as consumed until 100.
abbrev spent_store : X402Store
spent_store = record empty_store {
  consumed_proofs = record { proof_hash = codes "ab"; expires_at_ms = 100; created_at_ms = 1 } ∷ [];
}

-- The same world with a clock that goes on
abbrev ticking : Outside
ticking = record (world_of keeps_store) { tested_at = λ i. 40 + i; answered_at = λ i. 50 + i }

spent_until_49 :
    (i : ℕ)
    → 0 < i
    → i ≤ 9
    → consumed_in (some spent_store) (codes "ab") (ticking.tested_at i) ≡ ok true
unfolding consumed_in is_proof_consumed is_live_proof assert_store_open codes text_eq is_empty
    is_space trim_start trim_end trim lower_unit lower to_text is_nullish or_else trimmed_text
    assert_non_empty_string
spent_until_49 i above below =
    let timed = assert_positive_integer-nat (40 + i) "nowMs" (omega arith) (omega arith) in
    let early : ltb (40 + i) 100 ≡ true = ground arith in rw (timed, early) refl

request-stuck_example :
    (request platform settings ticking target 10 (text_body (codes "hello")) (some spent_store)
      ≡ none)
    × (s : Exchange) × Running platform settings ticking target (some spent_store) 10 s
    × (s.payment_attempts ≡ 9)
    × (paid_count s.sent ≡ 0)
unfolding ensure_retryable_body parse_x402_challenge get get_field is_record is_text proof_hash_of
    compute_proof_hash codes text_eq
request-stuck_example =
    request-stuck platform settings ticking target keeps_store (str (codes "proof")) (codes "ab")
      (some spent_store) refl (λ asked. refl) refl challenge refl (omega arith) refl refl 9
      (text_body (codes "hello")) refl spent_until_49
