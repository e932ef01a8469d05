-- ===== src/X402/Client/Replay.antt =====
-- Consumed proofs in `request` of packages/x402-client/src/client.js: the replay test before a paid
-- request, and the mark after it.
use stackflow.Common.{
  ℕ, zero, suc, ◌+◌, ◌<◌, ◌≤◌, ◌==◌, ◌≡◌, refl, sym, ◌∙◌, ap, true, false, Option, none, some, [],
  ◌∷◌, arith, is_some, leb, ltb,
}
use Prim.Native.Nat.{◌^◌}
use stackflow.Js.Text.{Text, is_empty, trim, trim_start, trim_end, text_eq_refl, lower}
use stackflow.Js.Value.{truthy, Value, or_else, is_nullish, get, to_text, str, number, nat}
use stackflow.Js.Outcome.{ok}
use stackflow.Agent.Utils.{trimmed_text, assert_non_empty_string}
use stackflow.Table.{Distinct}
use stackflow.X402.Numbers.Printed.{assert_positive_integer-nat}
use stackflow.X402.Store.{X402Store}
use stackflow.X402.Store.Proofs.{
  hash_of as proof_key, mark_consumed_proof-is_proof_consumed, mark_consumed_proof-open,
}
use stackflow.X402.Client.{
  Runtime, Settings, Outside, Target, Response, Exchange, again, ends, fresh_exchange, round,
  rounds, request, Body, Provider, ProofRequest, proof_skip_local_replay, request_complete,
  ensure_retryable_body, proof_hash_of, proof_request, consumed_in, should_attach_proof,
  parse_x402_challenge, prepare_proof, send_prepared, send, receive, challenge_received, challenged,
  complete, after_challenge, mark_if_paid, mark_in, is_success, encode_proof_header, emit,
  with_made, settle_proof, check_proof,
}
use stackflow.X402.Client.Attempts.{Running, begun, next, paid_count, Running-rounds}

module _ (js : Runtime) (settings : Settings) (world : Outside) (target : Target) where
  -- The loop after a challenge and `n` rounds that all skipped the proof
  record Stuck (store : Option X402Store) (n : ℕ) (s : Exchange) : Type 0 where
    asked : is_some s.challenge ≡ true
    kept : s.store ≡ store
    tried : s.payment_attempts ≡ n
    unpaid : paid_count s.sent ≡ 0

  bare_start :
      (store : Option X402Store)
      → settings.proactive_payment ≡ false
      → should_attach_proof js settings world target (fresh_exchange store) ≡ false
  unfolding should_attach_proof
  bare_start store lazy = rw lazy refl

  module _ (create_proof : Provider) (proof : Value) (hash : Text) (store : Option X402Store)
      (given : world.create_proof ≡ some create_proof)
      (same : (asked : ProofRequest) → create_proof asked store ≡ (ok proof, store))
      (hashed : proof_hash_of js settings world target proof ≡ ok hash) where
    unfoldable skipping : Exchange → Exchange
    unfolding emit
    skipping s =
        emit (proof_skip_local_replay hash)
          (record s { payment_attempts = s.payment_attempts + 1; store = store })

    round-replayed :
        (i : ℕ) (s : Exchange)
        → is_some s.challenge ≡ true
        → s.store ≡ store
        → consumed_in store hash (world.tested_at i) ≡ ok true
        → round js settings world target i s ≡ again (skipping s)
    unfolding round should_attach_proof prepare_proof send_prepared with_made settle_proof
        check_proof emit skipping proof_request proof_hash_of
    round-replayed i s asked kept spent =
        let made = ap (create_proof (proof_request js settings world target s)) kept ∙ same _ in
        rw (asked, given, made, hashed, spent) refl

    skipping-Stuck : (n : ℕ) (s : Exchange) → Stuck store n s → Stuck store (suc n) (skipping s)
    unfolding skipping emit
    skipping-Stuck n s stuck =
        let counted = stuck.tried in
        record { asked = stuck.asked; kept = refl; tried = omega arith; unpaid = stuck.unpaid }

    module _ (c : Value) (lazy : settings.proactive_payment ≡ false)
        (some_attempt : 0 < settings.max_payment_attempts)
        (answered : world.fetch [] (record { payment_header = none })
          ≡ ok (record { status = 402; body = some c }))
        (parsed : parse_x402_challenge (record { status = 402; body = some c }) ≡ some c) where
      asked_first :
          (s : Exchange) × (round js settings world target 0 (fresh_exchange store) ≡ again s)
          × Stuck store 0 s
      unfolding round send receive challenged after_challenge emit paid_count
      asked_first =
          let left : leb settings.max_payment_attempts 0 ≡ false = ground arith in
          (
            record (fresh_exchange store) {
              challenge = some c;
              attempted_without_payment = true;
              sent = record { payment_header = none } ∷ [];
              events = challenge_received (get c "reason") ∷ [];
            },
            rw (bare_start store lazy, answered, parsed, given, left) refl,
            record { asked = refl; kept = refl; tried = refl; unpaid = refl },
          )

      skips :
          (n : ℕ)
          → ((i : ℕ) → 0 < i → i ≤ n → consumed_in store hash (world.tested_at i) ≡ ok true)
          → (s : Exchange) × Running js settings world target store (suc n) s × Stuck store n s
      skips zero spent = let (s, went, stuck) = asked_first in (s, next s begun went, stuck)
      skips (suc n) spent =
          let (s, run, stuck) = skips n (λ i above below. spent i above (omega arith)) in
          (
            skipping s,
            next (skipping s) run (
                round-replayed (suc n) s stuck.asked stuck.kept
                  (spent (suc n) (omega arith) (omega arith))),
            skipping-Stuck n s stuck,
          )

      -- Without proactive payment, with maxPaymentAttempts above 0 and a body that can be sent again:
      -- if the first answer is a payment challenge, the provider then makes the same proof each time
      -- and leaves the store alone, and the store holds the proof as consumed at the replay tests of
      -- the next n rounds, then the request has not ended after these rounds: it has counted n
      -- payment attempts, whatever maxPaymentAttempts is, and sent no paid request.
      pub request-stuck :
          (n : ℕ) (body : Body)
          → ensure_retryable_body body ≡ ok tt
          → ((i : ℕ) → 0 < i → i ≤ n → consumed_in store hash (world.tested_at i) ≡ ok true)
          → (request js settings world target (suc n) body store ≡ none)
            × (s : Exchange) × Running js settings world target store (suc n) s
            × (s.payment_attempts ≡ n)
            × (paid_count s.sent ≡ 0)
      unfolding request rounds
      request-stuck n body replayable spent =
          let (s, run, stuck) = skips n spent in
          let more : suc n + 0 ≡ suc n = omega arith in
          (
            rw replayable (
                sym (ap (λ k. rounds js settings world target k 0 (fresh_exchange store)) more)
                ∙ Running-rounds js settings world target 0 run),
            s,
            run,
            stuck.tried,
            stuck.unpaid,
          )

  not_402 : (n : ℕ) → is_success n ≡ true → (n == 402) ≡ false
  unfolding is_success
  not_402 n success = ground arith

  nonempty :
      (hash h : Text)
      → assert_non_empty_string (str hash) "proofHash" ≡ ok h
      → is_empty hash ≡ false
  unfolding assert_non_empty_string trimmed_text is_empty trim trim_start trim_end or_else
      is_nullish to_text
  nonempty [] h named = absurd (cc)
  nonempty (c ∷ t) h named = refl

  -- If a round sends a paid request that is answered with success, and the store has one row for a
  -- proof, a positive localReplayTtlMs and times below 2^53, then the round ends with the
  -- response, and the proof is consumed in the store at a time exactly if it is before the time of
  -- the answer plus localReplayTtlMs.
  pub round-marks :
      (i : ℕ) (s : Exchange) (create_proof : Provider) (proof : Value) (hash header h : Text)
      (r : Response) (st : X402Store) (t : ℕ)
      → should_attach_proof js settings world target s ≡ true
      → world.create_proof ≡ some create_proof
      → create_proof (proof_request js settings world target s) s.store ≡ (ok proof, some st)
      → proof_hash_of js settings world target proof ≡ ok hash
      → assert_non_empty_string (str hash) "proofHash" ≡ ok h
      → consumed_in (some st) hash (world.tested_at i) ≡ ok false
      → encode_proof_header js proof ≡ ok header
      → world.fetch s.sent (record { payment_header = some header }) ≡ ok r
      → is_success r.status ≡ true
      → Distinct proof_key st.consumed_proofs
      → 0 < settings.local_replay_ttl_ms
      → world.answered_at i + settings.local_replay_ttl_ms < 2 ^ 53
      → 0 < t
      → t < 2 ^ 53
      → (s' : Exchange) × (round js settings world target i s ≡ ends (ok r) s')
        × (consumed_in s'.store hash t
            ≡ ok (ltb t (world.answered_at i + settings.local_replay_ttl_ms)))
  unfolding round prepare_proof send_prepared with_made settle_proof check_proof emit proof_request
      proof_hash_of send receive mark_if_paid mark_in complete consumed_in
  round-marks i s create_proof proof hash header h r st t attach given made hashed named fresh
        encoded fetched success d lasting exact later small =
      let now = world.answered_at i in
      let expires : Value = number (nat (now + settings.local_replay_ttl_ms)) in
      let until =
        assert_positive_integer-nat (now + settings.local_replay_ttl_ms) "expiresAtMs" (omega arith)
          exact in
      let (st', marked) =
        mark_consumed_proof-open now (str hash) (str hash) _ expires st false h _ fresh named
          until in
      (
        record s {
          payment_attempts = s.payment_attempts + 1;
          store = some st';
          sent = record { payment_header = some header } ∷ s.sent;
          events = request_complete r.status (truthy proof) ∷ s.events;
        },
        rw
            (
              attach,
              given,
              made,
              hashed,
              fresh,
              encoded,
              fetched,
              not_402 r.status success,
              nonempty hash h named,
              success,
              marked,
            )
            refl,
        mark_consumed_proof-is_proof_consumed now (str hash) expires (str hash) (number (nat t)) st
              st' h h (now + settings.local_replay_ttl_ms) t d marked named until named
              (assert_positive_integer-nat t "nowMs" later small)
            ∙ rw (text_eq_refl (lower h)) refl,
      )
