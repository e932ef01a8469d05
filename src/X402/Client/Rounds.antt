-- ===== src/X402/Client/Rounds.antt =====
-- The ways in which one round of the loop in `request` (packages/x402-client/src/client.js) ends.
use stackflow.Common.{
  ℕ, ◌+◌, ◌<◌, ◌==◌, ◌≡◌, refl, ◌∙◌, ap, true, false, Option, none, some, ◌∷◌, leb, arith,
  Bool-cases, inl, inr, is_some,
}
use stackflow.Js.Text.{Text}
use stackflow.Js.Value.{Value}
use stackflow.Js.Outcome.{Outcome, ok, err, Error, Outcome-cases}
use stackflow.X402.Store.{X402Store}
use stackflow.X402.Client.{
  Runtime, Settings, Outside, Target, Response, Exchange, Prepared, replayed, ready, threw, Round,
  again, ends, Provider, parse_x402_challenge, consumed_in, emit, should_attach_proof,
  proof_request, check_proof, settle_proof, with_made, prepare_proof, mark_if_paid, complete,
  after_challenge, challenged, receive, send, send_prepared, round, proof_hash_of,
  encode_proof_header,
}

module _ (js : Runtime) (settings : Settings) (world : Outside) (target : Target) where
  -- One request went out, with a payment of its own or, where no proof is attached, without.
  pub data Went (s s' : Exchange) : Type 0 where
    went_paid :
        (header : Text)
        → s'.sent ≡ (record { payment_header = some header } ∷ s.sent)
        → s'.payment_attempts ≡ s.payment_attempts + 1
        → Went s s'
    went_unpaid :
        s'.sent ≡ (record { payment_header = none } ∷ s.sent)
        → s'.payment_attempts ≡ s.payment_attempts
        → should_attach_proof js settings world target s ≡ false
        → Went s s'

  -- The provider's proof was one that the store holds as consumed.
  pub data Replays (i : ℕ) (s s' : Exchange) : Type 0 where
    replays :
        (create_proof : Provider) (proof : Value) (hash : Text)
        → should_attach_proof js settings world target s ≡ true
        → world.create_proof ≡ some create_proof
        → create_proof (proof_request js settings world target s) s.store ≡ (ok proof, s'.store)
        → proof_hash_of js settings world target proof ≡ ok hash
        → consumed_in s'.store hash (world.tested_at i) ≡ ok true
        → Replays i s s'

  pub data Comes (i : ℕ) (s : Exchange) : Round → Type 0 where
    gave_up : (e : Error) (s' : Exchange) → s'.sent ≡ s.sent → Comes i s (ends (err e) s')
    skipped :
        (s' : Exchange)
        → s'.sent ≡ s.sent
        → s'.challenge ≡ s.challenge
        → s'.payment_attempts ≡ s.payment_attempts + 1
        → Replays i s s'
        → Comes i s (again s')
    answered : (result : Outcome Response) (s' : Exchange) → Went s s' → Comes i s (ends result s')
    retried :
        (s' : Exchange)
        → Went s s'
        → is_some s'.challenge ≡ true
        → s'.payment_attempts < settings.max_payment_attempts
        → Comes i s (again s')

  Went-emit :
      (s s' s'' : Exchange)
      → Went s s'
      → s''.sent ≡ s'.sent
      → s''.payment_attempts ≡ s'.payment_attempts
      → Went s s''
  Went-emit s s' s'' (went_paid header sent counted) same kept =
      went_paid header (same ∙ sent) (kept ∙ counted)
  Went-emit s s' s'' (went_unpaid sent counted bare) same kept =
      went_unpaid (same ∙ sent) (kept ∙ counted) bare

  after_challenge-Comes :
      (i : ℕ) (r : Response) (s s' : Exchange)
      → Went s s'
      → is_some s'.challenge ≡ true
      → Comes i s (after_challenge js settings world target r s')
  unfolding after_challenge
  after_challenge-Comes i r s s' went has = elim (Bool-cases (is_some world.create_proof)) [
    | inr missing ↦ rw missing (answered (ok r) s' went)
    | inl given ↦ elim (Bool-cases (leb settings.max_payment_attempts s'.payment_attempts)) [
      | inl over ↦ rw (given, over) (answered (ok r) s' went)
      | inr left ↦ rw (given, left) (retried _ (Went-emit s s' _ went refl refl) has (ground arith))
    ]
  ]

  challenged-Comes :
      (i : ℕ) (r : Response) (s s' : Exchange) (c : Option Value)
      → Went s s'
      → Comes i s (challenged js settings world target r s' c)
  unfolding challenged emit
  challenged-Comes i r s s' none went = answered (ok r) _ (Went-emit s s' _ went refl refl)
  challenged-Comes i r s s' (some c) went =
      after_challenge-Comes i r s _ (Went-emit s s' _ went refl refl) refl

  complete-Comes :
      (i : ℕ) (proof : Option (Value × Text)) (r : Response) (s s' : Exchange)
      (m : Outcome (Option X402Store))
      → Went s s'
      → Comes i s (complete js settings world target proof r s' m)
  unfolding complete emit
  complete-Comes i proof r s s' (err e) went = answered (err e) s' went
  complete-Comes i proof r s s' (ok store) went =
      answered (ok r) _ (Went-emit s s' _ went refl refl)

  receive-Comes :
      (i : ℕ) (now : ℕ) (proof : Option (Value × Text)) (s s' : Exchange) (reply : Outcome Response)
      → Went s s'
      → Comes i s (receive js settings world target now proof s' reply)
  unfolding receive
  receive-Comes i now proof s s' (err e) went = answered (err e) s' went
  receive-Comes i now proof s s' (ok r) went = elim (Bool-cases (r.status == 402)) [
    | inl charged ↦ rw charged (challenged-Comes i r s s' (parse_x402_challenge r) went)
    | inr other ↦ rw other (
        complete-Comes i proof r s s' (mark_if_paid js settings world target now proof r s'.store)
          went)
  ]

  send-Comes :
      (i : ℕ) (now : ℕ) (proof : Option (Value × Text)) (header : Option Text) (s s' : Exchange)
      → Went s (record s' { sent = record { payment_header = header } ∷ s'.sent })
      → Comes i s (send js settings world target now proof header s')
  unfolding send
  send-Comes i now proof header s s' went =
      receive-Comes i now proof s _ (world.fetch s'.sent (record { payment_header = header })) went

  -- What a prepared proof leaves of the exchange
  Keeps : ℕ → Exchange → Prepared → Type 0
  Keeps i s (threw e s') = s'.sent ≡ s.sent
  Keeps i s (replayed s') =
      (s'.sent ≡ s.sent)
      × (s'.challenge ≡ s.challenge)
      × (s'.payment_attempts ≡ s.payment_attempts + 1)
      × Replays i s s'
  Keeps i s (ready proof hash header s') =
      (s'.sent ≡ s.sent) × (s'.payment_attempts ≡ s.payment_attempts + 1)

  with_made-Keeps :
      (i : ℕ) (s : Exchange) (create_proof : Provider) (made : Outcome Value × Option X402Store)
      → should_attach_proof js settings world target s ≡ true
      → world.create_proof ≡ some create_proof
      → create_proof (proof_request js settings world target s) s.store ≡ made
      → Keeps i s (with_made js settings world target (world.tested_at i) s made)
  unfolding Keeps with_made settle_proof check_proof emit
  with_made-Keeps i s create_proof (err e, store) paid given called = refl
  with_made-Keeps i s create_proof (ok proof, store) paid given called =
      elim (Outcome-cases (proof_hash_of js settings world target proof)) [
        | inl (e, failed) ↦ rw failed refl
        | inr (hash, hashed) ↦ elim (Outcome-cases (consumed_in store hash (world.tested_at i))) [
          | inl (e, failed) ↦ rw (hashed, failed) refl
          | inr (consumed, tested) ↦ elim (Bool-cases consumed) [
            | inl spent ↦
                rw (hashed, tested, spent)
                  (
                    refl,
                    refl,
                    refl,
                    replays create_proof proof hash paid given called hashed (tested ∙ ap ok spent),
                  )
            | inr fresh ↦ elim (Outcome-cases (encode_proof_header js proof)) [
              | inl (e, failed) ↦ rw (hashed, tested, fresh, failed) refl
              | inr (header, encoded) ↦ rw (hashed, tested, fresh, encoded) (refl, refl)
            ]
          ]
        ]
      ]

  prepare_proof-Keeps :
      (i : ℕ) (s : Exchange) (provider : Option Provider)
      → should_attach_proof js settings world target s ≡ true
      → world.create_proof ≡ provider
      → Keeps i s (prepare_proof js settings world target provider (world.tested_at i) s)
  unfolding Keeps prepare_proof
  prepare_proof-Keeps i s none paid given = refl
  prepare_proof-Keeps i s (some create_proof) paid given =
      with_made-Keeps i s create_proof _ paid given refl

  send_prepared-Comes :
      (i : ℕ) (now : ℕ) (s : Exchange) (prepared : Prepared)
      → Keeps i s prepared
      → Comes i s (send_prepared js settings world target now prepared)
  unfolding Keeps send_prepared
  send_prepared-Comes i now s (threw e s') sent = gave_up e s' sent
  send_prepared-Comes i now s (replayed s') (sent, asked, counted, spent) =
      skipped s' sent asked counted spent
  send_prepared-Comes i now s (ready proof hash header s') (sent, counted) =
      send-Comes i now (some (proof, hash)) (some header) s s'
        (went_paid header (ap (λ l. record { payment_header = some header } ∷ l) sent) counted)

  pub round-Comes : (i : ℕ) (s : Exchange) → Comes i s (round js settings world target i s)
  unfolding round
  round-Comes i s = elim (Bool-cases (should_attach_proof js settings world target s)) [
    | inl paid ↦ rw paid (
        send_prepared-Comes i (world.answered_at i) s _
          (prepare_proof-Keeps i s world.create_proof paid refl))
    | inr bare ↦ rw bare (
        send-Comes i (world.answered_at i) none none s
          (record s { attempted_without_payment = true }) (went_unpaid refl refl bare))
  ]
