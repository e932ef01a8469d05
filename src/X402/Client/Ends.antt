-- ===== src/X402/Client/Ends.antt =====
-- The loop of `request` (packages/x402-client/src/client.js) where no proof is skipped as consumed.
use stackflow.X402.Client.Attempts.{Running, begun, next}
use stackflow.Common.{
  ℕ, zero, suc, ◌+◌, ◌≤◌, ◌<◌, ◌≡◌, ◌≢◌, refl, true, Option, some, arith, is_some, inl, inr,
}
use stackflow.Js.Text.{Text}
use stackflow.Js.Value.{Value}
use stackflow.Js.Outcome.{Outcome, ok, err, Outcome-cases}
use stackflow.X402.Store.{X402Store}
use stackflow.X402.Client.{
  Runtime, Settings, Outside, Target, Response, Exchange, Round, again, ends, fresh_exchange, round,
  rounds, request, Body, Provider, ensure_retryable_body, proof_hash_of, consumed_in,
  should_attach_proof, proof_request,
}
use stackflow.X402.Client.Rounds.{
  Went, went_paid, went_unpaid, Comes, gave_up, skipped, answered, retried, replays, round-Comes,
}

module _ (js : Runtime) (settings : Settings) (world : Outside) (target : Target) where
  -- Whenever the loop, begun with this store, asks for a proof, the proof that the provider makes is
  -- not consumed at the replay test of that round.
  abbrev pub NeverReplays : Option X402Store → Type 0
  NeverReplays store =
      (i : ℕ) (s : Exchange) (create_proof : Provider) (store' : Option X402Store) (proof : Value)
      (hash : Text)
      → Running js settings world target store i s
      → should_attach_proof js settings world target s ≡ true
      → world.create_proof ≡ some create_proof
      → create_proof (proof_request js settings world target s) s.store ≡ (ok proof, store')
      → proof_hash_of js settings world target proof ≡ ok hash
      → consumed_in store' hash (world.tested_at i) ≢ ok true

  module _ (store : Option X402Store) (fresh : NeverReplays store) where
    -- A round ends the request, or a challenge is there and attempts are left, fewer after a challenge.
    Goes : Exchange → Round → Type 0
    Goes s (ends result s') = Unit
    Goes s (again s') =
        (is_some s'.challenge ≡ true)
        × (s'.payment_attempts < settings.max_payment_attempts)
        × (is_some s.challenge ≡ true → s'.payment_attempts ≡ s.payment_attempts + 1)

    Went-counted :
        (s s' : Exchange)
        → Went js settings world target s s'
        → is_some s.challenge ≡ true
        → s'.payment_attempts ≡ s.payment_attempts + 1
    unfolding should_attach_proof
    Went-counted s s' (went_paid header sent counted) asked = counted
    Went-counted s s' (went_unpaid sent counted bare) asked = absurd (cc (simp asked at bare))

    Comes-Goes :
        (i : ℕ) (s : Exchange) (r : Round)
        → Running js settings world target store i s
        → Comes js settings world target i s r
        → Goes s r
    unfolding Goes
    Comes-Goes i s _ run (gave_up e s' sent) = tt
    Comes-Goes i s _ run
          (skipped s' sent asked counted
            (replays create_proof proof hash attach given made hashed spent)) =
        absurd (fresh i s create_proof s'.store proof hash run attach given made hashed spent)
    Comes-Goes i s _ run (answered result s' went) = tt
    Comes-Goes i s _ run (retried s' went has left) = (has, left, Went-counted s s' went)

    Finishes : ℕ → ℕ → Exchange → Type 0
    Finishes fuel i s =
        (result : Outcome Response) × (s' : Exchange) × (rounds js settings world target fuel i s
          ≡ some (result, s'))

    after_round :
        (fuel i : ℕ) (s : Exchange) (r : Round)
        → Goes s r
        → round js settings world target i s ≡ r
        → ((s' : Exchange) → Goes s (again s') → r ≡ again s' → Finishes fuel (suc i) s')
        → Finishes (suc fuel) i s
    unfolding Finishes rounds
    after_round fuel i s (ends result s') goes went continue = (result, s', rw went refl)
    after_round fuel i s (again s') goes went continue =
        let (result, end, reached) = continue s' goes refl in (result, end, rw went reached)

    -- With a challenge, as much fuel as attempts are left is enough.
    asked-Finishes :
        (fuel i : ℕ) (s : Exchange)
        → Running js settings world target store i s
        → is_some s.challenge ≡ true
        → s.payment_attempts < settings.max_payment_attempts
        → settings.max_payment_attempts ≤ fuel + s.payment_attempts
        → Finishes fuel i s
    unfolding Goes
    asked-Finishes zero i s run asked left enough = absurd (omega arith)
    asked-Finishes (suc fuel) i s run asked left enough =
        after_round fuel i s _ (Comes-Goes i s _ run (round-Comes js settings world target i s))
          refl
          λ s' (has, more, counts) went.
            let step = counts asked in
            asked-Finishes fuel (suc i) s' (next s' run went) has more (omega arith)

    fresh_exchange-Finishes :
        (fuel : ℕ)
        → suc settings.max_payment_attempts ≤ fuel
        → Finishes fuel 0 (fresh_exchange store)
    unfolding Goes
    fresh_exchange-Finishes zero enough = absurd (omega arith)
    fresh_exchange-Finishes (suc fuel) enough =
        after_round fuel 0 (fresh_exchange store) _
          (Comes-Goes 0 (fresh_exchange store) _ begun
            (round-Comes js settings world target 0 (fresh_exchange store)))
          refl
          λ s' (has, more, counts) went.
            asked-Finishes fuel 1 s' (next s' begun went) has more (omega arith)

    -- If, in the rounds of a request that ask for a proof, the provider makes no proof that is consumed
    -- at that round's replay test, the request ends within maxPaymentAttempts + 1 rounds, with a
    -- response or an error.
    pub request-Ends :
        (fuel : ℕ) (body : Body)
        → suc settings.max_payment_attempts ≤ fuel
        → (result : Outcome Response) × (s : Exchange) × (request js settings world target fuel body
              store
            ≡ some (result, s))
    unfolding Finishes request
    request-Ends fuel body enough = elim (Outcome-cases (ensure_retryable_body body)) [
      | inl (e, refused) ↦ (err e, fresh_exchange store, rw refused refl)
      | inr (_, replayable) ↦
          let (result, end, reached) = fresh_exchange-Finishes fuel enough in
          (result, end, rw replayable reached)
    ]
