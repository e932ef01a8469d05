-- ===== src/X402/Client/Bare.antt =====
-- A round of `request` (packages/x402-client/src/client.js) that attaches no proof: what it leaves of
-- the client's store.
use stackflow.Common.{
  ℕ, ◌==◌, ◌≡◌, refl, false, Option, none, leb, Bool-cases, Option-cases, inl, inr, is_some,
}
use stackflow.Js.Outcome.{Outcome-cases, ok}
use stackflow.X402.Store.{X402Store}
use stackflow.X402.Client.{
  Runtime, Settings, Outside, Target, Response, Exchange, Round, again, ends, Sent, round,
  should_attach_proof, parse_x402_challenge, send, receive, challenged, after_challenge, emit,
  complete, mark_if_paid,
}

-- The store after a round
abbrev pub store_after : Round → Option X402Store
store_after (again s) = s.store
store_after (ends result s) = s.store

module _ (js : Runtime) (settings : Settings) (world : Outside) (target : Target) where
  after_challenge-kept :
      (r : Response) (s : Exchange)
      → store_after (after_challenge js settings world target r s) ≡ s.store
  unfolding after_challenge
  after_challenge-kept r s = elim (Bool-cases (is_some world.create_proof)) [
    | inr missing ↦ rw missing refl
    | inl given ↦ elim (Bool-cases (leb settings.max_payment_attempts s.payment_attempts)) [
      | inl over ↦ rw (given, over) refl
      | inr left ↦ rw (given, left) refl
    ]
  ]

  receive-kept :
      (now : ℕ) (r : Response) (s : Exchange)
      → store_after (receive js settings world target now none s (ok r)) ≡ s.store
  unfolding receive challenged emit complete mark_if_paid
  receive-kept now r s = elim (Bool-cases (r.status == 402)) [
    | inr other ↦ rw other refl
    | inl charged ↦ elim (Option-cases (parse_x402_challenge r)) [
      | inl unparsed ↦ rw (charged, unparsed) refl
      | inr (c, parsed) ↦ rw (charged, parsed) (after_challenge-kept r _)
    ]
  ]

  -- A round without a proof leaves the store alone.
  pub bare_round-kept :
      (i : ℕ) (s : Exchange)
      → should_attach_proof js settings world target s ≡ false
      → store_after (round js settings world target i s) ≡ s.store
  unfolding round send receive
  bare_round-kept i s bare =
      let new : Sent = record { payment_header = none } in
      elim (Outcome-cases (world.fetch s.sent new)) [
        | inl (e, failed) ↦ rw (bare, failed) refl
        | inr (r, fetched) ↦ rw (bare, fetched) (receive-kept (world.answered_at i) r _)
      ]
