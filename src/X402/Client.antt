-- ===== src/X402/Client.antt =====
-- packages/x402-client/src/client.js: one HTTP request, its payment challenges and its paid retries.
-- The URL parser, SHA-256, JSON and base64url are fields of a record, and so are the proof provider,
-- the network and the clock.
mod Setup
pub mod Rounds
pub mod Attempts
pub mod Bare
pub mod Ends
pub mod Replay
pub use stackflow.X402.Client.Setup.{
  Runtime, Body, no_body, text_body, bytes_body, form_body, stream_body, other_body, Response,
  ClientOptions, Settings,
}
unfoldable pub use stackflow.X402.Client.Setup.{
  upper, compute_proof_hash, encode_proof_header, drop_slash, normalize_base_url,
  ensure_retryable_body, parse_x402_challenge, new_client,
}
use stackflow.Common.{
  ℕ, zero, suc, ◌+◌, ◌-◌, Bool, true, false, not, ◌&&◌, ◌||◌, Option, none, some, List, [], ◌∷◌,
  ◌++◌, leb, ltb, ◌==◌, if◌then◌else◌, is_some,
}
use stackflow.Js.Text.{Text, is_empty}
use stackflow.Js.Outcome.{Outcome, ok, err, Error, ◌>>=◌, ◌>>◌, proof_provider_required}
use stackflow.Js.Value.{Value, str, number, nat, truthy, get}
use stackflow.X402.Store.{X402Store, is_proof_consumed, mark_consumed_proof}

-- What stays the same during a request: its method in upper case and its URL.
pub record Target : Type 0 where
  pub method : Text
  pub url : Text
  pub path : Text
  pub search : Text

-- What `createProof` is given, besides the settings and the stores
pub record ProofRequest : Type 0 where
  pub for_target : Target
  pub challenge : Option Value
  pub payment_attempt : ℕ

-- A request that went out, with its payment header
pub record Sent : Type 0 where
  pub payment_header : Option Text

-- The events of `emitEvent`, which all carry the method and the path besides
pub data Event : Type 0 where
  proof_skip_local_replay : Text → Event
  request_complete : ℕ → Bool → Event
  challenge_unparseable : ℕ → Event
  challenge_received : Value → Event

-- `createProof`: the proof or an error, and the store, which it may have used
abbrev pub Provider : Type 0
Provider = ProofRequest → Option X402Store → Outcome Value × Option X402Store

-- The proof provider, and the network, which knows the earlier requests
-- (newest first), and the clock in the i-th round: at the replay test and after the response
pub record Outside : Type 0 where
  pub create_proof : Option Provider
  pub fetch : List Sent → Sent → Outcome Response
  pub tested_at : ℕ → ℕ
  pub answered_at : ℕ → ℕ

-- The variables of the loop, with the store, the requests sent and the events, newest first
pub record Exchange : Type 0 where
  pub challenge : Option Value
  pub payment_attempts : ℕ
  pub attempted_without_payment : Bool
  pub store : Option X402Store
  pub sent : List Sent
  pub events : List Event

abbrev pub fresh_exchange : Option X402Store → Exchange
fresh_exchange store = record {
  challenge = none;
  payment_attempts = 0;
  attempted_without_payment = false;
  store = store;
  sent = [];
  events = [];
}

pub data Prepared : Type 0 where
  replayed : Exchange → Prepared
  ready : Value → Text → Text → Exchange → Prepared
  threw : Error → Exchange → Prepared

pub data Round : Type 0 where
  again : Exchange → Round
  ends : Outcome Response → Exchange → Round

unfoldable pub consumed_in : Option X402Store → Text → ℕ → Outcome Bool
consumed_in none hash now = ok false
consumed_in (some s) hash now = is_proof_consumed (str hash) (number (nat now)) s

unfoldable pub mark_in : ℕ → Text → ℕ → Option X402Store → Outcome (Option X402Store)
mark_in now hash expires none = ok none
mark_in now hash expires (some s) = do
  marked ← mark_consumed_proof now (str hash) (number (nat expires)) s
  ok (some marked)

unfoldable pub emit : Event → Exchange → Exchange
emit e s = record s { events = e ∷ s.events }

unfoldable pub is_success : ℕ → Bool
is_success status = leb 200 status && ltb status 300

module _ (js : Runtime) (settings : Settings) (world : Outside) (target : Target) where
  unfoldable pub should_attach_proof : Exchange → Bool
  should_attach_proof s =
      is_some s.challenge
      || (settings.proactive_payment && ltb s.payment_attempts settings.max_payment_attempts)

  unfoldable pub proof_hash_of : Value → Outcome Text
  proof_hash_of proof = compute_proof_hash js target.method (target.path ++ target.search) proof

  -- From the proof to the request that carries it, if it was not consumed
  check_proof : ℕ → Exchange → Value → Outcome Prepared
  unfolding emit
  check_proof now s proof = do
    hash ← proof_hash_of proof
    consumed ← consumed_in s.store hash now
    if consumed
        then ok (replayed (emit (proof_skip_local_replay hash) s))
        else (encode_proof_header js proof >>= λ header. ok (ready proof hash header s))

  settle_proof : Exchange → Outcome Prepared → Prepared
  settle_proof s (err e) = threw e s
  settle_proof s (ok prepared) = prepared

  with_made : ℕ → Exchange → Outcome Value × Option X402Store → Prepared
  with_made now s (err e, store) = threw e (record s { store = store })
  with_made now s (ok proof, store) =
      let paid : Exchange = record s { payment_attempts = s.payment_attempts + 1; store = store } in
      settle_proof paid (check_proof now paid proof)

  unfoldable pub proof_request : Exchange → ProofRequest
  proof_request s = record {
    for_target = target;
    challenge = s.challenge;
    payment_attempt = s.payment_attempts + 1;
  }

  prepare_proof : Option Provider → ℕ → Exchange → Prepared
  unfolding check_proof settle_proof with_made
  prepare_proof none now s = threw proof_provider_required s
  prepare_proof (some create_proof) now s = with_made now s (create_proof (proof_request s) s.store)

  mark_if_paid :
      ℕ → Option (Value × Text) → Response → Option X402Store → Outcome (Option X402Store)
  mark_if_paid now none r store = ok store
  mark_if_paid now (some (_, hash)) r store =
      if not (is_empty hash) && is_success r.status
      then mark_in now hash (now + settings.local_replay_ttl_ms) store
      else ok store

  is_paid : Option (Value × Text) → Bool
  is_paid none = false
  is_paid (some (proof, _)) = truthy proof

  complete : Option (Value × Text) → Response → Exchange → Outcome (Option X402Store) → Round
  unfolding emit
  complete proof r s (err e) = ends (err e) s
  complete proof r s (ok store) =
      ends (ok r) (emit (request_complete r.status (is_paid proof)) (record s { store = store }))

  -- After a challenge
  after_challenge : Response → Exchange → Round
  after_challenge r s =
      if not (is_some world.create_proof)
      then ends (ok r) s
      else (if leb settings.max_payment_attempts s.payment_attempts
          then ends (ok r) s
          else again (record s {
            attempted_without_payment =
                if not s.attempted_without_payment && not settings.proactive_payment
                then true
                else s.attempted_without_payment;
          }))

  challenged : Response → Exchange → Option Value → Round
  unfolding emit
  challenged r s none = ends (ok r) (emit (challenge_unparseable r.status) s)
  challenged r s (some c) =
      after_challenge r
        (emit (challenge_received (get c "reason")) (record s { challenge = some c }))

  receive : ℕ → Option (Value × Text) → Exchange → Outcome Response → Round
  unfolding mark_if_paid complete challenged
  receive now proof s (err e) = ends (err e) s
  receive now proof s (ok r) =
      if r.status == 402
      then challenged r s (parse_x402_challenge r)
      else complete proof r s (mark_if_paid now proof r s.store)

  send : ℕ → Option (Value × Text) → Option Text → Exchange → Round
  unfolding receive
  send now proof header s =
      let new : Sent = record { payment_header = header } in
      receive now proof (record s { sent = new ∷ s.sent }) (world.fetch s.sent new)

  send_prepared : ℕ → Prepared → Round
  unfolding send
  send_prepared now (threw e s) = ends (err e) s
  send_prepared now (replayed s) = again s
  send_prepared now (ready proof hash header s) = send now (some (proof, hash)) (some header) s

  -- One round of the loop
  unfoldable pub round : ℕ → Exchange → Round
  unfolding prepare_proof send_prepared after_challenge is_paid
  round i s =
      if should_attach_proof s
      then send_prepared (world.answered_at i)
          (prepare_proof world.create_proof (world.tested_at i) s)
      else send (world.answered_at i) none none (record s { attempted_without_payment = true })

  go_round :
      (ℕ → Exchange → Option (Outcome Response × Exchange))
      → ℕ
      → Round
      → Option (Outcome Response × Exchange)
  go_round loop i (ends result s) = some (result, s)
  go_round loop i (again s) = loop (suc i) s

  -- The loop from round i on; none where the fuel runs out
  unfoldable pub rounds : ℕ → ℕ → Exchange → Option (Outcome Response × Exchange)
  unfolding go_round
  rounds zero i s = none
  rounds (suc fuel) i s = go_round (rounds fuel) i (round i s)

  unfoldable pub request : ℕ → Body → Option X402Store → Option (Outcome Response × Exchange)
  request fuel body store = try_body (ensure_retryable_body body)
    where
      try_body : Outcome (Unit {0}) → Option (Outcome Response × Exchange)
      try_body (err e) = some (err e, fresh_exchange store)
      try_body (ok _) = rounds fuel 0 (fresh_exchange store)
