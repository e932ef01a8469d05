-- ===== src/X402/Client/Attempts.antt =====
-- What `request` of packages/x402-client/src/client.js sends: paid requests and unpaid ones.
use stackflow.Common.{
  ℕ, suc, ◌+◌, ◌≤◌, ◌<◌, ◌≡◌, refl, sym, ◌∙◌, ap, Bool, true, false, Option, none, some, List, [],
  ◌∷◌, arith, is_some, ◌||◌,
}
use mathlib.Core.Path.{subst}
use stackflow.X402.Store.{X402Store}
use stackflow.X402.Client.{
  Runtime, Settings, Outside, Target, Sent, Exchange, Round, again, ends, fresh_exchange, round,
  rounds, should_attach_proof,
}
use stackflow.X402.Client.Rounds.{
  Went, went_paid, went_unpaid, Comes, gave_up, skipped, answered, retried, round-Comes,
}

unfoldable pub paid_count : List Sent → ℕ
paid_count [] = 0
paid_count (r ∷ rs) = elim r.payment_header [
  | some header ↦ suc (paid_count rs)
  | none ↦ paid_count rs
]

unfoldable pub unpaid_count : List Sent → ℕ
unpaid_count [] = 0
unpaid_count (r ∷ rs) = elim r.payment_header [
  | some header ↦ unpaid_count rs
  | none ↦ suc (unpaid_count rs)
]

abbrev pub left_by : Round → Exchange
left_by (again s) = s
left_by (ends result s) = s

module _ (js : Runtime) (settings : Settings) (world : Outside) (target : Target) where
  -- The states that the loop comes back to
  pub data Running (store : Option X402Store) : ℕ → Exchange → Type 0 where
    begun : Running store 0 (fresh_exchange store)
    next :
        {i : ℕ} {s : Exchange} (s' : Exchange)
        → Running store i s
        → round js settings world target i s ≡ again s'
        → Running store (suc i) s'

  -- From the state that `i` rounds lead to, the loop goes on as it would have from the start.
  pub Running-rounds :
      {store : Option X402Store} {i : ℕ} {s : Exchange} (fuel : ℕ)
      → Running store i s
      → rounds js settings world target (i + fuel) 0 (fresh_exchange store)
        ≡ rounds js settings world target fuel i s
  unfolding rounds
  Running-rounds {store = store} fuel begun =
      let unshifted : 0 + fuel ≡ fuel = omega arith in
      ap (λ n. rounds js settings world target n 0 (fresh_exchange store)) unshifted
  Running-rounds {store = store} fuel (next {i = i} {s = s} s' run went) =
      let shifted : suc i + fuel ≡ i + suc fuel = omega arith in
      ap (λ n. rounds js settings world target n 0 (fresh_exchange store)) shifted
      ∙ Running-rounds (suc fuel) run
      ∙ rw went refl

  -- The counts that hold whenever a round begins
  record Within (s : Exchange) : Type 0 where
    counted : paid_count s.sent ≤ s.payment_attempts
    below : paid_count s.sent < settings.max_payment_attempts
    once : unpaid_count s.sent ≤ 1
    unasked : is_some s.challenge ≡ false → unpaid_count s.sent ≡ 0

  -- ... and whenever a request went out
  abbrev pub Bounded : Exchange → Type 0
  Bounded s = (paid_count s.sent ≤ settings.max_payment_attempts) × (unpaid_count s.sent ≤ 1)

  or_false : (a b : Bool) → (a || b) ≡ false → a ≡ false
  or_false true b e = e
  or_false false b e = refl

  bare-unasked :
      (s : Exchange)
      → should_attach_proof js settings world target s ≡ false
      → is_some s.challenge ≡ false
  unfolding should_attach_proof
  bare-unasked s bare = or_false (is_some s.challenge) _ bare

  Went-Bounded :
      (s s' : Exchange)
      → Within s
      → Went js settings world target s s'
      → Bounded s' × (paid_count s'.sent ≤ s'.payment_attempts)
  unfolding paid_count unpaid_count
  Went-Bounded s s' within (went_paid header sent counted) =
      let a = within.counted in
      let b = within.below in
      let c = within.once in rw (sent, counted) ((omega arith, c), omega arith)
  Went-Bounded s s' within (went_unpaid sent counted bare) =
      let a = within.counted in
      let b = within.below in
      let none_yet = within.unasked (bare-unasked s bare) in
      rw (sent, counted) ((omega arith, omega arith), a)

  -- What a round leaves
  After : Round → Type 0
  After (again s') = Within s'
  After (ends result s') = Bounded s'

  Comes-After :
      (i : ℕ) (s : Exchange) (r : Round) → Within s → Comes js settings world target i s r → After r
  unfolding After
  Comes-After i s _ within (gave_up e s' sent) =
      let b = within.below in let c = within.once in rw sent (omega arith, c)
  Comes-After i s _ within (skipped s' sent asked counted spent) =
      let a = within.counted in
      let b = within.below in
      let c = within.once in
      record {
        counted = rw (sent, counted) (omega arith);
        below = rw sent b;
        once = rw sent c;
        unasked = λ e. rw sent (within.unasked (sym (ap is_some asked) ∙ e));
      }
  Comes-After i s _ within (answered result s' went) = (Went-Bounded s s' within went).0
  Comes-After i s _ within (retried s' went has left) =
      let ((paid, unpaid), counted) = Went-Bounded s s' within went in
      record {
        counted = counted;
        below = omega arith;
        once = unpaid;
        unasked = λ e. absurd (cc (sym has ∙ e));
      }

  Running-Within :
      {store : Option X402Store} {i : ℕ} {s : Exchange}
      → 0 < settings.max_payment_attempts
      → Running store i s
      → Within s
  unfolding After paid_count unpaid_count
  Running-Within some_attempt begun = record {
    counted = omega arith;
    below = some_attempt;
    once = omega arith;
    unasked = λ _. refl;
  }
  Running-Within some_attempt (next {i = i} {s = s} s' run went) = subst After went (
      Comes-After i s _ (Running-Within some_attempt run)
        (round-Comes js settings world target i s))

  After-Bounded : (r : Round) → After r → Bounded (left_by r)
  unfolding After
  After-Bounded (again s) within = let b = within.below in let c = within.once in (omega arith, c)
  After-Bounded (ends result s) bounded = bounded

  -- If maxPaymentAttempts is above 0, then after each round of a request, also one that ends the
  -- request with a response or an error, at most maxPaymentAttempts paid requests and at most one
  -- unpaid request went out.
  pub Running-Bounded :
      (store : Option X402Store) (i : ℕ) (s : Exchange)
      → 0 < settings.max_payment_attempts
      → Running store i s
      → (paid_count (left_by (round js settings world target i s)).sent
          ≤ settings.max_payment_attempts)
        × (unpaid_count (left_by (round js settings world target i s)).sent ≤ 1)
  Running-Bounded store i s some_attempt run = After-Bounded _ (
      Comes-After i s _ (Running-Within some_attempt run)
        (round-Comes js settings world target i s))
