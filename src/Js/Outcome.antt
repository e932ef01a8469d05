-- ===== src/Js/Outcome.antt =====
-- JavaScript's exceptions as values: the errors that the agent throws, one constructor to a message,
-- and the chain of steps that stops at the first error.
use stackflow.Common.{
  ℕ, String, ◌≡◌, refl, ◌⊎◌, inl, inr, Bool, true, false, Option, none, some, List,
}
use stackflow.Js.Text.{Text}

pub data Error : Type 0 where
  -- utils.js, db.js, agent-service.js, watcher.js: `${fieldName} must be ...`
  must_be_object must_be_non_empty_string must_be_non_empty must_be_unsigned : String → Error
  must_be_non_negative must_be_hex : String → Error
  not_a_closure_event event_and_state_required store_is_closed store_constraint : Error
  pipe_is_not_tracked : Text → Error
  amount_not_positive insufficient_balance actor_must_match : Error
  -- sqlite-state-store.js, pipe-state-source.js and client.js of the x402 client
  must_be_uint_string must_be_positive_integer must_be_principal : String → Error
  must_be_contract_id is_required must_be_function : String → Error
  lock_timed_out : Text → Error
  proof_provider_required stream_cannot_be_retried : Error
  returned_non_json request_failed : ℕ → Error
  -- server/src: `CounterpartyServiceError` with status code, message and details, also with the message
  -- of another error, and principal-utils.ts
  service_error : ℕ → String → List Text → Error
  wrapped : ℕ → Error → Error
  must_be_uint invalid_contract_id same_principals : Error
  must_be_principal_string : String → Error
  -- server/src/stackflow-node.ts: SignatureValidationError and PrincipalNotWatchedError
  signature_validation_error principal_not_watched_error : Text → Error
  -- an operation of the language fails: `JSON.stringify` of a bigint
  type_error : Error
  -- thrown by the wallet, the chain client or another callback
  external : Text → Error

pub data Outcome {ℓ} (A : Type ℓ) : Type ℓ where
  ok : A → Outcome A
  err : Error → Outcome A

infixl 5 ◌>>◌
module _ {ℓ κ} {A : Type ℓ} {B : Type κ} where
  infixl 5 ◌>>=◌
  -- A statement after one that may have thrown
  abbrev pub ◌>>=◌ : Outcome A → (A → Outcome B) → Outcome B
  err thrown >>= next = err thrown
  ok value >>= next = next value

abbrev pub ◌>>◌ {κ} : {B : Type κ} → Outcome (Unit {0}) → Outcome B → Outcome B
first >> second = first >>= λ _. second

-- `if (!test) throw error`
abbrev pub require : Bool → Error → Outcome (Unit {0})
require true e = ok tt
require false e = err e

-- `value == null ? null : f(value)` on a value that was read as an option
abbrev pub traverse {ℓ κ} :
    {A : Type ℓ} {B : Type κ} → (A → Outcome B) → Option A → Outcome (Option B)
traverse f none = ok none
traverse f (some a) = f a >>= λ b. ok (some b)

-- `try { ... } catch { throw ... }`
abbrev pub rethrow {ℓ} : {A : Type ℓ} → (Error → Error) → Outcome A → Outcome A
rethrow f (ok a) = ok a
rethrow f (err e) = err (f e)

-- A step that went through, for a proof that goes on from its value.
pub after_ok {ℓ κ μ} :
    {A : Type ℓ} {B : Type κ} {P : Type μ} (m : Outcome A) (f : A → Outcome B) {b : B}
    → (m >>= f) ≡ ok b
    → ((a : A) → m ≡ ok a → f a ≡ ok b → P)
    → P
after_ok (ok a) f h go = go a refl h
after_ok (err e) f h go = absurd (cc)

-- The value of the step and of what follows it
pub >>=-eq-ok {ℓ κ} :
    {A : Type ℓ} {B : Type κ} {result : B} (step : Outcome A) (rest : A → Outcome B)
    → (step >>= rest) ≡ ok result
    → (value : A) × (step ≡ ok value) × (rest value ≡ ok result)
>>=-eq-ok step rest h = after_ok step rest h λ value here after. (value, here, after)

pub Outcome-cases {ℓ} :
    {A : Type ℓ} (m : Outcome A) → ((e : Error) × (m ≡ err e)) ⊎ ((a : A) × (m ≡ ok a))
Outcome-cases (err e) = inl (e, refl)
Outcome-cases (ok a) = inr (a, refl)
