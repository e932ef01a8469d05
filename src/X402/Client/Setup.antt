-- ===== src/X402/Client/Setup.antt =====
-- packages/x402-client/src/client.js: the platform that it uses, the constructor of its class, the body of
-- a request, the hash of a proof (of sqlite-state-store.js) and the payment challenge in a response.
use stackflow.Common.{
  ℕ, ◌-◌, Bool, not, ◌&&◌, Option, none, some, List, [], ◌∷◌, ◌++◌, leb, ◌==◌, if◌then◌else◌,
}
use stackflow.Js.Text.{Text, codes, is_empty, trim}
use stackflow.Js.Outcome.{
  Outcome, ok, err, ◌>>=◌, ◌>>◌, require, must_be_non_empty, is_required, stream_cannot_be_retried,
}
use stackflow.Js.Value.{Value, str, truthy, is_record, get, to_text}
use stackflow.Agent.Utils.{trimmed_text}
use stackflow.Agent.Service.Accept.{is_text}
use stackflow.X402.Numbers.{normalize_int}

-- The platform: `new URL` without path, query and fragment, SHA-256 as hex digits, JSON, base64url.
pub record Runtime : Type 0 where
  pub origin_of : Text → Outcome Text
  pub sha256_hex : Text → Text
  pub json_text : Value → Outcome Text
  pub base64url : Text → Text

upper_unit : ℕ → ℕ
upper_unit c = if leb 97 c && leb c 122 then c - 32 else c

-- `toUpperCase` of a method, which has no letter outside ASCII
unfoldable pub upper : Text → Text
unfolding upper_unit
upper [] = []
upper (c ∷ s) = upper_unit c ∷ upper s

or_text : Text → Text → Text
or_text text default = if is_empty text then default else text

unfoldable pub compute_proof_hash : Runtime → Text → Text → Value → Outcome Text
unfolding or_text
compute_proof_hash js method path_query proof = do
  json ← js.json_text proof
  ok (
      js.sha256_hex (
        upper (or_text method (codes "GET")) ++ 10 ∷ (or_text path_query (codes "/") ++ 10 ∷ json)))

unfoldable pub encode_proof_header : Runtime → Value → Outcome Text
encode_proof_header js proof = do json ← js.json_text proof; ok (js.base64url json)

unfoldable pub drop_slash : Text → Text
drop_slash [] = []
drop_slash (c ∷ []) = if c == b'/' then [] else c ∷ []
drop_slash (c ∷ d ∷ s) = let rest = drop_slash (d ∷ s) in c ∷ rest

unfoldable pub normalize_base_url : Runtime → Value → Outcome Text
normalize_base_url js v = do
  require (not (is_empty (trimmed_text v))) (is_required "gatewayBaseUrl")
  parsed ← js.origin_of (trimmed_text v)
  ok (drop_slash parsed)

-- The kinds of request body that the code tells apart
pub data Body : Type 0 where
  no_body : Body
  text_body : Text → Body
  bytes_body : List ℕ → Body
  form_body : Body
  -- an object with `getReader`
  stream_body : Body
  other_body : Body

unfoldable pub ensure_retryable_body : Body → Outcome (Unit {0})
ensure_retryable_body stream_body = err stream_cannot_be_retried
ensure_retryable_body _ = ok tt

-- `body` is none where `response.json()` throws.
pub record Response : Type 0 where
  pub status : ℕ
  pub body : Option Value

payment_challenge : Value → Option Value
payment_challenge body =
    if is_record body
      && is_record (get body "payment")
      && is_text (get body "error") (codes "payment required")
    then some body
    else none

unfoldable pub parse_x402_challenge : Response → Option Value
unfolding payment_challenge
parse_x402_challenge r = if r.status == 402 then from_body r.body else none
  where
    from_body : Option Value → Option Value
    from_body none = none
    from_body (some body) = payment_challenge body

pub record ClientOptions : Type 0 where
  pub gateway_base_url : Value
  pub proactive : Value
  pub max_attempts : Value
  pub header_name : Value
  pub replay_ttl_ms : Value
  pub has_fetch : Bool

pub record Settings : Type 0 where
  pub gateway_url : Text
  pub proactive_payment : Bool
  pub max_payment_attempts : ℕ
  pub payment_header_name : Text
  pub local_replay_ttl_ms : ℕ

-- The constructor of `X402Client`
unfoldable pub new_client : Runtime → ClientOptions → Outcome Settings
new_client js options = do
  gateway_url ← normalize_base_url js options.gateway_base_url
  max_payment_attempts ← normalize_int options.max_attempts 2 "maxPaymentAttempts"
  let name : Value =
      if truthy options.header_name then options.header_name else str (codes "x-x402-payment")
  require (not (is_empty (trim (to_text name)))) (must_be_non_empty "paymentHeaderName")
  ttl ← normalize_int options.replay_ttl_ms 60000 "localReplayTtlMs"
  require options.has_fetch (is_required "fetchFn")
  ok (record {
    gateway_url = gateway_url;
    proactive_payment = truthy options.proactive;
    max_payment_attempts = max_payment_attempts;
    payment_header_name = trim (to_text name);
    local_replay_ttl_ms = ttl;
  })
