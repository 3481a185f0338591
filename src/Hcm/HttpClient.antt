-- ===== src/Hcm/HttpClient.antt =====
-- hcm/http-hcm.client.ts: the HTTP client of the HCM. `fetch`, the network behind it and the server
-- are a parameter; a call starts at the time `now` and its outcome is recorded at `later`.
pub mod Breaking
use hcm.Prelude.{
  Bool, List, [], ◌∷◌, Option, none, some, ◌==◌, ◌<>◌, ◌||◌, leb, eqb, show_ℕ, ℕ, String,
  if◌then◌else◌,
}
use hcm.Common.CircuitBreaker.{
  CircuitBreakerOptions, CircuitBreaker, can_attempt, record_success, record_failure,
}
use hcm.Hcm.Core.{Answer, RejectionCode, HcmBalanceRow, ApplyDeltaCommand, ApplyDeltaAck}
use hcm.Hcm.Client.{HcmClient}

-- The two optional fields that `parse` reads of an error's body.
pub record ErrorBody : Type 0 where
  pub code : Option String
  pub message : Option String

-- What `res.json()` gives as the body of an error: an object, `null`, with the text of the exception
-- that reading a field of it throws, or a rejection.
pub data ErrorJson : Type 0 where
  fields : ErrorBody → ErrorJson
  null_value : String → ErrorJson
  not_json : ErrorJson

-- What `res.json()` gives as a result: a value, or a rejection with this text.
pub data Json (A : Type 0) : Type 0 where
  read : A → Json A
  unreadable : String → Json A

-- A `Response`, with its body as the result of a call and as the body of an error.
pub record Response (A : Type 0) : Type 0 where
  pub ok : Bool
  pub status : ℕ
  pub payload : Json A
  pub failure : ErrorJson

-- The outcome of the global `fetch`: a response, or an exception with this text.
pub data Fetched (A : Type 0) : Type 0 where
  response : Response A → Fetched A
  dropped : String → Fetched A

-- What `fn` does: it returns or throws an error of the HCM, or throws another error of this text.
pub data Attempt (A : Type 0) : Type 0 where
  answered : Answer A → Attempt A
  failed : String → Attempt A

-- The branches of the `try`: the outcome is recorded at the time `later`.
unfoldable pub finish :
    {A : Type 0}
    → CircuitBreakerOptions
    → ℕ
    → Attempt A
    → CircuitBreaker
    → Answer A × CircuitBreaker
finish opts later (answered (Answer.returns a)) b = (Answer.returns a, record_success b)
finish opts later (answered (Answer.rejection code message)) b = (Answer.rejection code message, b)
finish opts later (answered (Answer.unavailable message)) b =
    (Answer.unavailable message, record_failure opts later b)
finish opts later (failed text) b = (Answer.unavailable text, record_failure opts later b)

unfoldable pub guarded :
    {A : Type 0}
    → CircuitBreakerOptions
    → ℕ
    → ℕ
    → Attempt A
    → CircuitBreaker
    → Answer A × CircuitBreaker
guarded opts now later attempt b =
    let (allowed, b') = can_attempt opts now b in
    if allowed then finish opts later attempt b' else (Answer.unavailable "HCM circuit is open", b')

abbrev pub or_else : Option String → String → String
or_else none default = default
or_else (some text) default = text

-- `body.code === 'INVALID_DIMENSIONS' ? … : …`
abbrev pub rejection_code : Option String → RejectionCode
rejection_code none = RejectionCode.insufficient_balance
rejection_code (some code) =
    if code == "INVALID_DIMENSIONS"
    then RejectionCode.invalid_dimensions
    else RejectionCode.insufficient_balance

-- `parse` of a response that is not `ok`.
unfoldable pub parse_error : {A : Type 0} → ℕ → ErrorBody → Answer A
parse_error status body =
    if leb 500 status || eqb status 429
    then Answer.unavailable
        ("HCM " <> (show_ℕ status <> (": " <> or_else body.message "server error")))
    else Answer.rejection (rejection_code body.code)
        (or_else body.message ("HCM rejected with " <> show_ℕ status))

-- The rest of `parse` for such a response: `body` is `{}` when there is no JSON, and `null.message` and
-- `null.code` throw.
abbrev pub parse_failure : {A : Type 0} → ℕ → ErrorJson → Attempt A
parse_failure status (fields body) = answered (parse_error status body)
parse_failure status (null_value text) = failed text
parse_failure status not_json =
    answered (parse_error status (record { code = none; message = none }))

unfoldable pub parse : {A : Type 0} → Response A → Attempt A
parse res =
    if res.ok
    then (elim res.payload [ read a ↦ answered (Answer.returns a) | unreadable text ↦ failed text ])
    else parse_failure res.status res.failure

-- The body of a call that is guarded: `fetch`, then `parse`.
unfoldable pub attempt_of : {A : Type 0} → Fetched A → Attempt A
attempt_of (response res) = parse res
attempt_of (dropped text) = answered (Answer.unavailable ("HCM transport error: " <> text))

-- The server behind `baseUrl`, with the requests that reach it. A path is given by its segments,
-- which `encodeURIComponent` keeps apart.
pub record Network (Server : Type 0) : Type 0 where
  pub get : List String → Server → Fetched HcmBalanceRow × Server
  pub post : List String → ApplyDeltaCommand → Server → Fetched ApplyDeltaAck × Server

-- `guarded` around a call over the network: the request is sent only if the breaker allows it.
unfoldable pub send :
    {A Server : Type 0}
    → CircuitBreakerOptions
    → ℕ
    → ℕ
    → (Server → Fetched A × Server)
    → CircuitBreaker × Server
    → Answer A × (CircuitBreaker × Server)
send opts now later request (breaker, server) =
    let (fetched, server') = request server in
    let (answer, breaker') = guarded opts now later (attempt_of fetched) breaker in
    (answer, (breaker', if (can_attempt opts now breaker).0 then server' else server))

module _ {Server : Type 0} (net : Network Server) (opts : CircuitBreakerOptions)
    (now later : ℕ) where
  unfoldable pub get_balance :
      String → String → CircuitBreaker × Server → Answer HcmBalanceRow × (CircuitBreaker × Server)
  get_balance employee_id location_id =
      send opts now later (net.get ("balances" ∷ employee_id ∷ location_id ∷ []))

  unfoldable pub apply_delta :
      ApplyDeltaCommand → CircuitBreaker × Server → Answer ApplyDeltaAck × (CircuitBreaker × Server)
  apply_delta cmd = send opts now later (net.post ("apply" ∷ []) cmd)

  -- `HttpHcmClient`, the defaults of whose options `http_options` gives.
  abbrev pub http_client : HcmClient
  http_client = record {
    State = CircuitBreaker × Server;
    get_balance = get_balance;
    apply_delta = apply_delta;
  }

-- `opts.failureThreshold ?? 5` and `opts.cooldownMs ?? 10000`
abbrev pub http_options : Option ℕ → Option ℕ → CircuitBreakerOptions
http_options failure_threshold cooldown_ms = record {
  failure_threshold = elim failure_threshold [ none ↦ 5 | some n ↦ n ];
  cooldown_ms = elim cooldown_ms [ none ↦ 10000 | some n ↦ n ];
}
