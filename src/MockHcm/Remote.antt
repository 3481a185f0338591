-- ===== src/MockHcm/Remote.antt =====
-- The HTTP client of hcm/http-hcm.client.ts over the server of mock-hcm/mock-hcm.controller.ts, beside
-- the in-process client.
use hcm.Prelude.{show_ℕ, ap, sym, ◌∙◌, ◌≡◌, refl, ℕ, String, true, false, ◌∷◌, [], ◌<>◌}
use text.Mathlib.TextLemmas.{append_assoc}
use hcm.Hcm.HttpClient.Breaking.{finish_answers}
use hcm.Hcm.Core
use hcm.Hcm.Core.{HcmCore, ApplyDeltaCommand, Answer, RejectionCode}
use hcm.Hcm.HttpClient
use hcm.Hcm.HttpClient.{
  Network, Fetched, Response, Json, ErrorJson, Attempt, send, parse, attempt_of, guarded, finish,
  parse_error,
}
use hcm.Common.CircuitBreaker.{CircuitBreaker, CircuitBreakerOptions, can_attempt}
use hcm.MockHcm
use hcm.MockHcm.{Reply, guard}

-- How a reply of Nest arrives at `fetch`: with its status, and its body in JSON.
abbrev pub transmit : {A : Type 0} → Reply A → Fetched A
transmit (Reply.returned a) =
    Fetched.response
      (record { ok = true; status = 200; payload = Json.read a; failure = ErrorJson.not_json })
transmit (Reply.thrown body status) = Fetched.response (record {
  ok = false;
  status = status;
  payload = Json.unreadable "";
  failure = ErrorJson.fields body;
})

-- The network delivers each request to the route of the mock server, and its reply back.
pub record ReachesMock (net : Network HcmCore) (now : String) : Type 0 where
  pub get_lem :
      (e l : String) (core : HcmCore)
      → net.get ("balances" ∷ e ∷ l ∷ []) core
        ≡ (let (reply, core') = MockHcm.get_balance e l now core in (transmit reply, core'))
  pub post_lem :
      (cmd : ApplyDeltaCommand) (core : HcmCore)
      → net.post ("apply" ∷ []) cmd core
        ≡ (let (reply, core') = MockHcm.apply cmd now core in (transmit reply, core'))

-- What crossing the network does to an answer: only the text of a transient failure changes.
abbrev pub over_http : {A : Type 0} → Answer A → Answer A
over_http (Answer.returns a) = Answer.returns a
over_http (Answer.rejection code message) = Answer.rejection code message
over_http (Answer.unavailable message) = Answer.unavailable ("HCM 503: " <> message)

prefixed : (m : String) → "HCM " <> (show_ℕ 503 <> (": " <> m)) ≡ "HCM 503: " <> m
unfolding show_ℕ
prefixed m =
    ap (λ t. "HCM " <> t) (sym (append_assoc "503" ": " m)) ∙ sym (append_assoc "HCM " "503: " m)

parsed :
    {A : Type 0} (answer : Answer A)
    → attempt_of (transmit (guard answer)) ≡ Attempt.answered (over_http answer)
unfolding attempt_of guard parse parse_error
parsed (Answer.returns a) = refl
parsed (Answer.rejection RejectionCode.insufficient_balance message) = refl
parsed (Answer.rejection RejectionCode.invalid_dimensions message) = refl
parsed (Answer.unavailable message) =
    ap (λ t. Attempt.answered (Answer.unavailable t)) (prefixed message)

-- A call that the breaker lets through gives the answer that crosses the network.
sent :
    {A : Type 0} (opts : CircuitBreakerOptions) (now later : ℕ) (b : CircuitBreaker)
    (request : HcmCore → Fetched A × HcmCore) (core core' : HcmCore) (answer : Answer A)
    → (can_attempt opts now b).0 ≡ true
    → request core ≡ (transmit (guard answer), core')
    → let (answer', (b', server)) = send opts now later request (b, core) in
      (answer' ≡ over_http answer) × (server ≡ core')
unfolding send guarded
sent opts now later b request core core' answer allowed e =
    rw (e, allowed, parsed answer)
      (finish_answers opts later (Attempt.answered (over_http answer)) _, refl)

-- What a call over the network has to do with the same call in process.
abbrev pub Agrees :
    {A : Type 0} → Answer A × (CircuitBreaker × HcmCore) → Answer A × HcmCore → Type 0
Agrees (answer', (b', core')) (answer, core) = (answer' ≡ over_http answer) × (core' ≡ core)

-- The HTTP client over the mock server is the in-process client, as long as its breaker lets the call
-- through: the engine ends in the same state, and a result or a rejection comes back with the same
-- code and text. A transient failure stays one, with the status before its text.
pub http_client-Agrees :
    (net : Network HcmCore) (clock : String)
    → ReachesMock net clock
    → (opts : CircuitBreakerOptions) (now later : ℕ) (b : CircuitBreaker) (core : HcmCore)
    → (can_attempt opts now b).0 ≡ true
    → ((e l : String)
        → Agrees
            (HttpClient.get_balance net opts now later e l (b, core))
            (Core.get_balance e l clock core))
      × ((cmd : ApplyDeltaCommand)
          → Agrees
              (HttpClient.apply_delta net opts now later cmd (b, core))
              (Core.apply_delta cmd clock core))
unfolding HttpClient.get_balance HttpClient.apply_delta MockHcm.get_balance MockHcm.apply
http_client-Agrees net clock reaches opts now later b core allowed = (
  λ e l. sent opts now later b _ core _ _ allowed (reaches.get_lem e l core),
  λ cmd. sent opts now later b _ core _ _ allowed (reaches.post_lem cmd core),
)
