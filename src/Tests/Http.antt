-- ===== src/Tests/Http.antt =====
-- Inputs for the theorems on the HTTP client, the mock server and the controllers.
use hcm.Prelude.{◌≡◌, refl, String, List, [], ◌∷◌, none, some, true, false}
use hcm.Common.CircuitBreaker
use hcm.Common.CircuitBreaker.{CircuitBreakerOptions, can_attempt, get_state}
use hcm.Common.Enums.{RequestStatus, RequestAction}
use hcm.Common.Errors.{ErrorObject, ErrorResponse, ServiceError, Message}
use hcm.Common.Exec.{err}
use hcm.Hcm.Core
use hcm.Hcm.Core.{HcmCore, HcmBalanceRow, ApplyDeltaCommand, ApplyDeltaAck, RejectionCode}
use hcm.Hcm.Client.{HcmClient, in_process}
use hcm.Hcm.HttpClient
use hcm.Hcm.HttpClient.{Network, Fetched}
use hcm.MockHcm
use hcm.MockHcm.Remote.{transmit, ReachesMock, Agrees, http_client-Agrees}
use hcm.Balances.{World}
use hcm.Api.{Ids, TimeOffRoute, Served, handle_time_off}
use hcm.Api.Atomic.{Kept, handle_time_off-refused}
use hcm.Balances.{ensure_balance_loaded}
use hcm.TimeOff
use hcm.TimeOff.{get_or_throw}
use hcm.Common.StateMachine.{can_transition, next_state}
use hcm.Hcm.Core.{default_faults}
use hcm.Api.Failures.{
  answer_to, illegal, AnsweredUnknown, AnsweredRejected, handle_time_off-unknown,
  handle_time_off-illegal, hcm_rejection-Internal,
}
use hcm.Tests.Store.{store, parse_date, draft, drafted}

abbrev clock : String
clock = "2026-01-01T12:00:00.000Z"

-- A network with the mock server alone: its two routes differ in their number of segments.
abbrev get_route : List String → HcmCore → Fetched HcmBalanceRow × HcmCore
get_route (x ∷ e ∷ l ∷ []) core =
    let (reply, core') = MockHcm.get_balance e l clock core in (transmit reply, core')
get_route _ core = (Fetched.dropped "TypeError: fetch failed", core)

abbrev post_route : List String → ApplyDeltaCommand → HcmCore → Fetched ApplyDeltaAck × HcmCore
post_route (x ∷ []) cmd core =
    let (reply, core') = MockHcm.apply cmd clock core in (transmit reply, core')
post_route _ cmd core = (Fetched.dropped "TypeError: fetch failed", core)

abbrev network : Network HcmCore
network = record { get = get_route; post = post_route }

network-ReachesMock : ReachesMock network clock
network-ReachesMock = record { get_lem = λ e l core. refl; post_lem = λ cmd core. refl }

abbrev opts : CircuitBreakerOptions
opts = record { failure_threshold = 5; cooldown_ms = 10000 }

lets_through : (can_attempt opts 5 CircuitBreaker.new).0 ≡ true
unfolding can_attempt get_state
lets_through = refl

http_client-Agrees_example :
    ((e l : String)
      → Agrees
          (HttpClient.get_balance network opts 5 6 e l (CircuitBreaker.new, Core.new))
          (Core.get_balance e l clock Core.new))
    × ((cmd : ApplyDeltaCommand)
        → Agrees
            (HttpClient.apply_delta network opts 5 6 cmd (CircuitBreaker.new, Core.new))
            (Core.apply_delta cmd clock Core.new))
http_client-Agrees_example =
    http_client-Agrees network clock network-ReachesMock opts 5 6 CircuitBreaker.new Core.new
      lets_through

-- The response object of a bare `NotFoundException`.
abbrev pub nest : ErrorObject
nest = record { error = none; message = some (Message.text "Not Found"); details = none }

abbrev pub nest_bad_request : String → ErrorResponse
nest_bad_request text =
    ErrorResponse.object
      (record { error = some "Bad Request"; message = some (Message.text text); details = none })

abbrev pub ids : Ids
ids = record { request = "req-9"; entry = "entry-9"; message = "msg-9" }

abbrev client : HcmClient
client = in_process clock

abbrev world : World HcmCore
world = record { db = drafted; hcm = Core.new }

handle_time_off-unknown_example :
    AnsweredUnknown nest nest_bad_request store client parse_date ids "req-2" world
handle_time_off-unknown_example =
    handle_time_off-unknown nest nest_bad_request store client parse_date ids "req-2" world refl
      refl

cannot_approve : can_transition RequestStatus.draft RequestAction.approve ≡ false
unfolding can_transition next_state
cannot_approve = refl

handle_time_off-illegal_example :
    (answer_to nest nest_bad_request store client parse_date ids
        (TimeOffRoute.approve "req-1")
        world
      ≡ Served.refused (illegal RequestStatus.draft RequestAction.approve))
    × ((handle_time_off store client parse_date ids (TimeOffRoute.approve "req-1") world).1 ≡ world)
handle_time_off-illegal_example =
    handle_time_off-illegal nest nest_bad_request store client parse_date ids
      (TimeOffRoute.approve "req-1") "req-1" RequestAction.approve world draft refl refl
      cannot_approve

-- An HCM that knows no employee, and no balance in the cache.
abbrev strict : HcmCore
strict = record Core.new { faults = record default_faults { auto_create_unknown = false } }

abbrev uncached : World HcmCore
uncached = record { db = record drafted { balances = [] }; hcm = strict }

rejects :
    (client.get_balance "emp-1" "loc-1" strict).0
    ≡ Core.Answer.rejection RejectionCode.invalid_dimensions "Unknown dimensions emp-1|loc-1"
unfolding Core.get_balance Core.key
rejects = refl

hcm_rejection-Internal_example :
    AnsweredRejected nest nest_bad_request store client parse_date ids "req-1" "emp-1" "loc-1"
      uncached "Unknown dimensions emp-1|loc-1"
hcm_rejection-Internal_example =
    hcm_rejection-Internal nest nest_bad_request store client parse_date ids "req-1" "emp-1" "loc-1"
      uncached draft RejectionCode.invalid_dimensions "Unknown dimensions emp-1|loc-1" refl refl
      refl rejects refl refl refl refl

submit_fails :
    (handle_time_off store client parse_date ids (TimeOffRoute.submit "req-1") uncached).0
    ≡ err (
        ServiceError.hcm_rejection RejectionCode.invalid_dimensions
          "Unknown dimensions emp-1|loc-1")
unfolding handle_time_off TimeOff.submit get_or_throw ensure_balance_loaded Core.get_balance
    Core.key can_transition next_state
submit_fails = refl

handle_time_off-refused_example :
    Kept uncached.db
      (handle_time_off store client parse_date ids (TimeOffRoute.submit "req-1") uncached).1.db
handle_time_off-refused_example =
    handle_time_off-refused store client parse_date ids (TimeOffRoute.submit "req-1") uncached
      (ServiceError.hcm_rejection RejectionCode.invalid_dimensions "Unknown dimensions emp-1|loc-1")
      refl submit_fails
