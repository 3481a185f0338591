-- ===== src/Api.antt =====
-- The controllers: balances/balances.controller.ts, time-off/time-off.controller.ts,
-- sync/sync.controller.ts and health/health.controller.ts, with the filter that main.ts installs
-- around them. A route carries what Nest has read of the request, a body after its validation; a
-- handler gives its reply and the new state. Nest's own response objects are parameters.
pub mod Incoming
pub mod Acceptable
pub mod Stored
pub mod Atomic
pub mod Failures
use hcm.Prelude.{ℕ, Bool, true, Option, none, some, List, String, ◌≡◌, truthy, if◌then◌else◌}
use hcm.Common.Enums.{ReconciliationEventType, RequestAction}
use hcm.Common.BalanceMath.{BalanceView}
use hcm.Common.Errors.{ServiceError, ErrorResponse, exception_of}
use hcm.Common.HttpExceptionFilter.{Envelope, catch}
use hcm.Common.Exec.{Exec, Result, ok, err, gets, throw}
use hcm.Common.Reconciliation.{ReconcileResult}
use hcm.Hcm.Client.{HcmClient}
use hcm.Database.{Balance, OutboxMessage, ReconciliationEvent, TimeOffRequest}
use hcm.Database.Orm.{Orm}
use hcm.Balances.{World, get_view, get_views_for_employee}
use hcm.Processor.{Draws, drain_once}
use hcm.TimeOff
use hcm.TimeOff.{CreateTimeOffRequestDto, ListTimeOffRequestDto, in_db}
use hcm.Sync.{
  SyncDraws, HcmBalanceUpdate, BatchSummary, ingest_realtime, ingest_batch, reconcile_all,
  list_events,
}

-- A reply with its status, or the envelope of what was thrown.
pub data Served (A : Type 0) : Type 0 where
  replied : ℕ → A → Served A
  refused : Envelope → Served A

-- What a request may draw: the ids of a new request, ledger entry or message.
pub record Ids : Type 0 where
  pub request : String
  pub entry : String
  pub message : String

pub data TimeOffRoute : Type 0 where
  create : CreateTimeOffRequestDto → Option String → TimeOffRoute
  list : ListTimeOffRequestDto → TimeOffRoute
  get : String → TimeOffRoute
  submit approve reject cancel : String → TimeOffRoute

pub data TimeOffPayload : Type 0 where
  request : TimeOffRequest → TimeOffPayload
  requests : List TimeOffRequest → TimeOffPayload

pub data BalancesRoute : Type 0 where
  get_one : Option String → Option String → BalancesRoute
  get_for_employee : String → BalancesRoute

pub data BalancesPayload : Type 0 where
  view : BalanceView → BalancesPayload
  views : String → List (String × BalanceView) → BalancesPayload

pub data SyncRoute : Type 0 where
  realtime : HcmBalanceUpdate → SyncRoute
  batch : List HcmBalanceUpdate → SyncRoute
  reconcile : SyncRoute
  events : Option ReconciliationEventType → SyncRoute
  drain : SyncRoute

pub data SyncPayload : Type 0 where
  result : ReconcileResult → SyncPayload
  summary : BatchSummary → SyncPayload
  processed : ℕ → SyncPayload
  listed : List ReconciliationEvent → SyncPayload

-- `{ status, db }` of the two health routes.
pub record Health : Type 0 where
  pub status : String
  pub db : Option String

unfoldable pub liveness : Health
liveness = record { status = "ok"; db = none }

-- `readiness`, where `reachable` tells whether the query succeeds.
unfoldable pub readiness : Bool → Health
readiness reachable =
    let db = if reachable then "ok" else "down" in
    record { status = if reachable then "ok" else "degraded"; db = some db }

abbrev pub map_result : {A B : Type 0} → (A → B) → Result ServiceError A → Result ServiceError B
map_result f (ok a) = ok (f a)
map_result f (err e) = err e

module _ (not_found_response : ErrorResponse) (bad_request_response : String → ErrorResponse) where
  -- The end of a request: a reply of this status, or what the filter makes of the error.
  unfoldable pub respond : {A : Type 0} → ℕ → Result ServiceError A → Served A
  respond status (ok a) = replied status a
  respond status (err e) = refused (catch (exception_of not_found_response bad_request_response e))

module _ (orm : Orm) (client : HcmClient) (parse_date : String → ℕ) where
  abbrev pub Handler : Type 0 → Type 0
  Handler A = Exec ServiceError (World client.State) A

  abbrev mapped : {A B : Type 0} → (A → B) → Handler A → Handler B
  mapped f m w = let (r, w') = m w in (map_result f r, w')

  -- `TimeOffController`
  unfoldable pub handle_time_off : Ids → TimeOffRoute → Handler TimeOffPayload
  handle_time_off ids (create dto key) =
      mapped request (TimeOff.create orm client parse_date ids.request ids.entry dto key)
  handle_time_off ids (list query) = gets (λ w. requests (TimeOff.list orm query w.db))
  handle_time_off ids (get id) = mapped request (in_db (TimeOff.get_or_throw orm id))
  handle_time_off ids (submit id) =
      mapped request (TimeOff.submit orm client parse_date ids.entry id)
  handle_time_off ids (approve id) = mapped request (in_db (TimeOff.approve orm ids.message id))
  handle_time_off ids (reject id) = mapped request (in_db (TimeOff.reject orm id))
  handle_time_off ids (cancel id) = mapped request (in_db (TimeOff.cancel orm ids.message id))

  -- `BalancesController`
  unfoldable pub handle_balances : BalancesRoute → Handler BalancesPayload
  handle_balances (get_one employee_id location_id) = elim (truthy employee_id) [
    | none ↦ throw (ServiceError.bad_request "employeeId and locationId are required")
    | some e ↦ elim (truthy location_id) [
      | none ↦ throw (ServiceError.bad_request "employeeId and locationId are required")
      | some l ↦ mapped view (get_view orm client parse_date e l)
    ]
  ]
  handle_balances (get_for_employee employee_id) =
      mapped (views employee_id) (get_views_for_employee orm client parse_date employee_id)

-- What the sync routes may draw from outside.
pub record SyncRouteDraws : Type 0 where
  pub of_update : HcmBalanceUpdate → SyncDraws
  pub of_balance : Balance → SyncDraws
  pub of_message : OutboxMessage → Draws
  pub now : ℕ

module _ (orm : Orm) (client : HcmClient) (parse_date : String → ℕ) (draws : SyncRouteDraws) where
  -- `SyncController`, over the world and the flag `draining` of the processor.
  unfoldable pub handle_sync : SyncRoute → Exec ServiceError (Bool × World client.State) SyncPayload
  handle_sync (realtime dto) (draining, w) =
      let (r, db') = ingest_realtime orm parse_date (draws.of_update dto) dto w.db in
      (ok (result r), (draining, record w { db = db' }))
  handle_sync (batch rows) (draining, w) =
      let (s, db') = ingest_batch orm parse_date draws.of_update rows w.db in
      (ok (summary s), (draining, record w { db = db' }))
  handle_sync reconcile (draining, w) =
      let (r, w') = reconcile_all orm parse_date client draws.of_balance w in
      (map_result processed r, (draining, w'))
  handle_sync (events type) (draining, w) =
      (ok (listed (list_events orm parse_date type w.db)), (draining, w))
  handle_sync drain (draining, w) =
      let (n, flag, w') = drain_once orm client draws.of_message draws.now (draining, w) in
      (ok (processed n), (flag, w'))

-- The status of a success: 201 for the creation, and 200 for all else.
abbrev pub time_off_status : TimeOffRoute → ℕ
time_off_status (create dto key) = 201
time_off_status _ = 200

-- The id and the action of the routes that act on a request.
abbrev pub acts_on : TimeOffRoute → Option (String × RequestAction)
acts_on (submit id) = some (id, RequestAction.submit)
acts_on (approve id) = some (id, RequestAction.approve)
acts_on (reject id) = some (id, RequestAction.reject)
acts_on (cancel id) = some (id, RequestAction.cancel)
acts_on _ = none
