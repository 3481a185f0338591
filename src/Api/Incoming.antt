-- ===== src/Api/Incoming.antt =====
-- A request as it arrives, in front of time-off/time-off.controller.ts and sync/sync.controller.ts:
-- the ValidationPipe of main.ts reads a body or a query first, and throws when it does not pass.
use hcm.Prelude.{ℕ, Bool, Option, none, some, String, if◌then◌else◌}
use hcm.Common.Enums.{ReconciliationEventType}
use hcm.Common.Errors.{ErrorObject, ErrorResponse, Exception}
use hcm.Common.HttpExceptionFilter.{catch}
use hcm.Hcm.Client.{HcmClient}
use hcm.Database.Orm.{Orm}
use hcm.Balances.{World}
use hcm.TimeOff.{CreateTimeOffRequestDto}
use hcm.Api.{
  Served, respond, Ids, TimeOffRoute, handle_time_off, time_off_status, TimeOffPayload, SyncRoute,
}
use hcm.Validation.{
  Fields, create_time_off_request_dto, list_time_off_request_dto, hcm_balance_update_dto,
  hcm_batch_dto, ValidationPipe,
}
use hcm.Validation.Reading.{read_create, read_list, read_update, read_batch}

-- What arrives at the routes of requests and at those of HCM: bodies and queries as objects.
pub data TimeOffIncoming : Type 0 where
  create : Fields → Option String → TimeOffIncoming
  list : Fields → TimeOffIncoming
  get submit approve reject cancel : String → TimeOffIncoming

pub data SyncIncoming : Type 0 where
  realtime batch : Fields → SyncIncoming
  reconcile drain : SyncIncoming
  events : Option ReconciliationEventType → SyncIncoming

-- What the pipe makes of it: the call of a handler, or the response object of what it throws.
pub data Received (A : Type 0) : Type 0 where
  call : A → Received A
  rejected : ErrorObject → Received A

abbrev pub read_as : {A B : Type 0} → ErrorObject → (A → B) → Bool → Option A → Received B
read_as response f passes none = rejected response
read_as response f passes (some a) = if passes then call (f a) else rejected response

module _ (pipe : ValidationPipe) where
  unfoldable pub received_time_off : TimeOffIncoming → Received TimeOffRoute
  received_time_off (create body key) =
      read_as (pipe.response create_time_off_request_dto body)
        (λ (dto : CreateTimeOffRequestDto). TimeOffRoute.create dto key)
        (pipe.accepts create_time_off_request_dto body) (read_create body)
  received_time_off (list query) =
      read_as (pipe.response list_time_off_request_dto query) TimeOffRoute.list
        (pipe.accepts list_time_off_request_dto query) (read_list query)
  received_time_off (get id) = call (TimeOffRoute.get id)
  received_time_off (submit id) = call (TimeOffRoute.submit id)
  received_time_off (approve id) = call (TimeOffRoute.approve id)
  received_time_off (reject id) = call (TimeOffRoute.reject id)
  received_time_off (cancel id) = call (TimeOffRoute.cancel id)

  unfoldable pub received_sync : SyncIncoming → Received SyncRoute
  received_sync (realtime body) =
      read_as (pipe.response hcm_balance_update_dto body) SyncRoute.realtime
        (pipe.accepts hcm_balance_update_dto body) (read_update body)
  received_sync (batch body) =
      read_as (pipe.response hcm_batch_dto body) SyncRoute.batch (pipe.accepts hcm_batch_dto body)
        (read_batch body)
  received_sync reconcile = call SyncRoute.reconcile
  received_sync drain = call SyncRoute.drain
  received_sync (events type) = call (SyncRoute.events type)

  module _ (not_found_response : ErrorResponse) (bad_request_response : String → ErrorResponse)
      (orm : Orm) (client : HcmClient) (parse_date : String → ℕ) where
    abbrev pub served :
        Ids
        → Received TimeOffRoute
        → World client.State
        → Served TimeOffPayload × World client.State
    served ids (rejected response) w = (
      Served.refused (
          catch
            (Exception.http_exception "BadRequestException" 400 (ErrorResponse.object response))),
      w,
    )
    served ids (call route) w =
        let (r, w') = handle_time_off orm client parse_date ids route w in
        (respond not_found_response bad_request_response (time_off_status route) r, w')

    -- `TimeOffController` behind the pipe and in front of the filter.
    unfoldable pub serve_time_off :
        Ids → TimeOffIncoming → World client.State → Served TimeOffPayload × World client.State
    serve_time_off ids incoming = served ids (received_time_off incoming)
