-- ===== src/Api/Failures.antt =====
-- What a client of the API gets when a call fails: the controllers, the services and the filter of
-- common/http-exception.filter.ts together.
use hcm.Prelude.{◌≡◌, none, some, false, String, ℕ, ◌<>◌, arith, ◌==◌}
use hcm.Common.Enums.{RequestAction, RequestStatus}
use hcm.Common.StateMachine.{can_transition, next_state}
use hcm.Common.Errors.{
  ErrorObject, ErrorResponse, Message, Details, status_text, action_text, exception_of, Exception,
}
use hcm.Common.HttpExceptionFilter.{Envelope, catch}
use hcm.Hcm.Core.{Answer, RejectionCode}
use hcm.Hcm.Client.{HcmClient}
use hcm.Database.Orm.{Orm}
use hcm.Balances.{World, ensure_balance_loaded, get_view}
use hcm.TimeOff
use hcm.TimeOff.{get_or_throw, find_request}
use hcm.Api.{
  Served, Ids, TimeOffRoute, handle_time_off, handle_balances, BalancesRoute, respond,
  time_off_status, TimeOffPayload, acts_on, TimeOffRequest, Balance, BalancesPayload,
}
use hcm.Database.{at_key}

-- The envelope for an id that `getOrThrow` does not find.
abbrev pub not_there : String → Envelope
not_there id = record {
  status_code = 404;
  error = "REQUEST_NOT_FOUND";
  message = Message.text ("Time-off request " <> (id <> " not found."));
  details = none;
}

-- The envelope for an action that the state of a request does not allow.
abbrev pub illegal : RequestStatus → RequestAction → Envelope
illegal from action = record {
  status_code = 422;
  error = "ILLEGAL_TRANSITION";
  message = Message.text (
      "Action '"
      <> (action_text action <> ("' is not allowed from state '" <> (status_text from <> "'."))));
  details = some (Details.transition (status_text from) (action_text action));
}

-- The envelope for what is not an `HttpException`.
abbrev pub internal : String → Envelope
internal text = record {
  status_code = 500;
  error = "INTERNAL_ERROR";
  message = Message.text text;
  details = none;
}

module _ (nest : ErrorObject) (bad_request : String → ErrorResponse) (orm : Orm)
    (client : HcmClient) (parse_date : String → ℕ) where
  -- What the client gets for a time-off route.
  abbrev pub answer_to : Ids → TimeOffRoute → World client.State → Served TimeOffPayload
  answer_to ids route w =
      respond (ErrorResponse.object nest) bad_request (time_off_status route)
        (handle_time_off orm client parse_date ids route w).0

  -- What the client gets for a balances route.
  abbrev pub view_of : BalancesRoute → World client.State → Served BalancesPayload
  view_of route w =
      respond (ErrorResponse.object nest) bad_request 200
        (handle_balances orm client parse_date route w).0

  -- The envelope for a bare `NotFoundException`.
  abbrev pub bare : Envelope
  bare = catch (Exception.http_exception "NotFoundException" 404 (ErrorResponse.object nest))

  -- The answers to the five routes of an id that no request has.
  abbrev pub AnsweredUnknown : Ids → String → World client.State → Type 0
  AnsweredUnknown ids id w =
      (answer_to ids (TimeOffRoute.get id) w ≡ Served.refused (not_there id))
      × (answer_to ids (TimeOffRoute.submit id) w ≡ Served.refused (not_there id))
      × (answer_to ids (TimeOffRoute.approve id) w ≡ Served.refused bare)
      × (answer_to ids (TimeOffRoute.reject id) w ≡ Served.refused bare)
      × (answer_to ids (TimeOffRoute.cancel id) w ≡ Served.refused bare)
      × (bare.status_code ≡ 404)
      × (bare.error ≡ "INTERNAL_ERROR")

  -- An id that no request has: reading and submitting answer 404 with REQUEST_NOT_FOUND and the id,
  -- but approving, rejecting and cancelling answer 404 with INTERNAL_ERROR. The response object that
  -- Nest gives a bare `NotFoundException` has no field `error`.
  pub handle_time_off-unknown :
      (ids : Ids) (id : String) (w : World client.State)
      → find_request orm id w.db ≡ none
      → nest.error ≡ none
      → AnsweredUnknown ids id w
  unfolding handle_time_off TimeOff.submit TimeOff.approve TimeOff.reject TimeOff.cancel
      get_or_throw respond catch exception_of
  handle_time_off-unknown ids id w missing plain = ground arith

  -- An action that the status of a known request does not allow is answered, on each of the four
  -- routes, with 422, ILLEGAL_TRANSITION and both names in the details, and changes nothing.
  pub handle_time_off-illegal :
      (ids : Ids) (route : TimeOffRoute) (id : String) (action : RequestAction)
      (w : World client.State) (r : TimeOffRequest)
      → acts_on route ≡ some (id, action)
      → find_request orm id w.db ≡ some r
      → can_transition r.status action ≡ false
      → (answer_to ids route w ≡ Served.refused (illegal r.status action))
        × ((handle_time_off orm client parse_date ids route w).1 ≡ w)
  unfolding handle_time_off TimeOff.submit TimeOff.approve TimeOff.reject TimeOff.cancel
      get_or_throw respond catch exception_of
  handle_time_off-illegal ids (TimeOffRoute.create dto key) id action w r acts found refuses =
      absurd (cc acts)
  handle_time_off-illegal ids (TimeOffRoute.list q) id action w r acts found refuses =
      absurd (cc acts)
  handle_time_off-illegal ids (TimeOffRoute.get i) id action w r acts found refuses =
      absurd (cc acts)
  handle_time_off-illegal ids (TimeOffRoute.submit i) id action w r acts found refuses =
      ground arith
  handle_time_off-illegal ids (TimeOffRoute.approve i) id action w r acts found refuses =
      ground arith
  handle_time_off-illegal ids (TimeOffRoute.reject i) id action w r acts found refuses =
      ground arith
  handle_time_off-illegal ids (TimeOffRoute.cancel i) id action w r acts found refuses =
      ground arith

  -- The answers to reading a balance and to submitting a request, with what HCM said.
  abbrev pub AnsweredRejected :
      Ids → String → String → String → World client.State → String → Type 0
  AnsweredRejected ids id e l w text =
      (view_of (BalancesRoute.get_one (some e) (some l)) w ≡ Served.refused (internal text))
      × (answer_to ids (TimeOffRoute.submit id) w ≡ Served.refused (internal text))
      × ((handle_balances orm client parse_date (BalancesRoute.get_one (some e) (some l)) w).1.db
          ≡ w.db)
      × ((handle_time_off orm client parse_date ids (TimeOffRoute.submit id) w).1.db ≡ w.db)

  -- When the balance of a key is not cached and HCM rejects the key, reading the key's balance and
  -- submitting a DRAFT of the key are both answered with 500, INTERNAL_ERROR and HCM's own text,
  -- whichever code the rejection has, and leave the database as it was. The two ids are not empty.
  pub hcm_rejection-Internal :
      (ids : Ids) (id e l : String) (w : World client.State) (r : TimeOffRequest)
      (code : RejectionCode) (text : String)
      → e == "" ≡ false
      → l == "" ≡ false
      → orm.find_one Balance (at_key e l) w.db.balances ≡ none
      → (client.get_balance e l w.hcm).0 ≡ Answer.rejection code text
      → find_request orm id w.db ≡ some r
      → r.employee_id ≡ e
      → r.location_id ≡ l
      → r.status ≡ RequestStatus.draft
      → AnsweredRejected ids id e l w text
  unfolding handle_time_off TimeOff.submit handle_balances get_view ensure_balance_loaded
      get_or_throw respond catch exception_of can_transition next_state
  hcm_rejection-Internal ids id e l w r code text he hl missing rejected found at_e at_l is_draft =
      ground arith
