-- ===== src/Common/Errors.antt =====
-- common/errors.ts: what the services throw, and the HTTP exceptions that these are.
use hcm.Prelude.{ℕ, Option, none, some, List, String, ◌<>◌, ℤ, show_ℤ}
use hcm.Common.Enums.{RequestStatus, RequestAction}
use hcm.Hcm.Core.{RejectionCode}

-- What a service or a controller throws: the domain errors, a bare `NotFoundException`, a
-- `BadRequestException`, and what the HCM client throws, which no service catches but the outbox.
pub data ServiceError : Type 0 where
  insufficient_balance : ℤ → ℤ → ServiceError
  illegal_transition : RequestStatus → RequestAction → ServiceError
  request_not_found : String → ServiceError
  not_found : ServiceError
  bad_request : String → ServiceError
  hcm_rejection : RejectionCode → String → ServiceError
  hcm_unavailable : String → ServiceError

-- The string values of the enums, which the messages print.
unfoldable pub status_text : RequestStatus → String
status_text RequestStatus.draft = "DRAFT"
status_text RequestStatus.pending_approval = "PENDING_APPROVAL"
status_text RequestStatus.approved = "APPROVED"
status_text RequestStatus.committed = "COMMITTED"
status_text RequestStatus.rejected = "REJECTED"
status_text RequestStatus.cancelled = "CANCELLED"
status_text RequestStatus.cancellation_pending = "CANCELLATION_PENDING"
status_text RequestStatus.failed = "FAILED"

unfoldable pub action_text : RequestAction → String
action_text RequestAction.submit = "SUBMIT"
action_text RequestAction.approve = "APPROVE"
action_text RequestAction.reject = "REJECT"
action_text RequestAction.cancel = "CANCEL"
action_text RequestAction.hcm_committed = "HCM_COMMITTED"
action_text RequestAction.hcm_rejected = "HCM_REJECTED"
action_text RequestAction.hcm_credit_done = "HCM_CREDIT_DONE"

-- `details: { requested, available }` and `details: { from, action }`
pub data Details : Type 0 where
  shortfall : ℤ → ℤ → Details
  transition : String → String → Details

-- `string | string[]`
pub data Message : Type 0 where
  text : String → Message
  texts : List String → Message

-- The fields of an exception's response object that are read.
pub record ErrorObject : Type 0 where
  pub error : Option String
  pub message : Option Message
  pub details : Option Details

-- `getResponse()`: a text or an object.
pub data ErrorResponse : Type 0 where
  plain : String → ErrorResponse
  object : ErrorObject → ErrorResponse

-- What is thrown: an `HttpException` with its `name`, another `Error`, or another value.
pub data Exception : Type 0 where
  http_exception : String → ℕ → ErrorResponse → Exception
  error : String → Exception
  unknown : Exception

-- The response object of a domain error, and of `getOrThrow`.
abbrev domain_error : String → String → Option Details → ErrorResponse
domain_error code message details =
    ErrorResponse.object
      (record { error = some code; message = some (Message.text message); details = details })

-- The exception that each error is. Nest gives the response objects of its own classes: `not_found`
-- that of a bare `NotFoundException`, and `bad_request` that of a `BadRequestException` of a text.
module _ (not_found_response : ErrorResponse) (bad_request_response : String → ErrorResponse) where
  unfoldable pub exception_of : ServiceError → Exception
  exception_of (insufficient_balance requested available) =
      Exception.http_exception "InsufficientBalanceError" 409 (
        domain_error "INSUFFICIENT_BALANCE"
          ("Requested "
            <> (show_ℤ requested
                <> (" day(s) exceeds available balance of " <> (show_ℤ available <> "."))))
          (some (Details.shortfall requested available)))
  exception_of (illegal_transition from action) =
      Exception.http_exception "IllegalTransitionError" 422 (
        domain_error "ILLEGAL_TRANSITION"
          ("Action '"
            <> (action_text action
                <> ("' is not allowed from state '" <> (status_text from <> "'."))))
          (some (Details.transition (status_text from) (action_text action))))
  exception_of (request_not_found id) =
      Exception.http_exception "NotFoundException" 404
        (domain_error "REQUEST_NOT_FOUND" ("Time-off request " <> (id <> " not found.")) none)
  exception_of not_found = Exception.http_exception "NotFoundException" 404 not_found_response
  exception_of (bad_request message) =
      Exception.http_exception "BadRequestException" 400 (bad_request_response message)
  exception_of (hcm_rejection code message) = Exception.error message
  exception_of (hcm_unavailable message) = Exception.error message
