-- ===== src/Tests/Bodies.antt =====
-- Inputs for the theorems on the bodies of requests: a ValidationPipe that does what the
-- documentation says, with a creation and a batch.
use hcm.Prelude.{◌≡◌, ◌↔◌, refl, true, false, some, none, [], ◌∷◌, pos, Bool, ◌==◌, not, arith}
use hcm.Common.Errors.{ErrorObject, ErrorResponse, Message}
use hcm.Hcm.Core
use hcm.Hcm.Client.{in_process}
use hcm.Balances.{World}
use hcm.Validation.{
  boolean, integer, text, array, object, null, element, none_left, Fields, field, closed, DtoClass,
  hcm_batch_dto, ValidationPipe, IsDocumented, decorators, fields_ok,
}
use hcm.Validation.Classes.{accepts_iff, IsTyped}
use hcm.Api.Incoming.{TimeOffIncoming, serve_time_off}
use hcm.Api.Acceptable.{AllAcceptable}
use hcm.Api.Stored.{serve_time_off-AllAcceptable}
use hcm.Tests.Store.{store, store-IsOrm, parse_date, drafted}
use hcm.Tests.Http.{nest, nest_bad_request, ids}

abbrev bad_request : ErrorObject
bad_request = record {
  error = some "Bad Request";
  message = some (Message.texts ("days must be a positive number" ∷ []));
  details = none;
}

-- Every text but the empty one is a date, and texts are short.
abbrev pipe_over : (DtoClass → Fields → Bool) → ValidationPipe
pipe_over accepts = record {
  accepts = accepts;
  response = λ class body. bad_request;
  iso8601 = λ s. not (s == "");
  length = λ s. 8;
  nested_other = λ class v. false;
}

-- The rows of a batch are no batches, so two levels are enough.
abbrev row_pipe : ValidationPipe
row_pipe = pipe_over λ class. fields_ok (pipe_over λ _ _. false) (decorators class)

abbrev pipe : ValidationPipe
pipe = pipe_over λ class. fields_ok row_pipe (decorators class)

pipe-IsDocumented : IsDocumented pipe
unfolding decorators
pipe-IsDocumented DtoClass.create_time_off_request_dto body = refl
pipe-IsDocumented DtoClass.list_time_off_request_dto body = refl
pipe-IsDocumented DtoClass.hcm_balance_update_dto body = refl
pipe-IsDocumented DtoClass.hcm_batch_dto body = refl

abbrev batch : Fields
batch =
    field "balances"
      (array (
        element
          (object (
            field "employeeId" (text "emp-1") (
              field "locationId" (text "loc-1")
                (field "balance" (integer (pos 7)) (field "version" (integer (pos 2)) closed)))))
          none_left))
      closed

accepts_iff_example : (pipe.accepts hcm_batch_dto batch ≡ true) ↔ IsTyped pipe hcm_batch_dto batch
accepts_iff_example = accepts_iff pipe pipe-IsDocumented hcm_batch_dto batch (tt, tt)

batch_passes : pipe.accepts hcm_batch_dto batch ≡ true
unfolding decorators
batch_passes = refl

-- A creation that submits at once, for three days without a reason.
abbrev creation : Fields
creation = field "employeeId" (text "emp-1") (
    field "locationId" (text "loc-1") (
      field "startDate" (text "2026-02-02") (
        field "endDate" (text "2026-02-04") (
          field "days" (integer (pos 3))
            (field "reason" null (field "submit" (boolean true) closed))))))

abbrev world : World Core.HcmCore
world = record { db = drafted; hcm = Core.new }

serve_time_off-AllAcceptable_example :
    AllAcceptable pipe
      (serve_time_off pipe
        (ErrorResponse.object nest)
        nest_bad_request
        store
        (in_process "now")
        parse_date
        ids
        (TimeOffIncoming.create creation none)
        world).1.db.requests
serve_time_off-AllAcceptable_example =
    serve_time_off-AllAcceptable pipe pipe-IsDocumented (ErrorResponse.object nest) nest_bad_request
      store store-IsOrm (in_process "now") parse_date ids (TimeOffIncoming.create creation none)
      world ((omega arith, omega arith, refl, refl, omega arith, tt), tt)
