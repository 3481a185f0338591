-- ===== src/Api/Stored.antt =====
-- What the rows of the requests can hold, with the ValidationPipe of main.ts in front of
-- time-off/time-off.controller.ts.
use hcm.Prelude.{
  ◌≡◌, Bool, String, ℕ, List, arith, subst, Option-cases, Bool-cases, inl, inr, ℤ, sym, ◌∙◌,
}
use hcm.Common.Enums.{LedgerPhase}
use hcm.Hcm.Client.{HcmClient}
use hcm.Database.{BalanceLedgerEntry}
use hcm.Database.Orm.{Orm, standard, IsOrm, orm_path}
use hcm.Balances.{World}
use hcm.Api.{Ids, TimeOffRoute, handle_time_off}
use hcm.Api.Incoming.{
  served, TimeOffIncoming, received_time_off, serve_time_off, call, rejected, Received,
}
use hcm.Validation.{IsDocumented, create_time_off_request_dto, ValidationPipe}
use hcm.Validation.Bodies.{create_body_iff, IsAcceptable}
use hcm.Validation.Reading.{read_create}
use hcm.Common.Errors.{ErrorResponse}
use hcm.TimeOff.{existing_for, CreateTimeOffRequestDto, next_or}
use hcm.TimeOff
use hcm.Api.Acceptable.{
  AllAcceptable, submit-AllAcceptable, approve-AllAcceptable, reject-AllAcceptable,
  cancel-AllAcceptable, create-AllAcceptable,
}

module _ (pipe : ValidationPipe) where
  abbrev IsAcceptableRoute : TimeOffRoute → Type 0
  IsAcceptableRoute (TimeOffRoute.create dto key) = IsAcceptable pipe dto
  IsAcceptableRoute _ = Unit

  module _ (totals : (BalanceLedgerEntry → Bool) → List BalanceLedgerEntry → List (LedgerPhase × ℤ))
      (client : HcmClient) (parse_date : String → ℕ) where
    abbrev store : Orm
    store = standard totals

    -- The routes, a creation being of what the pipe has read.
    handled-AllAcceptable :
        (ids : Ids) (route : TimeOffRoute) (w : World client.State)
        → IsAcceptableRoute route
        → AllAcceptable pipe w.db.requests
        → AllAcceptable pipe (handle_time_off store client parse_date ids route w).1.db.requests
    unfolding handle_time_off TimeOff.get_or_throw
    handled-AllAcceptable ids (TimeOffRoute.create dto key) w fits h =
        create-AllAcceptable pipe totals client parse_date ids.request ids.entry dto key w fits h
    handled-AllAcceptable ids (TimeOffRoute.list query) w fits h = h
    handled-AllAcceptable ids (TimeOffRoute.get id) w fits h = ground (arith, h)
    handled-AllAcceptable ids (TimeOffRoute.submit id) w fits h =
        submit-AllAcceptable pipe totals client parse_date ids.entry id w h
    handled-AllAcceptable ids (TimeOffRoute.approve id) w fits h =
        approve-AllAcceptable pipe totals client parse_date ids.message id w.db h
    handled-AllAcceptable ids (TimeOffRoute.reject id) w fits h =
        reject-AllAcceptable pipe totals client parse_date id w.db h
    handled-AllAcceptable ids (TimeOffRoute.cancel id) w fits h =
        cancel-AllAcceptable pipe totals client parse_date ids.message id w.db h

  -- What the pipe hands over.
  abbrev IsAcceptableCall : Received TimeOffRoute → Type 0
  IsAcceptableCall (call route) = IsAcceptableRoute route
  IsAcceptableCall (rejected response) = Unit

  received-IsAcceptableCall :
      IsDocumented pipe
      → (incoming : TimeOffIncoming) → IsAcceptableCall (received_time_off pipe incoming)
  unfolding received_time_off
  received-IsAcceptableCall documented (TimeOffIncoming.create body key) =
      elim (Option-cases (read_create body)) [
        | inl unreadable ↦ rw unreadable tt
        | inr (dto, read) ↦ elim (Bool-cases (pipe.accepts create_time_off_request_dto body)) [
          | inr fails ↦ rw (read, fails) tt
          | inl passes ↦
              let (dto', read', fits) = (create_body_iff pipe documented body).0 passes in
              let same : dto' ≡ dto = ground (arith, sym read' ∙ read) in
              rw (read, passes) (subst (IsAcceptable pipe) same fits)
        ]
      ]
  received-IsAcceptableCall documented (TimeOffIncoming.list query) = ground arith
  received-IsAcceptableCall documented _ = tt

  module _ (not_found_response : ErrorResponse) (bad_request_response : String → ErrorResponse)
      (totals : (BalanceLedgerEntry → Bool) → List BalanceLedgerEntry → List (LedgerPhase × ℤ))
      (client : HcmClient) (parse_date : String → ℕ) where
    served-AllAcceptable :
        (ids : Ids) (received : Received TimeOffRoute) (w : World client.State)
        → IsAcceptableCall received
        → AllAcceptable pipe w.db.requests
        → AllAcceptable pipe
            (served pipe not_found_response bad_request_response
              (standard totals)
              client
              parse_date
              ids
              received
              w).1.db.requests
    served-AllAcceptable ids (call route) w fits h =
        handled-AllAcceptable totals client parse_date ids route w fits h
    served-AllAcceptable ids (rejected response) w fits h = h

-- Whatever arrives at the routes of the requests, valid or not, and however it ends: when every
-- stored request has at least one day, dates in ISO 8601, two ids of at most 128 characters and a
-- reason of at most 500, so has every one afterwards.
pub serve_time_off-AllAcceptable :
    (pipe : ValidationPipe)
    → IsDocumented pipe
    → (not_found_response : ErrorResponse) (bad_request_response : String → ErrorResponse)
      (orm : Orm)
    → IsOrm orm
    → (client : HcmClient) (parse_date : String → ℕ) (ids : Ids) (incoming : TimeOffIncoming)
      (w : World client.State)
    → AllAcceptable pipe w.db.requests
    → AllAcceptable pipe
        (serve_time_off pipe not_found_response bad_request_response orm client parse_date ids
          incoming w).1.db.requests
unfolding serve_time_off
serve_time_off-AllAcceptable pipe documented missing bad orm laws client parse_date ids incoming w
      h =
    let received = received_time_off pipe incoming in
    subst
      (λ o.
        AllAcceptable pipe
          (served pipe missing bad o client parse_date ids received w).1.db.requests)
      (orm_path orm laws)
      (served-AllAcceptable pipe missing bad orm.phase_totals client parse_date ids received w
        (received-IsAcceptableCall pipe documented incoming) h)
