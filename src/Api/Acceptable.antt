-- ===== src/Api/Acceptable.antt =====
-- The rows of requests that time-off/time-off.service.ts keeps, beside what a body of
-- time-off/dto/create-time-off-request.dto.ts may ask for.
use hcm.Prelude.{
  ◌≡◌, Bool, false, some, String, ℕ, List, All, find, arith, Option-cases, Bool-cases, inl, inr, ℤ,
  none, Option, All-mono,
}
use hcm.Common.Enums.{RequestStatus, RequestAction, LedgerPhase}
use hcm.Common.Errors.{ServiceError}
use hcm.Common.Exec.{Result}
use hcm.Hcm.Client.{HcmClient}
use hcm.Database.{TimeOffRequest, BalanceLedgerEntry, Db, same_request}
use hcm.Database.Rows.{All-found, All-save_row}
use hcm.Database.Orm.{Orm, standard, save_row}
use hcm.Balances.{World, release_reservation}
use hcm.Outbox.{enqueue, cancel_pending_for_request}
use hcm.Processor.{is_request, save_request}
use hcm.TimeOff.{existing_for, CreateTimeOffRequestDto, next_or}
use hcm.TimeOff
use hcm.TimeOff.Submit.{Ended, submit-Ended}
use hcm.Validation.{ValidationPipe}
use hcm.Validation.Bodies.{IsAcceptable}

-- The fields of a row that its creation was asked for.
abbrev asked_for : TimeOffRequest → CreateTimeOffRequestDto
asked_for r = record {
  employee_id = r.employee_id;
  location_id = r.location_id;
  start_date = r.start_date;
  end_date = r.end_date;
  days = r.days;
  reason = r.reason;
  submit = false;
}

module _ (pipe : ValidationPipe) where
  -- A row of a request that a creation may be asked for.
  abbrev pub IsAcceptableRow : TimeOffRequest → Type 0
  IsAcceptableRow r = IsAcceptable pipe (asked_for r)

  abbrev pub AllAcceptable : List TimeOffRequest → Type 0
  AllAcceptable = All IsAcceptableRow

  saved-AllAcceptable :
      (r : TimeOffRequest) (rows : List TimeOffRequest)
      → IsAcceptableRow r
      → AllAcceptable rows
      → AllAcceptable (save_row same_request r rows)
  saved-AllAcceptable r rows mine h =
      All-save_row IsAcceptableRow same_request r mine rows
        (All-mono rows (λ (x : TimeOffRequest) c. inr c) h)

  module _ (totals : (BalanceLedgerEntry → Bool) → List BalanceLedgerEntry → List (LedgerPhase × ℤ))
      (client : HcmClient) (parse_date : String → ℕ) where
    abbrev store : Orm
    store = standard totals

    -- A change of the status of a known request.
    moved-AllAcceptable :
        (id : String) (q : TimeOffRequest) (to : RequestStatus) (rows : List TimeOffRequest)
        → find (is_request id) rows ≡ some q
        → AllAcceptable rows
        → AllAcceptable (save_row same_request (record q { status = to }) rows)
    moved-AllAcceptable id q to rows found h =
        saved-AllAcceptable (record q { status = to }) rows
          (All-found IsAcceptableRow (is_request id) rows q found h) h

    Ended-AllAcceptable :
        (id : String) (before after : List TimeOffRequest)
        (result : Result ServiceError TimeOffRequest)
        → Ended store id before result after
        → AllAcceptable before
        → AllAcceptable after
    Ended-AllAcceptable id before after result (inl (e, h, same)) all = rw same all
    Ended-AllAcceptable id before after result (inr (q, r, found, h, moved, saved)) all =
        rw (saved, moved) (moved-AllAcceptable id q RequestStatus.pending_approval before found all)

    pub submit-AllAcceptable :
        (uuid id : String) (w : World client.State)
        → AllAcceptable w.db.requests
        → AllAcceptable (TimeOff.submit store client parse_date uuid id w).1.db.requests
    submit-AllAcceptable uuid id w h =
        Ended-AllAcceptable id w.db.requests
          (TimeOff.submit store client parse_date uuid id w).1.db.requests
          (TimeOff.submit store client parse_date uuid id w).0
          (submit-Ended store client parse_date uuid id w) h

    pub approve-AllAcceptable :
        (uuid id : String) (db : Db)
        → AllAcceptable db.requests
        → AllAcceptable (TimeOff.approve store uuid id db).1.requests
    unfolding TimeOff.approve save_request enqueue
    approve-AllAcceptable uuid id db h = elim (Option-cases (find (is_request id) db.requests)) [
      | inl unknown ↦ ground (arith, h)
      | inr (q, found) ↦ ground (
        arith,
        h,
        moved-AllAcceptable id q (next_or q.status RequestAction.approve) db.requests found h,
      )
    ]

    pub reject-AllAcceptable :
        (id : String) (db : Db)
        → AllAcceptable db.requests
        → AllAcceptable (TimeOff.reject store id db).1.requests
    unfolding TimeOff.reject save_request release_reservation
    reject-AllAcceptable id db h = elim (Option-cases (find (is_request id) db.requests)) [
      | inl unknown ↦ ground (arith, h)
      | inr (q, found) ↦ ground (
        arith,
        h,
        moved-AllAcceptable id q (next_or q.status RequestAction.reject) db.requests found h,
      )
    ]

    pub cancel-AllAcceptable :
        (uuid id : String) (db : Db)
        → AllAcceptable db.requests
        → AllAcceptable (TimeOff.cancel store uuid id db).1.requests
    unfolding TimeOff.cancel TimeOff.cancel_committed TimeOff.cancel_uncommitted save_request
        release_reservation enqueue cancel_pending_for_request
    cancel-AllAcceptable uuid id db h = elim (Option-cases (find (is_request id) db.requests)) [
      | inl unknown ↦ ground (arith, h)
      | inr (q, found) ↦ ground (
        arith,
        h,
        moved-AllAcceptable id q (next_or q.status RequestAction.cancel) db.requests found h,
      )
    ]

    pub create-AllAcceptable :
        (uuid entry : String) (dto : CreateTimeOffRequestDto) (key : Option String)
        (w : World client.State)
        → IsAcceptable pipe dto
        → AllAcceptable w.db.requests
        → AllAcceptable (TimeOff.create store client parse_date uuid entry dto key w).1.db.requests
    unfolding TimeOff.create save_request
    create-AllAcceptable uuid entry dto key w fits h =
        let created : TimeOffRequest = record {
          id = uuid;
          employee_id = dto.employee_id;
          location_id = dto.location_id;
          start_date = dto.start_date;
          end_date = dto.end_date;
          days = dto.days;
          status = RequestStatus.draft;
          idempotency_key = key;
          hcm_ref = none;
          reason = dto.reason;
        } in
        let w' = record w { db = save_request store created w.db } in
        let saved = saved-AllAcceptable created w.db.requests fits h in
        elim (Option-cases (existing_for store key w.db)) [
          | inr (r, found) ↦ ground (arith, h)
          | inl new ↦ elim (Bool-cases dto.submit) [
            | inl now ↦ ground (arith, submit-AllAcceptable entry uuid w' saved)
            | inr later ↦ ground (arith, saved)
          ]
        ]
