-- ===== src/TimeOff/Idempotent.antt =====
-- A repeated `create` of time-off/time-off.service.ts: the idempotency key beside `submit`.
use hcm.Prelude.{
  ◌≡◌, refl, ◌⊎◌, inl, inr, false, none, some, String, ℕ, ◌==◌, find, Bool, List, Bool-cases, arith,
  ℤ, subst, Option, if◌then◌else◌, sym, ◌∙◌, ap,
}
use hcm.Common.Enums.{RequestStatus, LedgerPhase}
use hcm.Common.Errors.{ServiceError}
use hcm.Common.Exec.{Result, ok, err}
use hcm.Hcm.Client.{HcmClient}
use hcm.Database.{TimeOffRequest, BalanceLedgerEntry, same_request}
use text.Mathlib.TextPositions.{eq_refl}
use hcm.Database.Orm.{Orm, IsOrm, standard, orm_path}
use hcm.Balances.{World}
use hcm.Processor.{is_request, save_request}
use hcm.TimeOff.{CreateTimeOffRequestDto, has_key, existing_for, submit, create}
use hcm.Database.Rows.{unseen, find-save_new, find-overwritten}
use hcm.TimeOff.Submit.{Ended, submit-Ended}

-- What a second creation of this key gives after the first one of it.
abbrev pub Replayed :
    {H : Type 0}
    → String
    → Result ServiceError TimeOffRequest × World H
    → Result ServiceError TimeOffRequest × World H
    → Type 0
Replayed uuid first second =
    (r : TimeOffRequest) × (r.id ≡ uuid)
    × (second ≡ (ok r, first.1))
    × ((first.0 ≡ ok r)
        ⊎ ((e : ServiceError) × (first.0 ≡ err e) × (r.status ≡ RequestStatus.draft)))

module _ (totals : (BalanceLedgerEntry → Bool) → List BalanceLedgerEntry → List (LedgerPhase × ℤ))
    (client : HcmClient) (parse_date : String → ℕ) where
  abbrev create_in :
      String
      → String
      → CreateTimeOffRequestDto
      → Option String
      → World client.State
      → Result ServiceError TimeOffRequest × World client.State
  create_in = create (standard totals) client parse_date

  create-found :
      (uuid entry : String) (dto : CreateTimeOffRequestDto) (k : String) (w : World client.State)
      (r : TimeOffRequest)
      → k == "" ≡ false
      → find (has_key k) w.db.requests ≡ some r
      → create_in uuid entry dto (some k) w ≡ (ok r, w)
  unfolding create existing_for
  create-found uuid entry dto k w r given found = ground arith

  -- The row that a creation saves.
  abbrev draft_of : String → CreateTimeOffRequestDto → String → TimeOffRequest
  draft_of uuid dto k = record {
    id = uuid;
    employee_id = dto.employee_id;
    location_id = dto.location_id;
    start_date = dto.start_date;
    end_date = dto.end_date;
    days = dto.days;
    status = RequestStatus.draft;
    idempotency_key = some k;
    hcm_ref = none;
    reason = dto.reason;
  }

  abbrev saved : TimeOffRequest → World client.State → World client.State
  saved r w = record w { db = save_request (standard totals) r w.db }

  create-new :
      (uuid entry : String) (dto : CreateTimeOffRequestDto) (k : String) (w : World client.State)
      → k == "" ≡ false
      → find (has_key k) w.db.requests ≡ none
      → create_in uuid entry dto (some k) w ≡ (
          if dto.submit
          then submit (standard totals) client parse_date entry uuid (saved (draft_of uuid dto k) w)
          else (ok (draft_of uuid dto k), saved (draft_of uuid dto k) w))
  unfolding create existing_for
  create-new uuid entry dto k w given new = ground arith

  -- The request of the key after a submit.
  Ended-found :
      (uuid k : String) (c : TimeOffRequest) (rows : List TimeOffRequest)
      (first : Result ServiceError TimeOffRequest × World client.State)
      → c.id ≡ uuid
      → c.status ≡ RequestStatus.draft
      → c.idempotency_key ≡ some k
      → find (has_key k) rows ≡ some c
      → find (is_request uuid) rows ≡ some c
      → Ended (standard totals) uuid rows first.0 first.1.db.requests
      → (r : TimeOffRequest) × (r.id ≡ uuid)
        × (find (has_key k) first.1.db.requests ≡ some r)
        × ((first.0 ≡ ok r)
            ⊎ ((e : ServiceError) × (first.0 ≡ err e) × (r.status ≡ RequestStatus.draft)))
  Ended-found uuid k c rows first at_id is_draft at_key by_key by_id (inl (e, h, same)) =
      (c, at_id, rw same by_key, inr (e, h, is_draft))
  Ended-found uuid k c rows first at_id is_draft at_key by_key by_id
        (inr (q, r, found, h, moved, after)) =
      let same : q ≡ c = ground (arith, sym found ∙ by_id) in
      let id_r : r.id ≡ uuid = ap (λ x. x.id) moved ∙ ap (λ x. x.id) same ∙ at_id in
      let key_r : r.idempotency_key ≡ some k =
        ap (λ x. x.idempotency_key) moved ∙ ap (λ x. x.idempotency_key) same ∙ at_key in
      (
        r,
        id_r,
        rw after (
            find-overwritten (has_key k) same_request c r rows by_key
              (rw (at_id, id_r) (eq_refl uuid)) (rw key_r (eq_refl k))),
        inl h,
      )

  create-ended :
      (uuid entry : String) (dto : CreateTimeOffRequestDto) (k : String) (w : World client.State)
      → k == "" ≡ false
      → find (has_key k) w.db.requests ≡ none
      → find (is_request uuid) w.db.requests ≡ none
      → (r : TimeOffRequest) × (r.id ≡ uuid)
        × (find (has_key k) (create_in uuid entry dto (some k) w).1.db.requests ≡ some r)
        × (((create_in uuid entry dto (some k) w).0 ≡ ok r)
            ⊎ ((e : ServiceError) × ((create_in uuid entry dto (some k) w).0 ≡ err e)
                × (r.status ≡ RequestStatus.draft)))
  unfolding save_request
  create-ended uuid entry dto k w given new fresh =
      let c = draft_of uuid dto k in
      let rows = (saved c w).db.requests in
      let unique = unseen (is_request uuid) w.db.requests fresh in
      let by_key : find (has_key k) rows ≡ some c =
        find-save_new (has_key k) same_request c w.db.requests (eq_refl k) new unique in
      let by_id : find (is_request uuid) rows ≡ some c =
        find-save_new (is_request uuid) same_request c w.db.requests (eq_refl uuid) fresh unique in
      rw (create-new uuid entry dto k w given new) (elim (Bool-cases dto.submit) [
        | inl now ↦ rw now (
            Ended-found uuid k c rows
              (submit (standard totals) client parse_date entry uuid (saved c w)) refl refl refl
              by_key by_id
              (submit-Ended (standard totals) client parse_date entry uuid (saved c w)))
        | inr later ↦ rw later (c, refl, by_key, inl refl)
      ])

  standard-Replayed :
      (uuid entry uuid' entry' : String) (dto dto' : CreateTimeOffRequestDto) (k : String)
      (w : World client.State)
      → k == "" ≡ false
      → find (has_key k) w.db.requests ≡ none
      → find (is_request uuid) w.db.requests ≡ none
      → Replayed uuid
          (create_in uuid entry dto (some k) w)
          (create_in uuid' entry' dto' (some k) (create_in uuid entry dto (some k) w).1)
  standard-Replayed uuid entry uuid' entry' dto dto' k w given new fresh =
      let (r, at_id, found, how) = create-ended uuid entry dto k w given new fresh in
      (r, at_id, create-found uuid' entry' dto' k _ r given found, how)

-- A creation whose idempotency key was used before makes no second request: whatever came of the
-- first one, the second one, with any other fields and ids, gives the request of the first one and
-- changes nothing. When the first one was refused by its submit, the second one gives the DRAFT it
-- left behind, as a success and without submitting it. The key is not empty and new before the first
-- call, and so is the id drawn for its request.
pub create-Replayed :
    (orm : Orm)
    → IsOrm orm
    → (client : HcmClient) (parse_date : String → ℕ) (uuid entry uuid' entry' : String)
      (dto dto' : CreateTimeOffRequestDto) (k : String) (w : World client.State)
    → k == "" ≡ false
    → orm.find_one TimeOffRequest (has_key k) w.db.requests ≡ none
    → orm.find_one TimeOffRequest (is_request uuid) w.db.requests ≡ none
    → Replayed uuid (create orm client parse_date uuid entry dto (some k) w) (
        create orm client parse_date uuid' entry' dto'
          (some k)
          (create orm client parse_date uuid entry dto (some k) w).1)
create-Replayed orm laws client parse_date uuid entry uuid' entry' dto dto' k w given =
    subst
      (λ o.
        o.find_one TimeOffRequest (has_key k) w.db.requests ≡ none
        → o.find_one TimeOffRequest (is_request uuid) w.db.requests ≡ none
        → Replayed uuid (create o client parse_date uuid entry dto (some k) w) (
            create o client parse_date uuid' entry' dto' (some k)
              (create o client parse_date uuid entry dto (some k) w).1))
      (orm_path orm laws)
      (standard-Replayed orm.phase_totals client parse_date uuid entry uuid' entry' dto dto' k w
        given)
