-- ===== src/TimeOff/Submit.antt =====
-- How `submit` of time-off/time-off.service.ts ends, over any store and any HCM.
use hcm.Prelude.{
  ◌≡◌, refl, ◌⊎◌, inl, inr, true, some, String, ℕ, List, Option-cases, Bool-cases, arith, subst,
}
use hcm.Common.Enums.{RequestAction, RequestStatus}
use hcm.Common.Errors.{ServiceError}
use hcm.Common.Exec.{Result, ok, err, transaction, end_transaction}
use hcm.Hcm.Client.{HcmClient}
use hcm.Database.{TimeOffRequest, Db, same_request}
use hcm.Database.Orm.{Orm}
use hcm.Balances.{World, ensure_balance_loaded, add_reservation}
use hcm.Processor.{is_request, save_request}
use hcm.TimeOff.{reserve, submit, get_or_throw, in_db, can_transition}
use hcm.TimeOff.Reserve.{reserve-Reserved}

module _ (orm : Orm) where
  -- How a submit of a request ends: refused with the requests as they were, or with the request saved.
  abbrev pub Ended :
      String
      → List TimeOffRequest
      → Result ServiceError TimeOffRequest
      → List TimeOffRequest
      → Type 0
  Ended id before result after =
      ((e : ServiceError) × (result ≡ err e) × (after ≡ before))
      ⊎ ((q : TimeOffRequest) × (r : TimeOffRequest) × (orm.find_one TimeOffRequest (is_request id)
              before
            ≡ some q)
          × (result ≡ ok r)
          × (r ≡ record q { status = RequestStatus.pending_approval })
          × (after ≡ orm.save TimeOffRequest same_request r before))

  transaction-Ended :
      (uuid id : String) (db : Db) (ended : Result ServiceError TimeOffRequest × Db)
      → reserve orm uuid id db ≡ ended
      → Ended id db.requests (end_transaction db ended).0 (end_transaction db ended).1.requests
  unfolding save_request add_reservation
  transaction-Ended uuid id db (err e, db') h = inl (e, refl, refl)
  transaction-Ended uuid id db (ok r, db') h =
      let done = reserve-Reserved orm uuid id db r db' h in
      inr (done.before, r, done.found, refl, done.returned, rw done.written refl)

  module _ (client : HcmClient) (parse_date : String → ℕ) where
    -- `submit` from the loaded balance on.
    abbrev reserved_after :
        String
        → String
        → Result ServiceError (Unit {0}) × World client.State
        → Result ServiceError TimeOffRequest × World client.State
    reserved_after uuid id (r, w) = elim r [
      | ok a ↦ in_db (transaction (reserve orm uuid id)) w
      | err e ↦ (err e, w)
    ]

    reserved_after-Ended :
        (uuid id : String) (before : List TimeOffRequest)
        (loaded : Result ServiceError (Unit {0}) × World client.State)
        → loaded.1.db.requests ≡ before
        → Ended id before
            (reserved_after uuid id loaded).0
            (reserved_after uuid id loaded).1.db.requests
    reserved_after-Ended uuid id before (ok a, w) same =
        subst
          (λ rows.
            Ended id rows (reserved_after uuid id (ok a, w)).0
              (reserved_after uuid id (ok a, w)).1.db.requests)
          same (transaction-Ended uuid id w.db (reserve orm uuid id w.db) refl)
    reserved_after-Ended uuid id before (err e, w) same = inl (e, refl, same)

    submit-loaded :
        (uuid id : String) (w : World client.State) (q : TimeOffRequest)
        → orm.find_one TimeOffRequest (is_request id) w.db.requests ≡ some q
        → can_transition q.status RequestAction.submit ≡ true
        → submit orm client parse_date uuid id w
          ≡ reserved_after uuid id
              (ensure_balance_loaded orm client parse_date q.employee_id q.location_id w)
    unfolding submit get_or_throw
    submit-loaded uuid id w q found legal = ground arith

    loaded_requests :
        (e l : String) (w : World client.State)
        → (ensure_balance_loaded orm client parse_date e l w).1.db.requests ≡ w.db.requests
    unfolding ensure_balance_loaded
    loaded_requests e l w = ground arith

    pub submit-Ended :
        (uuid id : String) (w : World client.State)
        → Ended id w.db.requests
            (submit orm client parse_date uuid id w).0
            (submit orm client parse_date uuid id w).1.db.requests
    unfolding submit get_or_throw
    submit-Ended uuid id w =
        elim (Option-cases (orm.find_one TimeOffRequest (is_request id) w.db.requests)) [
          | inl unknown ↦ inl (ServiceError.request_not_found id, ground arith, ground arith)
          | inr (q, found) ↦ elim (Bool-cases (can_transition q.status RequestAction.submit)) [
            | inr refuses ↦ inl (
              ServiceError.illegal_transition q.status RequestAction.submit,
              ground arith,
              ground arith,
            )
            | inl legal ↦ rw (submit-loaded uuid id w q found legal) (
                reserved_after-Ended uuid id w.db.requests _
                  (loaded_requests q.employee_id q.location_id w))
          ]
        ]
