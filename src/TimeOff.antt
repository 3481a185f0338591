-- ===== src/TimeOff.antt =====
-- time-off/time-off.service.ts: the lifecycle of a request. A method that runs in a transaction is an
-- action on the database, rolled back if it throws; `uuid` is what `uuid()` returns. `submit` holds
-- the mutex of its key across its transaction, so the transaction is one step.
pub mod Reserve
pub mod Submit
pub mod Idempotent
pub mod Messages
pub mod Concurrent
use mathlib.Core.List.{reverse}
use hcm.Prelude.{
  truthy, ℕ, Bool, true, false, Option, none, some, List, String, ◌==◌, ◌<>◌, ℤ, ◌&&◌,
  if◌then◌else◌,
}
use hcm.Common.Enums.{RequestStatus, RequestAction, OutboxType, same_status}
use hcm.Common.StateMachine.{next_state, can_transition}
use hcm.Common.BalanceMath.{compute_available, can_reserve}
use hcm.Common.Errors.{ServiceError}
use hcm.Common.Exec.{Exec, Result, ok, err, pure, modify, transaction, ◌>>=◌, ◌>>◌}
use hcm.Hcm.Client.{HcmClient}
use hcm.Database.{TimeOffRequest, Db}
use hcm.Database.Orm.{Orm}
use hcm.Balances.{
  World, ensure_balance_loaded, compute_components, add_reservation, release_reservation,
}
use hcm.Outbox.{enqueue, cancel_pending_for_request}
use hcm.Processor.{is_request, save_request}

pub record CreateTimeOffRequestDto : Type 0 where
  pub employee_id : String
  pub location_id : String
  pub start_date : String
  pub end_date : String
  pub days : ℤ
  pub reason : Option String
  pub submit : Bool

pub record ListTimeOffRequestDto : Type 0 where
  pub employee_id : Option String
  pub location_id : Option String
  pub status : Option RequestStatus

-- The status that a legal action leads to; the `!` of `nextState(…)!`.
abbrev pub next_or : RequestStatus → RequestAction → RequestStatus
next_or from action = elim (next_state from action) [ none ↦ from | some to ↦ to ]

abbrev pub matches : ListTimeOffRequestDto → TimeOffRequest → Bool
matches query r =
    (elim (truthy query.employee_id) [ none ↦ true | some e ↦ r.employee_id == e ])
    && (elim (truthy query.location_id) [ none ↦ true | some l ↦ r.location_id == l ])
    && (elim query.status [ none ↦ true | some s ↦ same_status r.status s ])

abbrev pub has_key : String → TimeOffRequest → Bool
has_key k r = elim r.idempotency_key [ none ↦ false | some j ↦ j == k ]

-- The state of one service call that only reads and writes the database.
abbrev pub Action : Type 0 → Type 0
Action A = Exec ServiceError Db A

-- A database call of a service that also reaches the HCM.
abbrev pub in_db : {H A : Type 0} → Action A → Exec ServiceError (World H) A
in_db m w = let (r, db') = m w.db in (r, record w { db = db' })

abbrev pub guard : Bool → ServiceError → Action (Unit {0})
guard true e db = (ok tt, db)
guard false e db = (err e, db)

abbrev pub or_throw : {A : Type 0} → Option A → ServiceError → Action A
or_throw none e db = (err e, db)
or_throw (some a) e db = (ok a, db)

module _ (orm : Orm) where
  abbrev pub find_request : String → Db → Option TimeOffRequest
  find_request id db = orm.find_one TimeOffRequest (is_request id) db.requests

  unfoldable pub get_or_throw : String → Action TimeOffRequest
  get_or_throw id db = or_throw (find_request id db) (ServiceError.request_not_found id) db

  -- Newest first.
  unfoldable pub list : ListTimeOffRequestDto → Db → List TimeOffRequest
  list query db = reverse (orm.find_all TimeOffRequest (matches query) db.requests)

  -- What the transaction body of `submit` reads before it writes.
  abbrev pub checked : String → Action TimeOffRequest
  checked id db =
      (do
        r ← or_throw (find_request id db) ServiceError.not_found
        guard (can_transition r.status RequestAction.submit)
            (ServiceError.illegal_transition r.status RequestAction.submit)
        let components = compute_components orm r.employee_id r.location_id db
        guard (can_reserve components r.days)
            (ServiceError.insufficient_balance r.days (compute_available components))
        pure r)
        db

  -- What it then writes.
  abbrev pub placed : String → TimeOffRequest → Action TimeOffRequest
  placed uuid r = (do
    modify (add_reservation orm uuid r.id r.employee_id r.location_id r.days)
    let r' = record r { status = next_or r.status RequestAction.submit }
    modify (save_request orm r')
    pure r')

  -- The transaction body of `submit`, under the mutex.
  unfoldable pub reserve : String → String → Action TimeOffRequest
  reserve uuid id = do r ← checked id; placed uuid r

  unfoldable pub submit :
      (client : HcmClient) (parse_date : String → ℕ)
      → String
      → String
      → Exec ServiceError (World client.State) TimeOffRequest
  submit client parse_date uuid id = do
    pre ← in_db (get_or_throw id)
    in_db (
        guard (can_transition pre.status RequestAction.submit)
          (ServiceError.illegal_transition pre.status RequestAction.submit))
    ensure_balance_loaded orm client parse_date pre.employee_id pre.location_id
    in_db (transaction (reserve uuid id))

  -- The request that a repeated `create` finds.
  unfoldable pub existing_for : Option String → Db → Option TimeOffRequest
  existing_for idempotency_key db = elim (truthy idempotency_key) [
    | none ↦ none
    | some k ↦ orm.find_one TimeOffRequest (has_key k) db.requests
  ]

  -- `create`, with the ids of the request and of its reservation.
  unfoldable pub create :
      (client : HcmClient) (parse_date : String → ℕ)
      → String
      → String
      → CreateTimeOffRequestDto
      → Option String
      → Exec ServiceError (World client.State) TimeOffRequest
  create client parse_date uuid entry_uuid dto idempotency_key w =
      let created : TimeOffRequest = record {
        id = uuid;
        employee_id = dto.employee_id;
        location_id = dto.location_id;
        start_date = dto.start_date;
        end_date = dto.end_date;
        days = dto.days;
        status = RequestStatus.draft;
        idempotency_key = idempotency_key;
        hcm_ref = none;
        reason = dto.reason;
      } in
      let w' = record w { db = save_request orm created w.db } in
      elim (existing_for idempotency_key w.db) [
        | some r ↦ (ok r, w)
        | none ↦
            if dto.submit
            then submit client parse_date entry_uuid created.id w'
            else (ok created, w')
      ]

  -- The guard that each of the last three methods begins with.
  abbrev pub legal : RequestAction → String → Db → Result ServiceError TimeOffRequest
  legal action id db = elim (find_request id db) [
    | none ↦ err ServiceError.not_found
    | some r ↦
        if can_transition r.status action
        then ok r
        else err (ServiceError.illegal_transition r.status action)
  ]

  -- The transaction body of `approve`, and those of `reject` and `cancel` below.
  abbrev pub approving : String → String → Action TimeOffRequest
  approving uuid id = (do
    r ← λ db. (legal RequestAction.approve id db, db)
    let r' = record r { status = next_or r.status RequestAction.approve }
    modify (save_request orm r')
    modify (
        enqueue orm uuid (record {
          request_id = r'.id;
          type = OutboxType.debit;
          idempotency_key = "debit:" <> r'.id;
          payload = record {
            employee_id = r'.employee_id;
            location_id = r'.location_id;
            amount = r'.days;
          };
        }))
    pure r')

  unfoldable pub approve : String → String → Action TimeOffRequest
  approve uuid id = transaction (approving uuid id)

  abbrev pub rejecting : String → Action TimeOffRequest
  rejecting id = (do
    r ← λ db. (legal RequestAction.reject id db, db)
    modify (release_reservation orm r.id)
    let r' = record r { status = next_or r.status RequestAction.reject }
    modify (save_request orm r')
    pure r')

  unfoldable pub reject : String → Action TimeOffRequest
  reject id = transaction (rejecting id)

  -- The branch of `cancel` for a COMMITTED request, and the one for all others.
  unfoldable pub cancel_committed : String → TimeOffRequest → Action TimeOffRequest
  cancel_committed uuid r = do
    let r' = record r { status = next_or r.status RequestAction.cancel }
    modify (save_request orm r')
    modify (
        enqueue orm uuid (record {
          request_id = r'.id;
          type = OutboxType.credit;
          idempotency_key = "credit:" <> r'.id;
          payload = record {
            employee_id = r'.employee_id;
            location_id = r'.location_id;
            amount = r'.days;
          };
        }))
    pure r'

  unfoldable pub cancel_uncommitted : TimeOffRequest → Action TimeOffRequest
  cancel_uncommitted r = do
    modify (release_reservation orm r.id)
    modify (λ db.
        if same_status r.status RequestStatus.approved
        then cancel_pending_for_request orm r.id db
        else db)
    let r' = record r { status = next_or r.status RequestAction.cancel }
    modify (save_request orm r')
    pure r'

  abbrev pub cancelling : String → String → Action TimeOffRequest
  cancelling uuid id = (do
    r ← λ db. (legal RequestAction.cancel id db, db)
    if same_status r.status RequestStatus.committed
        then cancel_committed uuid r
        else cancel_uncommitted r)

  unfoldable pub cancel : String → String → Action TimeOffRequest
  cancel uuid id = transaction (cancelling uuid id)
