-- ===== src/Processor.antt =====
-- outbox/outbox.processor.ts: delivery of the outbox to the HCM. Timer has the timer that calls
-- `drainOnce`.
pub mod Timer
pub mod Stuck
pub mod Settled
pub mod Drained
pub mod Commits
pub mod InStep
use hcm.Prelude.{
  ℕ, Bool, true, false, none, some, List, [], ◌∷◌, length, String, ◌==◌, pos, if◌then◌else◌,
}
use hcm.Common.Enums.{RequestStatus, RequestAction, is_debit, ReconciliationEventType}
use hcm.Common.StateMachine.{next_state}
use hcm.Hcm.Core.{DeltaType, ApplyDeltaCommand, ApplyDeltaAck, Answer}
use hcm.Hcm.Client.{HcmClient}
use hcm.Database.{
  TimeOffRequest, OutboxMessage, ReconciliationEvent, EventDetail, Db, same_request, same_event,
}
use hcm.Database.Orm.{Orm}
use hcm.Balances.{World, release_reservation, commit_reservation, release_commit}
use hcm.Outbox.{claim_due, mark_done, mark_retry_or_dead, mark_rejected}

abbrev pub is_request : String → TimeOffRequest → Bool
is_request id r = r.id == id

-- `const to = nextState(…); if (to) …`
abbrev pub when_next {ℓ} :
    {A : Type ℓ} → RequestStatus → RequestAction → (RequestStatus → A → A) → A → A
when_next from action f a = elim (next_state from action) [ none ↦ a | some to ↦ f to a ]

-- The command that `deliver` sends.
abbrev pub command : OutboxMessage → ApplyDeltaCommand
command msg = record {
  employee_id = msg.payload.employee_id;
  location_id = msg.payload.location_id;
  amount = msg.payload.amount;
  type = if is_debit msg.type then DeltaType.debit else DeltaType.credit;
  idempotency_key = msg.idempotency_key;
}

-- What a delivery may draw from outside: the ids of the COMMIT entry and of the drift event, and
-- the time at which a failure is recorded.
pub record Draws : Type 0 where
  pub entry : String
  pub event : String
  pub now : ℕ

module _ (orm : Orm) where
  unfoldable pub save_request : TimeOffRequest → Db → Db
  save_request r db = record db { requests = orm.save TimeOffRequest same_request r db.requests }

  unfoldable pub record_drift : String → TimeOffRequest → String → Db → Db
  record_drift uuid request detail db =
      let event : ReconciliationEvent = record {
        id = uuid;
        type = ReconciliationEventType.drift_detected;
        employee_id = request.employee_id;
        location_id = request.location_id;
        delta = pos 0;
        detail = some (EventDetail.drift request.id detail);
      } in
      record db { events = orm.save ReconciliationEvent same_event event db.events }

  -- The DEBIT branch of `applySuccess` for the request found.
  unfoldable pub debit_applied :
      Draws → OutboxMessage → TimeOffRequest → String → ℕ → Bool → Db → Db
  debit_applied draws msg request hcm_ref hcm_version hcm_actually_applied db =
      let committed =
        commit_reservation orm draws.entry request.id request.employee_id request.location_id
          msg.payload.amount (some hcm_version) db in
      let saved =
        when_next request.status RequestAction.hcm_committed
          (λ to. save_request (record request { status = to; hcm_ref = some hcm_ref })) committed in
      if hcm_actually_applied
      then saved
      else record_drift draws.event request
          "HCM acknowledged debit without applying it (ghost success)" saved

  -- The CREDIT branch.
  unfoldable pub credit_applied : TimeOffRequest → Db → Db
  credit_applied request db =
      when_next request.status RequestAction.hcm_credit_done
        (λ to. save_request (record request { status = to })) (release_commit orm request.id db)

  unfoldable pub apply_success : Draws → OutboxMessage → String → ℕ → Bool → Db → Db
  apply_success draws msg hcm_ref hcm_version hcm_actually_applied db =
      elim (orm.find_one TimeOffRequest (is_request msg.request_id) db.requests) [
        | none ↦ mark_done orm msg.id db
        | some request ↦ mark_done orm msg.id (
            if is_debit msg.type
            then debit_applied draws msg request hcm_ref hcm_version hcm_actually_applied db
            else credit_applied request db)
      ]

  unfoldable pub debit_rejected : TimeOffRequest → Db → Db
  debit_rejected request db =
      when_next request.status RequestAction.hcm_rejected
        (λ to. save_request (record request { status = to }))
        (release_reservation orm request.id db)

  unfoldable pub apply_rejection : OutboxMessage → String → Db → Db
  apply_rejection msg reason db =
      mark_rejected orm msg.id reason
        (elim (orm.find_one TimeOffRequest (is_request msg.request_id) db.requests) [
          | none ↦ db
          | some request ↦ if is_debit msg.type then debit_rejected request db else db
        ])

  -- What `deliver` does with each outcome of the call.
  unfoldable pub outcome : Draws → OutboxMessage → Answer ApplyDeltaAck → Db → Db
  outcome draws msg (Answer.returns ack) db =
      apply_success draws msg ack.hcm_ref ack.version ack.applied db
  outcome draws msg (Answer.rejection code message) db = apply_rejection msg message db
  outcome draws msg (Answer.unavailable message) db =
      (mark_retry_or_dead orm msg message draws.now db).1

  unfoldable pub deliver :
      (client : HcmClient) → Draws → OutboxMessage → World client.State → World client.State
  deliver client draws msg w =
      let (answer, hcm') = client.apply_delta (command msg) w.hcm in
      record { db = outcome draws msg answer w.db; hcm = hcm' }

  -- The loop of `drainOnce`; `draws` gives what the delivery of each message draws.
  unfoldable pub deliver_all :
      (client : HcmClient)
      → (OutboxMessage → Draws)
      → List OutboxMessage
      → World client.State
      → World client.State
  deliver_all client draws [] w = w
  deliver_all client draws (msg ∷ msgs) w =
      deliver_all client draws msgs (deliver client (draws msg) msg w)

  -- `drainOnce`, with the flag `draining` beside the world; the count is of the messages claimed.
  unfoldable pub drain_once :
      (client : HcmClient)
      → (OutboxMessage → Draws)
      → ℕ
      → Bool × World client.State
      → ℕ × Bool × World client.State
  drain_once client draws now (draining, w) =
      if draining
      then (0, true, w)
      else (let (due, db') = claim_due orm now 50 w.db in
          (length due, false, deliver_all client draws due (record w { db = db' })))
