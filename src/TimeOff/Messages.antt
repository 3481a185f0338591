-- ===== src/TimeOff/Messages.antt =====
-- The messages for HCM that time-off/time-off.service.ts writes: `approve` and `cancel`.
use hcm.Prelude.{
  length, ◌≡◌, true, false, none, some, String, ◌==◌, ◌<>◌, any, find, Bool, List, [], ◌∷◌, ◌++◌,
  ◌⊎◌, ℤ, Option-cases, Bool-cases, inl, inr, arith, length, subst,
}
use hcm.Common.Enums.{
  RequestStatus, RequestAction, OutboxType, OutboxStatus, LedgerPhase, LedgerState, same_status,
}
use hcm.Common.StateMachine.{can_transition, next_state}
use hcm.Common.Exec.{ok}
use hcm.Database.{TimeOffRequest, OutboxMessage, BalanceLedgerEntry, Db}
use hcm.Database.Orm.{Orm, IsOrm, standard, orm_path}
use hcm.Database.Rows.{none_left, length-update_rows}
use hcm.Balances.{is_active_of, release_reservation}
use hcm.Outbox.{enqueue, is_undelivered_of, cancel_pending_for_request}
use hcm.Processor.{is_request, save_request}
use hcm.TimeOff
use hcm.TimeOff.{approve, cancel_committed, cancel_uncommitted}

-- A new message for all days of a request.
abbrev pub message : String → OutboxType → String → TimeOffRequest → OutboxMessage
message uuid type key q = record {
  id = uuid;
  request_id = q.id;
  type = type;
  idempotency_key = key;
  payload = record { employee_id = q.employee_id; location_id = q.location_id; amount = q.days };
  status = OutboxStatus.pending;
  attempts = 0;
  next_attempt_at = none;
  last_error = none;
}

abbrev pub IsFreshMessage : String → Db → Type 0
IsFreshMessage uuid db = any (λ m. m.id == uuid) db.outbox ≡ false

-- What an approval that succeeds has found and done.
abbrev pub Approves : Orm → String → String → Db → TimeOffRequest → Db → Type 0
Approves orm uuid id db r db' =
    (q : TimeOffRequest) × (orm.find_one TimeOffRequest (is_request id) db.requests ≡ some q)
    × (q.status ≡ RequestStatus.pending_approval)
    × (r ≡ record q { status = RequestStatus.approved })
    × (db'.ledger ≡ db.ledger)
    × (db'.outbox ≡ db.outbox ++ message uuid OutboxType.debit ("debit:" <> q.id) q ∷ [])

-- What a cancellation that succeeds has found and done.
abbrev pub Cancels : Orm → String → String → Db → TimeOffRequest → Db → Type 0
Cancels orm uuid id db r db' =
    (q : TimeOffRequest) × (orm.find_one TimeOffRequest (is_request id) db.requests ≡ some q)
    × (((q.status ≡ RequestStatus.committed)
          × (r ≡ record q { status = RequestStatus.cancellation_pending })
          × (db'.ledger ≡ db.ledger)
          × (db'.outbox ≡ db.outbox ++ message uuid OutboxType.credit ("credit:" <> q.id) q ∷ []))
        ⊎ ((r ≡ record q { status = RequestStatus.cancelled })
            × (any (is_active_of q.id LedgerPhase.reserve) db'.ledger ≡ false)
            × (q.status ≡ RequestStatus.approved → any (is_undelivered_of q.id) db'.outbox ≡ false)
            × (length db'.outbox ≡ length db.outbox)))

approve_from :
    (s : RequestStatus)
    → can_transition s RequestAction.approve ≡ true
    → (s ≡ RequestStatus.pending_approval)
      × (next_state s RequestAction.approve ≡ some RequestStatus.approved)
unfolding can_transition next_state
approve_from s h = ground arith

cancel_from :
    (s : RequestStatus)
    → can_transition s RequestAction.cancel ≡ true
    → ((s ≡ RequestStatus.committed)
        × (next_state s RequestAction.cancel ≡ some RequestStatus.cancellation_pending))
      ⊎ ((same_status s RequestStatus.committed ≡ false)
          × (next_state s RequestAction.cancel ≡ some RequestStatus.cancelled))
unfolding can_transition next_state
cancel_from s h = elim (Bool-cases (same_status s RequestStatus.committed)) [
  | inl is_committed ↦ inl (ground arith, ground arith)
  | inr other ↦ inr (other, ground arith)
]

no_hold :
    (id : String) (r : BalanceLedgerEntry)
    → is_active_of id LedgerPhase.reserve (record r { state = LedgerState.released }) ≡ false
no_hold id r = ground arith

abbrev cancelled_message : OutboxMessage → OutboxMessage
cancelled_message m = record m {
  status = OutboxStatus.dead;
  last_error = some "cancelled: request cancelled before delivery";
}

no_delivery : (id : String) (m : OutboxMessage) → is_undelivered_of id (cancelled_message m) ≡ false
no_delivery id m = ground arith

module _
    (totals : (BalanceLedgerEntry → Bool) → List BalanceLedgerEntry → List (LedgerPhase × ℤ)) where
  standard-Approves :
      (uuid id : String) (db : Db) (r : TimeOffRequest) (db' : Db)
      → IsFreshMessage uuid db
      → approve (standard totals) uuid id db ≡ (ok r, db')
      → Approves (standard totals) uuid id db r db'
  unfolding approve enqueue save_request
  standard-Approves uuid id db r db' fresh h =
      elim (Option-cases (find (is_request id) db.requests)) [
        | inl unknown ↦ absurd (ground arith)
        | inr (q, found) ↦ elim (Bool-cases (can_transition q.status RequestAction.approve)) [
          | inr illegal ↦ absurd (ground arith)
          | inl legal ↦
              let (from, to) = approve_from q.status legal in
              (q, found, from, ground arith, ground arith, ground arith)
        ]
      ]

  standard-Cancels :
      (uuid id : String) (db : Db) (r : TimeOffRequest) (db' : Db)
      → IsFreshMessage uuid db
      → TimeOff.cancel (standard totals) uuid id db ≡ (ok r, db')
      → Cancels (standard totals) uuid id db r db'
  unfolding TimeOff.cancel cancel_committed cancel_uncommitted enqueue save_request
      release_reservation cancel_pending_for_request
  standard-Cancels uuid id db r db' fresh h =
      elim (Option-cases (find (is_request id) db.requests)) [
        | inl unknown ↦ absurd (ground arith)
        | inr (q, found) ↦ elim (Bool-cases (can_transition q.status RequestAction.cancel)) [
          | inr illegal ↦ absurd (ground arith)
          | inl legal ↦ elim (cancel_from q.status legal) [
            | inl (from, to) ↦ (q, found, inl (from, ground arith, ground arith, ground arith))
            | inr (other, to) ↦
                let holds =
                  none_left (is_active_of q.id LedgerPhase.reserve)
                    (λ r. record r { state = LedgerState.released }) (no_hold q.id) db.ledger in
                let sent =
                  none_left (is_undelivered_of q.id) cancelled_message (no_delivery q.id)
                    db.outbox in
                let kept =
                  length-update_rows (is_undelivered_of q.id) cancelled_message db.outbox in
                (
                  q,
                  found,
                  inr (
                    ground arith,
                    ground (arith, holds),
                    λ approved. ground (arith, sent),
                    ground (arith, kept),
                  ),
                )
          ]
        ]
      ]

-- An approval that succeeds was of a PENDING_APPROVAL request and appends exactly one message: a
-- PENDING debit of all its days at its key, under the idempotency key that its id gives. The ledger
-- stays as it is. The id drawn for the message is new.
pub approve-Approves :
    (orm : Orm)
    → IsOrm orm
    → (uuid id : String) (db : Db) (r : TimeOffRequest) (db' : Db) → IsFreshMessage uuid db
    → approve orm uuid id db ≡ (ok r, db')
    → Approves orm uuid id db r db'
approve-Approves orm laws uuid id db r db' fresh =
    subst (λ o. approve o uuid id db ≡ (ok r, db') → Approves o uuid id db r db')
      (orm_path orm laws) (standard-Approves orm.phase_totals uuid id db r db' fresh)

-- A cancellation that succeeds either was of a COMMITTED request, which becomes
-- CANCELLATION_PENDING, and appends exactly one message, a PENDING credit of all its days; or it
-- makes the request CANCELLED, leaves it no active hold and no new message, and if it was APPROVED no
-- message that could still be claimed. The id drawn for the message is new.
pub cancel-Cancels :
    (orm : Orm)
    → IsOrm orm
    → (uuid id : String) (db : Db) (r : TimeOffRequest) (db' : Db) → IsFreshMessage uuid db
    → TimeOff.cancel orm uuid id db ≡ (ok r, db')
    → Cancels orm uuid id db r db'
cancel-Cancels orm laws uuid id db r db' fresh =
    subst (λ o. TimeOff.cancel o uuid id db ≡ (ok r, db') → Cancels o uuid id db r db')
      (orm_path orm laws) (standard-Cancels orm.phase_totals uuid id db r db' fresh)
