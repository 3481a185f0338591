-- ===== src/Outbox.antt =====
-- outbox/outbox.service.ts: the outbox table. `uuid` is what `uuid()` returns, and `now` the time in
-- milliseconds.
pub mod Claims
pub mod Retry
use hcm.Prelude.{
  ℕ, ◌+◌, ◌-◌, ◌*◌, ◌^◌, Bool, false, none, some, List, map, String, ◌==◌, ◌<>◌, leb, take, has,
  ◌&&◌, ◌||◌, if◌then◌else◌,
}
use hcm.Common.Enums.{OutboxType, OutboxStatus, same_outbox_status}
use hcm.Database.{OutboxMessage, OutboxPayload, Db, same_message}
use hcm.Database.Orm.{Orm}

pub record EnqueueInput : Type 0 where
  pub request_id : String
  pub type : OutboxType
  pub idempotency_key : String
  pub payload : OutboxPayload

abbrev pub max_attempts : ℕ
max_attempts = 5

abbrev pub base_backoff_ms : ℕ
base_backoff_ms = 200

-- `[{ status: PENDING }, { status: FAILED, nextAttemptAt: LessThanOrEqual(now) }]`; a null time is
-- not less than any.
abbrev pub is_due : ℕ → OutboxMessage → Bool
is_due now m =
    same_outbox_status m.status OutboxStatus.pending
    || (same_outbox_status m.status OutboxStatus.failed
        && (elim m.next_attempt_at [ none ↦ false | some t ↦ leb t now ]))

abbrev pub has_id : String → OutboxMessage → Bool
has_id id m = m.id == id

-- `request_id = :requestId AND status IN (PENDING, FAILED)`
abbrev pub is_undelivered_of : String → OutboxMessage → Bool
is_undelivered_of request_id m =
    m.request_id == request_id
    && (same_outbox_status m.status OutboxStatus.pending
        || same_outbox_status m.status OutboxStatus.failed)

module _ (orm : Orm) where
  unfoldable pub enqueue : String → EnqueueInput → Db → Db
  enqueue uuid input db =
      let msg : OutboxMessage = record {
        id = uuid;
        request_id = input.request_id;
        type = input.type;
        idempotency_key = input.idempotency_key;
        payload = input.payload;
        status = OutboxStatus.pending;
        attempts = 0;
        next_attempt_at = none;
        last_error = none;
      } in
      record db { outbox = orm.save OutboxMessage same_message msg db.outbox }

  unfoldable pub claim_due : ℕ → ℕ → Db → List OutboxMessage × Db
  claim_due now limit db =
      let due = take limit (orm.find_all OutboxMessage (is_due now) db.outbox) in
      let ids = map (λ (d : OutboxMessage). d.id) due in
      (
        map (λ (d : OutboxMessage). record d { status = OutboxStatus.inflight }) due,
        record db {
          outbox =
              orm.update OutboxMessage (λ m. has m.id ids)
                (λ m. record m { status = OutboxStatus.inflight; next_attempt_at = none })
                db.outbox;
        },
      )

  unfoldable pub mark_done : String → Db → Db
  mark_done id db = record db {
    outbox =
        orm.update OutboxMessage (has_id id)
          (λ m. record m { status = OutboxStatus.done; last_error = none }) db.outbox;
  }

  unfoldable pub mark_retry_or_dead : OutboxMessage → String → ℕ → Db → OutboxStatus × Db
  mark_retry_or_dead msg error now db =
      let attempts = msg.attempts + 1 in
      let backoff = base_backoff_ms * 2 ^ (attempts - 1) in
      if leb max_attempts attempts
      then (
        OutboxStatus.dead,
        record db {
          outbox =
              orm.update OutboxMessage (has_id msg.id)
                (λ m. record m {
                  status = OutboxStatus.dead;
                  attempts = attempts;
                  last_error = some error;
                })
                db.outbox;
        },
      )
      else (
        OutboxStatus.failed,
        record db {
          outbox =
              orm.update OutboxMessage (has_id msg.id)
                (λ m. record m {
                  status = OutboxStatus.failed;
                  attempts = attempts;
                  last_error = some error;
                  next_attempt_at = some (now + backoff);
                })
                db.outbox;
        },
      )

  unfoldable pub cancel_pending_for_request : String → Db → Db
  cancel_pending_for_request request_id db = record db {
    outbox =
        orm.update OutboxMessage (is_undelivered_of request_id)
          (λ m. record m {
            status = OutboxStatus.dead;
            last_error = some "cancelled: request cancelled before delivery";
          })
          db.outbox;
  }

  unfoldable pub mark_rejected : String → String → Db → Db
  mark_rejected id error db = record db {
    outbox =
        orm.update OutboxMessage (has_id id)
          (λ m. record m { status = OutboxStatus.dead; last_error = some ("REJECTED: " <> error) })
          db.outbox;
  }
