-- ===== src/Sent/Delivery.antt =====
-- The deliveries of outbox/outbox.processor.ts and the messages of each request.
use hcm.Prelude.{
  ◌+◌, ◌-◌, ◌*◌, ◌^◌, refl, Bool, List, String, ℕ, arith, inl, inr, some, none, find, ℤ,
  Option-cases, ◌<>◌,
}
use hcm.Common.Enums.{RequestAction, OutboxStatus, LedgerPhase}
use hcm.Common.StateMachine.{next_state}
use hcm.Hcm.Core.{Answer, ApplyDeltaAck}
use hcm.Database.{TimeOffRequest, BalanceLedgerEntry, OutboxMessage, Db}
use hcm.Database.Orm.{Orm, standard}
use hcm.Database.Rows.{All-found}
use hcm.Balances.{release_reservation, release_commit, commit_reservation}
use hcm.Outbox.{base_backoff_ms, has_id, claim_due, mark_done, mark_rejected, mark_retry_or_dead}
use hcm.Processor.{
  Draws, is_request, save_request, debit_applied, credit_applied, debit_rejected, apply_success,
  apply_rejection, outcome, record_drift,
}
use hcm.Sent.{IsSentOnce, SentOnce}
use hcm.Sent.Tables.{All-updated, IsSentOnce-saved}
use hcm.Sent.Handlers.{moved-IsSentOnce}

module _
    (totals : (BalanceLedgerEntry → Bool) → List BalanceLedgerEntry → List (LedgerPhase × ℤ)) where
  abbrev store : Orm
  store = standard totals

  debit_applied-SentOnce :
      (draws : Draws) (msg : OutboxMessage) (r : TimeOffRequest) (ref : String) (v : ℕ) (b : Bool)
      (db : Db)
      → IsSentOnce db.outbox r
      → SentOnce db
      → SentOnce (debit_applied store draws msg r ref v b db)
  unfolding debit_applied record_drift save_request commit_reservation release_reservation
  debit_applied-SentOnce draws msg r ref v b db once h =
      elim (Option-cases (next_state r.status RequestAction.hcm_committed)) [
        | inl none_next ↦ ground (arith, h)
        | inr (to, next) ↦
            let moved = moved-IsSentOnce db.outbox r RequestAction.hcm_committed to next once in
            ground (
              arith,
              next,
              IsSentOnce-saved db.outbox (record r { status = to; hcm_ref = some ref }) db.requests
                  moved h,
            )
      ]

  credit_applied-SentOnce :
      (r : TimeOffRequest) (db : Db)
      → IsSentOnce db.outbox r
      → SentOnce db
      → SentOnce (credit_applied store r db)
  unfolding credit_applied save_request release_commit
  credit_applied-SentOnce r db once h =
      elim (Option-cases (next_state r.status RequestAction.hcm_credit_done)) [
        | inl none_next ↦ ground (arith, h)
        | inr (to, next) ↦
            let moved = moved-IsSentOnce db.outbox r RequestAction.hcm_credit_done to next once in
            ground (
              arith,
              next,
              IsSentOnce-saved db.outbox (record r { status = to }) db.requests moved h,
            )
      ]

  debit_rejected-SentOnce :
      (r : TimeOffRequest) (db : Db)
      → IsSentOnce db.outbox r
      → SentOnce db
      → SentOnce (debit_rejected store r db)
  unfolding debit_rejected save_request release_reservation
  debit_rejected-SentOnce r db once h =
      elim (Option-cases (next_state r.status RequestAction.hcm_rejected)) [
        | inl none_next ↦ ground (arith, h)
        | inr (to, next) ↦
            let moved = moved-IsSentOnce db.outbox r RequestAction.hcm_rejected to next once in
            ground (
              arith,
              next,
              IsSentOnce-saved db.outbox (record r { status = to }) db.requests moved h,
            )
      ]

  -- The writes that only move a message on.
  mark_done-SentOnce : (id : String) (db : Db) → SentOnce db → SentOnce (mark_done store id db)
  unfolding mark_done
  mark_done-SentOnce id db h =
      All-updated (has_id id) (λ m. record m { status = OutboxStatus.done; last_error = none })
        db.outbox (λ m. refl) (λ m. refl) db.requests h

  mark_rejected-SentOnce :
      (id error : String) (db : Db) → SentOnce db → SentOnce (mark_rejected store id error db)
  unfolding mark_rejected
  mark_rejected-SentOnce id error db h =
      All-updated (has_id id)
        (λ m. record m { status = OutboxStatus.dead; last_error = some ("REJECTED: " <> error) })
        db.outbox (λ m. refl) (λ m. refl) db.requests h

  mark_retry_or_dead-SentOnce :
      (msg : OutboxMessage) (error : String) (now : ℕ) (db : Db)
      → SentOnce db
      → SentOnce (mark_retry_or_dead store msg error now db).1
  unfolding mark_retry_or_dead
  mark_retry_or_dead-SentOnce msg error now db h =
      let attempts = msg.attempts + 1 in
      let backoff = base_backoff_ms * 2 ^ (attempts - 1) in
      ground (
        arith,
        All-updated (has_id msg.id)
            (λ m. record m {
              status = OutboxStatus.dead;
              attempts = attempts;
              last_error = some error;
            })
            db.outbox (λ m. refl) (λ m. refl) db.requests h,
        All-updated (has_id msg.id)
            (λ m. record m {
              status = OutboxStatus.failed;
              attempts = attempts;
              last_error = some error;
              next_attempt_at = some (now + backoff);
            })
            db.outbox (λ m. refl) (λ m. refl) db.requests h,
      )

  pub claim_due-SentOnce :
      (now limit : ℕ) (db : Db) → SentOnce db → SentOnce (claim_due store now limit db).1
  unfolding claim_due
  claim_due-SentOnce now limit db h =
      All-updated _ (λ m. record m { status = OutboxStatus.inflight; next_attempt_at = none })
        db.outbox (λ m. refl) (λ m. refl) db.requests h

  apply_success-SentOnce :
      (draws : Draws) (msg : OutboxMessage) (ref : String) (v : ℕ) (b : Bool) (db : Db)
      → SentOnce db
      → SentOnce (apply_success store draws msg ref v b db)
  unfolding apply_success
  apply_success-SentOnce draws msg ref v b db h =
      elim (Option-cases (find (is_request msg.request_id) db.requests)) [
        | inl unknown ↦ ground (arith, mark_done-SentOnce msg.id db h)
        | inr (r, found) ↦
            let once =
              All-found (IsSentOnce db.outbox) (is_request msg.request_id) db.requests r found h in
            ground (
              arith,
              mark_done-SentOnce msg.id (debit_applied store draws msg r ref v b db)
                  (debit_applied-SentOnce draws msg r ref v b db once h),
              mark_done-SentOnce msg.id (credit_applied store r db)
                  (credit_applied-SentOnce r db once h),
            )
      ]

  apply_rejection-SentOnce :
      (msg : OutboxMessage) (reason : String) (db : Db)
      → SentOnce db
      → SentOnce (apply_rejection store msg reason db)
  unfolding apply_rejection
  apply_rejection-SentOnce msg reason db h =
      elim (Option-cases (find (is_request msg.request_id) db.requests)) [
        | inl unknown ↦ ground (arith, mark_rejected-SentOnce msg.id reason db h)
        | inr (r, found) ↦
            let once =
              All-found (IsSentOnce db.outbox) (is_request msg.request_id) db.requests r found h in
            ground (
              arith,
              mark_rejected-SentOnce msg.id reason db h,
              mark_rejected-SentOnce msg.id reason (debit_rejected store r db)
                  (debit_rejected-SentOnce r db once h),
            )
      ]

  pub outcome-SentOnce :
      (draws : Draws) (msg : OutboxMessage) (answer : Answer ApplyDeltaAck) (db : Db)
      → SentOnce db
      → SentOnce (outcome store draws msg answer db)
  unfolding outcome
  outcome-SentOnce draws msg (Answer.returns ack) db h =
      apply_success-SentOnce draws msg ack.hcm_ref ack.version ack.applied db h
  outcome-SentOnce draws msg (Answer.rejection code message) db h =
      apply_rejection-SentOnce msg message db h
  outcome-SentOnce draws msg (Answer.unavailable message) db h =
      mark_retry_or_dead-SentOnce msg message draws.now db h
