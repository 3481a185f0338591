-- ===== src/Holds/Delivery.antt =====
-- Cancellation, the outcomes of a delivery and the holds of the requests, over the standard store.
use hcm.Prelude.{
  ◌≡◌, refl, Bool, false, List, String, ℤ, arith, inl, inr, Option-cases, some, find, ℕ,
}
use hcm.Common.Enums.{RequestStatus, RequestAction, LedgerPhase, LedgerState}
use hcm.Common.StateMachine.{next_state}
use hcm.Hcm.Core.{Answer, ApplyDeltaAck}
use hcm.Database.{TimeOffRequest, BalanceLedgerEntry, OutboxMessage, Db}
use hcm.Database.Rows.{All-found}
use hcm.Database.Orm.{Orm, standard}
use hcm.Balances.{release_reservation, release_commit, commit_reservation, is_active_of}
use hcm.Outbox.{enqueue, cancel_pending_for_request, mark_done, mark_rejected, mark_retry_or_dead}
use hcm.Processor.{
  Draws, is_request, debit_applied, credit_applied, debit_rejected, apply_success, apply_rejection,
  outcome, record_drift,
}
use hcm.TimeOff.{cancel, cancel_committed, cancel_uncommitted, next_or}
use hcm.Holds.{holds, IsCovered, HoldsAreCovered, holds-released, may_hold}
use hcm.Holds.Handlers.{
  save_request-covered, release_reservation-covered, release_reservation-released,
  release_commit-covered, commit_reservation-covered, commit_reservation-released,
}

module _
    (totals : (BalanceLedgerEntry → Bool) → List BalanceLedgerEntry → List (LedgerPhase × ℤ)) where
  abbrev store : Orm
  store = standard totals

  cancel_committed-covered :
      (uuid : String) (r : TimeOffRequest) (db : Db)
      → IsCovered db.ledger r
      → r.status ≡ RequestStatus.committed
      → HoldsAreCovered db
      → HoldsAreCovered (cancel_committed store uuid r db).1
  unfolding cancel_committed enqueue next_state
  cancel_committed-covered uuid r db mine e h =
      save_request-covered totals (record r { status = next_or r.status RequestAction.cancel }) db
        (ground arith) h

  cancel_uncommitted-covered :
      (r : TimeOffRequest) (db : Db)
      → HoldsAreCovered db
      → HoldsAreCovered (cancel_uncommitted store r db).1
  unfolding cancel_uncommitted cancel_pending_for_request
  cancel_uncommitted-covered r db h =
      let released = release_reservation store r.id db in
      let r' = record r { status = next_or r.status RequestAction.cancel } in
      ground (
        arith,
        release_reservation-covered totals r.id db h,
        release_reservation-released totals r.id db,
        save_request-covered totals r' released,
        save_request-covered totals r' (cancel_pending_for_request store r.id released),
      )

  pub cancel-covered :
      (uuid id : String) (db : Db)
      → HoldsAreCovered db
      → HoldsAreCovered (cancel store uuid id db).1
  unfolding cancel
  cancel-covered uuid id db h = elim (Option-cases (find (is_request id) db.requests)) [
    | inl unknown ↦ ground (arith, h)
    | inr (r, found) ↦ ground (
      arith,
      h,
      cancel_committed-covered uuid r db
          (All-found (IsCovered db.ledger) (is_request id) db.requests r found h),
      cancel_uncommitted-covered r db h,
    )
  ]

  debit_applied-covered :
      (draws : Draws) (msg : OutboxMessage) (r : TimeOffRequest) (ref : String) (v : ℕ) (b : Bool)
      (db : Db)
      → HoldsAreCovered db
      → HoldsAreCovered (debit_applied store draws msg r ref v b db)
  unfolding debit_applied record_drift
  debit_applied-covered draws msg r ref v b db h =
      let committed =
        commit_reservation store draws.entry r.id r.employee_id r.location_id msg.payload.amount
          (some v) db in
      let saved = λ (to : RequestStatus). record r { status = to; hcm_ref = some ref } in
      elim (Option-cases (next_state r.status RequestAction.hcm_committed)) [
        | inl none_next ↦ ground (
          arith,
          commit_reservation-covered totals draws.entry r.id r.employee_id r.location_id
              msg.payload.amount (some v) db h,
        )
        | inr (to, next) ↦ ground (
          arith,
          commit_reservation-covered totals draws.entry r.id r.employee_id r.location_id
              msg.payload.amount (some v) db h,
          commit_reservation-released totals draws.entry r.id r.employee_id r.location_id
              msg.payload.amount (some v) db,
          save_request-covered totals (saved to) committed,
        )
      ]

  -- Only a request that holds nothing waits for a credit.
  credit_done_from :
      (s to : RequestStatus)
      → next_state s RequestAction.hcm_credit_done ≡ some to
      → may_hold s ≡ false
  unfolding next_state
  credit_done_from s to e = ground arith

  release_commit-free :
      (id : String) (db : Db)
      → holds id db.ledger ≡ false
      → holds id (release_commit store id db).ledger ≡ false
  unfolding release_commit
  release_commit-free id db free =
      holds-released id (is_active_of id LedgerPhase.commit) LedgerState.released db.ledger refl
        free

  credit_applied-covered :
      (r : TimeOffRequest) (db : Db)
      → IsCovered db.ledger r
      → HoldsAreCovered db
      → HoldsAreCovered (credit_applied store r db)
  unfolding credit_applied
  credit_applied-covered r db mine h =
      elim (Option-cases (next_state r.status RequestAction.hcm_credit_done)) [
        | inl none_next ↦ ground (arith, release_commit-covered totals r.id db h)
        | inr (to, next) ↦ ground (
          arith,
          credit_done_from r.status to next,
          release_commit-covered totals r.id db h,
          release_commit-free r.id db,
          save_request-covered totals (record r { status = to }) (release_commit store r.id db),
        )
      ]

  debit_rejected-covered :
      (r : TimeOffRequest) (db : Db)
      → HoldsAreCovered db
      → HoldsAreCovered (debit_rejected store r db)
  unfolding debit_rejected
  debit_rejected-covered r db h =
      elim (Option-cases (next_state r.status RequestAction.hcm_rejected)) [
        | inl none_next ↦ ground (arith, release_reservation-covered totals r.id db h)
        | inr (to, next) ↦ ground (
          arith,
          release_reservation-covered totals r.id db h,
          release_reservation-released totals r.id db,
          save_request-covered totals (record r { status = to })
              (release_reservation store r.id db),
        )
      ]

  apply_success-covered :
      (draws : Draws) (msg : OutboxMessage) (ref : String) (v : ℕ) (b : Bool) (db : Db)
      → HoldsAreCovered db
      → HoldsAreCovered (apply_success store draws msg ref v b db)
  unfolding apply_success mark_done
  apply_success-covered draws msg ref v b db h =
      elim (Option-cases (find (is_request msg.request_id) db.requests)) [
        | inl unknown ↦ ground (arith, h)
        | inr (r, found) ↦ ground (
          arith,
          debit_applied-covered draws msg r ref v b db h,
          credit_applied-covered r db
              (All-found (IsCovered db.ledger) (is_request msg.request_id) db.requests r found h) h,
        )
      ]

  apply_rejection-covered :
      (msg : OutboxMessage) (reason : String) (db : Db)
      → HoldsAreCovered db
      → HoldsAreCovered (apply_rejection store msg reason db)
  unfolding apply_rejection mark_rejected
  apply_rejection-covered msg reason db h =
      elim (Option-cases (find (is_request msg.request_id) db.requests)) [
        | inl unknown ↦ ground (arith, h)
        | inr (r, found) ↦ ground (arith, h, debit_rejected-covered r db h)
      ]

  pub outcome-covered :
      (draws : Draws) (msg : OutboxMessage) (answer : Answer ApplyDeltaAck) (db : Db)
      → HoldsAreCovered db
      → HoldsAreCovered (outcome store draws msg answer db)
  unfolding outcome mark_retry_or_dead
  outcome-covered draws msg (Answer.returns ack) db h =
      apply_success-covered draws msg ack.hcm_ref ack.version ack.applied db h
  outcome-covered draws msg (Answer.rejection code message) db h =
      apply_rejection-covered msg message db h
  outcome-covered draws msg (Answer.unavailable message) db h = ground (arith, h)
