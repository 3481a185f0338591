-- ===== src/Sync/LateAck.antt =====
-- A snapshot of sync/sync.service.ts that already includes a debit, and the acknowledgement of that
-- debit which outbox/outbox.processor.ts gets only afterwards.
use hcm.Prelude.{
  find, Bool, List, Option, ap, ◌≡◌, refl, ◌∙◌, false, true, some, String, ◌==◌, any, ℕ, ◌≤◌, ℤ,
  ◌+ℤ◌, arith, subst,
}
use text.Mathlib.TextPositions.{eq_refl}
use hcm.Common.Enums.{RequestStatus, OutboxType, LedgerPhase}
use hcm.Common.Reconciliation.{is_absorbed}
use hcm.Hcm.Core.{Answer, ApplyDeltaAck}
use hcm.Database.{OutboxMessage, TimeOffRequest, BalanceLedgerEntry, Db}
use hcm.Database.Orm.{Orm, IsOrm, standard, orm_path, SumsByPhase}
use hcm.Balances.{compute_components, commit_reservation, release_reservation}
use hcm.Processor.{Draws, is_request, outcome}
use hcm.Processor.Settled.{standard-Settles, acked}
use hcm.Sync.{SyncDraws, HcmBalanceUpdate, reconcile_key, balance_for}
use hcm.Sync.Again.{dropped_if_old}

-- The debit is subtracted although the snapshot has it, and the snapshot is not taken again.
abbrev pub CountedTwice :
    Orm
    → (String → ℕ)
    → Draws
    → SyncDraws
    → OutboxMessage
    → ApplyDeltaAck
    → HcmBalanceUpdate
    → Db
    → Type 0
CountedTwice orm parse_date draws drawn msg ack u db =
    let db' = outcome orm draws msg (Answer.returns ack) db in
    let before = compute_components orm u.employee_id u.location_id db in
    let after = compute_components orm u.employee_id u.location_id db' in
    let (r, again) = reconcile_key orm parse_date drawn u db' in
    (after.hcm_balance ≡ before.hcm_balance)
    × (after.committed_pending ≡ before.committed_pending +ℤ msg.payload.amount)
    × (is_absorbed u.version
          (record { id = draws.entry; amount = msg.payload.amount; hcm_version = some ack.version })
        ≡ true)
    × (r.applied ≡ false)
    × (again ≡ db')

module _ (totals : (BalanceLedgerEntry → Bool) → List BalanceLedgerEntry → List (LedgerPhase × ℤ))
    (sums : SumsByPhase totals) (parse_date : String → ℕ) where
  abbrev store : Orm
  store = standard totals

  -- The watermark of a key, in tables with the same balances.
  same_watermark :
      (u : HcmBalanceUpdate) (db db' : Db)
      → db'.balances ≡ db.balances
      → (balance_for store parse_date u db').last_reconciled_version
        ≡ (balance_for store parse_date u db).last_reconciled_version
  unfolding balance_for
  same_watermark u db db' same = rw same refl

  kept_balances :
      (uuid id e l : String) (amount : ℤ) (version : Option ℕ) (db : Db)
      → (commit_reservation store uuid id e l amount version db).balances ≡ db.balances
  unfolding commit_reservation release_reservation
  kept_balances uuid id e l amount version db = refl

  standard-CountedTwice :
      (draws : Draws) (drawn : SyncDraws) (msg : OutboxMessage) (ack : ApplyDeltaAck)
      (q : TimeOffRequest) (u : HcmBalanceUpdate) (db : Db)
      → msg.type ≡ OutboxType.debit
      → find (is_request msg.request_id) db.requests ≡ some q
      → q.status ≡ RequestStatus.approved
      → q.employee_id ≡ u.employee_id
      → q.location_id ≡ u.location_id
      → any (λ r. r.id == draws.entry) db.ledger ≡ false
      → ack.version ≤ u.version
      → u.version ≤ (balance_for store parse_date u db).last_reconciled_version
      → CountedTwice store parse_date draws drawn msg ack u db
  unfolding is_absorbed
  standard-CountedTwice draws drawn msg ack q u db debit found approved at_e at_l fresh included
        reconciled =
      let db' = outcome store draws msg (Answer.returns ack) db in
      let settled =
        (standard-Settles totals sums draws msg q db debit found approved fresh).0 ack in
      let moved = settled.1 u.employee_id u.location_id in
      let balances =
        (acked store draws msg q db ack debit found approved).1
        ∙ kept_balances draws.entry q.id q.employee_id q.location_id msg.payload.amount
            (some ack.version) db in
      let dropped =
        dropped_if_old totals parse_date drawn u db'
          (rw (same_watermark u db db' balances) reconciled) in
      (
        ap (λ c. c.hcm_balance) moved,
        ap (λ c. c.committed_pending) moved
            ∙ rw (at_e, at_l, eq_refl u.employee_id, eq_refl u.location_id) refl,
        ground (arith, included),
        dropped.0,
        dropped.1,
      )

-- A snapshot that was reconciled before the acknowledgement of a debit which it already includes: the
-- acknowledgement makes the debit pending at the cached balance of the snapshot, so that its days are
-- subtracted twice. The snapshot, or any one up to the cached version, does not mend it when it comes
-- again: it would absorb the debit, but is dropped. The id drawn for the entry is new.
pub late_ack-CountedTwice :
    (orm : Orm)
    → IsOrm orm
    → (parse_date : String → ℕ) (draws : Draws) (drawn : SyncDraws) (msg : OutboxMessage)
      (ack : ApplyDeltaAck) (q : TimeOffRequest) (u : HcmBalanceUpdate) (db : Db)
    → msg.type ≡ OutboxType.debit
    → orm.find_one TimeOffRequest (is_request msg.request_id) db.requests ≡ some q
    → q.status ≡ RequestStatus.approved
    → q.employee_id ≡ u.employee_id
    → q.location_id ≡ u.location_id
    → any (λ r. r.id == draws.entry) db.ledger ≡ false
    → ack.version ≤ u.version
    → u.version ≤ (balance_for orm parse_date u db).last_reconciled_version
    → CountedTwice orm parse_date draws drawn msg ack u db
late_ack-CountedTwice orm laws parse_date draws drawn msg ack q u db debit found approved at_e at_l
      fresh included reconciled =
    subst
      (λ o.
        o.find_one TimeOffRequest (is_request msg.request_id) db.requests ≡ some q
        → u.version ≤ (balance_for o parse_date u db).last_reconciled_version
        → CountedTwice o parse_date draws drawn msg ack u db)
      (orm_path orm laws)
      (λ seen taken.
        standard-CountedTwice orm.phase_totals laws.sums_by_phase parse_date draws drawn msg ack q u
          db debit seen approved at_e at_l fresh included taken)
      found reconciled
