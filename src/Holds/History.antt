-- ===== src/Holds/History.antt =====
-- The whole service as a step relation: each step is one transaction of a service, with the ids,
-- times, HCM answers and webhook contents chosen by the environment.
use hcm.Prelude.{◌≡◌, refl, Bool, false, List, String, ℕ, ℤ, arith, subst, has}
use hcm.Common.Enums.{RequestStatus, LedgerPhase, LedgerState}
use hcm.Common.Exec.{transaction}
use hcm.Hcm.Core.{Answer, ApplyDeltaAck}
use hcm.Database.{Balance, TimeOffRequest, BalanceLedgerEntry, OutboxMessage, Db, same_balance}
use hcm.Database.Orm.{Orm, IsOrm, standard, orm_path, update_rows}
use hcm.Outbox.{claim_due}
use hcm.Processor.{Draws, save_request, outcome}
use hcm.TimeOff
use hcm.Common.Reconciliation
use hcm.Sync.{
  SyncDraws, HcmBalanceUpdate, reconcile_key, mark_matched, store_balance, log_event,
  reconcile_input,
}
use hcm.Holds.{holds, HoldsAreCovered, holds-released}
use hcm.Holds.Tables.{All-IsCovered}
use hcm.Holds.Handlers.{save_request-covered, submit-covered, approve-covered, reject-covered}
use hcm.Holds.Delivery.{cancel-covered, outcome-covered}
use hcm.Common.Reconciliation.{ReconcileResult}

module _ (orm : Orm) (parse_date : String → ℕ) where
  -- One transaction. A new request is a DRAFT whose fresh id no ledger entry names.
  pub data Step (db : Db) : Db → Type 0 where
    create :
        (r : TimeOffRequest)
        → r.status ≡ RequestStatus.draft
        → holds r.id db.ledger ≡ false
        → Step db (save_request orm r db)
    submit : (uuid id : String) → Step db (transaction (TimeOff.reserve orm uuid id) db).1
    approve : (uuid id : String) → Step db (TimeOff.approve orm uuid id db).1
    reject : (id : String) → Step db (TimeOff.reject orm id db).1
    cancel : (uuid id : String) → Step db (TimeOff.cancel orm uuid id db).1
    load :
        (b : Balance)
        → Step db (record db { balances = orm.insert_or_ignore Balance same_balance b db.balances })
    claim : (now limit : ℕ) → Step db (claim_due orm now limit db).1
    deliver :
        (draws : Draws) (msg : OutboxMessage) (answer : Answer ApplyDeltaAck)
        → Step db (outcome orm draws msg answer db)
    reconcile :
        (draws : SyncDraws) (update : HcmBalanceUpdate)
        → Step db (reconcile_key orm parse_date draws update db).1

  -- Any number of transactions, in any order.
  pub data Reach (db : Db) : Db → Type 0 where
    start : Reach db db
    next : {db₁ db₂ : Db} → Reach db db₁ → Step db₁ db₂ → Reach db db₂

module _ (totals : (BalanceLedgerEntry → Bool) → List BalanceLedgerEntry → List (LedgerPhase × ℤ))
    (parse_date : String → ℕ) where
  abbrev store : Orm
  store = standard totals

  mark_matched-covered :
      (result : ReconcileResult) (db : Db)
      → HoldsAreCovered db
      → HoldsAreCovered (mark_matched store parse_date result db)
  unfolding mark_matched
  mark_matched-covered result db h =
      let ids = result.matched_commit_ids in
      let ledger' =
        update_rows (λ (r : BalanceLedgerEntry). has r.id ids)
          (λ r. record r { state = LedgerState.reconciled }) db.ledger in
      ground (
        arith,
        h,
        All-IsCovered db.ledger ledger' db.requests
            (λ other.
              holds-released other (λ (r : BalanceLedgerEntry). has r.id ids) LedgerState.reconciled
                db.ledger refl)
            h,
      )

  reconcile-covered :
      (draws : SyncDraws) (update : HcmBalanceUpdate) (db : Db)
      → HoldsAreCovered db
      → HoldsAreCovered (reconcile_key store parse_date draws update db).1
  unfolding reconcile_key store_balance log_event
  reconcile-covered draws update db h = ground (
    arith,
    h,
    mark_matched-covered (Reconciliation.reconcile (reconcile_input store parse_date update db)) db
        h,
  )

  Step-covered :
      {db db' : Db} → Step store parse_date db db' → HoldsAreCovered db → HoldsAreCovered db'
  unfolding claim_due
  Step-covered {db} (create r e free) h = save_request-covered totals r db (ground arith) h
  Step-covered {db} (submit uuid id) h = submit-covered totals uuid id db h
  Step-covered {db} (approve uuid id) h = approve-covered totals uuid id db h
  Step-covered {db} (reject id) h = reject-covered totals id db h
  Step-covered {db} (cancel uuid id) h = cancel-covered totals uuid id db h
  Step-covered (load b) h = h
  Step-covered (claim now limit) h = h
  Step-covered {db} (deliver draws msg answer) h = outcome-covered totals draws msg answer db h
  Step-covered {db} (reconcile draws update) h = reconcile-covered draws update db h

  Reach-covered :
      {db db' : Db} → Reach store parse_date db db' → HoldsAreCovered db → HoldsAreCovered db'
  Reach-covered start h = h
  Reach-covered (next r s) h = Step-covered s (Reach-covered r h)

-- Over any sequence of transactions of the service, whatever HCM answers and whatever the webhook
-- says, a request has an ACTIVE RESERVE entry only while it is PENDING_APPROVAL or APPROVED: no
-- rejected, cancelled, failed or committed request keeps days on hold.
pub Reach-HoldsAreCovered :
    (orm : Orm)
    → IsOrm orm
    → (parse_date : String → ℕ) (db db' : Db) → HoldsAreCovered db
    → Reach orm parse_date db db'
    → HoldsAreCovered db'
Reach-HoldsAreCovered orm laws parse_date db db' h =
    subst (λ o. Reach o parse_date db db' → HoldsAreCovered db') (orm_path orm laws)
      (λ r. Reach-covered orm.phase_totals parse_date r h)
