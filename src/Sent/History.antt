-- ===== src/Sent/History.antt =====
-- Any sequence of transactions of the services, and the messages that each request has sent.
use hcm.Prelude.{◌≡◌, Bool, false, List, String, ◌==◌, ℕ, ℤ, any, arith, subst}
use hcm.Common.Enums.{LedgerPhase}
use hcm.Database.{BalanceLedgerEntry, Db}
use hcm.Database.Orm.{Orm, IsOrm, standard, orm_path}
use hcm.Sync.{reconcile_key, store_balance, mark_matched, log_event}
use hcm.Holds.History.{Step, Reach}
use hcm.Sent.{SentOnce}
use hcm.Sent.Handlers.{create-SentOnce, submit-SentOnce, reject-SentOnce}
use hcm.Sent.Sending.{IsFreshMessage, approve-SentOnce, cancel-SentOnce}
use hcm.Sent.Delivery.{claim_due-SentOnce, outcome-SentOnce}

module _ (orm : Orm) (parse_date : String → ℕ) where
  -- The ids drawn are new: no message has that of a new message, and none names a new request.
  abbrev pub IsFreshStep : {db db' : Db} → Step orm parse_date db db' → Type 0
  IsFreshStep {db} (Step.create r _ _) = any (λ m. m.request_id == r.id) db.outbox ≡ false
  IsFreshStep {db} (Step.approve uuid id) = IsFreshMessage uuid db
  IsFreshStep {db} (Step.cancel uuid id) = IsFreshMessage uuid db
  IsFreshStep _ = Unit

  abbrev pub AllFresh : {db db' : Db} → Reach orm parse_date db db' → Type 0
  AllFresh Reach.start = Unit
  AllFresh (Reach.next before step) = AllFresh before × IsFreshStep step

module _ (totals : (BalanceLedgerEntry → Bool) → List BalanceLedgerEntry → List (LedgerPhase × ℤ))
    (parse_date : String → ℕ) where
  abbrev store : Orm
  store = standard totals

  Step-SentOnce :
      {db db' : Db} (step : Step store parse_date db db')
      → IsFreshStep store parse_date step
      → SentOnce db
      → SentOnce db'
  unfolding reconcile_key store_balance mark_matched log_event
  Step-SentOnce {db} (Step.create r e free) fresh h = create-SentOnce totals r db fresh h
  Step-SentOnce {db} (Step.submit uuid id) fresh h = submit-SentOnce totals uuid id db h
  Step-SentOnce {db} (Step.approve uuid id) fresh h = approve-SentOnce totals uuid id db fresh h
  Step-SentOnce {db} (Step.reject id) fresh h = reject-SentOnce totals id db h
  Step-SentOnce {db} (Step.cancel uuid id) fresh h = cancel-SentOnce totals uuid id db fresh h
  Step-SentOnce (Step.load b) fresh h = h
  Step-SentOnce {db} (Step.claim now limit) fresh h = claim_due-SentOnce totals now limit db h
  Step-SentOnce {db} (Step.deliver draws msg answer) fresh h =
      outcome-SentOnce totals draws msg answer db h
  Step-SentOnce {db} (Step.reconcile draws update) fresh h = ground (arith, h)

  standard-SentOnce :
      {db db' : Db} (r : Reach store parse_date db db')
      → AllFresh store parse_date r
      → SentOnce db
      → SentOnce db'
  standard-SentOnce Reach.start fresh h = h
  standard-SentOnce (Reach.next before step) fresh h =
      Step-SentOnce step fresh.1 (standard-SentOnce before fresh.0 h)

-- Over any sequence of transactions of the service, whatever HCM answers and whatever the webhook
-- says, no request ever has a second DEBIT or a second CREDIT in the outbox: none at all before its
-- approval, and a CREDIT only once it is CANCELLATION_PENDING or CANCELLED. The ids drawn are new.
pub Reach-SentOnce :
    (orm : Orm)
    → IsOrm orm
    → (parse_date : String → ℕ) (db db' : Db) (r : Reach orm parse_date db db')
    → AllFresh orm parse_date r
    → SentOnce db
    → SentOnce db'
Reach-SentOnce orm laws parse_date db db' =
    subst
      (λ o. (r : Reach o parse_date db db') → AllFresh o parse_date r → SentOnce db → SentOnce db')
      (orm_path orm laws) (λ r. standard-SentOnce orm.phase_totals parse_date r)
