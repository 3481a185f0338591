-- ===== src/TimeOff/Concurrent.antt =====
-- Submits that run at the same time (time-off/time-off.service.ts), in the critical sections of
-- common/keyed-mutex.ts that they share with the reconciliations of sync/sync.service.ts. Nothing is
-- taken from the isolation of the database: what a submit reads and what it writes are steps of
-- their own, and steps of any other call may come between them.
pub mod Quiet
pub mod Delivered
pub mod Invariant
pub mod Safety
use hcm.Prelude.{
  All, pos, ℕ, ◌<◌, ◌≡◌, Bool, true, false, Option, none, some, String, ◌==◌, ◌<>◌, ℤ, ◌≤ℤ◌, ◌&&◌,
  any,
}
use hcm.Common.BalanceMath.{compute_available}
use hcm.Common.Exec.{ok}
use hcm.Common.KeyedMutex.{System, Stage, idle, update, is_resolved, run_exclusive, start, finish}
use hcm.Database.{Db, TimeOffRequest, BalanceLedgerEntry, OutboxMessage, Balance, same_balance}
use hcm.Hcm.Core.{Answer, ApplyDeltaAck}
use hcm.Processor.{Draws, is_request, outcome}
use hcm.Balances.Moves.{amount_of}
use hcm.Database.Orm.{Orm}
use hcm.Balances.{compute_components}
use hcm.Holds.History
use hcm.Common.Enums.{LedgerPhase, same_phase, OutboxType, RequestStatus}
use hcm.TimeOff.{checked, placed}
use hcm.TimeOff.Reserve.{IsFreshEntry}

-- `balanceKey`
abbrev pub balance_key : String → String → String
balance_key employee_id location_id = employee_id <> ("|" <> location_id)

-- A call in a critical section: a submit of a request, whose ids were read before it, with the id
-- that it draws for its ledger entry, or a reconciliation of a key.
pub data Call : Type 0 where
  submit : (uuid id employee_id location_id : String) → Call
  reconcile : (employee_id location_id : String) → Call

abbrev pub key_of_call : Call → String
key_of_call (submit uuid id e l) = balance_key e l
key_of_call (reconcile e l) = balance_key e l

-- The mutex, the tables, what each call is for, and the request that a submit has read and checked
-- and is about to hold days for.
pub record Submits : Type 0 where
  pub mutex : System
  pub db : Db
  pub call : ℕ → Call
  pub plan : ℕ → Option TimeOffRequest

abbrev pub begun : Db → Submits
begun db = record { mutex = idle; db = db; call = λ i. Call.reconcile "" ""; plan = λ i. none }

-- An entry of this phase is not of less than no days.
abbrev pub NotNegative : LedgerPhase → BalanceLedgerEntry → Type 0
NotNegative phase r = same_phase r.phase phase ≡ true → pos 0 ≤ℤ r.amount

abbrev pub IsHold : BalanceLedgerEntry → Type 0
IsHold = NotNegative LedgerPhase.reserve

abbrev pub NoNegativeHold : Db → Type 0
NoNegativeHold db = All IsHold db.ledger

abbrev pub NoNegativeDebit : Db → Type 0
NoNegativeDebit db = All (NotNegative LedgerPhase.commit) db.ledger

module _ (orm : Orm) where
  abbrev pub available : String → String → Db → ℤ
  available e l db = compute_available (compute_components orm e l db)

  -- No available balance has become less.
  abbrev pub NoLess : Db → Db → Type 0
  NoLess db db' = (e l : String) → available e l db ≤ℤ available e l db'

  -- The balances of all pairs but this one are as they were.
  abbrev pub OnlyAt : String → String → Db → Db → Type 0
  OnlyAt e l db db' =
      (e' l' : String)
      → (e == e' && l == l') ≡ false
      → compute_components orm e' l' db' ≡ compute_components orm e' l' db

  -- The transactions that run without the mutex and never write a balance or a new ledger entry; a
  -- delivery is one of them unless HCM acknowledges it.
  abbrev pub is_quiet :
      (parse_date : String → ℕ) {db db' : Db} → History.Step orm parse_date db db' → Bool
  is_quiet parse_date (History.Step.create _ _ _) = true
  is_quiet parse_date (History.Step.approve _ _) = true
  is_quiet parse_date (History.Step.reject _) = true
  is_quiet parse_date (History.Step.cancel _ _) = true
  is_quiet parse_date (History.Step.claim _ _) = true
  is_quiet parse_date (History.Step.deliver _ _ (Answer.rejection _ _)) = true
  is_quiet parse_date (History.Step.deliver _ _ (Answer.unavailable _)) = true
  is_quiet parse_date _ = false

  -- A step of some call; call `i` is in its critical section while its stage is `running`. A submit
  -- that throws ends without a plan. A reconciliation may leave any balance of its own pair.
  -- `transacts` is any creation, approval, rejection, cancellation, claim or delivery that HCM does
  -- not acknowledge. `commits` is the acknowledged DEBIT of an APPROVED request that has the days of
  -- the message on hold, `credits` any acknowledged CREDIT while no pending debit is negative, and
  -- `loads` the first load of a balance that is not negative.
  pub data Step (s : Submits) : Submits → Type 0 where
    enters :
        (c : Call)
        → Step s (record s {
          mutex = run_exclusive (key_of_call c) s.mutex;
          call = update s.call s.mutex.count c;
          plan = update s.plan s.mutex.count none;
        })
    starts :
        (i : ℕ)
        → i < s.mutex.count
        → s.mutex.stage i ≡ Stage.waiting
        → is_resolved s.mutex (s.mutex.previous i) ≡ true
        → Step s (record s { mutex = start i s.mutex })
    checks :
        (i : ℕ) (uuid id e l : String) (r : TimeOffRequest)
        → i < s.mutex.count
        → s.mutex.stage i ≡ Stage.running
        → s.call i ≡ Call.submit uuid id e l
        → s.plan i ≡ none
        → checked orm id s.db ≡ (ok r, s.db)
        → r.employee_id ≡ e
        → r.location_id ≡ l
        → Step s (record s { plan = update s.plan i (some r) })
    places :
        (i : ℕ) (uuid id e l : String) (r : TimeOffRequest)
        → i < s.mutex.count
        → s.call i ≡ Call.submit uuid id e l
        → s.plan i ≡ some r
        → IsFreshEntry uuid s.db
        → Step s (record s { db = (placed orm uuid r s.db).1; plan = update s.plan i none })
    reconciles :
        (i : ℕ) (e l : String) (db' : Db)
        → i < s.mutex.count
        → s.mutex.stage i ≡ Stage.running
        → s.call i ≡ Call.reconcile e l
        → OnlyAt e l s.db db'
        → NoNegativeHold db'
        → Step s (record s { db = db' })
    transacts :
        (parse_date : String → ℕ) (db' : Db) (step : History.Step orm parse_date s.db db')
        → is_quiet parse_date step ≡ true
        → Step s (record s { db = db' })
    commits :
        (draws : Draws) (msg : OutboxMessage) (ack : ApplyDeltaAck) (q : TimeOffRequest)
        → msg.type ≡ OutboxType.debit
        → orm.find_one TimeOffRequest (is_request msg.request_id) s.db.requests ≡ some q
        → q.status ≡ RequestStatus.approved
        → any (λ r. r.id == draws.entry) s.db.ledger ≡ false
        → msg.payload.amount
          ≤ℤ amount_of q.id LedgerPhase.reserve q.employee_id q.location_id s.db.ledger
        → Step s (record s { db = outcome orm draws msg (Answer.returns ack) s.db })
    credits :
        (draws : Draws) (msg : OutboxMessage) (ack : ApplyDeltaAck)
        → msg.type ≡ OutboxType.credit
        → NoNegativeDebit s.db
        → Step s (record s { db = outcome orm draws msg (Answer.returns ack) s.db })
    loads :
        (b : Balance)
        → pos 0 ≤ℤ b.hcm_balance
        → Step s (record s {
          db = record s.db { balances = orm.insert_or_ignore Balance same_balance b s.db.balances };
        })
    ends :
        (i : ℕ)
        → i < s.mutex.count
        → s.mutex.stage i ≡ Stage.running
        → s.plan i ≡ none
        → Step s (record s { mutex = finish i s.mutex })

  -- What can have happened from these tables on.
  pub data Reach (db : Db) : Submits → Type 0 where
    begin : Reach db (begun db)
    later : {s t : Submits} → Reach db s → Step s t → Reach db t

  abbrev pub is_reconciliation : {s t : Submits} → Step s t → Bool
  is_reconciliation (reconciles i e l db' _ _ _ _ _) = true
  is_reconciliation _ = false
