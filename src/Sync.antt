-- ===== src/Sync.antt =====
-- sync/sync.service.ts: the reconciliation engine. Each key is reconciled in one transaction under
-- the mutex of the key, which throws nothing; `uuid` is what `uuid()` returns, `now` the time, and
-- `parse_date` the `new Date(text)` of the platform.
pub mod Again
pub mod LateAck
pub mod Ledger
pub mod Shown
pub mod View
pub mod Watermarks
pub mod Batches
use mathlib.Core.List.{reverse}
use hcm.Prelude.{
  truthy, ℕ, ◌+◌, Bool, true, false, Option, none, some, List, [], ◌∷◌, map, String, ◌==◌, ℤ, pos,
  reduce_sum, length, take, has, ◌&&◌, if◌then◌else◌,
}
use hcm.Common.Enums.{
  LedgerPhase, LedgerState, ReconciliationEventType, same_phase, same_state, same_event_type,
}
use hcm.Common.Errors.{ServiceError}
use hcm.Common.Exec.{Exec, ok, err}
use hcm.Common.Reconciliation.{CommittedEntry, ReconcileInput, ReconcileResult, reconcile}
use hcm.Hcm.Client.{HcmClient}
use hcm.Database.{
  Balance, BalanceLedgerEntry, ReconciliationEvent, EventDetail, Db, at_key, same_balance,
  same_event,
}
use hcm.Database.Orm.{Orm}
use hcm.Balances.{World, from_answer}

pub record HcmBalanceUpdate : Type 0 where
  pub employee_id : String
  pub location_id : String
  pub balance : ℤ
  pub version : ℕ
  pub as_of : Option String

-- What a reconciliation draws from outside: the id of its event and the time.
pub record SyncDraws : Type 0 where
  pub event : String
  pub now : ℕ

pub record BatchSummary : Type 0 where
  pub processed : ℕ
  pub applied : ℕ
  pub over_allocated : ℕ

-- `{ employeeId, locationId, phase, state: ACTIVE }`
abbrev pub is_active_in : String → String → LedgerPhase → BalanceLedgerEntry → Bool
is_active_in e l phase r =
    r.employee_id == e
    && r.location_id == l
    && same_phase r.phase phase
    && same_state r.state LedgerState.active

abbrev pub committed_entry : BalanceLedgerEntry → CommittedEntry
committed_entry r = record { id = r.id; amount = r.amount; hcm_version = r.hcm_version }

abbrev pub is_reconciled : ReconciliationEventType → Bool
is_reconciled t = same_event_type t ReconciliationEventType.reconciled

abbrev one_if : Bool → ℕ
one_if true = 1
one_if false = 0

module _ (orm : Orm) (parse_date : String → ℕ) where
  -- The balance row found, or the new one.
  unfoldable pub balance_for : HcmBalanceUpdate → Db → Balance
  balance_for update db =
      elim (orm.find_one Balance (at_key update.employee_id update.location_id) db.balances) [
        | some b ↦ b
        | none ↦ record {
          employee_id = update.employee_id;
          location_id = update.location_id;
          hcm_balance = pos 0;
          last_reconciled_version = 0;
          as_of = none;
        }
      ]

  unfoldable pub reconcile_input : HcmBalanceUpdate → Db → ReconcileInput
  reconcile_input update db =
      let balance = balance_for update db in
      let rows = λ (phase : LedgerPhase).
        orm.find_all BalanceLedgerEntry (is_active_in update.employee_id update.location_id phase)
          db.ledger in
      record {
        current_hcm_balance = balance.hcm_balance;
        last_reconciled_version = balance.last_reconciled_version;
        reserved_open = reduce_sum (λ r. r.amount) (rows LedgerPhase.reserve);
        committed_entries = map committed_entry (rows LedgerPhase.commit);
        authoritative_balance = update.balance;
        authoritative_version = update.version;
      }

  -- The four writes of an applied reconciliation.
  unfoldable pub mark_matched : ReconcileResult → Db → Db
  mark_matched result db = elim result.matched_commit_ids [
    | [] ↦ db
    | _ ∷ _ ↦ record db {
      ledger =
          orm.update BalanceLedgerEntry (λ r. has r.id result.matched_commit_ids)
            (λ r. record r { state = LedgerState.reconciled }) db.ledger;
    }
  ]

  unfoldable pub store_balance : SyncDraws → HcmBalanceUpdate → Balance → ReconcileResult → Db → Db
  store_balance draws update balance result db =
      let balance' = record balance {
        hcm_balance = result.new_hcm_balance;
        last_reconciled_version = result.new_last_reconciled_version;
        as_of =
            some (elim (truthy update.as_of) [ none ↦ draws.now | some text ↦ parse_date text ]);
      } in
      record db { balances = orm.save Balance same_balance balance' db.balances }

  unfoldable pub log_event : SyncDraws → HcmBalanceUpdate → ReconcileResult → Db → Db
  log_event draws update result db =
      let event : ReconciliationEvent = record {
        id = draws.event;
        type = result.event_type;
        employee_id = update.employee_id;
        location_id = update.location_id;
        delta = result.delta;
        detail = some (
            EventDetail.movement result.previous_available result.new_available
              result.available_delta update.version (length result.matched_commit_ids));
      } in
      if is_reconciled result.event_type
      then db
      else record db { events = orm.save ReconciliationEvent same_event event db.events }

  unfoldable pub reconcile_key : SyncDraws → HcmBalanceUpdate → Db → ReconcileResult × Db
  reconcile_key draws update db =
      let balance = balance_for update db in
      let result = reconcile (reconcile_input update db) in
      (
        result,
        if result.applied
            then log_event draws update result
                (store_balance draws update balance result (mark_matched result db))
            else db,
      )

  unfoldable pub ingest_realtime : SyncDraws → HcmBalanceUpdate → Db → ReconcileResult × Db
  ingest_realtime draws update db = reconcile_key draws update db

  -- The loop of `ingestBatch`, with its two counters.
  unfoldable pub ingest_rows :
      (HcmBalanceUpdate → SyncDraws) → List HcmBalanceUpdate → ℕ × ℕ → Db → (ℕ × ℕ) × Db
  ingest_rows draws [] counts db = (counts, db)
  ingest_rows draws (row ∷ rows) (applied, over_allocated) db =
      let (result, db') = reconcile_key (draws row) row db in
      ingest_rows draws rows
        (
          applied + one_if result.applied,
          over_allocated
              + one_if (same_event_type result.event_type ReconciliationEventType.over_allocated),
        )
        db'

  unfoldable pub ingest_batch :
      (HcmBalanceUpdate → SyncDraws) → List HcmBalanceUpdate → Db → BatchSummary × Db
  ingest_batch draws rows db =
      let ((applied, over_allocated), db') = ingest_rows draws rows (0, 0) db in
      (record { processed = length rows; applied = applied; over_allocated = over_allocated }, db')

  -- The loop of `reconcileAll` over the balances found before it.
  unfoldable pub reconcile_rows :
      (client : HcmClient)
      → (Balance → SyncDraws)
      → List Balance
      → ℕ
      → Exec ServiceError (World client.State) ℕ
  reconcile_rows client draws [] processed w = (ok processed, w)
  reconcile_rows client draws (b ∷ bs) processed w =
      let (answer, w₁) = from_answer (client.get_balance b.employee_id b.location_id) w in
      elim answer [
        | err e ↦ (err e, w₁)
        | ok row ↦
            let update : HcmBalanceUpdate = record {
              employee_id = b.employee_id;
              location_id = b.location_id;
              balance = row.balance;
              version = row.version;
              as_of = some row.as_of;
            } in
            let db' = (reconcile_key (draws b) update w₁.db).1 in
            reconcile_rows client draws bs (processed + 1) (record w₁ { db = db' })
      ]

  unfoldable pub reconcile_all :
      (client : HcmClient) → (Balance → SyncDraws) → Exec ServiceError (World client.State) ℕ
  reconcile_all client draws w =
      reconcile_rows client draws (orm.find_all Balance (λ b. true) w.db.balances) 0 w

  -- Newest first, at most 200.
  unfoldable pub list_events : Option ReconciliationEventType → Db → List ReconciliationEvent
  list_events type db = take 200 (
      reverse (
        orm.find_all ReconciliationEvent
          (λ e. elim type [ none ↦ true | some t ↦ same_event_type e.type t ]) db.events))
