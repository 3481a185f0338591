-- ===== src/Database.antt =====
-- src/database/entities: the rows of the five tables, and the state of the database as the program
-- reads it. `@CreateDateColumn` is the position in the table, oldest first; `@UpdateDateColumn` and
-- `@VersionColumn`, which no code reads, are left out. A `Date` is its number of milliseconds.
pub mod Orm
pub mod Rows
use hcm.Prelude.{ℕ, Option, List, String, ℤ, Bool, ◌&&◌, ◌==◌}
use hcm.Common.Enums.{
  RequestStatus, LedgerPhase, LedgerState, OutboxType, OutboxStatus, ReconciliationEventType,
}

pub record Balance : Type 0 where
  pub employee_id : String
  pub location_id : String
  pub hcm_balance : ℤ
  pub last_reconciled_version : ℕ
  pub as_of : Option ℕ

pub record BalanceLedgerEntry : Type 0 where
  pub id : String
  pub request_id : Option String
  pub employee_id : String
  pub location_id : String
  pub amount : ℤ
  pub phase : LedgerPhase
  pub state : LedgerState
  pub hcm_version : Option ℕ

pub record OutboxPayload : Type 0 where
  pub employee_id : String
  pub location_id : String
  pub amount : ℤ

pub record OutboxMessage : Type 0 where
  pub id : String
  pub request_id : String
  pub type : OutboxType
  pub idempotency_key : String
  pub payload : OutboxPayload
  pub status : OutboxStatus
  pub attempts : ℕ
  pub next_attempt_at : Option ℕ
  pub last_error : Option String

-- The two shapes that the program writes into the `simple-json` column `detail`.
pub data EventDetail : Type 0 where
  drift : String → String → EventDetail
  movement : ℤ → ℤ → ℤ → ℕ → ℕ → EventDetail

pub record ReconciliationEvent : Type 0 where
  pub id : String
  pub type : ReconciliationEventType
  pub employee_id : String
  pub location_id : String
  pub delta : ℤ
  pub detail : Option EventDetail

pub record TimeOffRequest : Type 0 where
  pub id : String
  pub employee_id : String
  pub location_id : String
  pub start_date : String
  pub end_date : String
  pub days : ℤ
  pub status : RequestStatus
  pub idempotency_key : Option String
  pub hcm_ref : Option String
  pub reason : Option String

pub record Db : Type 0 where
  pub balances : List Balance
  pub ledger : List BalanceLedgerEntry
  pub requests : List TimeOffRequest
  pub outbox : List OutboxMessage
  pub events : List ReconciliationEvent

-- `where: { employeeId, locationId }`
abbrev pub at_key : String → String → Balance → Bool
at_key e l b = b.employee_id == e && b.location_id == l

-- The primary keys, by which `save` finds its row.
abbrev pub same_balance : Balance → Balance → Bool
same_balance a b = at_key a.employee_id a.location_id b

abbrev pub same_entry : BalanceLedgerEntry → BalanceLedgerEntry → Bool
same_entry a b = b.id == a.id

abbrev pub same_message : OutboxMessage → OutboxMessage → Bool
same_message a b = b.id == a.id

abbrev pub same_event : ReconciliationEvent → ReconciliationEvent → Bool
same_event a b = b.id == a.id

abbrev pub same_request : TimeOffRequest → TimeOffRequest → Bool
same_request a b = b.id == a.id
