-- ===== src/Tests/Store.antt =====
-- A store that meets the laws of Database/Orm.antt, and the data of the tests.
use hcm.Prelude.{refl, none, some, [], ◌∷◌, String, ℕ, pos, +ℤ_zero}
use hcm.Common.Enums.{RequestStatus, LedgerPhase, LedgerState, OutboxType, OutboxStatus}
use hcm.Database.{Balance, BalanceLedgerEntry, TimeOffRequest, OutboxMessage, Db}
use hcm.Database.Orm.{Orm, IsOrm, SumsByPhase, standard, totals_by_phase}

abbrev pub store : Orm
store = standard totals_by_phase

totals_by_phase-SumsByPhase : SumsByPhase totals_by_phase
totals_by_phase-SumsByPhase where_ rows LedgerPhase.reserve = +ℤ_zero _
totals_by_phase-SumsByPhase where_ rows LedgerPhase.commit = +ℤ_zero _
totals_by_phase-SumsByPhase where_ rows LedgerPhase.release = +ℤ_zero _
totals_by_phase-SumsByPhase where_ rows LedgerPhase.hcm_adjustment = +ℤ_zero _

pub store-IsOrm : IsOrm store
store-IsOrm = record {
  find_one_lem = λ Row where_ rows. refl;
  find_all_lem = λ Row where_ rows. refl;
  update_lem = λ Row where_ f rows. refl;
  save_lem = λ Row same r rows. refl;
  insert_or_ignore_lem = λ Row same r rows. refl;
  sums_by_phase = totals_by_phase-SumsByPhase;
}

-- A platform on which every date text is the same moment.
abbrev pub parse_date : String → ℕ
parse_date text = 1700000000000

abbrev pub balance : Balance
balance = record {
  employee_id = "emp-1";
  location_id = "loc-1";
  hcm_balance = pos 10;
  last_reconciled_version = 1;
  as_of = none;
}

abbrev pub draft : TimeOffRequest
draft = record {
  id = "req-1";
  employee_id = "emp-1";
  location_id = "loc-1";
  start_date = "2026-01-05";
  end_date = "2026-01-07";
  days = pos 3;
  status = RequestStatus.draft;
  idempotency_key = none;
  hcm_ref = none;
  reason = none;
}

abbrev pub debit : OutboxMessage
debit = record {
  id = "msg-1";
  request_id = "req-1";
  type = OutboxType.debit;
  idempotency_key = "debit:req-1";
  payload = record { employee_id = "emp-1"; location_id = "loc-1"; amount = pos 3 };
  status = OutboxStatus.pending;
  attempts = 0;
  next_attempt_at = none;
  last_error = none;
}

abbrev pub other_debit : OutboxMessage
other_debit = record debit { id = "msg-2"; request_id = "req-2"; idempotency_key = "debit:req-2" }

abbrev pub committed : BalanceLedgerEntry
committed = record {
  id = "entry-1";
  request_id = some "req-1";
  employee_id = "emp-1";
  location_id = "loc-1";
  amount = pos 3;
  phase = LedgerPhase.commit;
  state = LedgerState.active;
  hcm_version = some 2;
}

-- One balance of ten days, and nothing else.
abbrev pub seeded : Db
seeded = record { balances = balance ∷ []; ledger = []; requests = []; outbox = []; events = [] }

abbrev pub drafted : Db
drafted = record seeded { requests = draft ∷ [] }
