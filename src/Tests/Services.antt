-- ===== src/Tests/Services.antt =====
-- Inputs for the theorems on the services and on the delivery of the outbox.
use hcm.Prelude.{
  ◌-ℤ◌, ◌≡◌, refl, ◌≤◌, none, true, false, [], ◌∷◌, pos, ◌+ℤ◌, length, has, All, arith,
}
use hcm.Common.Enums.{RequestStatus, OutboxStatus}
use hcm.Common.Exec.{ok, transaction}
use hcm.Common.BalanceMath.{can_reserve, compute_available}
use hcm.Common.StateMachine.{next_state, can_transition}
use hcm.Hcm.Core.{ApplyDeltaAck, HcmCore, new}
use hcm.Hcm.Client.{in_process}
use hcm.Database.{TimeOffRequest, OutboxMessage, Db}
use hcm.Balances.{compute_components}
use hcm.Balances.{get_view, World}
use hcm.Balances.View.{derived_view, get_view-derived_view}
use hcm.Outbox.{claim_due}
use hcm.Outbox.Claims.{message_ids, claim_due-Disjoint}
use hcm.Outbox.Retry.{RecordsFailure, mark_retry_or_dead-RecordsFailure}
use hcm.Processor.{Draws, save_request, drain_once}
use hcm.Processor.Stuck.{drain_once_stuck, Uncompensated, outcome-Uncompensated}
use hcm.TimeOff
use hcm.TimeOff.Reserve.{Spends, reserve-Spends}
use hcm.Sync.{SyncDraws, HcmBalanceUpdate, reconcile_key}
use hcm.Sync.Again.{reconcile_key-drops_old}
use hcm.Holds.{HoldsAreCovered}
use hcm.Holds.History.{Step, Reach, Reach-HoldsAreCovered}
use hcm.Tests.Store.{
  balance, store, store-IsOrm, parse_date, draft, debit, other_debit, committed, seeded, drafted,
}

abbrev submitted : TimeOffRequest
submitted = record draft { status = RequestStatus.pending_approval }

abbrev reserved : Db
reserved = (TimeOff.reserve store "entry-1" "req-1" drafted).1

reserve_succeeds : TimeOff.reserve store "entry-1" "req-1" drafted ≡ (ok submitted, reserved)
unfolding TimeOff.reserve compute_components can_reserve compute_available can_transition next_state
    ◌+ℤ◌ ◌-ℤ◌
reserve_succeeds = refl

reserve-Spends_example : Spends store drafted submitted reserved
reserve-Spends_example =
    reserve-Spends store store-IsOrm "entry-1" "req-1" drafted submitted reserved refl
      reserve_succeeds

-- A request is created, submitted and rejected.
abbrev rejected : Db
rejected =
    (TimeOff.reject store "req-1"
      (transaction (TimeOff.reserve store "entry-1" "req-1") (save_request store draft seeded)).1).1

abbrev rejection : Reach store parse_date seeded rejected
rejection =
    Reach.next
      (Reach.next (Reach.next Reach.start (Step.create draft refl refl))
        (Step.submit "entry-1" "req-1"))
      (Step.reject "req-1")

Reach-HoldsAreCovered_example : HoldsAreCovered rejected
Reach-HoldsAreCovered_example =
    Reach-HoldsAreCovered store store-IsOrm parse_date seeded rejected tt rejection

abbrev observed : World HcmCore
observed = record { db = record seeded { ledger = committed ∷ [] }; hcm = new }

get_view-derived_view_example :
    get_view store (in_process "2026-01-01") parse_date "emp-1" "loc-1" observed
    ≡ (ok (derived_view balance observed.db), observed)
get_view-derived_view_example =
    get_view-derived_view store store-IsOrm (in_process "2026-01-01") parse_date observed balance
      refl

abbrev two_due : Db
two_due = record drafted { outbox = debit ∷ other_debit ∷ [] }

claim_due-Disjoint_example :
    let first = claim_due store 5 1 two_due in
    (length first.0 ≤ 1)
    × All
        (λ (m : OutboxMessage). has m.id (message_ids first.0) ≡ false)
        (claim_due store 6 50 first.1).0
claim_due-Disjoint_example = claim_due-Disjoint store store-IsOrm 5 1 6 50 two_due

mark_retry_or_dead-RecordsFailure_example : RecordsFailure store debit "timeout" 5 two_due
mark_retry_or_dead-RecordsFailure_example =
    mark_retry_or_dead-RecordsFailure store store-IsOrm debit "timeout" 5 two_due

abbrev no_draws : OutboxMessage → Draws
no_draws msg = record { entry = "entry-9"; event = "event-9"; now = 5 }

-- The process died while it delivered.
abbrev crashed : Db
crashed = record drafted { outbox = record debit { status = OutboxStatus.inflight } ∷ [] }

drain_once_stuck_example :
    drain_once store
      (in_process "2026-01-01")
      no_draws
      5
      (false, record { db = crashed; hcm = new })
    ≡ (0, false, record { db = crashed; hcm = new })
drain_once_stuck_example =
    drain_once_stuck store store-IsOrm (in_process "2026-01-01") no_draws 5
      (record { db = crashed; hcm = new }) (refl, tt)

abbrev cancelled : TimeOffRequest
cancelled = record draft { status = RequestStatus.cancelled }

abbrev late : Db
late = record crashed { requests = cancelled ∷ [] }

abbrev late_ack : ApplyDeltaAck
late_ack = record {
  hcm_ref = "hcm-ref-1";
  balance = pos 7;
  version = 2;
  applied = true;
  replayed = false;
}

outcome-Uncompensated_example : Uncompensated store (no_draws debit) debit late_ack cancelled late
outcome-Uncompensated_example =
    outcome-Uncompensated store store-IsOrm (no_draws debit) debit late_ack cancelled late refl refl
      refl refl refl

abbrev snapshot : HcmBalanceUpdate
snapshot = record {
  employee_id = "emp-1";
  location_id = "loc-1";
  balance = pos 7;
  version = 3;
  as_of = none;
}

abbrev sync_draws : SyncDraws
sync_draws = record { event = "event-1"; now = 5 }

reconcile_key-drops_old_example :
    let db' =
      (reconcile_key store parse_date sync_draws snapshot
        (record seeded { ledger = committed ∷ [] })).1 in
    let (r, db'') =
      reconcile_key store parse_date sync_draws (record snapshot { version = 2 }) db' in
    (r.applied ≡ false) × (db'' ≡ db')
reconcile_key-drops_old_example =
    reconcile_key-drops_old store store-IsOrm parse_date sync_draws sync_draws snapshot
      (record snapshot { version = 2 }) (record seeded { ledger = committed ∷ [] }) refl refl
      (omega arith)
