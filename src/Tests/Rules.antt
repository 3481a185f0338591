-- ===== src/Tests/Rules.antt =====
-- Inputs for the theorems on common/balance-math.ts, common/reconciliation-math.ts and
-- common/state-machine.ts.
use hcm.Prelude.{◌≡◌, refl, ◌↔◌, ◌≤◌, some, true, [], ◌∷◌, pos, ◌+ℤ◌, ◌-ℤ◌, ◌≤ℤ◌, arith, ◌+◌}
use hcm.Common.Enums.{RequestStatus, RequestAction}
use hcm.Common.BalanceMath.{BalanceComponents, compute_available, can_reserve}
use hcm.Common.BalanceMath.Bounds.{hold, can_reserve_iff}
use hcm.Common.StateMachine.{next_state}
use hcm.Common.StateMachine.Lifecycle.{Run, actions_left, Run-actions_left}
use hcm.Common.Reconciliation.{ReconcileInput, reconcile, is_absorbed}
use hcm.Common.Reconciliation.Outcome.{reconcile_newer}

abbrev components : BalanceComponents
components = record { hcm_balance = pos 10; reserved_open = pos 4; committed_pending = pos 1 }

can_reserve_iff_example :
    (can_reserve components (pos 5) ≡ true)
    ↔ ((pos 1 ≤ℤ pos 5) × (pos 0 ≤ℤ compute_available (hold components (pos 5))))
can_reserve_iff_example = can_reserve_iff components (pos 5)

-- Two debits wait, of which the snapshot of version 4 has absorbed the first.
abbrev input : ReconcileInput
input = record {
  current_hcm_balance = pos 10;
  last_reconciled_version = 2;
  reserved_open = pos 1;
  committed_entries =
      record { id = "entry-1"; amount = pos 3; hcm_version = some 3 }
      ∷ record { id = "entry-2"; amount = pos 2; hcm_version = some 5 }
      ∷ [];
  authoritative_balance = pos 7;
  authoritative_version = 4;
}

reconcile_newer_example :
    let r = reconcile input in
    (r.applied ≡ true)
    × (r.new_hcm_balance ≡ pos 7)
    × (r.committed_pending_after ≡ pos 2)
    × (r.new_available ≡ pos 4)
    × (r.available_delta ≡ r.delta +ℤ pos 3)
unfolding ◌+ℤ◌ ◌-ℤ◌ is_absorbed
reconcile_newer_example = reconcile_newer input (omega arith) (refl, (refl, tt))

-- DRAFT, PENDING_APPROVAL, APPROVED
abbrev approval : Run 2 RequestStatus.draft RequestStatus.approved
unfolding next_state
approval =
    Run.step RequestAction.submit RequestStatus.pending_approval refl
      (Run.step RequestAction.approve RequestStatus.approved refl Run.stay)

Run-actions_left_example :
    2 + actions_left RequestStatus.approved ≤ actions_left RequestStatus.draft
Run-actions_left_example = Run-actions_left 2 RequestStatus.draft RequestStatus.approved approval
