-- ===== src/Common/Reconciliation/Outcome.antt =====
-- What `reconcile` of common/reconciliation-math.ts returns, on every branch.
use hcm.Prelude.{
  ◌≤◌, ◌<◌, ◌≡◌, refl, ◌⊎◌, inl, inr, Bool, true, false, [], ℤ, pos, negsuc, ◌+ℤ◌, ◌-ℤ◌, ◌≤ℤ◌,
  int_laws, arith, leb, Bool-cases, if◌then◌else◌,
}
use hcm.Common.Enums.{ReconciliationEventType}
use hcm.Common.BalanceMath.{compute_available}
use hcm.Common.Reconciliation.{
  ReconcileInput, unmatched, previous_components, new_components, classify, reconcile,
}
use hcm.Common.Reconciliation.Absorption.{
  HasDistinctIds, absorbed_sum, unabsorbed_sum, pending_sum-unmatched, pending_sum_splits,
}

-- A snapshot that is newer than the watermark is taken over, and what stays subtracted is exactly
-- what it has not absorbed: the employee sees the movement at HCM plus the debits absorbed.
pub reconcile_newer :
    (i : ReconcileInput)
    → i.last_reconciled_version < i.authoritative_version
    → HasDistinctIds i.committed_entries
    → let r = reconcile i in
      let open_debits = unabsorbed_sum i.authoritative_version i.committed_entries in
      let absorbed = absorbed_sum i.authoritative_version i.committed_entries in
      (r.applied ≡ true)
      × (r.new_hcm_balance ≡ i.authoritative_balance)
      × (r.committed_pending_after ≡ open_debits)
      × (r.new_available ≡ i.authoritative_balance -ℤ i.reserved_open -ℤ open_debits)
      × (r.available_delta ≡ r.delta +ℤ absorbed)
unfolding reconcile previous_components new_components compute_available
reconcile_newer i h d = elim (Bool-cases (leb i.authoritative_version i.last_reconciled_version)) [
  | inl stale ↦ absurd (ground arith)
  | inr newer ↦ rw newer (
    refl,
    refl,
    pending_sum-unmatched _ _ d,
    rw (pending_sum-unmatched _ _ d) refl,
    rw (pending_sum-unmatched _ _ d, pending_sum_splits i.authoritative_version i.committed_entries)
        (omega int_laws),
  )
]

-- The next input at the same key: the state that the caller stores after `r`.
abbrev pub after : ReconcileInput → ReconcileInput
after i =
    let r = reconcile i in
    record i {
      current_hcm_balance = r.new_hcm_balance;
      last_reconciled_version = r.new_last_reconciled_version;
      committed_entries =
          if r.applied
          then unmatched i.authoritative_version i.committed_entries
          else i.committed_entries;
    }

-- The watermark never goes back: it is the larger of the two versions.
pub reconcile_watermark :
    (i : ReconcileInput)
    → let w = (reconcile i).new_last_reconciled_version in
      (i.last_reconciled_version ≤ w)
      × (i.authoritative_version ≤ w)
      × ((w ≡ i.last_reconciled_version) ⊎ (w ≡ i.authoritative_version))
unfolding reconcile
reconcile_watermark i = ground arith

-- A snapshot that is delivered twice changes nothing the second time: it is not applied, and leaves
-- the balance, the watermark, the pending debits and the available balance of the first time.
reconcile_idempotent :
    (i : ReconcileInput)
    → let r = reconcile i in
      let r' = reconcile (after i) in
      (r'.applied ≡ false)
      × (r'.matched_commit_ids ≡ [])
      × (r'.new_hcm_balance ≡ r.new_hcm_balance)
      × (r'.new_last_reconciled_version ≡ r.new_last_reconciled_version)
      × (r'.committed_pending_after ≡ r.committed_pending_after)
      × (r'.new_available ≡ r.new_available)
unfolding reconcile previous_components new_components
reconcile_idempotent i = ground arith

-- What each kind of event says of a result: whether it was applied, the new available balance and
-- its change.
abbrev pub Explains : Bool → ℤ → ℤ → ReconciliationEventType → Type 0
Explains applied available change ReconciliationEventType.over_allocated =
    (applied ≡ true) × (available ≤ℤ negsuc 0)
Explains applied available change ReconciliationEventType.balance_increased =
    (applied ≡ true) × (pos 0 ≤ℤ available) × (pos 1 ≤ℤ change)
Explains applied available change ReconciliationEventType.balance_decreased =
    (applied ≡ true) × (pos 0 ≤ℤ available) × (change ≤ℤ negsuc 0)
Explains applied available change ReconciliationEventType.reconciled =
    ((applied ≡ false) ⊎ (pos 0 ≤ℤ available)) × (change ≡ pos 0)
Explains applied available change ReconciliationEventType.drift_detected = ⊥

classify-Explains :
    (available change : ℤ) → Explains true available change (classify available change)
unfolding classify
classify-Explains available change = ground arith

-- The event tells what the employee sees: an applied snapshot that leaves less than nothing is
-- OVER_ALLOCATED, else the sign of the change decides; `reconcile` never reports drift.
reconcile-Explains :
    (i : ReconcileInput)
    → let r = reconcile i in Explains r.applied r.new_available r.available_delta r.event_type
unfolding reconcile
reconcile-Explains i = elim (Bool-cases (leb i.authoritative_version i.last_reconciled_version)) [
  | inl stale ↦ rw stale (inl refl, refl)
  | inr newer ↦ rw newer (classify-Explains _ _)
]
