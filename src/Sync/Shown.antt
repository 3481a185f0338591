-- ===== src/Sync/Shown.antt =====
-- The sums that a reconciliation of sync/sync.service.ts reads, and what its result says of them.
use hcm.Prelude.{
  ◌≡◌, refl, true, false, not, ◌&&◌, String, has, to_set, has-to_set, List, [], ◌∷◌, map, filter,
  sum_by, reduce_sum, reduce_sum-eq-sum_by, ap, sym, ◌∙◌, ℕ, Bool, leb,
}
use hcm.Common.Enums.{LedgerPhase}
use hcm.Common.BalanceMath.{BalanceComponents, compute_available}
use hcm.Common.Reconciliation.{
  CommittedEntry, ReconcileInput, ReconcileResult, reconcile, previous_components, new_components,
  matched_ids, pending_sum, unmatched,
}
use hcm.Database.{BalanceLedgerEntry}
use hcm.Database.Orm.{update_rows}
use hcm.Balances.Sums.{active_sum, counts, sum_where}
use hcm.Sync.{is_active_in, committed_entry}
use hcm.Sync.Ledger.{
  UniqueIds, entries, absorbed, reconciled, filter-active, pending_kept, reserved_kept,
}

-- The view of the key before and after the reconciliation, beside its result.
abbrev pub ShowsResult : BalanceComponents → BalanceComponents → ReconcileResult → Type 0
ShowsResult before after r =
    (compute_available before ≡ r.previous_available)
    × (compute_available after ≡ r.new_available)
    × (after.hcm_balance ≡ r.new_hcm_balance)
    × (after.committed_pending ≡ r.committed_pending_after)
    × (after.reserved_open ≡ before.reserved_open)

sum_by-entries :
    (rows : List BalanceLedgerEntry)
    → sum_by (λ (c : CommittedEntry). c.amount) (map committed_entry rows)
      ≡ sum_by (λ (r : BalanceLedgerEntry). r.amount) rows
sum_by-entries [] = refl
sum_by-entries (r ∷ rows) = rw (sum_by-entries rows) refl

-- What is pending by the list is pending by the ledger.
pub pending_sum-entries :
    (e l : String) (rows : List BalanceLedgerEntry)
    → pending_sum (entries e l rows) ≡ active_sum e l LedgerPhase.commit rows
unfolding pending_sum
pending_sum-entries e l rows =
    reduce_sum-eq-sum_by (λ (c : CommittedEntry). c.amount) (entries e l rows)
    ∙ sum_by-entries (filter (is_active_in e l LedgerPhase.commit) rows)
    ∙ ap (sum_by (λ (r : BalanceLedgerEntry). r.amount)) (filter-active e l LedgerPhase.commit rows)

pub held-rows :
    (e l : String) (rows : List BalanceLedgerEntry)
    → reduce_sum
        (λ (r : BalanceLedgerEntry). r.amount)
        (filter (is_active_in e l LedgerPhase.reserve) rows)
      ≡ active_sum e l LedgerPhase.reserve rows
held-rows e l rows =
    reduce_sum-eq-sum_by (λ (r : BalanceLedgerEntry). r.amount) _
    ∙ ap (sum_by (λ (r : BalanceLedgerEntry). r.amount))
        (filter-active e l LedgerPhase.reserve rows)

-- Marking nothing.
pub marked_none :
    (rows : List BalanceLedgerEntry) → update_rows (λ r. has r.id []) reconciled rows ≡ rows
marked_none [] = refl
marked_none (r ∷ rows) = cc (marked_none rows)

-- The holds that are left, as the input lists them.
pub held_after :
    (version : ℕ) (e l : String) (rows : List BalanceLedgerEntry)
    → UniqueIds rows
    → sum_where
        (λ r.
          counts e l LedgerPhase.reserve r && not (has r.id (to_set (absorbed version e l rows))))
        rows
      ≡ reduce_sum
          (λ (r : BalanceLedgerEntry). r.amount)
          (filter (is_active_in e l LedgerPhase.reserve) rows)
held_after version e l rows unique =
    ap
      (λ (seen : String → Bool).
        sum_where (λ r. counts e l LedgerPhase.reserve r && not (seen r.id)) rows)
      (λ k x. has-to_set x (absorbed version e l rows) k)
    ∙ reserved_kept version e l rows unique
    ∙ sym (held-rows e l rows)

-- The debits that are left, as the result counts them.
pub pending_after :
    (version : ℕ) (e l : String) (rows : List BalanceLedgerEntry)
    → sum_where
        (λ r.
          counts e l LedgerPhase.commit r && not (has r.id (to_set (absorbed version e l rows))))
        rows
      ≡ pending_sum (unmatched version (entries e l rows))
unfolding pending_sum unmatched matched_ids
pending_after version e l rows =
    pending_kept e l (to_set (absorbed version e l rows)) rows
    ∙ sym (
        reduce_sum-eq-sum_by (λ (c : CommittedEntry). c.amount)
          (unmatched version (entries e l rows)))

pub not_applied :
    (i : ReconcileInput)
    → leb i.authoritative_version i.last_reconciled_version ≡ true
    → (reconcile i).applied ≡ false
unfolding reconcile
not_applied i old = rw old refl

pub is_applied :
    (i : ReconcileInput)
    → leb i.authoritative_version i.last_reconciled_version ≡ false
    → (reconcile i).applied ≡ true
unfolding reconcile
is_applied i newer = rw newer refl

pub shows_stale :
    (i : ReconcileInput)
    → leb i.authoritative_version i.last_reconciled_version ≡ true
    → ShowsResult (previous_components i) (previous_components i) (reconcile i)
unfolding reconcile previous_components
shows_stale i old = rw old (refl, refl, refl, refl, refl)

pub shows_applied :
    (i : ReconcileInput)
    → leb i.authoritative_version i.last_reconciled_version ≡ false
    → ShowsResult (previous_components i) (new_components i) (reconcile i)
unfolding reconcile previous_components new_components
shows_applied i newer = rw newer (refl, refl, refl, refl, refl)
