-- ===== src/Common/Reconciliation.antt =====
-- common/reconciliation-math.ts: how an authoritative HCM snapshot is absorbed into the cache.
pub mod Absorption
pub mod Outcome
use hcm.Prelude.{
  ℕ, Bool, true, false, not, Option, none, some, List, [], map, String, ℤ, pos, ◌+ℤ◌, ◌-ℤ◌, ltb_ℤ,
  leb, filter, reduce_sum, has, to_set, length, if◌then◌else◌,
}
use hcm.Common.Enums.{ReconciliationEventType}
use hcm.Common.BalanceMath.{BalanceComponents, compute_available}

pub record CommittedEntry : Type 0 where
  pub id : String
  pub amount : ℤ
  pub hcm_version : Option ℕ

pub record ReconcileInput : Type 0 where
  pub current_hcm_balance : ℤ
  pub last_reconciled_version : ℕ
  pub reserved_open : ℤ
  pub committed_entries : List CommittedEntry
  pub authoritative_balance : ℤ
  pub authoritative_version : ℕ

pub record ReconcileResult : Type 0 where
  pub applied : Bool
  pub reason : Option String
  pub matched_commit_ids : List String
  pub new_hcm_balance : ℤ
  pub new_last_reconciled_version : ℕ
  pub committed_pending_after : ℤ
  pub previous_available : ℤ
  pub new_available : ℤ
  pub delta : ℤ
  pub available_delta : ℤ
  pub event_type : ReconciliationEventType

-- `e.hcmVersion !== null && e.hcmVersion <= input.authoritativeVersion`
unfoldable pub is_absorbed : ℕ → CommittedEntry → Bool
is_absorbed version e = elim e.hcm_version [ none ↦ false | some v ↦ leb v version ]

-- `matchedIds`, a set
unfoldable pub matched_ids : ℕ → List CommittedEntry → List String
matched_ids version entries = to_set (map (λ e. e.id) (filter (is_absorbed version) entries))

unfoldable pub pending_sum : List CommittedEntry → ℤ
pending_sum = reduce_sum (λ e. e.amount)

-- the entries whose id is not in `matchedIds`
unfoldable pub unmatched : ℕ → List CommittedEntry → List CommittedEntry
unfolding matched_ids
unmatched version entries =
    let ids = matched_ids version entries in filter (λ e. not (has e.id ids)) entries

unfoldable pub classify : ℤ → ℤ → ReconciliationEventType
classify new_available available_delta =
    if ltb_ℤ new_available (pos 0)
    then ReconciliationEventType.over_allocated
    else if ltb_ℤ (pos 0) available_delta
    then ReconciliationEventType.balance_increased
    else if ltb_ℤ available_delta (pos 0)
    then ReconciliationEventType.balance_decreased
    else ReconciliationEventType.reconciled

-- the `previousAvailable` of an input, with every committed entry still subtracted
unfoldable pub previous_components : ReconcileInput → BalanceComponents
previous_components i = record {
  hcm_balance = i.current_hcm_balance;
  reserved_open = i.reserved_open;
  committed_pending = pending_sum i.committed_entries;
}

unfoldable pub new_components : ReconcileInput → BalanceComponents
new_components i = record {
  hcm_balance = i.authoritative_balance;
  reserved_open = i.reserved_open;
  committed_pending = pending_sum (unmatched i.authoritative_version i.committed_entries);
}

unfoldable pub reconcile : ReconcileInput → ReconcileResult
reconcile i =
    let before = compute_available (previous_components i) in
    let after = compute_available (new_components i) in
    if leb i.authoritative_version i.last_reconciled_version
    then record {
      applied = false;
      reason = some "stale";
      matched_commit_ids = [];
      new_hcm_balance = i.current_hcm_balance;
      new_last_reconciled_version = i.last_reconciled_version;
      committed_pending_after = pending_sum i.committed_entries;
      previous_available = before;
      new_available = before;
      delta = pos 0;
      available_delta = pos 0;
      event_type = ReconciliationEventType.reconciled;
    }
    else record {
      applied = true;
      reason = none;
      matched_commit_ids = matched_ids i.authoritative_version i.committed_entries;
      new_hcm_balance = i.authoritative_balance;
      new_last_reconciled_version = i.authoritative_version;
      committed_pending_after = pending_sum (unmatched i.authoritative_version i.committed_entries);
      previous_available = before;
      new_available = after;
      delta = i.authoritative_balance -ℤ i.current_hcm_balance;
      available_delta = after -ℤ before;
      event_type = classify after (after -ℤ before);
    }
