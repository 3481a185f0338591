-- ===== src/Sync/View.antt =====
-- The view of a key (balances/balance.service.ts) beside the result that sync/sync.service.ts computes
-- for it.
use hcm.Prelude.{
  none, some, if◌then◌else◌, ◌≡◌, refl, false, not, ◌&&◌, String, has, to_set, List, [], ◌∷◌, find,
  ℤ, pos, ap, sym, ◌∙◌, Bool-cases, Option-cases, inl, inr, arith, ℕ, subst, Bool, some, truthy,
  leb, Option,
}
use hcm.Common.Enums.{LedgerPhase}
use hcm.Common.BalanceMath.{BalanceComponents}
use hcm.Common.Reconciliation.{
  ReconcileResult, reconcile, previous_components, new_components, matched_ids,
}
use hcm.Database.{BalanceLedgerEntry, Balance, Db, at_key}
use hcm.Database.Orm.{Orm, IsOrm, SumsByPhase, standard, orm_path, update_rows}
use hcm.Balances.{compute_components}
use hcm.Balances.Sums.{active_sum, counts, sum_where, cached, compute_components-sums}
use hcm.Sync.{
  SyncDraws, HcmBalanceUpdate, reconcile_key, reconcile_input, balance_for, mark_matched, log_event,
  store_balance,
}
use hcm.Sync.Ledger.{UniqueIds, absorbed, reconciled, sum_where-reconciled}
use hcm.Sync.Again.{log_event-balances, balance_for-key, found_after}
use hcm.Sync.Shown.{
  ShowsResult, pending_sum-entries, held-rows, marked_none, held_after, pending_after, not_applied,
  is_applied, shows_stale, shows_applied,
}

-- The components of a key once the entries of these ids are out of its sums.
abbrev left : ℤ → String → String → List String → List BalanceLedgerEntry → BalanceComponents
left hcm e l ids rows = record {
  hcm_balance = hcm;
  reserved_open = sum_where (λ r. counts e l LedgerPhase.reserve r && not (has r.id ids)) rows;
  committed_pending = sum_where (λ r. counts e l LedgerPhase.commit r && not (has r.id ids)) rows;
}

module _ (totals : (BalanceLedgerEntry → Bool) → List BalanceLedgerEntry → List (LedgerPhase × ℤ))
    (sums : SumsByPhase totals) (parse_date : String → ℕ) where
  abbrev store : Orm
  store = standard totals

  mark_ids :
      (result : ReconcileResult) (db : Db) (ids : List String)
      → (mark_matched store parse_date (record result { matched_commit_ids = ids }) db).ledger
        ≡ update_rows (λ r. has r.id ids) reconciled db.ledger
  unfolding mark_matched
  mark_ids result db [] = sym (marked_none db.ledger)
  mark_ids result db (x ∷ ids) = refl

  before_lem :
      (u : HcmBalanceUpdate) (db : Db)
      → compute_components store u.employee_id u.location_id db
        ≡ previous_components (reconcile_input store parse_date u db)
  unfolding previous_components reconcile_input balance_for
  before_lem u db =
      let e = u.employee_id in
      let l = u.location_id in
      compute_components-sums totals sums e l db
      ∙ (elim (Option-cases (find (at_key e l) db.balances)) [
        | inl unseen ↦ ground (arith, held-rows e l db.ledger, pending_sum-entries e l db.ledger)
        | inr (b, seen) ↦ ground (arith, held-rows e l db.ledger, pending_sum-entries e l db.ledger)
      ])

  -- The database that an applied result is written to.
  abbrev written : SyncDraws → HcmBalanceUpdate → ReconcileResult → Db → Db
  written draws u result db = log_event store parse_date draws u result (
      store_balance store parse_date draws u (balance_for store parse_date u db) result
        (mark_matched store parse_date result db))

  written_ledger :
      (draws : SyncDraws) (u : HcmBalanceUpdate) (result : ReconcileResult) (db : Db)
      → (written draws u result db).ledger
        ≡ update_rows (λ r. has r.id result.matched_commit_ids) reconciled db.ledger
  unfolding log_event store_balance
  written_ledger draws u result db = ground (arith, mark_ids result db result.matched_commit_ids)

  written_cached :
      (draws : SyncDraws) (u : HcmBalanceUpdate) (result : ReconcileResult) (db : Db)
      → cached u.employee_id u.location_id (written draws u result db).balances
        ≡ result.new_hcm_balance
  unfolding store_balance
  written_cached draws u result db =
      let key = balance_for-key totals parse_date u db in
      let e = u.employee_id in
      let l = u.location_id in
      let taken = mark_matched store parse_date result db in
      let row : Balance = record (balance_for store parse_date u db) {
        hcm_balance = result.new_hcm_balance;
        last_reconciled_version = result.new_last_reconciled_version;
        as_of = some (elim (truthy u.as_of) [ none ↦ draws.now | some text ↦ parse_date text ]);
      } in
      ap (cached e l) (
        log_event-balances totals parse_date draws u result
          (store_balance store parse_date draws u (balance_for store parse_date u db) result taken))
      ∙ ap (λ (b : Option Balance). elim b [ none ↦ pos 0 | some x ↦ x.hcm_balance ])
          (found_after totals parse_date e l row taken.balances key.0 key.1)

  written-components :
      (draws : SyncDraws) (u : HcmBalanceUpdate) (result : ReconcileResult) (db : Db)
      → compute_components store u.employee_id u.location_id (written draws u result db)
        ≡ left result.new_hcm_balance u.employee_id u.location_id result.matched_commit_ids
            db.ledger
  written-components draws u result db =
      let e = u.employee_id in
      let l = u.location_id in
      let ids = result.matched_commit_ids in
      compute_components-sums totals sums e l (written draws u result db)
      ∙ cc (
        written_cached draws u result db,
        ap (active_sum e l LedgerPhase.reserve) (written_ledger draws u result db),
        ap (active_sum e l LedgerPhase.commit) (written_ledger draws u result db),
        sum_where-reconciled e l LedgerPhase.reserve ids db.ledger,
        sum_where-reconciled e l LedgerPhase.commit ids db.ledger,
      )

  matched_of :
      (u : HcmBalanceUpdate) (db : Db)
      → let i = reconcile_input store parse_date u db in
        leb i.authoritative_version i.last_reconciled_version ≡ false
        → ((reconcile i).matched_commit_ids
            ≡ to_set (absorbed u.version u.employee_id u.location_id db.ledger))
          × ((reconcile i).new_hcm_balance ≡ u.balance)
  unfolding reconcile matched_ids reconcile_input
  matched_of u db newer = rw newer (refl, refl)

  -- The components of the key after an applied snapshot are the new ones of its result.
  after_lem :
      (draws : SyncDraws) (u : HcmBalanceUpdate) (db : Db)
      → UniqueIds db.ledger
      → let i = reconcile_input store parse_date u db in
        leb i.authoritative_version i.last_reconciled_version ≡ false
        → compute_components store u.employee_id u.location_id (written draws u (reconcile i) db)
          ≡ new_components i
  unfolding reconcile_input new_components
  after_lem draws u db unique newer =
      let e = u.employee_id in
      let l = u.location_id in
      let rows = db.ledger in
      let i = reconcile_input store parse_date u db in
      let (ids, hcm) = matched_of u db newer in
      let held = held_after u.version e l rows unique in
      let pending = pending_after u.version e l rows in
      written-components draws u (reconcile i) db ∙ (λ k. left (hcm k) e l (ids k) rows) ∙ (λ k.
        record { hcm_balance = u.balance; reserved_open = held k; committed_pending = pending k })

  standard-ShowsResult :
      (draws : SyncDraws) (u : HcmBalanceUpdate) (db : Db)
      → UniqueIds db.ledger
      → let (r, db') = reconcile_key store parse_date draws u db in
        ShowsResult
          (compute_components store u.employee_id u.location_id db)
          (compute_components store u.employee_id u.location_id db')
          r
  unfolding reconcile_key
  standard-ShowsResult draws u db unique =
      let i = reconcile_input store parse_date u db in
      elim (Bool-cases (leb i.authoritative_version i.last_reconciled_version)) [
        | inl old ↦ rw (not_applied i old, before_lem u db) (shows_stale i old)
        | inr newer ↦
            let applied = is_applied i newer in
            subst
              (λ c.
                ShowsResult c
                  (compute_components store u.employee_id u.location_id
                    (reconcile_key store parse_date draws u db).1)
                  (reconcile i))
              (sym (before_lem u db))
              (subst (λ c. ShowsResult (previous_components i) c (reconcile i))
                (sym (
                  ap (compute_components store u.employee_id u.location_id)
                    (λ k. if applied k then written draws u (reconcile i) db else db)
                  ∙ after_lem draws u db unique newer))
                (shows_applied i newer))
      ]

-- The view of a key shows what its reconciliation computed: before it, the available balance is the
-- `previousAvailable` of the result; after it, applied or not, the cached balance, the pending debits
-- and the available balance are the result's, and the holds are what they were. Ledger ids are
-- unique.
pub reconcile_key-ShowsResult :
    (orm : Orm)
    → IsOrm orm
    → (parse_date : String → ℕ) (draws : SyncDraws) (u : HcmBalanceUpdate) (db : Db)
    → UniqueIds db.ledger
    → let (r, db') = reconcile_key orm parse_date draws u db in
      ShowsResult
        (compute_components orm u.employee_id u.location_id db)
        (compute_components orm u.employee_id u.location_id db')
        r
reconcile_key-ShowsResult orm laws parse_date draws u db unique =
    subst
      (λ o.
        let (r, db') = reconcile_key o parse_date draws u db in
        ShowsResult (compute_components o u.employee_id u.location_id db)
          (compute_components o u.employee_id u.location_id db') r)
      (orm_path orm laws)
      (standard-ShowsResult orm.phase_totals laws.sums_by_phase parse_date draws u db unique)
