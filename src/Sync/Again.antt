-- ===== src/Sync/Again.antt =====
-- Snapshots of one key that arrive one after the other at sync/sync.service.ts, by whatever channel.
use hcm.Prelude.{
  ℕ, ◌≤◌, ◌≡◌, refl, Bool, true, false, none, some, List, String, eq_iff, find, arith, subst,
  if◌then◌else◌, Option-cases, Bool-cases, inl, inr, ℤ, truthy, sym,
}
use hcm.Common.Reconciliation.{ReconcileInput, ReconcileResult, reconcile}
use hcm.Database.{Balance, BalanceLedgerEntry, Db, at_key, same_balance}
use hcm.Database.Orm.{Orm, IsOrm, standard, orm_path, save_row}
use hcm.Database.Rows.{find-passes, find-save_row}
use hcm.Sync.{
  SyncDraws, HcmBalanceUpdate, balance_for, reconcile_input, mark_matched, store_balance, log_event,
  reconcile_key, LedgerPhase,
}
use hcm.Common.Reconciliation.Outcome.{reconcile_watermark}

module _ (totals : (BalanceLedgerEntry → Bool) → List BalanceLedgerEntry → List (LedgerPhase × ℤ))
    (parse_date : String → ℕ) where
  abbrev store : Orm
  store = standard totals

  pub balance_for-key :
      (u : HcmBalanceUpdate) (db : Db)
      → let b = balance_for store parse_date u db in
        (b.employee_id ≡ u.employee_id) × (b.location_id ≡ u.location_id)
  unfolding balance_for
  balance_for-key u db =
      elim (Option-cases (find (at_key u.employee_id u.location_id) db.balances)) [
        | inl unseen ↦ ground arith
        | inr (b, seen) ↦ ground (
          arith,
          find-passes (at_key u.employee_id u.location_id) db.balances b seen,
          eq_iff b.employee_id u.employee_id,
          eq_iff b.location_id u.location_id,
        )
      ]

  pub found_after :
      (e l : String) (b : Balance) (rows : List Balance)
      → b.employee_id ≡ e
      → b.location_id ≡ l
      → find (at_key e l) (save_row same_balance b rows) ≡ some b
  found_after e l b rows same_e same_l =
      let own : same_balance b b ≡ true =
        ground (arith, eq_iff b.employee_id b.employee_id, eq_iff b.location_id b.location_id) in
      subst (λ (k : String × String). find (at_key k.0 k.1) (save_row same_balance b rows) ≡ some b)
        (λ i. (same_e i, same_l i)) (find-save_row same_balance b rows own)

  -- The row of the key after an applied result carries the result's watermark.
  pub stored_watermark :
      (draws : SyncDraws) (u : HcmBalanceUpdate) (result : ReconcileResult) (db₀ db : Db)
      → (balance_for store parse_date u (
          log_event store parse_date draws u result (
            store_balance store parse_date draws u
              (balance_for store parse_date u db₀)
              result
              db))).last_reconciled_version
        ≡ result.new_last_reconciled_version
  unfolding log_event store_balance balance_for
  stored_watermark draws u result db₀ db =
      let b = balance_for store parse_date u db₀ in
      let key = balance_for-key u db₀ in
      let written : Balance = record b {
        hcm_balance = result.new_hcm_balance;
        last_reconciled_version = result.new_last_reconciled_version;
        as_of = some (elim (truthy u.as_of) [ none ↦ draws.now | some text ↦ parse_date text ]);
      } in
      let found = found_after u.employee_id u.location_id written db.balances key.0 key.1 in
      ground arith

  pub log_event-balances :
      (draws : SyncDraws) (u : HcmBalanceUpdate) (result : ReconcileResult) (db : Db)
      → (log_event store parse_date draws u result db).balances ≡ db.balances
  unfolding log_event
  log_event-balances draws u result db = ground arith

  pub dropped_if_old :
      (draws : SyncDraws) (u : HcmBalanceUpdate) (db : Db)
      → u.version ≤ (balance_for store parse_date u db).last_reconciled_version
      → let (r, db') = reconcile_key store parse_date draws u db in (r.applied ≡ false) × (db' ≡ db)
  unfolding reconcile_key reconcile reconcile_input
  dropped_if_old draws u db h = ground arith

  applied-newer :
      (i : ReconcileInput)
      → (reconcile i).applied ≡ false
      → i.authoritative_version ≤ i.last_reconciled_version
  unfolding reconcile
  applied-newer i e = ground arith

  pub if_true : {A : Type 0} (x y : A) (b : Bool) → b ≡ true → (if b then x else y) ≡ x
  if_true x y b e = rw e refl

  pub raised_watermark :
      (draws : SyncDraws) (u : HcmBalanceUpdate) (db : Db)
      → u.version
        ≤ (balance_for store parse_date u
            (reconcile_key store parse_date draws u db).1).last_reconciled_version
  unfolding reconcile_key reconcile_input
  raised_watermark draws u db =
      let i = reconcile_input store parse_date u db in
      let result = reconcile i in
      elim (Bool-cases result.applied) [
        | inl on ↦
            let taken = mark_matched store parse_date result db in
            let stored = stored_watermark draws u result db taken in
            let w = reconcile_watermark i in
            subst (λ d. u.version ≤ (balance_for store parse_date u d).last_reconciled_version)
              (sym (if_true _ _ result.applied on)) (rw stored w.1)
        | inr off ↦ rw off (applied-newer i off)
      ]

  pub balance_for-same_key :
      (u v : HcmBalanceUpdate) (db : Db)
      → v.employee_id ≡ u.employee_id
      → v.location_id ≡ u.location_id
      → (balance_for store parse_date v db).last_reconciled_version
        ≡ (balance_for store parse_date u db).last_reconciled_version
  unfolding balance_for
  balance_for-same_key u v db same_e same_l = λ i.
      (balance_for store parse_date (record v { employee_id = same_e i; location_id = same_l i })
        db).last_reconciled_version

  again_standard :
      (draws again : SyncDraws) (u v : HcmBalanceUpdate) (db : Db)
      → v.employee_id ≡ u.employee_id
      → v.location_id ≡ u.location_id
      → v.version ≤ u.version
      → let db' = (reconcile_key store parse_date draws u db).1 in
        let (r, db'') = reconcile_key store parse_date again v db' in
        (r.applied ≡ false) × (db'' ≡ db')
  again_standard draws again u v db same_e same_l older =
      let db' = (reconcile_key store parse_date draws u db).1 in
      let same = balance_for-same_key u v db' same_e same_l in
      let raised = raised_watermark draws u db in dropped_if_old again v db' (rw same (omega arith))

-- After a snapshot was reconciled, any snapshot of the same employee and location with a version
-- that is not above it, the same one again or an older one that arrives late, is not applied and
-- leaves the whole database as it is: balances, ledger and event log.
pub reconcile_key-drops_old :
    (orm : Orm) (laws : IsOrm orm) (parse_date : String → ℕ) (draws again : SyncDraws)
    (u v : HcmBalanceUpdate) (db : Db)
    → v.employee_id ≡ u.employee_id
    → v.location_id ≡ u.location_id
    → v.version ≤ u.version
    → let db' = (reconcile_key orm parse_date draws u db).1 in
      let (r, db'') = reconcile_key orm parse_date again v db' in (r.applied ≡ false) × (db'' ≡ db')
reconcile_key-drops_old orm laws parse_date draws again u v db same_e same_l older =
    subst
      (λ o.
        let db' = (reconcile_key o parse_date draws u db).1 in
        let (r, db'') = reconcile_key o parse_date again v db' in
        (r.applied ≡ false) × (db'' ≡ db'))
      (orm_path orm laws)
      (again_standard orm.phase_totals parse_date draws again u v db same_e same_l older)
