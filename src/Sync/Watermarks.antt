-- ===== src/Sync/Watermarks.antt =====
-- The watermark of a key over the reconciliations of sync/sync.service.ts, of that key and of others.
use hcm.Prelude.{
  ◌≡◌, refl, ℕ, ◌≤◌, false, none, some, String, ◌==◌, ◌&&◌, eq_iff, Bool, List, [], ◌∷◌, find, ℤ,
  Bool-cases, inl, inr, arith, sym, subst, ap, ◌∙◌, truthy,
}
use hcm.Common.Enums.{LedgerPhase}
use hcm.Common.Reconciliation.{ReconcileResult, reconcile}
use hcm.Common.Reconciliation.Outcome.{reconcile_watermark}
use hcm.Database.{Balance, BalanceLedgerEntry, Db, at_key, same_balance}
use hcm.Database.Orm.{Orm, standard, save_row}
use hcm.Database.Rows.{find-save_row_other}
use hcm.Sync.{
  SyncDraws, HcmBalanceUpdate, balance_for, reconcile_input, mark_matched, store_balance, log_event,
  reconcile_key, ingest_rows,
}
use hcm.Sync.Again.{
  log_event-balances, balance_for-key, stored_watermark, balance_for-same_key, if_true,
}

module _ (totals : (BalanceLedgerEntry → Bool) → List BalanceLedgerEntry → List (LedgerPhase × ℤ))
    (parse_date : String → ℕ) where
  abbrev store : Orm
  store = standard totals

  -- The watermark of the key of an update.
  abbrev pub watermark : HcmBalanceUpdate → Db → ℕ
  watermark u db = (balance_for store parse_date u db).last_reconciled_version

  own_grows :
      (draws : SyncDraws) (u : HcmBalanceUpdate) (db : Db)
      → watermark u db ≤ watermark u (reconcile_key store parse_date draws u db).1
  unfolding reconcile_key reconcile_input
  own_grows draws u db =
      let i = reconcile_input store parse_date u db in
      let result = reconcile i in
      elim (Bool-cases result.applied) [
        | inl on ↦
            let taken = mark_matched store parse_date result db in
            let stored = stored_watermark totals parse_date draws u result db taken in
            let w = reconcile_watermark i in
            subst (λ d. watermark u db ≤ watermark u d)
              (sym (if_true totals parse_date _ _ result.applied on)) (rw stored w.0)
        | inr off ↦ rw off (omega arith)
      ]

  mark_matched-balances :
      (result : ReconcileResult) (db : Db)
      → (mark_matched store parse_date result db).balances ≡ db.balances
  unfolding mark_matched
  mark_matched-balances result db = ground arith

  abbrev OtherKey : HcmBalanceUpdate → HcmBalanceUpdate → Type 0
  OtherKey v u = (v.employee_id == u.employee_id && v.location_id == u.location_id) ≡ false

  -- Saving a row of the key of `v` leaves the row found for another key.
  saved_other :
      (u v : HcmBalanceUpdate) (b : Balance) (rows : List Balance)
      → OtherKey v u
      → b.employee_id ≡ v.employee_id
      → b.location_id ≡ v.location_id
      → find (at_key u.employee_id u.location_id) (save_row same_balance b rows)
        ≡ find (at_key u.employee_id u.location_id) rows
  saved_other u v b rows other at_e at_l =
      find-save_row_other (at_key u.employee_id u.location_id) same_balance b rows
        (rw (at_e, at_l) other)
        (λ (x : Balance) same.
          let same_e : x.employee_id ≡ b.employee_id =
            ground (arith, eq_iff x.employee_id b.employee_id) in
          let same_l : x.location_id ≡ b.location_id =
            ground (arith, eq_iff x.location_id b.location_id) in
          rw (same_e ∙ at_e, same_l ∙ at_l) other)

  watermark_found :
      (u : HcmBalanceUpdate) (db db' : Db)
      → find (at_key u.employee_id u.location_id) db'.balances
        ≡ find (at_key u.employee_id u.location_id) db.balances
      → watermark u db' ≡ watermark u db
  unfolding balance_for
  watermark_found u db db' h = ground (arith, h)

  other_keeps :
      (draws : SyncDraws) (u v : HcmBalanceUpdate) (db : Db)
      → OtherKey v u
      → watermark u (reconcile_key store parse_date draws v db).1 ≡ watermark u db
  unfolding reconcile_key store_balance
  other_keeps draws u v db other =
      let result = reconcile (reconcile_input store parse_date v db) in
      let old = balance_for store parse_date v db in
      let taken = mark_matched store parse_date result db in
      let stored = store_balance store parse_date draws v old result taken in
      let row : Balance = record old {
        hcm_balance = result.new_hcm_balance;
        last_reconciled_version = result.new_last_reconciled_version;
        as_of = some (elim (truthy v.as_of) [ none ↦ draws.now | some text ↦ parse_date text ]);
      } in
      let key = balance_for-key totals parse_date v db in
      let found = find (at_key u.employee_id u.location_id) in
      elim (Bool-cases result.applied) [
        | inl on ↦
            subst (λ d. watermark u d ≡ watermark u db)
              (sym (if_true totals parse_date _ _ result.applied on))
              (watermark_found u db (log_event store parse_date draws v result stored) (
                ap found (log_event-balances totals parse_date draws v result stored)
                ∙ saved_other u v row taken.balances other key.0 key.1
                ∙ ap found (mark_matched-balances result db)))
        | inr off ↦ rw off refl
      ]

  grows :
      (draws : SyncDraws) (u v : HcmBalanceUpdate) (db : Db)
      → watermark u db ≤ watermark u (reconcile_key store parse_date draws v db).1
  grows draws u v db =
      elim (Bool-cases (v.employee_id == u.employee_id && v.location_id == u.location_id)) [
        | inr other ↦ rw (other_keeps draws u v db other) (omega arith)
        | inl same ↦
            let same_e : v.employee_id ≡ u.employee_id =
              ground (arith, eq_iff v.employee_id u.employee_id) in
            let same_l : v.location_id ≡ u.location_id =
              ground (arith, eq_iff v.location_id u.location_id) in
            let db' = (reconcile_key store parse_date draws v db).1 in
            omega (
              arith,
              own_grows draws v db,
              balance_for-same_key totals parse_date u v db same_e same_l,
              balance_for-same_key totals parse_date u v db' same_e same_l,
            )
      ]

  pub rows_grow :
      (draws : HcmBalanceUpdate → SyncDraws) (u : HcmBalanceUpdate) (rows : List HcmBalanceUpdate)
      (counts : ℕ × ℕ) (db : Db)
      → watermark u db ≤ watermark u (ingest_rows store parse_date draws rows counts db).1
  unfolding ingest_rows
  rows_grow draws u [] counts db = omega arith
  rows_grow draws u (v ∷ rows) counts db = omega (
    arith,
    grows (draws v) u v db,
    rows_grow draws u rows _ (reconcile_key store parse_date (draws v) v db).1,
  )
