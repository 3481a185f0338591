-- ===== src/Sync/Batches.antt =====
-- A batch that reaches sync/sync.service.ts a second time.
use hcm.Prelude.{
  ◌≡◌, refl, ℕ, ◌+◌, ◌≤◌, String, Bool, List, [], ◌∷◌, All, length, ℤ, arith, subst, ap, ◌∙◌,
}
use hcm.Common.Enums.{ReconciliationEventType, LedgerPhase, same_event_type}
use hcm.Common.Reconciliation.{reconcile}
use hcm.Database.{BalanceLedgerEntry, Db}
use hcm.Database.Orm.{Orm, IsOrm, standard, orm_path}
use hcm.Sync.{
  SyncDraws, HcmBalanceUpdate, reconcile_input, reconcile_key, ingest_rows, ingest_batch, one_if,
}
use hcm.Sync.Again.{raised_watermark, dropped_if_old}
use hcm.Sync.Watermarks
use hcm.Sync.Watermarks.{rows_grow}

module _ (totals : (BalanceLedgerEntry → Bool) → List BalanceLedgerEntry → List (LedgerPhase × ℤ))
    (parse_date : String → ℕ) where
  abbrev store : Orm
  store = standard totals

  abbrev watermark : HcmBalanceUpdate → Db → ℕ
  watermark = Watermarks.watermark totals parse_date

  -- Every row of a batch is at or below the watermark of its key afterwards.
  rows_covered :
      (draws : HcmBalanceUpdate → SyncDraws) (rows : List HcmBalanceUpdate) (counts : ℕ × ℕ)
      (db : Db)
      → let db' = (ingest_rows store parse_date draws rows counts db).1 in
        All (λ (u : HcmBalanceUpdate). u.version ≤ watermark u db') rows
  unfolding ingest_rows
  rows_covered draws [] counts db = tt
  rows_covered draws (u ∷ rows) counts db =
      let db₁ = (reconcile_key store parse_date (draws u) u db).1 in
      (
        omega (
          arith,
          raised_watermark totals parse_date (draws u) u db,
          rows_grow totals parse_date draws u rows _ db₁,
        ),
        rows_covered draws rows _ db₁,
      )

  plus_zero : (n : ℕ) → n + 0 ≡ n
  plus_zero n = omega arith

  stale_event :
      (draws : SyncDraws) (u : HcmBalanceUpdate) (db : Db)
      → u.version ≤ watermark u db
      → (reconcile_key store parse_date draws u db).0.event_type
        ≡ ReconciliationEventType.reconciled
  unfolding reconcile_key reconcile reconcile_input
  stale_event draws u db h = ground arith

  rows_dropped :
      (draws : HcmBalanceUpdate → SyncDraws) (rows : List HcmBalanceUpdate) (counts : ℕ × ℕ)
      (db : Db)
      → All (λ (u : HcmBalanceUpdate). u.version ≤ watermark u db) rows
      → ingest_rows store parse_date draws rows counts db ≡ (counts, db)
  unfolding ingest_rows
  rows_dropped draws [] counts db h = refl
  rows_dropped draws (u ∷ rows) counts db h =
      let (off, same) = dropped_if_old totals parse_date (draws u) u db h.0 in
      let event = stale_event (draws u) u db h.0 in
      (λ k.
        ingest_rows store parse_date draws rows
          (
            counts.0 + one_if (off k),
            counts.1 + one_if (same_event_type (event k) ReconciliationEventType.over_allocated),
          )
          (same k))
      ∙ (λ k.
          ingest_rows store parse_date draws rows (plus_zero counts.0 k, plus_zero counts.1 k) db)
      ∙ rows_dropped draws rows counts db h.1

  standard_again :
      (draws again : HcmBalanceUpdate → SyncDraws) (rows : List HcmBalanceUpdate) (db : Db)
      → let db' = (ingest_batch store parse_date draws rows db).1 in
        ingest_batch store parse_date again rows db'
        ≡ (record { processed = length rows; applied = 0; over_allocated = 0 }, db')
  unfolding ingest_batch
  standard_again draws again rows db =
      let db' = (ingest_rows store parse_date draws rows (0, 0) db).1 in
      ap
        (λ (r : (ℕ × ℕ) × Db).
          (record { processed = length rows; applied = r.0.0; over_allocated = r.0.1 }, r.1))
        (rows_dropped again rows (0, 0) db' (rows_covered draws rows (0, 0) db))

-- A batch that arrives a second time is a no-op, whatever keys and versions its rows have and in
-- whatever order: it applies none of its rows, counts no over-allocation, and leaves the whole
-- database.
pub ingest_batch_again :
    (orm : Orm)
    → IsOrm orm
    → (parse_date : String → ℕ) (draws again : HcmBalanceUpdate → SyncDraws)
      (rows : List HcmBalanceUpdate) (db : Db)
    → let db' = (ingest_batch orm parse_date draws rows db).1 in
      ingest_batch orm parse_date again rows db'
      ≡ (record { processed = length rows; applied = 0; over_allocated = 0 }, db')
ingest_batch_again orm laws parse_date draws again rows db =
    subst
      (λ o.
        let db' = (ingest_batch o parse_date draws rows db).1 in
        ingest_batch o parse_date again rows db'
        ≡ (record { processed = length rows; applied = 0; over_allocated = 0 }, db'))
      (orm_path orm laws) (standard_again orm.phase_totals parse_date draws again rows db)
