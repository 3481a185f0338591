-- ===== src/Balances/View.antt =====
-- The public read of balances/balance.service.ts (`getView`) beside the sums of the ledger.
use hcm.Prelude.{arith, ◌∙◌, ◌≡◌, refl, ap, subst, find, some, String, ℕ, ℤ, Bool, List, ◌-ℤ◌}
use hcm.Common.Enums.{LedgerPhase}
use hcm.Common.Exec.{Result, ok, err}
use hcm.Common.Errors.{ServiceError}
use hcm.Common.BalanceMath.{BalanceView, compute_available, to_view}
use hcm.Hcm.Client.{HcmClient}
use hcm.Database.{Balance, BalanceLedgerEntry, Db, at_key}
use hcm.Database.Orm.{Orm, IsOrm, SumsByPhase, standard, orm_path}
use hcm.Balances.{World, get_view, ensure_balance_loaded, compute_components}
use hcm.Balances.Sums.{active_sum, compute_components-sums}

-- The view that the tables call for: the cached balance less the active holds and the active debits.
abbrev pub derived_view : Balance → Db → BalanceView
derived_view b db =
    let reserved = active_sum b.employee_id b.location_id LedgerPhase.reserve db.ledger in
    let committed = active_sum b.employee_id b.location_id LedgerPhase.commit db.ledger in
    record {
      components = record {
        hcm_balance = b.hcm_balance;
        reserved_open = reserved;
        committed_pending = committed;
      };
      available = b.hcm_balance -ℤ reserved -ℤ committed;
    }

module _ (totals : (BalanceLedgerEntry → Bool) → List BalanceLedgerEntry → List (LedgerPhase × ℤ))
    (sums : SumsByPhase totals) (client : HcmClient) (parse_date : String → ℕ) where
  already_loaded :
      (e l : String) (w : World client.State) (b : Balance)
      → find (at_key e l) w.db.balances ≡ some b
      → ensure_balance_loaded (standard totals) client parse_date e l w ≡ (ok tt, w)
  unfolding ensure_balance_loaded
  already_loaded e l w b found = rw (found, ensure_balance_loaded) refl

  components_found :
      (b : Balance) (db : Db)
      → find (at_key b.employee_id b.location_id) db.balances ≡ some b
      → compute_components (standard totals) b.employee_id b.location_id db
        ≡ (derived_view b db).components
  components_found b db found =
      compute_components-sums totals sums b.employee_id b.location_id db ∙ ground (arith, found)

  -- `getView` from the loaded balance on.
  abbrev read :
      String
      → String
      → Result ServiceError (Unit {0}) × World client.State
      → Result ServiceError BalanceView × World client.State
  read e l (r, w) = elim r [
    | ok a ↦ (ok (to_view (compute_components (standard totals) e l w.db)), w)
    | err error ↦ (err error, w)
  ]

  standard-view :
      (w : World client.State) (b : Balance)
      → find (at_key b.employee_id b.location_id) w.db.balances ≡ some b
      → get_view (standard totals) client parse_date b.employee_id b.location_id w
        ≡ (ok (derived_view b w.db), w)
  unfolding get_view to_view compute_available
  standard-view w b found =
      ap (read b.employee_id b.location_id) (already_loaded b.employee_id b.location_id w b found)
      ∙ ap (λ c. (ok (to_view c), w)) (components_found b w.db found)

-- Reading the view of a key whose balance is cached calls HCM for nothing and changes nothing; what
-- it returns is the cached balance, the sum of the active holds and the sum of the active debits of
-- the key, and the first less the other two as the available balance.
pub get_view-derived_view :
    (orm : Orm)
    → IsOrm orm
    → (client : HcmClient) (parse_date : String → ℕ) (w : World client.State) (b : Balance)
    → orm.find_one Balance (at_key b.employee_id b.location_id) w.db.balances ≡ some b
    → get_view orm client parse_date b.employee_id b.location_id w ≡ (ok (derived_view b w.db), w)
get_view-derived_view orm laws client parse_date w b found =
    subst
      (λ o.
        o.find_one Balance (at_key b.employee_id b.location_id) w.db.balances ≡ some b
        → get_view o client parse_date b.employee_id b.location_id w
          ≡ (ok (derived_view b w.db), w))
      (orm_path orm laws)
      (λ seen. standard-view orm.phase_totals laws.sums_by_phase client parse_date w b seen) found
