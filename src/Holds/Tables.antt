-- ===== src/Holds/Tables.antt =====
-- The writes of a handler and the holds of the requests: releasing, saving a request, adding a hold.
use hcm.Prelude.{
  ◌≡◌, false, List, [], ◌∷◌, String, ◌==◌, eq_iff, All, arith, inl, inr, Bool-cases, All-mono, some,
}
use hcm.Database.{TimeOffRequest, BalanceLedgerEntry, same_request, same_entry}
use hcm.Database.Rows.{All-save_row, OrReplaced}
use hcm.Database.Orm.{save_row}
use hcm.Holds.{holds, IsCovered, holds-saved}

-- No request gets a hold that it had not.
abbrev pub NoNewHolds : List BalanceLedgerEntry → List BalanceLedgerEntry → Type 0
NoNewHolds ledger ledger' = (id : String) → holds id ledger ≡ false → holds id ledger' ≡ false

pub All-IsCovered :
    (ledger ledger' : List BalanceLedgerEntry) (rows : List TimeOffRequest)
    → NoNewHolds ledger ledger'
    → All (IsCovered ledger) rows
    → All (IsCovered ledger') rows
All-IsCovered ledger ledger' [] f h = tt
All-IsCovered ledger ledger' (x ∷ rows) f h =
    (ground (arith, f x.id, h.0), All-IsCovered ledger ledger' rows f h.1)

-- A covered request may be saved.
pub IsCovered-saved :
    (ledger : List BalanceLedgerEntry) (r : TimeOffRequest) (rows : List TimeOffRequest)
    → IsCovered ledger r
    → All (IsCovered ledger) rows
    → All (IsCovered ledger) (save_row same_request r rows)
IsCovered-saved ledger r rows mine h =
    All-save_row (IsCovered ledger) same_request r mine rows
      (All-mono rows (λ (x : TimeOffRequest) c. inr c) h)

-- A new hold for the request `r` leaves the others covered.
pub hold_added :
    (ledger : List BalanceLedgerEntry) (e : BalanceLedgerEntry) (r : TimeOffRequest)
    (mine : IsCovered (save_row same_entry e ledger) r) (rows : List TimeOffRequest)
    → e.request_id ≡ some r.id
    → All (IsCovered ledger) rows
    → All (OrReplaced (IsCovered (save_row same_entry e ledger)) same_request r mine) rows
hold_added ledger e r mine [] owner h = tt
hold_added ledger e r mine (x ∷ rows) owner h = (
  elim (Bool-cases (x.id == r.id)) [
    | inl same ↦ inl same
    | inr other ↦
        inr (ground (arith, h.0, holds-saved x.id e ledger, eq_iff r.id x.id, eq_iff x.id r.id))
  ],
  hold_added ledger e r mine rows owner h.1,
)
