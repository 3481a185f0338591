-- ===== src/Balances/Sums.antt =====
-- The derived balance of balances/balance.service.ts as sums over the ledger, and how each kind of
-- write moves them.
use hcm.Prelude.{
  none, some, +ℤ_zero, zero_+ℤ, +ℤ_assoc, ◌≡◌, refl, ap, ◌∙◌, Bool, List, [], ◌∷◌, ◌++◌, foldl,
  String, ℤ, pos, ◌+ℤ◌, ◌-ℤ◌, int_laws, ◌&&◌, filter, sum_by, find, Bool-cases, inl, inr,
  if◌then◌else◌, false, true, arith, any, ◌==◌,
}
use hcm.Common.Enums.{LedgerPhase, same_phase}
use hcm.Common.BalanceMath.{compute_available}
use hcm.Database.{Balance, BalanceLedgerEntry, Db, at_key}
use hcm.Database.Orm.{SumsByPhase, standard, update_rows}
use hcm.Balances.{is_active_at, add_total, compute_components, is_active_of, LedgerState}

-- The active entries of a phase at a key, and the sum of their amounts.
abbrev pub counts : String → String → LedgerPhase → BalanceLedgerEntry → Bool
counts e l phase r = is_active_at e l r && same_phase r.phase phase

abbrev pub amount_if : (BalanceLedgerEntry → Bool) → BalanceLedgerEntry → ℤ
amount_if p r = if p r then r.amount else pos 0

abbrev pub sum_where : (BalanceLedgerEntry → Bool) → List BalanceLedgerEntry → ℤ
sum_where p rows = sum_by (λ (r : BalanceLedgerEntry). r.amount) (filter p rows)

abbrev pub active_sum : String → String → LedgerPhase → List BalanceLedgerEntry → ℤ
active_sum e l phase rows = sum_where (counts e l phase) rows

abbrev pub cached : String → String → List Balance → ℤ
cached e l balances = elim (find (at_key e l) balances) [ none ↦ pos 0 | some b ↦ b.hcm_balance ]

pub sum_where-append :
    (p : BalanceLedgerEntry → Bool) (rows : List BalanceLedgerEntry) (r : BalanceLedgerEntry)
    → sum_where p (rows ++ r ∷ []) ≡ sum_where p rows +ℤ amount_if p r
sum_where-append p [] r = elim (Bool-cases (p r)) [
  | inl e ↦ rw e (omega int_laws)
  | inr e ↦ rw e (omega int_laws)
]
sum_where-append p (x ∷ rows) r = elim (Bool-cases (p x)) [
  | inl e ↦ rw (e, sum_where-append p rows r) (omega int_laws)
  | inr e ↦ rw (e, sum_where-append p rows r) refl
]

abbrev PhaseTotal : Type 0
PhaseTotal = LedgerPhase × ℤ

abbrev total_of : LedgerPhase → List PhaseTotal → ℤ
total_of phase ts =
    sum_by (λ (t : PhaseTotal). t.1) (filter (λ (t : PhaseTotal). same_phase t.0 phase) ts)

foldl_totals :
    (a b : ℤ) (ts : List PhaseTotal)
    → foldl add_total (a, b) ts
      ≡ (a +ℤ total_of LedgerPhase.reserve ts, b +ℤ total_of LedgerPhase.commit ts)
foldl_totals a b [] = simp +ℤ_zero
foldl_totals a b ((LedgerPhase.reserve, x) ∷ ts) = foldl_totals (a +ℤ x) b ts ∙ simp +ℤ_assoc
foldl_totals a b ((LedgerPhase.commit, x) ∷ ts) = foldl_totals a (b +ℤ x) ts ∙ simp +ℤ_assoc
foldl_totals a b ((LedgerPhase.release, x) ∷ ts) = foldl_totals a b ts
foldl_totals a b ((LedgerPhase.hcm_adjustment, x) ∷ ts) = foldl_totals a b ts

module _ (totals : (BalanceLedgerEntry → Bool) → List BalanceLedgerEntry → List (LedgerPhase × ℤ))
    (sums : SumsByPhase totals) where
  -- The components are the cached balance and the two sums.
  pub compute_components-sums :
      (e l : String) (db : Db)
      → compute_components (standard totals) e l db ≡ record {
        hcm_balance = cached e l db.balances;
        reserved_open = active_sum e l LedgerPhase.reserve db.ledger;
        committed_pending = active_sum e l LedgerPhase.commit db.ledger;
      }
  unfolding compute_components
  compute_components-sums e l db =
      let rows = totals (is_active_at e l) db.ledger in
      rw
        (
          foldl_totals (pos 0) (pos 0) rows,
          zero_+ℤ (total_of LedgerPhase.reserve rows),
          zero_+ℤ (total_of LedgerPhase.commit rows),
          sums (is_active_at e l) db.ledger LedgerPhase.reserve,
          sums (is_active_at e l) db.ledger LedgerPhase.commit,
        )
        refl

  pub available-sums :
      (e l : String) (db : Db)
      → compute_available (compute_components (standard totals) e l db)
        ≡ cached e l db.balances
          -ℤ active_sum e l LedgerPhase.reserve db.ledger
          -ℤ active_sum e l LedgerPhase.commit db.ledger
  unfolding compute_available
  available-sums e l db = ap compute_available (compute_components-sums e l db)

-- An update that only touches rows outside the sum leaves it.
pub sum_where-unmoved :
    (p where_ : BalanceLedgerEntry → Bool) (f : BalanceLedgerEntry → BalanceLedgerEntry)
    → ((r : BalanceLedgerEntry) → where_ r ≡ true → (p r ≡ false) × (p (f r) ≡ false))
    → (rows : List BalanceLedgerEntry) → sum_where p (update_rows where_ f rows) ≡ sum_where p rows
sum_where-unmoved p where_ f out [] = refl
sum_where-unmoved p where_ f out (r ∷ rows) = elim (Bool-cases (where_ r)) [
  | inl hit ↦ rw (hit, (out r hit).0, (out r hit).1) (sum_where-unmoved p where_ f out rows)
  | inr missed ↦ rw missed (elim (Bool-cases (p r)) [
    | inl e ↦ rw e (ap (λ s. r.amount +ℤ s) (sum_where-unmoved p where_ f out rows))
    | inr e ↦ rw e (sum_where-unmoved p where_ f out rows)
  ])
]

&&-right : (a b : Bool) → b ≡ false → (a && b) ≡ false
&&-right a b e = ground arith

-- Releasing the holds of a request leaves the commits of every key.
pub released_commits :
    (id e l : String) (rows : List BalanceLedgerEntry)
    → active_sum e l LedgerPhase.commit (
        update_rows
          (is_active_of id LedgerPhase.reserve)
          (λ r. record r { state = LedgerState.released })
          rows)
      ≡ active_sum e l LedgerPhase.commit rows
released_commits id e l rows =
    sum_where-unmoved (counts e l LedgerPhase.commit) (is_active_of id LedgerPhase.reserve)
      (λ r. record r { state = LedgerState.released })
      (λ (r : BalanceLedgerEntry) hit.
        let phase = reserve_phase id r hit in
        (
          &&-right (is_active_at e l r) (same_phase r.phase LedgerPhase.commit) (rw phase refl),
          &&-right (is_active_at e l (record r { state = LedgerState.released }))
              (same_phase r.phase LedgerPhase.commit) (rw phase refl),
        ))
      rows
  where
    reserve_phase :
        (rid : String) (r : BalanceLedgerEntry)
        → is_active_of rid LedgerPhase.reserve r ≡ true
        → r.phase ≡ LedgerPhase.reserve
    reserve_phase rid r hit = ground arith

-- Releasing makes no id known.
pub still_fresh :
    (uuid id : String) (rows : List BalanceLedgerEntry)
    → any (λ r. r.id == uuid) rows ≡ false
    → any
        (λ r. r.id == uuid)
        (update_rows
          (is_active_of id LedgerPhase.reserve)
          (λ r. record r { state = LedgerState.released })
          rows)
      ≡ false
still_fresh uuid id [] h = refl
still_fresh uuid id (r ∷ rows) h = ground (arith, still_fresh uuid id rows)
