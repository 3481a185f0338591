-- ===== src/Sync/Ledger.antt =====
-- What a reconciliation of sync/sync.service.ts does to the sums over the ledger.
use hcm.Prelude.{
  ◌≡◌, refl, true, false, not, ◌&&◌, String, ◌==◌, has, eq_iff, any, All, All-mono₂, Bool, List, [],
  ◌∷◌, map, filter, sum_by, Bool-cases, inl, inr, arith, ℕ, All-mono,
}
use hcm.Common.Enums.{LedgerPhase, LedgerState}
use hcm.Common.Reconciliation.{CommittedEntry, is_absorbed}
use hcm.Database.{BalanceLedgerEntry}
use hcm.Database.Orm.{update_rows}
use hcm.Balances.Sums.{counts, sum_where}
use hcm.Sync.{is_active_in, committed_entry}

-- The `id` is the primary key of the ledger.
abbrev pub UniqueIds : List BalanceLedgerEntry → Type 0
UniqueIds [] = Unit
UniqueIds (r ∷ rows) = (any (λ s. s.id == r.id) rows ≡ false) × UniqueIds rows

abbrev pub reconciled : BalanceLedgerEntry → BalanceLedgerEntry
reconciled r = record r { state = LedgerState.reconciled }

abbrev pub entries : String → String → List BalanceLedgerEntry → List CommittedEntry
entries e l rows = map committed_entry (filter (is_active_in e l LedgerPhase.commit) rows)

-- The same selection, spelled as in the sums.
active_counts :
    (e l : String) (phase : LedgerPhase) (r : BalanceLedgerEntry)
    → is_active_in e l phase r ≡ counts e l phase r
active_counts e l phase r = ground arith

pub filter-active :
    (e l : String) (phase : LedgerPhase) (rows : List BalanceLedgerEntry)
    → filter (is_active_in e l phase) rows ≡ filter (counts e l phase) rows
filter-active e l phase [] = refl
filter-active e l phase (r ∷ rows) =
    rw (active_counts e l phase r, filter-active e l phase rows) refl

-- An update after which no touched row counts leaves the rows that it did not touch.
sum_where-untouched :
    (p where_ : BalanceLedgerEntry → Bool) (f : BalanceLedgerEntry → BalanceLedgerEntry)
    → ((r : BalanceLedgerEntry) → p (f r) ≡ false)
    → (rows : List BalanceLedgerEntry)
    → sum_where p (update_rows where_ f rows) ≡ sum_where (λ r. p r && not (where_ r)) rows
sum_where-untouched p where_ f out [] = refl
sum_where-untouched p where_ f out (r ∷ rows) =
    let rest = sum_where-untouched p where_ f out rows in
    elim (Bool-cases (where_ r)) [
      | inl hit ↦ elim (Bool-cases (p r)) [
        | inl e ↦ rw (hit, e, out r) rest
        | inr e ↦ rw (hit, e, out r) rest
      ]
      | inr missed ↦ elim (Bool-cases (p r)) [
        | inl e ↦ rw (missed, e, rest) refl
        | inr e ↦ rw (missed, e) rest
      ]
    ]

no_longer_counts :
    (e l : String) (phase : LedgerPhase) (r : BalanceLedgerEntry)
    → counts e l phase (reconciled r) ≡ false
no_longer_counts e l phase r = ground arith

-- The entries that are marked RECONCILED leave each sum.
pub sum_where-reconciled :
    (e l : String) (phase : LedgerPhase) (ids : List String) (rows : List BalanceLedgerEntry)
    → sum_where (counts e l phase) (update_rows (λ r. has r.id ids) reconciled rows)
      ≡ sum_where (λ r. counts e l phase r && not (has r.id ids)) rows
sum_where-reconciled e l phase ids =
    sum_where-untouched (counts e l phase) (λ r. has r.id ids) reconciled
      (no_longer_counts e l phase)

-- Leaving out rows that are not in a sum anyway.
sum_where-left_out :
    (p out : BalanceLedgerEntry → Bool) (rows : List BalanceLedgerEntry)
    → All (λ r. p r ≡ true → out r ≡ false) rows
    → sum_where (λ r. p r && not (out r)) rows ≡ sum_where p rows
sum_where-left_out p out [] h = refl
sum_where-left_out p out (r ∷ rows) h =
    let rest = sum_where-left_out p out rows h.1 in
    elim (Bool-cases (p r)) [ inl e ↦ rw (e, h.0 e, rest) refl | inr e ↦ rw e rest ]

pub pending_kept :
    (e l : String) (ids : List String) (rows : List BalanceLedgerEntry)
    → sum_where (λ r. counts e l LedgerPhase.commit r && not (has r.id ids)) rows
      ≡ sum_by
          (λ (c : CommittedEntry). c.amount)
          (filter (λ (c : CommittedEntry). not (has c.id ids)) (entries e l rows))
pending_kept e l ids [] = refl
pending_kept e l ids (r ∷ rows) =
    rw (active_counts e l LedgerPhase.commit r) (ground (arith, pending_kept e l ids rows))

-- The ids that a snapshot of this version absorbs, as a list.
abbrev pub absorbed : ℕ → String → String → List BalanceLedgerEntry → List String
absorbed version e l rows =
    map (λ (c : CommittedEntry). c.id) (filter (is_absorbed version) (entries e l rows))

absorbed_seen :
    (version : ℕ) (e l x : String) (rows : List BalanceLedgerEntry)
    → has x (absorbed version e l rows) ≡ true
    → any (λ r. r.id == x) rows ≡ true
absorbed_seen version e l x [] h = h
absorbed_seen version e l x (r ∷ rows) h = ground (arith, absorbed_seen version e l x rows)

-- An id that only a hold has.
abbrev Clear : List String → BalanceLedgerEntry → Type 0
Clear ids r = r.phase ≡ LedgerPhase.reserve → has r.id ids ≡ false

others :
    (x : String) (rows : List BalanceLedgerEntry)
    → any (λ s. s.id == x) rows ≡ false
    → All (λ (s : BalanceLedgerEntry). x == s.id ≡ false) rows
others x [] h = tt
others x (s ∷ rows) h = (ground (arith, eq_iff x s.id, eq_iff s.id x), others x rows (ground arith))

-- With unique ids no hold has the id of an entry that a snapshot absorbs.
holds-Clear :
    (version : ℕ) (e l : String) (rows : List BalanceLedgerEntry)
    → UniqueIds rows
    → All (Clear (absorbed version e l rows)) rows
holds-Clear version e l [] u = tt
holds-Clear version e l (r ∷ rows) u = (
  λ is_hold. elim (Bool-cases (has r.id (absorbed version e l rows))) [
    | inl seen ↦ let there = absorbed_seen version e l r.id rows seen in absurd (cc (there, u.0))
    | inr unseen ↦ ground (arith, unseen, is_hold)
  ],
  All-mono₂ rows
      (λ (s : BalanceLedgerEntry) clear differs is_hold. ground (arith, clear is_hold, differs))
      (holds-Clear version e l rows u.1) (others r.id rows u.0),
)

hold_phase :
    (e l : String) (r : BalanceLedgerEntry)
    → counts e l LedgerPhase.reserve r ≡ true
    → r.phase ≡ LedgerPhase.reserve
hold_phase e l r h = ground arith

-- The holds that a snapshot leaves: all of them.
pub reserved_kept :
    (version : ℕ) (e l : String) (rows : List BalanceLedgerEntry)
    → UniqueIds rows
    → sum_where
        (λ r. counts e l LedgerPhase.reserve r && not (has r.id (absorbed version e l rows)))
        rows
      ≡ sum_where (counts e l LedgerPhase.reserve) rows
reserved_kept version e l rows u =
    sum_where-left_out (counts e l LedgerPhase.reserve) (λ r. has r.id (absorbed version e l rows))
      rows
      (All-mono rows (λ (r : BalanceLedgerEntry) clear counted. clear (hold_phase e l r counted))
        (holds-Clear version e l rows u))
