-- ===== src/Database/Orm.antt =====
-- TypeORM over SQLite, which the program calls and does not contain: its operations are a parameter
-- of every service, with what its documentation says of them as laws. Rows are listed oldest first.
use hcm.Prelude.{
  Bool, List, [], ◌∷◌, ◌++◌, map, Option, ◌≡◌, sym, ℤ, filter, find, any, sum_by, ◌&&◌,
  if◌then◌else◌,
}
use hcm.Common.Enums.{LedgerPhase, same_phase}
use hcm.Database.{BalanceLedgerEntry}

module _ {Row : Type 0} where
  -- `UPDATE … SET … WHERE`: `f` on the rows that pass.
  abbrev pub update_rows : (Row → Bool) → (Row → Row) → List Row → List Row
  update_rows where_ f rows = map (λ r. if where_ r then f r else r) rows

  -- `save`: the row with the same primary key is replaced, or else the row is inserted.
  abbrev pub save_row : (Row → Row → Bool) → Row → List Row → List Row
  save_row same r rows =
      if any (same r) rows then update_rows (same r) (λ _. r) rows else rows ++ r ∷ []

  -- `INSERT OR IGNORE`
  abbrev pub insert_row : (Row → Row → Bool) → Row → List Row → List Row
  insert_row same r rows = if any (same r) rows then rows else rows ++ r ∷ []

-- The calls that the services make. The first argument of `save` and of `insert_or_ignore` is the
-- test for the same primary key; `phase_totals` is the grouped `SUM(l.amount)`.
pub record Orm : Type 1 where
  pub find_one : (Row : Type 0) → (Row → Bool) → List Row → Option Row
  pub find_all : (Row : Type 0) → (Row → Bool) → List Row → List Row
  pub update : (Row : Type 0) → (Row → Bool) → (Row → Row) → List Row → List Row
  pub save : (Row : Type 0) → (Row → Row → Bool) → Row → List Row → List Row
  pub insert_or_ignore : (Row : Type 0) → (Row → Row → Bool) → Row → List Row → List Row
  pub phase_totals : (BalanceLedgerEntry → Bool) → List BalanceLedgerEntry → List (LedgerPhase × ℤ)

-- `SELECT phase, SUM(amount) … GROUP BY phase`: the totals listed for a phase add up to the amounts
-- of the selected rows of that phase.
abbrev pub SumsByPhase :
    ((BalanceLedgerEntry → Bool) → List BalanceLedgerEntry → List (LedgerPhase × ℤ)) → Type 0
SumsByPhase totals =
    (where_ : BalanceLedgerEntry → Bool) (rows : List BalanceLedgerEntry) (phase : LedgerPhase)
    → sum_by (λ (t : LedgerPhase × ℤ). t.1)
        (filter (λ (t : LedgerPhase × ℤ). same_phase t.0 phase) (totals where_ rows))
      ≡ sum_by (λ r. r.amount) (filter (λ r. where_ r && same_phase r.phase phase) rows)

pub record IsOrm (o : Orm) : Type 1 where
  pub find_one_lem :
      (Row : Type 0) (where_ : Row → Bool) (rows : List Row)
      → o.find_one Row where_ rows ≡ find where_ rows
  pub find_all_lem :
      (Row : Type 0) (where_ : Row → Bool) (rows : List Row)
      → o.find_all Row where_ rows ≡ filter where_ rows
  pub update_lem :
      (Row : Type 0) (where_ : Row → Bool) (f : Row → Row) (rows : List Row)
      → o.update Row where_ f rows ≡ update_rows where_ f rows
  pub save_lem :
      (Row : Type 0) (same : Row → Row → Bool) (r : Row) (rows : List Row)
      → o.save Row same r rows ≡ save_row same r rows
  pub insert_or_ignore_lem :
      (Row : Type 0) (same : Row → Row → Bool) (r : Row) (rows : List Row)
      → o.insert_or_ignore Row same r rows ≡ insert_row same r rows
  pub sums_by_phase : SumsByPhase o.phase_totals

-- The store that the laws describe, with the grouped query left open.
abbrev pub standard :
    ((BalanceLedgerEntry → Bool) → List BalanceLedgerEntry → List (LedgerPhase × ℤ)) → Orm
standard totals = record {
  find_one = λ Row where_ rows. find where_ rows;
  find_all = λ Row where_ rows. filter where_ rows;
  update = λ Row where_ f rows. update_rows where_ f rows;
  save = λ Row same r rows. save_row same r rows;
  insert_or_ignore = λ Row same r rows. insert_row same r rows;
  phase_totals = totals;
}

-- The laws leave no other store, so a theorem about `standard` carries over along this path.
pub orm_path : (o : Orm) → IsOrm o → standard o.phase_totals ≡ o
orm_path o laws = λ i. record {
  find_one = λ Row where_ rows. sym (laws.find_one_lem Row where_ rows) i;
  find_all = λ Row where_ rows. sym (laws.find_all_lem Row where_ rows) i;
  update = λ Row where_ f rows. sym (laws.update_lem Row where_ f rows) i;
  save = λ Row same r rows. sym (laws.save_lem Row same r rows) i;
  insert_or_ignore = λ Row same r rows. sym (laws.insert_or_ignore_lem Row same r rows) i;
  phase_totals = o.phase_totals;
}

-- A grouped query that meets its law: one total for each phase.
abbrev pub totals_by_phase :
    (BalanceLedgerEntry → Bool) → List BalanceLedgerEntry → List (LedgerPhase × ℤ)
totals_by_phase where_ rows =
    let total = λ (phase : LedgerPhase).
      sum_by (λ r. r.amount) (filter (λ r. where_ r && same_phase r.phase phase) rows) in
    (LedgerPhase.reserve, total LedgerPhase.reserve)
    ∷ (LedgerPhase.commit, total LedgerPhase.commit)
    ∷ (LedgerPhase.release, total LedgerPhase.release)
    ∷ (LedgerPhase.hcm_adjustment, total LedgerPhase.hcm_adjustment)
    ∷ []
