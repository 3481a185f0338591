-- ===== src/Balances/Moves.antt =====
-- How the three writes of balances/balance.service.ts that settle a request move the derived balances.
use hcm.Prelude.{
  ◌≡◌, refl, true, false, String, ◌==◌, any, Bool, List, [], ◌∷◌, ℤ, pos, ◌+ℤ◌, ◌-ℤ◌, Bool-cases,
  inl, inr, arith, int_laws, if◌then◌else◌, ◌&&◌, ◌∙◌, ℕ, Option, subst, +ℤ_zero,
}
use hcm.Common.Enums.{LedgerPhase, LedgerState}
use hcm.Common.BalanceMath.{BalanceComponents}
use hcm.Database.{BalanceLedgerEntry, Db}
use hcm.Database.Orm.{Orm, IsOrm, SumsByPhase, standard, orm_path, update_rows}
use hcm.Balances.{
  compute_components, release_reservation, commit_reservation, release_commit, is_active_of,
  same_phase,
}
use hcm.Balances.Sums.{
  active_sum, counts, sum_where, sum_where-append, sum_where-unmoved, still_fresh,
  compute_components-sums, cached,
}

-- The amount that a request has active in a phase at a key.
abbrev pub amount_of : String → LedgerPhase → String → String → List BalanceLedgerEntry → ℤ
amount_of id phase e l = sum_where (λ r. is_active_of id phase r && counts e l phase r)

abbrev released : BalanceLedgerEntry → BalanceLedgerEntry
released r = record r { state = LedgerState.released }

-- What an update takes out of a sum.
sum_where-taken :
    (p where_ : BalanceLedgerEntry → Bool) (f : BalanceLedgerEntry → BalanceLedgerEntry)
    → ((r : BalanceLedgerEntry) → where_ r ≡ true → p (f r) ≡ false)
    → (rows : List BalanceLedgerEntry)
    → sum_where p (update_rows where_ f rows)
      ≡ sum_where p rows -ℤ sum_where (λ r. where_ r && p r) rows
sum_where-taken p where_ f out [] = omega int_laws
sum_where-taken p where_ f out (r ∷ rows) =
    let rest = sum_where-taken p where_ f out rows in
    elim (Bool-cases (where_ r)) [
      | inl hit ↦ elim (Bool-cases (p r)) [
        | inl e ↦ rw (hit, e, out r hit, rest) (omega int_laws)
        | inr e ↦ rw (hit, e, out r hit) rest
      ]
      | inr missed ↦ elim (Bool-cases (p r)) [
        | inl e ↦ rw (missed, e, rest) (omega int_laws)
        | inr e ↦ rw (missed, e) rest
      ]
    ]

not_active :
    (phase : LedgerPhase) (e l : String) (r : BalanceLedgerEntry)
    → counts e l phase (released r) ≡ false
not_active phase e l r = ground arith

other_phase :
    (id e l : String) (phase other : LedgerPhase) (r : BalanceLedgerEntry)
    → same_phase phase other ≡ false
    → is_active_of id phase r ≡ true
    → (counts e l other r ≡ false) × (counts e l other (released r) ≡ false)
other_phase id e l phase other r differ hit = ground arith

-- Releasing the entries that a request has active in a phase takes their amounts out of the sum of
-- that phase, and leaves the sum of any other.
released_sum :
    (id e l : String) (phase : LedgerPhase) (rows : List BalanceLedgerEntry)
    → active_sum e l phase (update_rows (is_active_of id phase) released rows)
      ≡ active_sum e l phase rows -ℤ amount_of id phase e l rows
released_sum id e l phase =
    sum_where-taken (counts e l phase) (is_active_of id phase) released
      (λ r hit. not_active phase e l r)

released_other :
    (id e l : String) (phase other : LedgerPhase) (rows : List BalanceLedgerEntry)
    → same_phase phase other ≡ false
    → active_sum e l other (update_rows (is_active_of id phase) released rows)
      ≡ active_sum e l other rows
released_other id e l phase other rows differ =
    sum_where-unmoved (counts e l other) (is_active_of id phase) released
      (λ r hit. other_phase id e l phase other r differ hit) rows

-- What the writes do to the components of the key `e`, `l`.
abbrev pub Moves : Orm → String → Db → String → String → Type 0
Moves orm id db e l =
    let before = compute_components orm e l db in
    let held = amount_of id LedgerPhase.reserve e l db.ledger in
    let debited = amount_of id LedgerPhase.commit e l db.ledger in
    (compute_components orm e l (release_reservation orm id db)
      ≡ record before { reserved_open = before.reserved_open -ℤ held })
    × (compute_components orm e l (release_commit orm id db)
        ≡ record before { committed_pending = before.committed_pending -ℤ debited })
    × ((uuid employee_id location_id : String) (amount : ℤ) (version : Option ℕ)
        → any (λ r. r.id == uuid) db.ledger ≡ false
        → compute_components orm e l
            (commit_reservation orm uuid id employee_id location_id amount version db)
          ≡ record before {
            reserved_open = before.reserved_open -ℤ held;
            committed_pending =
                before.committed_pending
                +ℤ (if employee_id == e && location_id == l then amount else pos 0);
          })

abbrev components_of : ℤ → ℤ → ℤ → BalanceComponents
components_of h a b = record { hcm_balance = h; reserved_open = a; committed_pending = b }

-- Components with the same cached balance, from their two sums.
equal_sums : (h a b a' b' : ℤ) → a ≡ a' → b ≡ b' → components_of h a b ≡ components_of h a' b'
equal_sums h a b a' b' p q = cc (p, q)

module _ (totals : (BalanceLedgerEntry → Bool) → List BalanceLedgerEntry → List (LedgerPhase × ℤ))
    (sums : SumsByPhase totals) where
  abbrev components : String → String → Db → BalanceComponents
  components = compute_components (standard totals)

  abbrev sums_of : String → String → Db → BalanceComponents
  sums_of e l db = record {
    hcm_balance = cached e l db.balances;
    reserved_open = active_sum e l LedgerPhase.reserve db.ledger;
    committed_pending = active_sum e l LedgerPhase.commit db.ledger;
  }

  release_reservation-components :
      (id e l : String) (db : Db)
      → sums_of e l (release_reservation (standard totals) id db) ≡ record (sums_of e l db) {
        reserved_open =
            active_sum e l LedgerPhase.reserve db.ledger
            -ℤ amount_of id LedgerPhase.reserve e l db.ledger;
      }
  unfolding release_reservation
  release_reservation-components id e l db =
      equal_sums (cached e l db.balances) _ _ _ _
        (released_sum id e l LedgerPhase.reserve db.ledger)
        (released_other id e l LedgerPhase.reserve LedgerPhase.commit db.ledger refl)

  release_commit-components :
      (id e l : String) (db : Db)
      → sums_of e l (release_commit (standard totals) id db) ≡ record (sums_of e l db) {
        committed_pending =
            active_sum e l LedgerPhase.commit db.ledger
            -ℤ amount_of id LedgerPhase.commit e l db.ledger;
      }
  unfolding release_commit
  release_commit-components id e l db =
      equal_sums (cached e l db.balances) _ _ _ _
        (released_other id e l LedgerPhase.commit LedgerPhase.reserve db.ledger refl)
        (released_sum id e l LedgerPhase.commit db.ledger)

  commit_reservation-components :
      (uuid id employee_id location_id e l : String) (amount : ℤ) (version : Option ℕ) (db : Db)
      → any (λ r. r.id == uuid) db.ledger ≡ false
      → sums_of e l
          (commit_reservation (standard totals) uuid id employee_id location_id amount version db)
        ≡ record (sums_of e l db) {
          reserved_open =
              active_sum e l LedgerPhase.reserve db.ledger
              -ℤ amount_of id LedgerPhase.reserve e l db.ledger;
          committed_pending =
              active_sum e l LedgerPhase.commit db.ledger
              +ℤ (if employee_id == e && location_id == l then amount else pos 0);
        }
  unfolding commit_reservation release_reservation
  commit_reservation-components uuid id employee_id location_id e l amount version db fresh =
      rw (still_fresh uuid id db.ledger fresh) (
        equal_sums (cached e l db.balances) _ _ _ _
          (sum_where-append (counts e l LedgerPhase.reserve) _ _
            ∙ rw (released_sum id e l LedgerPhase.reserve db.ledger) (
                ground (
                  arith,
                  +ℤ_zero (
                      active_sum e l LedgerPhase.reserve db.ledger
                      -ℤ amount_of id LedgerPhase.reserve e l db.ledger),
                )))
          (sum_where-append (counts e l LedgerPhase.commit) _ _
            ∙ rw (released_other id e l LedgerPhase.reserve LedgerPhase.commit db.ledger refl)
                (ground arith)))

  pub standard-Moves : (id : String) (db : Db) (e l : String) → Moves (standard totals) id db e l
  standard-Moves id db e l =
      let before = compute_components-sums totals sums e l db in
      (
        compute_components-sums totals sums e l _
            ∙ rw before (release_reservation-components id e l db),
        compute_components-sums totals sums e l _ ∙ rw before (release_commit-components id e l db),
        λ uuid employee_id location_id amount version fresh.
            compute_components-sums totals sums e l _
            ∙ rw before (
                commit_reservation-components uuid id employee_id location_id e l amount version db
                  fresh),
      )

-- Settling a request moves the components of every key by exactly its entries: releasing its
-- reservation gives back what it holds, releasing its debit gives back what it has committed, and
-- committing it gives back what it holds and adds the amount at the key of the entry alone. The id
-- drawn for that entry is new.
pub settles-Moves :
    (orm : Orm) → IsOrm orm → (id : String) (db : Db) (e l : String) → Moves orm id db e l
settles-Moves orm laws id db e l =
    subst (λ o. Moves o id db e l) (orm_path orm laws)
      (standard-Moves orm.phase_totals laws.sums_by_phase id db e l)
