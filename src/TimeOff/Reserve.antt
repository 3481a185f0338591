-- ===== src/TimeOff/Reserve.antt =====
-- The reservation of time-off/time-off.service.ts (`submit`, under the mutex), and what it does to
-- the derived balances.
use hcm.Prelude.{
  ◌≡◌, true, false, some, String, ◌==◌, any, Option-cases, Bool-cases, inl, inr, arith, Bool, List,
  ℤ, if◌then◌else◌, ◌&&◌, ◌∙◌, +ℤ_zero, pos, ◌≤ℤ◌, subst, sym, refl,
}
use hcm.Common.Enums.{RequestStatus, RequestAction, LedgerPhase}
use hcm.Common.StateMachine.{can_transition, next_state}
use hcm.Common.BalanceMath.{can_reserve, BalanceComponents, compute_available}
use hcm.Common.Exec.{ok}
use hcm.Database.{TimeOffRequest, Db, BalanceLedgerEntry}
use hcm.Database.Orm.{Orm, SumsByPhase, standard, IsOrm, orm_path}
use hcm.Balances.{compute_components, add_reservation}
use hcm.Processor.{is_request, save_request}
use hcm.TimeOff.{reserve}
use hcm.Common.BalanceMath.Bounds.{hold, can_reserve_iff}
use hcm.Balances.Sums.{compute_components-sums, sum_where-append, active_sum}
use text.Mathlib.TextPositions.{eq_refl}

-- No ledger row has this id, as a fresh `uuid()`.
abbrev pub IsFreshEntry : String → Db → Type 0
IsFreshEntry uuid db = any (λ r. r.id == uuid) db.ledger ≡ false

-- What a successful reservation has done to the request and to the derived balances.
abbrev pub Spends : Orm → Db → TimeOffRequest → Db → Type 0
Spends orm db r db' =
    (r.status ≡ RequestStatus.pending_approval)
    × (pos 1 ≤ℤ r.days)
    × (pos 0 ≤ℤ compute_available (compute_components orm r.employee_id r.location_id db'))
    × ((e l : String)
        → compute_components orm e l db' ≡ (
            if r.employee_id == e && r.location_id == l
            then hold (compute_components orm e l db) r.days
            else compute_components orm e l db))

-- What a reservation that succeeded has found and written.
pub record Reserved (orm : Orm) (uuid id : String) (db : Db) (r : TimeOffRequest) (db' : Db)
    : Type 0 where
  pub before : TimeOffRequest
  pub found : orm.find_one TimeOffRequest (is_request id) db.requests ≡ some before
  pub legal : can_transition before.status RequestAction.submit ≡ true
  pub affordable :
      can_reserve (compute_components orm before.employee_id before.location_id db) before.days
      ≡ true
  pub returned : r ≡ record before { status = RequestStatus.pending_approval }
  pub written :
      db'
      ≡ save_request orm r
          (add_reservation orm uuid before.id before.employee_id before.location_id before.days db)

pub submit_leads :
    (s : RequestStatus)
    → can_transition s RequestAction.submit ≡ true
    → next_state s RequestAction.submit ≡ some RequestStatus.pending_approval
unfolding can_transition next_state
submit_leads s h = ground arith

pub reserve-Reserved :
    (orm : Orm) (uuid id : String) (db : Db) (r : TimeOffRequest) (db' : Db)
    → reserve orm uuid id db ≡ (ok r, db')
    → Reserved orm uuid id db r db'
unfolding reserve
reserve-Reserved orm uuid id db r db' h =
    elim (Option-cases (orm.find_one TimeOffRequest (is_request id) db.requests)) [
      | inl unknown ↦ absurd (ground arith)
      | inr (q, found) ↦ elim (Bool-cases (can_transition q.status RequestAction.submit)) [
        | inr illegal ↦ absurd (ground arith)
        | inl legal ↦
            elim (Bool-cases
              (can_reserve (compute_components orm q.employee_id q.location_id db) q.days)) [
                | inr short ↦ absurd (ground arith)
                | inl affordable ↦ record {
                  before = q;
                  found = found;
                  legal = legal;
                  affordable = affordable;
                  returned = ground (arith, submit_leads q.status legal);
                  written = ground arith;
                }
              ]
      ]
    ]

module _ (totals : (BalanceLedgerEntry → Bool) → List BalanceLedgerEntry → List (LedgerPhase × ℤ))
    (sums : SumsByPhase totals) where
  abbrev components : String → String → Db → BalanceComponents
  components = compute_components (standard totals)

  pub components-reserved :
      (uuid rid e l : String) (days : ℤ) (r : TimeOffRequest) (db : Db)
      → IsFreshEntry uuid db
      → (e' l' : String)
      → components e' l' (
          save_request (standard totals) r (add_reservation (standard totals) uuid rid e l days db))
        ≡ (if e == e' && l == l' then hold (components e' l' db) days else components e' l' db)
  unfolding save_request add_reservation
  components-reserved uuid rid e l days r db fresh e' l' =
      rw (compute_components-sums totals sums e' l' db) (
        compute_components-sums totals sums e' l' _
        ∙ rw fresh (
            rw (sum_where-append, sum_where-append)
              (ground (
                arith,
                +ℤ_zero (active_sum e' l' LedgerPhase.reserve db.ledger),
                +ℤ_zero (active_sum e' l' LedgerPhase.commit db.ledger),
              ))))

  standard-Spends :
      (uuid id : String) (db : Db) (r : TimeOffRequest) (db' : Db)
      → IsFreshEntry uuid db
      → reserve (standard totals) uuid id db ≡ (ok r, db')
      → Spends (standard totals) db r db'
  standard-Spends uuid id db r db' fresh h =
      let done = reserve-Reserved (standard totals) uuid id db r db' h in
      let q = done.before in
      let e = q.employee_id in
      let l = q.location_id in
      let moved : (x y : String)
          → components x y db'
            ≡ (if e == x && l == y then hold (components x y db) q.days else components x y db) =
        λ x y. rw done.written (components-reserved uuid q.id e l q.days r db fresh x y) in
      let fits = (can_reserve_iff (components e l db) q.days).0 done.affordable in
      let at_home : components e l db' ≡ hold (components e l db) q.days =
        moved e l ∙ rw (eq_refl, eq_refl) in
      subst (λ x. Spends (standard totals) db x db') (sym done.returned)
        (refl, fits.0, rw at_home fits.1, moved)

-- A submit that succeeds holds at least one day and never more than what is available: the request
-- is PENDING_APPROVAL, the available balance of its key is not negative once its days are held, and
-- the components of every other key are what they were. The id drawn for the entry is new.
pub reserve-Spends :
    (orm : Orm)
    → IsOrm orm
    → (uuid id : String) (db : Db) (r : TimeOffRequest) (db' : Db) → IsFreshEntry uuid db
    → reserve orm uuid id db ≡ (ok r, db')
    → Spends orm db r db'
reserve-Spends orm laws uuid id db r db' fresh =
    subst (λ o. reserve o uuid id db ≡ (ok r, db') → Spends o db r db') (orm_path orm laws)
      (standard-Spends orm.phase_totals laws.sums_by_phase uuid id db r db' fresh)
