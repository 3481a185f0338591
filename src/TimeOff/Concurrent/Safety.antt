-- ===== src/TimeOff/Concurrent/Safety.antt =====
-- No interleaving of submits spends the same days twice (time-off/time-off.service.ts, under
-- common/keyed-mutex.ts).
use hcm.Database.{same_entry, Db, TimeOffRequest, BalanceLedgerEntry}
use hcm.Database.Rows.{All-save_row}
use hcm.Balances.{reserve_entry, add_reservation, compute_components}
use hcm.Processor.{save_request}
use hcm.Common.BalanceMath.{can_reserve, compute_available}
use hcm.Common.BalanceMath.Bounds.{can_reserve-le, hold, can_reserve_iff}
use hcm.TimeOff.Concurrent.{
  IsHold, NoNegativeHold, transacts, Submits, Step, Reach, begin, later, available,
  is_reconciliation, enters, starts, checks, places, reconciles, commits, credits, loads, ends,
}
use hcm.TimeOff.Concurrent.Delivered.{
  commits-NoLess, commits-NoNegativeHold, credits-NoLess, credits-NoNegativeHold, loads-NoLess,
}
use hcm.TimeOff.Concurrent.Quiet.{quiet-Releases, Releases-NoLess, Releases-NoNegativeHold}
use hcm.Prelude.{
  All-mono, ◌≡◌, refl, subst, ◌⊎◌, inl, inr, ℕ, ◌<◌, Bool, false, none, some, List, String, ◌==◌, ℤ,
  pos, ◌≤ℤ◌, ◌&&◌, arith, eqb, eq_iff, Bool-cases, if◌then◌else◌, true,
}
use hcm.Common.Enums.{LedgerPhase}
use hcm.Common.KeyedMutex
use hcm.Database.Orm.{Orm, IsOrm, standard, SumsByPhase, orm_path}
use hcm.TimeOff.{placed}
use hcm.TimeOff.Reserve.{IsFreshEntry, components-reserved}
use hcm.TimeOff.Concurrent.Invariant.{
  Inv, Planned, begun-Inv, kept-Planned, enters-Inv, starts-Inv, checks-Inv, reconciles-Inv,
  others-Inv, ends-Inv, apart,
}

-- Every available balance is not negative, or no less than it was.
abbrev pub NotOverspent : Orm → Db → Db → Type 0
NotOverspent orm db db' =
    (e l : String)
    → (pos 0 ≤ℤ available orm e l db') ⊎ (available orm e l db ≤ℤ available orm e l db')

module _ (totals : (BalanceLedgerEntry → Bool) → List BalanceLedgerEntry → List (LedgerPhase × ℤ))
    (sums : SumsByPhase totals) where
  abbrev store : Orm
  store = standard totals

  -- The components of every pair after a submit has written.
  components-placed :
      (uuid : String) (r : TimeOffRequest) (db : Db)
      → IsFreshEntry uuid db
      → (e l : String)
      → compute_components store e l (placed store uuid r db).1 ≡ (
          if r.employee_id == e && r.location_id == l
          then hold (compute_components store e l db) r.days
          else compute_components store e l db)
  components-placed uuid r db fresh e l =
      components-reserved totals sums uuid r.id r.employee_id r.location_id r.days _ db fresh e l

  places-Inv :
      (s : Submits) (i : ℕ) (uuid : String) (r : TimeOffRequest)
      → i < s.mutex.count
      → s.plan i ≡ some r
      → IsFreshEntry uuid s.db
      → Inv store s
      → Inv store
          (record s { db = (placed store uuid r s.db).1; plan = KeyedMutex.update s.plan i none })
  places-Inv s i uuid r lt plan fresh inv = record {
    mutex = inv.mutex;
    keys = inv.keys;
    planned = λ j q below e. elim (Bool-cases (eqb j i)) [
      | inl here ↦ absurd (ground arith)
      | inr other ↦
          let p = inv.planned i r lt plan in
          let p' = inv.planned j q below (ground arith) in
          let away =
            apart store s i j r.employee_id r.location_id q.employee_id q.location_id inv
              (λ same. ground arith) lt below p.runs p'.runs (rw p.caller refl)
              (rw p'.caller refl) in
          let same_there = components-placed uuid r s.db fresh q.employee_id q.location_id in
          kept-Planned store s _ j q refl refl (rw (same_there, away) p'.fits) p'
    ];
  }

  -- A new hold is of at least one day.
  placed-NoNegativeHold :
      (uuid : String) (r : TimeOffRequest) (db : Db)
      → can_reserve (compute_components store r.employee_id r.location_id db) r.days ≡ true
      → NoNegativeHold db
      → NoNegativeHold (placed store uuid r db).1
  unfolding save_request add_reservation
  placed-NoNegativeHold uuid r db fits h =
      let day = (can_reserve-le _ r.days fits).0 in
      let e = reserve_entry uuid r.id r.employee_id r.location_id r.days in
      All-save_row IsHold same_entry e (λ hold. omega (arith, day)) db.ledger
        (All-mono db.ledger (λ (x : BalanceLedgerEntry) hold. inr hold) h)

  abbrev Safe : Submits → Type 0
  Safe s = Inv store s × NoNegativeHold s.db

  Step-Safe : {s t : Submits} → Step store s t → Safe s → Safe t
  Step-Safe {s} (enters c) (inv, h) = (enters-Inv store s c inv, h)
  Step-Safe {s} (starts i lt waits resolved) (inv, h) =
      (starts-Inv store s i lt waits resolved inv, h)
  Step-Safe {s} (checks i uuid id e l r lt runs caller unplanned passed at_e at_l) (inv, h) =
      (checks-Inv store s i uuid id r runs (rw (at_e, at_l) caller) passed inv, h)
  Step-Safe {s} (places i uuid id e l r lt caller plan fresh) (inv, h) = (
    places-Inv s i uuid r lt plan fresh inv,
    placed-NoNegativeHold uuid r s.db (inv.planned i r lt plan).fits h,
  )
  Step-Safe {s} (reconciles i e l db' lt runs caller only holds) (inv, h) =
      (reconciles-Inv store s i e l db' lt runs caller only inv, holds)
  Step-Safe {s} (transacts parse_date db' step quiet) (inv, h) =
      let releases = quiet-Releases totals sums parse_date s.db db' step quiet in
      (
        others-Inv store s db' (Releases-NoLess totals sums s.db db' releases h) inv,
        Releases-NoNegativeHold totals sums s.db db' releases h,
      )
  Step-Safe {s} (commits draws msg ack q debit found approved fresh held) (inv, h) = (
    others-Inv store s _
        (commits-NoLess totals sums draws msg ack q s.db debit found approved fresh held h) inv,
    commits-NoNegativeHold totals sums draws msg ack q s.db debit found approved h,
  )
  Step-Safe {s} (credits draws msg ack credit debits) (inv, h) = (
    others-Inv store s _ (credits-NoLess totals sums draws msg ack s.db credit debits) inv,
    credits-NoNegativeHold totals sums draws msg ack s.db credit h,
  )
  Step-Safe {s} (loads b level) (inv, h) =
      (others-Inv store s _ (loads-NoLess totals sums b s.db level) inv, h)
  Step-Safe {s} (ends i lt runs unplanned) (inv, h) = (ends-Inv store s i lt runs unplanned inv, h)

  Reach-Safe : {db : Db} {s : Submits} → NoNegativeHold db → Reach store db s → Safe s
  Reach-Safe {db} h begin = (begun-Inv store db, h)
  Reach-Safe h (later r step) = Step-Safe step (Reach-Safe h r)

  places-NotOverspent :
      (s : Submits) (i : ℕ) (uuid : String) (r : TimeOffRequest)
      → IsFreshEntry uuid s.db
      → Planned store s i r
      → NotOverspent store s.db (placed store uuid r s.db).1
  places-NotOverspent s i uuid r fresh p e l =
      elim (Bool-cases (r.employee_id == e && r.location_id == l)) [
        | inl here ↦
            let at_e : e ≡ r.employee_id = ground (arith, eq_iff r.employee_id e, here) in
            let at_l : l ≡ r.location_id = ground (arith, eq_iff r.location_id l, here) in
            let held : pos 0
                ≤ℤ compute_available (hold (compute_components store e l s.db) r.days) =
              rw (at_e, at_l) ((can_reserve_iff _ r.days).0 p.fits).1 in
            inl (rw (components-placed uuid r s.db fresh e l, here) held)
        | inr away ↦ inr (rw (components-placed uuid r s.db fresh e l, away) (omega arith))
      ]

  Step-NotOverspent :
      {db : Db} {s t : Submits}
      → NoNegativeHold db
      → Reach store db s
      → (step : Step store s t) → is_reconciliation store step ≡ false
      → NotOverspent store s.db t.db
  Step-NotOverspent h r (enters c) quiet e l = inr (omega arith)
  Step-NotOverspent h r (starts i lt waits resolved) quiet e l = inr (omega arith)
  Step-NotOverspent h r (checks i uuid id e' l' q lt runs caller unplanned passed at_e at_l) quiet e
        l =
      inr (omega arith)
  Step-NotOverspent {s} h r (places i uuid id e' l' q lt caller plan fresh) quiet e l =
      places-NotOverspent s i uuid q fresh ((Reach-Safe h r).0.planned i q lt plan) e l
  Step-NotOverspent h r (reconciles i e' l' db' lt runs caller only holds) quiet e l =
      absurd (cc quiet)
  Step-NotOverspent {s} h r (transacts parse_date db' step is_quiet) quiet e l =
      let releases = quiet-Releases totals sums parse_date s.db db' step is_quiet in
      inr (Releases-NoLess totals sums s.db db' releases (Reach-Safe h r).1 e l)
  Step-NotOverspent {s} h r (commits draws msg ack q debit found approved fresh held) quiet e l =
      inr (
        commits-NoLess totals sums draws msg ack q s.db debit found approved fresh held
          (Reach-Safe h r).1 e l)
  Step-NotOverspent {s} h r (credits draws msg ack credit debits) quiet e l =
      inr (credits-NoLess totals sums draws msg ack s.db credit debits e l)
  Step-NotOverspent {s} h r (loads b level) quiet e l =
      inr (loads-NoLess totals sums b s.db level e l)
  Step-NotOverspent h r (ends i lt runs unplanned) quiet e l = inr (omega arith)

-- However many submits run at the same time and however their reads and writes interleave, none of
-- these steps makes an available balance negative or a negative one smaller: the steps of the submits
-- and the mutex, a creation, approval, rejection, cancellation or claim, a delivery that HCM rejects
-- or fails, the acknowledged DEBIT of an APPROVED request that has at least the days of the message on
-- hold, an acknowledged CREDIT while no pending debit is negative, and a first load of a balance that
-- is not negative. So two submits never hold the same days. Reconciliations may come between these
-- steps and are not claimed to be safe themselves. No hold is negative at first, and none after a
-- reconciliation. An acknowledgement of the DEBIT of a request that is no longer APPROVED is not among
-- the steps: it does make a balance less.
pub Step-NeverOverspends :
    (orm : Orm)
    → IsOrm orm
    → (db : Db) (s t : Submits) → NoNegativeHold db
    → Reach orm db s
    → (step : Step orm s t) → is_reconciliation orm step ≡ false
    → NotOverspent orm s.db t.db
Step-NeverOverspends orm laws db s t holds =
    subst
      (λ o.
        Reach o db s
        → (step : Step o s t) → is_reconciliation o step ≡ false
        → NotOverspent o s.db t.db)
      (orm_path orm laws) (Step-NotOverspent orm.phase_totals laws.sums_by_phase holds)
