-- ===== src/TimeOff/Concurrent/Invariant.antt =====
-- What holds of the submits that run at the same time (time-off/time-off.service.ts): a submit that
-- has checked its request still fits the balance of its key.
use hcm.Prelude.{
  ◌≡◌, refl, ◌∙◌, subst, ◌≢◌, ℕ, ◌<◌, true, false, none, some, String, ◌==◌, ℤ, ◌≤ℤ◌, arith, inl,
  inr, eqb, Bool-cases, Option-cases, eq_iff, ◌&&◌,
}
use hcm.Common.Enums.{RequestAction}
use hcm.Common.StateMachine.{can_transition}
use hcm.Common.BalanceMath.{can_reserve, compute_available, BalanceComponents}
use hcm.Common.BalanceMath.Bounds.{can_reserve-le, le-can_reserve}
use hcm.Common.Exec.{ok}
use hcm.Common.KeyedMutex
use hcm.Common.KeyedMutex.{System, Stage, run_exclusive, start, finish}
use hcm.Common.KeyedMutex.Exclusion.{mutual_exclusion}
use hcm.Database.{Db, TimeOffRequest}
use hcm.Database.Orm.{Orm}
use hcm.Balances.{compute_components}
use hcm.Processor.{is_request}
use hcm.TimeOff.{checked}
use hcm.TimeOff.Concurrent.{Call, Submits, begun, key_of_call, balance_key, NoLess, OnlyAt}

-- What fits a balance fits a larger one.
still_fits :
    (c c' : BalanceComponents) (days : ℤ)
    → compute_available c ≤ℤ compute_available c'
    → can_reserve c days ≡ true
    → can_reserve c' days ≡ true
still_fits c c' days more fits =
    let (p, q) = can_reserve-le c days fits in le-can_reserve c' days p (omega (arith, q, more))

module _ (orm : Orm) where
  -- A call with a plan is a submit of that request in its critical section, and the days still fit.
  pub record Planned (s : Submits) (i : ℕ) (r : TimeOffRequest) : Type 0 where
    pub runs : s.mutex.stage i ≡ Stage.running
    pub uuid : String
    pub id : String
    pub caller : s.call i ≡ Call.submit uuid id r.employee_id r.location_id
    pub fits : can_reserve (compute_components orm r.employee_id r.location_id s.db) r.days ≡ true

  pub record Inv (s : Submits) : Type 0 where
    pub mutex : KeyedMutex.Reach s.mutex
    pub keys : (i : ℕ) → i < s.mutex.count → s.mutex.key_of i ≡ key_of_call (s.call i)
    pub planned :
        (i : ℕ) (r : TimeOffRequest) → i < s.mutex.count → s.plan i ≡ some r → Planned s i r

  pub begun-Inv : (db : Db) → Inv (begun db)
  begun-Inv db = record {
    mutex = KeyedMutex.Reach.begin;
    keys = λ i below. absurd (omega arith);
    planned = λ i r below e. absurd (cc e);
  }

  -- A plan is kept by what leaves its call, its stage and its request's fit.
  pub kept-Planned :
      (s t : Submits) (i : ℕ) (r : TimeOffRequest)
      → t.mutex.stage i ≡ s.mutex.stage i
      → t.call i ≡ s.call i
      → can_reserve (compute_components orm r.employee_id r.location_id t.db) r.days ≡ true
      → Planned s i r
      → Planned t i r
  kept-Planned s t i r stage call fits p = record {
    runs = stage ∙ p.runs;
    uuid = p.uuid;
    id = p.id;
    caller = call ∙ p.caller;
    fits = fits;
  }

  pub enters-Inv :
      (s : Submits) (c : Call)
      → Inv s
      → Inv (record s {
        mutex = run_exclusive (key_of_call c) s.mutex;
        call = KeyedMutex.update s.call s.mutex.count c;
        plan = KeyedMutex.update s.plan s.mutex.count none;
      })
  unfolding run_exclusive
  enters-Inv s c inv = record {
    mutex = KeyedMutex.Reach.later inv.mutex (KeyedMutex.Step.enters (key_of_call c));
    keys = λ i below. ground (arith, inv.keys i);
    planned = λ i r below e. elim (Bool-cases (eqb i s.mutex.count)) [
      | inl new ↦ absurd (ground arith)
      | inr old ↦
          let p = inv.planned i r (ground arith) (ground arith) in
          kept-Planned s _ i r (ground arith) (ground arith) p.fits p
    ];
  }

  pub starts-Inv :
      (s : Submits) (i : ℕ)
      → i < s.mutex.count
      → s.mutex.stage i ≡ Stage.waiting
      → KeyedMutex.is_resolved s.mutex (s.mutex.previous i) ≡ true
      → Inv s
      → Inv (record s { mutex = start i s.mutex })
  unfolding start
  starts-Inv s i lt waits resolved inv = record {
    mutex = KeyedMutex.Reach.later inv.mutex (KeyedMutex.Step.starts i lt waits resolved);
    keys = inv.keys;
    planned = λ j r below e.
        let p = inv.planned j r below e in
        kept-Planned s _ j r (ground (arith, p.runs)) refl p.fits p;
  }

  pub ends-Inv :
      (s : Submits) (i : ℕ)
      → i < s.mutex.count
      → s.mutex.stage i ≡ Stage.running
      → s.plan i ≡ none
      → Inv s
      → Inv (record s { mutex = finish i s.mutex })
  unfolding finish
  ends-Inv s i lt runs unplanned inv = record {
    mutex = KeyedMutex.Reach.later inv.mutex (KeyedMutex.Step.ends i lt runs);
    keys = inv.keys;
    planned = λ j r below e.
        let p = inv.planned j r below e in
        kept-Planned s _ j r (ground (arith, e, unplanned)) refl p.fits p;
  }

  -- What a submit has checked.
  checked-fits :
      (id : String) (db : Db) (r : TimeOffRequest)
      → checked orm id db ≡ (ok r, db)
      → can_reserve (compute_components orm r.employee_id r.location_id db) r.days ≡ true
  checked-fits id db r h =
      elim (Option-cases (orm.find_one TimeOffRequest (is_request id) db.requests)) [
        | inl unknown ↦ absurd (ground arith)
        | inr (q, found) ↦ elim (Bool-cases (can_transition q.status RequestAction.submit)) [
          | inr illegal ↦ absurd (ground arith)
          | inl legal ↦
              elim (Bool-cases
                (can_reserve (compute_components orm q.employee_id q.location_id db) q.days)) [
                  | inr short ↦ absurd (ground arith)
                  | inl fits ↦
                      let same : q ≡ r = ground arith in
                      subst
                        (λ x.
                          can_reserve (compute_components orm x.employee_id x.location_id db) x.days
                          ≡ true)
                        same fits
                ]
        ]
      ]

  pub checks-Inv :
      (s : Submits) (i : ℕ) (uuid id : String) (r : TimeOffRequest)
      → s.mutex.stage i ≡ Stage.running
      → s.call i ≡ Call.submit uuid id r.employee_id r.location_id
      → checked orm id s.db ≡ (ok r, s.db)
      → Inv s
      → Inv (record s { plan = KeyedMutex.update s.plan i (some r) })
  checks-Inv s i uuid id r runs caller passed inv = record {
    mutex = inv.mutex;
    keys = inv.keys;
    planned = λ j q below e. elim (Bool-cases (eqb j i)) [
      | inl here ↦
          let at : j ≡ i = ground arith in
          let same : q ≡ r = ground arith in
          let p : Planned s i r = record {
            runs = runs;
            uuid = uuid;
            id = id;
            caller = caller;
            fits = checked-fits id s.db r passed;
          } in
          rw (at, same) (kept-Planned s _ i r refl refl p.fits p)
      | inr other ↦
          let p = inv.planned j q below (ground arith) in kept-Planned s _ j q refl refl p.fits p
    ];
  }

  -- Two calls in critical sections are for different pairs, by the mutex.
  pub apart :
      (s : Submits) (i j : ℕ) (e l e' l' : String)
      → Inv s
      → i ≢ j
      → i < s.mutex.count
      → j < s.mutex.count
      → s.mutex.stage i ≡ Stage.running
      → s.mutex.stage j ≡ Stage.running
      → key_of_call (s.call i) ≡ balance_key e l
      → key_of_call (s.call j) ≡ balance_key e' l'
      → (e == e' && l == l') ≡ false
  apart s i j e l e' l' inv differ hi hj runs_i runs_j key_i key_j =
      elim (Bool-cases (e == e' && l == l')) [
        | inr other ↦ other
        | inl same ↦
            let at_e : e ≡ e' = ground (arith, eq_iff e e', same) in
            let at_l : l ≡ l' = ground (arith, eq_iff l l', same) in
            let one_key : s.mutex.key_of i ≡ s.mutex.key_of j =
              cc (inv.keys i hi, inv.keys j hj, key_i, key_j, at_e, at_l) in
            absurd (differ (mutual_exclusion s.mutex inv.mutex i j hi hj one_key runs_i runs_j))
      ]

  pub reconciles-Inv :
      (s : Submits) (i : ℕ) (e l : String) (db' : Db)
      → i < s.mutex.count
      → s.mutex.stage i ≡ Stage.running
      → s.call i ≡ Call.reconcile e l
      → OnlyAt orm e l s.db db'
      → Inv s
      → Inv (record s { db = db' })
  reconciles-Inv s i e l db' lt runs caller only inv = record {
    mutex = inv.mutex;
    keys = inv.keys;
    planned = λ j r below planned.
        let p = inv.planned j r below planned in
        let differ : i ≢ j = λ same. cc (caller, p.caller, same) in
        let away =
          apart s i j e l r.employee_id r.location_id inv differ lt below runs p.runs
            (rw caller refl) (rw p.caller refl) in
        kept-Planned s _ j r refl refl (rw (only r.employee_id r.location_id away) p.fits) p;
  }

  pub others-Inv :
      (s : Submits) (db' : Db) → NoLess orm s.db db' → Inv s → Inv (record s { db = db' })
  others-Inv s db' more inv = record {
    mutex = inv.mutex;
    keys = inv.keys;
    planned = λ j r below planned.
        let p = inv.planned j r below planned in
        kept-Planned s _ j r refl refl
          (still_fits (compute_components orm r.employee_id r.location_id s.db)
            (compute_components orm r.employee_id r.location_id db') r.days
            (more r.employee_id r.location_id) p.fits)
          p;
  }
