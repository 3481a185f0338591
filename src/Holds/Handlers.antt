-- ===== src/Holds/Handlers.antt =====
-- The handlers of the services and the holds of the requests, over the standard store.
use hcm.Prelude.{
  ◌≡◌, refl, Bool, true, false, List, String, ℕ, ℤ, arith, inl, inr, Option-cases, Option, find,
}
use hcm.Common.Enums.{RequestStatus, RequestAction, LedgerPhase, LedgerState}
use hcm.Common.StateMachine.{next_state, can_transition}
use hcm.Common.Exec.{ok, transaction, transaction_keeps}
use hcm.Database.{TimeOffRequest, BalanceLedgerEntry, Db, same_entry, same_request}
use hcm.Database.Orm.{Orm, standard, save_row}
use hcm.Balances.{
  release_reservation, commit_reservation, release_commit, add_reservation, is_active_of,
  commit_entry, reserve_entry,
}
use hcm.Outbox.{enqueue}
use hcm.Processor.{save_request, is_request}
use hcm.TimeOff.{reserve, approve, reject, next_or}
use hcm.Holds.{holds, IsCovered, HoldsAreCovered, holds-released, holds-release_self, holds-saved}
use hcm.Holds.Tables.{All-IsCovered, IsCovered-saved, hold_added}
use hcm.Database.Rows.{All-save_row}
use hcm.TimeOff.Reserve.{reserve-Reserved}

module _
    (totals : (BalanceLedgerEntry → Bool) → List BalanceLedgerEntry → List (LedgerPhase × ℤ)) where
  abbrev store : Orm
  store = standard totals

  -- Saving a request that may hold days, or that holds none.
  pub save_request-covered :
      (r : TimeOffRequest) (db : Db)
      → IsCovered db.ledger r
      → HoldsAreCovered db
      → HoldsAreCovered (save_request store r db)
  unfolding save_request
  save_request-covered r db mine h = IsCovered-saved db.ledger r db.requests mine h

  pub release_reservation-covered :
      (id : String) (db : Db)
      → HoldsAreCovered db
      → HoldsAreCovered (release_reservation store id db)
  unfolding release_reservation
  release_reservation-covered id db h =
      All-IsCovered db.ledger (release_reservation store id db).ledger db.requests
        (λ other.
          holds-released other (is_active_of id LedgerPhase.reserve) LedgerState.released db.ledger
            refl)
        h

  pub release_reservation-released :
      (id : String) (db : Db) → holds id (release_reservation store id db).ledger ≡ false
  unfolding release_reservation
  release_reservation-released id db = holds-release_self id db.ledger

  pub release_commit-covered :
      (id : String) (db : Db) → HoldsAreCovered db → HoldsAreCovered (release_commit store id db)
  unfolding release_commit
  release_commit-covered id db h =
      All-IsCovered db.ledger (release_commit store id db).ledger db.requests
        (λ other.
          holds-released other (is_active_of id LedgerPhase.commit) LedgerState.released db.ledger
            refl)
        h

  pub commit_reservation-covered :
      (uuid id e l : String) (x : ℤ) (v : Option ℕ) (db : Db)
      → HoldsAreCovered db
      → HoldsAreCovered (commit_reservation store uuid id e l x v db)
  unfolding commit_reservation release_reservation
  commit_reservation-covered uuid id e l x v db h =
      All-IsCovered (release_reservation store id db).ledger
        (commit_reservation store uuid id e l x v db).ledger db.requests
        (λ other. commits_hold_nothing other (release_reservation store id db).ledger)
        (unfold release_reservation in release_reservation-covered id db h)
    where
      commits_hold_nothing :
          (other : String) (ledger : List BalanceLedgerEntry)
          → holds other ledger ≡ false
          → holds other (save_row same_entry (commit_entry uuid id e l x v) ledger) ≡ false
      commits_hold_nothing other ledger free =
          holds-saved other (commit_entry uuid id e l x v) ledger (ground arith) free

  pub commit_reservation-released :
      (uuid id e l : String) (x : ℤ) (v : Option ℕ) (db : Db)
      → holds id (commit_reservation store uuid id e l x v db).ledger ≡ false
  unfolding commit_reservation
  commit_reservation-released uuid id e l x v db =
      holds-saved id (commit_entry uuid id e l x v) (release_reservation store id db).ledger
        (ground arith) (release_reservation-released id db)

  -- A hold is added only together with the status PENDING_APPROVAL.
  reserve-covered :
      (uuid id : String) (db : Db) (r : TimeOffRequest) (db' : Db)
      → reserve store uuid id db ≡ (ok r, db')
      → HoldsAreCovered db
      → HoldsAreCovered db'
  unfolding save_request add_reservation
  reserve-covered uuid id db r db' e h =
      let done = reserve-Reserved store uuid id db r db' e in
      let q = done.before in
      let entry = reserve_entry uuid q.id q.employee_id q.location_id q.days in
      let mine : IsCovered (save_row same_entry entry db.ledger) r = rw done.returned refl in
      rw done.written (
        All-save_row (IsCovered (save_row same_entry entry db.ledger)) same_request r mine
          db.requests (hold_added db.ledger entry r mine db.requests (rw done.returned refl) h))

  pub submit-covered :
      (uuid id : String) (db : Db)
      → HoldsAreCovered db
      → HoldsAreCovered (transaction (reserve store uuid id) db).1
  submit-covered uuid id db h =
      transaction_keeps HoldsAreCovered db (reserve store uuid id db) h
        (λ r db' e. reserve-covered uuid id db r db' e h)

  leads_approved :
      (s : RequestStatus)
      → can_transition s RequestAction.approve ≡ true
      → next_or s RequestAction.approve ≡ RequestStatus.approved
  unfolding can_transition next_state
  leads_approved s e = ground arith

  pub approve-covered :
      (uuid id : String) (db : Db)
      → HoldsAreCovered db
      → HoldsAreCovered (approve store uuid id db).1
  unfolding approve enqueue
  approve-covered uuid id db h = elim (Option-cases (find (is_request id) db.requests)) [
    | inl unknown ↦ ground (arith, h)
    | inr (r, found) ↦
        let r' = record r { status = next_or r.status RequestAction.approve } in
        ground (arith, h, leads_approved r.status, save_request-covered r' db)
  ]

  pub reject-covered :
      (id : String) (db : Db) → HoldsAreCovered db → HoldsAreCovered (reject store id db).1
  unfolding reject
  reject-covered id db h = elim (Option-cases (find (is_request id) db.requests)) [
    | inl unknown ↦ ground (arith, h)
    | inr (r, found) ↦
        let r' = record r { status = next_or r.status RequestAction.reject } in
        let released = release_reservation store r.id db in
        ground (
          arith,
          h,
          release_reservation-covered r.id db h,
          release_reservation-released r.id db,
          save_request-covered r' released,
        )
  ]
