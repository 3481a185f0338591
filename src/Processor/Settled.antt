-- ===== src/Processor/Settled.antt =====
-- What outbox/outbox.processor.ts does with each answer to the debit of an APPROVED request.
use hcm.Prelude.{
  ◌≡◌, refl, some, String, ◌==◌, any, find, Bool, List, ℤ, pos, ◌+ℤ◌, ◌-ℤ◌, ◌&&◌, if◌then◌else◌,
  ◌∙◌, arith, subst, eq_iff, false,
}
use hcm.Common.Enums.{RequestStatus, OutboxType, LedgerPhase}
use hcm.Common.StateMachine.{next_state}
use hcm.Hcm.Core.{Answer, ApplyDeltaAck, RejectionCode}
use hcm.Database.{OutboxMessage, TimeOffRequest, Db, BalanceLedgerEntry, same_request}
use hcm.Database.Orm.{Orm, IsOrm, standard, orm_path, SumsByPhase, save_row}
use hcm.Database.Rows.{find-overwritten, find-passes}
use hcm.Balances.{compute_components, release_reservation, commit_reservation}
use hcm.Balances.Moves.{standard-Moves, amount_of}
use hcm.Outbox.{mark_done, mark_rejected, mark_retry_or_dead}
use hcm.Processor.{
  Draws, is_request, outcome, apply_success, apply_rejection, debit_applied, debit_rejected,
  save_request, record_drift,
}
use text.Mathlib.TextPositions.{eq_refl}

-- What each answer to a debit of the request `q` has to leave: the holds of `q` at every key, and what
-- is pending at its own key.
abbrev pub Settles : Orm → Draws → OutboxMessage → TimeOffRequest → Db → Type 0
Settles orm draws msg q db =
    ((ack : ApplyDeltaAck)
      → let db' = outcome orm draws msg (Answer.returns ack) db in
        (orm.find_one TimeOffRequest (is_request q.id) db'.requests
          ≡ some (record q { status = RequestStatus.committed; hcm_ref = some ack.hcm_ref }))
        × ((e l : String)
            → compute_components orm e l db' ≡ record (compute_components orm e l db) {
              reserved_open =
                  (compute_components orm e l db).reserved_open
                  -ℤ amount_of q.id LedgerPhase.reserve e l db.ledger;
              committed_pending =
                  (compute_components orm e l db).committed_pending
                  +ℤ (if q.employee_id == e && q.location_id == l
                      then msg.payload.amount
                      else pos 0);
            }))
    × ((code : RejectionCode) (message : String)
        → let db' = outcome orm draws msg (Answer.rejection code message) db in
          (orm.find_one TimeOffRequest (is_request q.id) db'.requests
            ≡ some (record q { status = RequestStatus.failed }))
          × ((e l : String)
              → compute_components orm e l db' ≡ record (compute_components orm e l db) {
                reserved_open =
                    (compute_components orm e l db).reserved_open
                    -ℤ amount_of q.id LedgerPhase.reserve e l db.ledger;
              }))
    × ((message : String)
        → let db' = outcome orm draws msg (Answer.unavailable message) db in
          (db'.requests ≡ db.requests)
          × ((e l : String) → compute_components orm e l db' ≡ compute_components orm e l db))

-- The components are read off the balances and the ledger.
same_tables :
    (orm : Orm) (e l : String) (db db' : Db)
    → db'.balances ≡ db.balances
    → db'.ledger ≡ db.ledger
    → compute_components orm e l db' ≡ compute_components orm e l db
unfolding compute_components
same_tables orm e l db db' b h = rw (b, h) refl

module _ (orm : Orm) (draws : Draws) (msg : OutboxMessage) (q : TimeOffRequest) (db : Db) where
  pub acked :
      (ack : ApplyDeltaAck)
      → msg.type ≡ OutboxType.debit
      → orm.find_one TimeOffRequest (is_request msg.request_id) db.requests ≡ some q
      → q.status ≡ RequestStatus.approved
      → let db' = outcome orm draws msg (Answer.returns ack) db in
        (db'.requests
          ≡ orm.save TimeOffRequest same_request
              (record q { status = RequestStatus.committed; hcm_ref = some ack.hcm_ref })
              db.requests)
        × (db'.balances
            ≡ (commit_reservation orm draws.entry q.id q.employee_id q.location_id
                msg.payload.amount
                (some ack.version)
                db).balances)
        × (db'.ledger
            ≡ (commit_reservation orm draws.entry q.id q.employee_id q.location_id
                msg.payload.amount
                (some ack.version)
                db).ledger)
  unfolding outcome apply_success debit_applied next_state mark_done save_request record_drift
      commit_reservation release_reservation
  acked ack debit found approved = (ground arith, ground arith, ground arith)

  rejected :
      (code : RejectionCode) (message : String)
      → msg.type ≡ OutboxType.debit
      → orm.find_one TimeOffRequest (is_request msg.request_id) db.requests ≡ some q
      → q.status ≡ RequestStatus.approved
      → let db' = outcome orm draws msg (Answer.rejection code message) db in
        (db'.requests
          ≡ orm.save TimeOffRequest same_request
              (record q { status = RequestStatus.failed })
              db.requests)
        × (db'.balances ≡ (release_reservation orm q.id db).balances)
        × (db'.ledger ≡ (release_reservation orm q.id db).ledger)
  unfolding outcome apply_rejection debit_rejected next_state mark_rejected save_request
      release_reservation
  rejected code message debit found approved = (ground arith, ground arith, ground arith)

  unavailable :
      (message : String)
      → let db' = outcome orm draws msg (Answer.unavailable message) db in
        (db'.requests ≡ db.requests) × (db'.balances ≡ db.balances) × (db'.ledger ≡ db.ledger)
  unfolding outcome mark_retry_or_dead
  unavailable message = (ground arith, ground arith, ground arith)

module _ (totals : (BalanceLedgerEntry → Bool) → List BalanceLedgerEntry → List (LedgerPhase × ℤ))
    (sums : SumsByPhase totals) where
  -- The request is found again under its own id.
  found_again :
      (id : String) (q r : TimeOffRequest) (rows : List TimeOffRequest)
      → find (is_request id) rows ≡ some q
      → r.id ≡ q.id
      → find (is_request q.id) (save_row same_request r rows) ≡ some r
  found_again id q r rows found same =
      let passes = find-passes (is_request id) rows q found in
      let own : find (is_request q.id) rows ≡ some q = ground (arith, eq_iff q.id id) in
      find-overwritten (is_request q.id) same_request q r rows own (rw same (eq_refl q.id))
        (rw same (eq_refl q.id))

  pub standard-Settles :
      (draws : Draws) (msg : OutboxMessage) (q : TimeOffRequest) (db : Db)
      → msg.type ≡ OutboxType.debit
      → find (is_request msg.request_id) db.requests ≡ some q
      → q.status ≡ RequestStatus.approved
      → any (λ r. r.id == draws.entry) db.ledger ≡ false
      → Settles (standard totals) draws msg q db
  standard-Settles draws msg q db debit found approved fresh =
      let store = standard totals in
      let moves = λ (e l : String). standard-Moves totals sums q.id db e l in
      let again = λ (r : TimeOffRequest) (same : r.id ≡ q.id).
        found_again msg.request_id q r db.requests found same in
      (
        λ ack.
            let (requests, balances, ledger) =
              acked store draws msg q db ack debit found approved in
            (
              rw requests (
                  again (record q { status = RequestStatus.committed; hcm_ref = some ack.hcm_ref })
                    refl),
              λ e l.
                  same_tables store e l
                    (commit_reservation store draws.entry q.id q.employee_id q.location_id
                      msg.payload.amount (some ack.version) db)
                    (outcome store draws msg (Answer.returns ack) db) balances ledger
                  ∙ (moves e l).2 draws.entry q.employee_id q.location_id msg.payload.amount
                      (some ack.version) fresh,
            ),
        λ code message.
            let (requests, balances, ledger) =
              rejected store draws msg q db code message debit found approved in
            (
              rw requests (again (record q { status = RequestStatus.failed }) refl),
              λ e l.
                  same_tables store e l (release_reservation store q.id db)
                    (outcome store draws msg (Answer.rejection code message) db) balances ledger
                  ∙ (moves e l).0,
            ),
        λ message.
            let (requests, balances, ledger) = unavailable store draws msg q db message in
            (requests, λ e l. same_tables store e l db _ balances ledger),
      )

-- Each answer to the debit of an APPROVED request settles it. An acknowledgement makes it COMMITTED
-- with the reference of HCM: at every key its holds are given back, and the amount is pending at its
-- own key. A rejection makes it FAILED and gives its holds back. A transient failure leaves the
-- requests and every component. The id drawn for the new entry is new.
pub outcome-Settles :
    (orm : Orm)
    → IsOrm orm
    → (draws : Draws) (msg : OutboxMessage) (q : TimeOffRequest) (db : Db)
    → msg.type ≡ OutboxType.debit
    → orm.find_one TimeOffRequest (is_request msg.request_id) db.requests ≡ some q
    → q.status ≡ RequestStatus.approved
    → any (λ r. r.id == draws.entry) db.ledger ≡ false
    → Settles orm draws msg q db
outcome-Settles orm laws draws msg q db debit found approved fresh =
    subst
      (λ o.
        o.find_one TimeOffRequest (is_request msg.request_id) db.requests ≡ some q
        → Settles o draws msg q db)
      (orm_path orm laws)
      (λ seen.
        standard-Settles orm.phase_totals laws.sums_by_phase draws msg q db debit seen approved
          fresh)
      found
