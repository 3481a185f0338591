-- ===== src/Processor/Stuck.antt =====
-- What outbox/outbox.processor.ts does with messages that were INFLIGHT when the process died, and
-- with a debit that is acknowledged after its request was cancelled.
use hcm.Prelude.{
  ℕ, ◌≡◌, refl, Bool, true, false, none, some, List, [], ◌∷◌, String, ◌==◌, has, find, filter,
  length, All, arith, subst, ℤ, ◌+ℤ◌, any, ap, ◌∙◌, sym,
}
use hcm.Common.Enums.{RequestStatus, OutboxStatus, OutboxType, LedgerPhase}
use hcm.Common.StateMachine.{next_state}
use hcm.Common.BalanceMath.{BalanceComponents}
use hcm.Hcm.Core.{Answer, ApplyDeltaAck}
use hcm.Hcm.Client.{HcmClient}
use hcm.Database.{OutboxMessage, TimeOffRequest, Db, BalanceLedgerEntry}
use hcm.Database.Orm.{Orm, IsOrm, standard, orm_path, update_rows, SumsByPhase}
use hcm.Balances.{World, compute_components, release_reservation, commit_reservation}
use hcm.Balances.Sums.{
  active_sum, compute_components-sums, sum_where-append, released_commits, still_fresh,
}
use hcm.Outbox.{is_due, claim_due, mark_done, has_id}
use hcm.Processor.{
  Draws, is_request, outcome, apply_success, debit_applied, drain_once, deliver_all,
}
use text.Mathlib.TextPositions.{eq_refl}
use hcm.Database.Rows.{length-update_rows}

-- Every message is in the hands of a delivery.
abbrev pub AllInflight : List OutboxMessage → Type 0
AllInflight = All (λ (m : OutboxMessage). m.status ≡ OutboxStatus.inflight)

none_due : (now : ℕ) (rows : List OutboxMessage) → AllInflight rows → filter (is_due now) rows ≡ []
none_due now [] h = refl
none_due now (m ∷ rows) h = rw h.0 (none_due now rows h.1)

updated_none :
    (f : OutboxMessage → OutboxMessage) (rows : List OutboxMessage)
    → update_rows (λ m. has m.id []) f rows ≡ rows
updated_none f [] = refl
updated_none f (m ∷ rows) = cc (updated_none f rows)

standard-stuck :
    (totals : (BalanceLedgerEntry → Bool) → List BalanceLedgerEntry → List (LedgerPhase × ℤ))
    (client : HcmClient) (draws : OutboxMessage → Draws) (now : ℕ) (w : World client.State)
    → AllInflight w.db.outbox
    → drain_once (standard totals) client draws now (false, w) ≡ (0, false, w)
unfolding drain_once claim_due deliver_all
standard-stuck totals client draws now w h = rw (none_due now w.db.outbox h) (
    ap (λ (rows : List OutboxMessage). (0, false, record w { db = record w.db { outbox = rows } }))
      (updated_none (λ m. record m { status = OutboxStatus.inflight; next_attempt_at = none })
        w.db.outbox))

-- Messages that are INFLIGHT are never delivered again: as long as all are, a drain at any time
-- processes none, calls HCM for none, and changes nothing.
pub drain_once_stuck :
    (orm : Orm)
    → IsOrm orm
    → (client : HcmClient) (draws : OutboxMessage → Draws) (now : ℕ) (w : World client.State)
    → AllInflight w.db.outbox
    → drain_once orm client draws now (false, w) ≡ (0, false, w)
drain_once_stuck orm laws client draws now w h =
    subst (λ o. drain_once o client draws now (false, w) ≡ (0, false, w)) (orm_path orm laws)
      (standard-stuck orm.phase_totals client draws now w h)

-- What a late acknowledgement has done: no message but its own row is touched, none is added, and
-- the request stays as it is.
abbrev pub Uncompensated :
    Orm → Draws → OutboxMessage → ApplyDeltaAck → TimeOffRequest → Db → Type 0
Uncompensated orm draws msg ack r db =
    let db' = outcome orm draws msg (Answer.returns ack) db in
    (db'.requests ≡ db.requests)
    × (length db'.outbox ≡ length db.outbox)
    × ((compute_components orm r.employee_id r.location_id db').committed_pending
        ≡ (compute_components orm r.employee_id r.location_id db).committed_pending
          +ℤ msg.payload.amount)

module _ (totals : (BalanceLedgerEntry → Bool) → List BalanceLedgerEntry → List (LedgerPhase × ℤ))
    (sums : SumsByPhase totals) where
  -- A commit adds its amount to the pending debits of the key.
  committed_adds :
      (uuid id e l : String) (x : ℤ) (v : ℕ) (db : Db)
      → any (λ r. r.id == uuid) db.ledger ≡ false
      → active_sum e l LedgerPhase.commit
          (commit_reservation (standard totals) uuid id e l x (some v) db).ledger
        ≡ active_sum e l LedgerPhase.commit db.ledger +ℤ x
  unfolding commit_reservation release_reservation
  committed_adds uuid id e l x v db fresh =
      rw (still_fresh uuid id db.ledger fresh)
        (rw (sum_where-append, released_commits) (rw (eq_refl, eq_refl) refl))

  late_state :
      (draws : Draws) (msg : OutboxMessage) (ack : ApplyDeltaAck) (r : TimeOffRequest) (db : Db)
      → msg.type ≡ OutboxType.debit
      → ack.applied ≡ true
      → find (is_request msg.request_id) db.requests ≡ some r
      → r.status ≡ RequestStatus.cancelled
      → outcome (standard totals) draws msg (Answer.returns ack) db
        ≡ mark_done (standard totals) msg.id (
            commit_reservation
              (standard totals)
              draws.entry
              r.id
              r.employee_id
              r.location_id
              msg.payload.amount
              (some ack.version)
              db)
  unfolding outcome apply_success debit_applied next_state
  late_state draws msg ack r db debit applied found cancelled = ground arith

  standard-Uncompensated :
      (draws : Draws) (msg : OutboxMessage) (ack : ApplyDeltaAck) (r : TimeOffRequest) (db : Db)
      → msg.type ≡ OutboxType.debit
      → ack.applied ≡ true
      → find (is_request msg.request_id) db.requests ≡ some r
      → r.status ≡ RequestStatus.cancelled
      → any (λ x. x.id == draws.entry) db.ledger ≡ false
      → Uncompensated (standard totals) draws msg ack r db
  unfolding mark_done commit_reservation release_reservation
  standard-Uncompensated draws msg ack r db debit applied found cancelled fresh =
      let e = r.employee_id in
      let l = r.location_id in
      let amount = msg.payload.amount in
      rw (late_state draws msg ack r db debit applied found cancelled) (
        refl,
        length-update_rows (has_id msg.id) _ db.outbox,
        ap (λ (c : BalanceComponents). c.committed_pending)
              (compute_components-sums totals sums e l _)
            ∙ committed_adds draws.entry r.id e l amount ack.version db fresh
            ∙ ap (λ (c : BalanceComponents). c.committed_pending +ℤ amount)
                (sym (compute_components-sums totals sums e l db)),
      )

-- A debit that HCM acknowledges after its request was cancelled is kept against the balance: a
-- COMMIT entry of its amount becomes pending, the request stays CANCELLED, and no message is added
-- to the outbox, so that no credit will give the days back. The id drawn for the entry is new.
pub outcome-Uncompensated :
    (orm : Orm)
    → IsOrm orm
    → (draws : Draws) (msg : OutboxMessage) (ack : ApplyDeltaAck) (r : TimeOffRequest) (db : Db)
    → msg.type ≡ OutboxType.debit
    → ack.applied ≡ true
    → orm.find_one TimeOffRequest (is_request msg.request_id) db.requests ≡ some r
    → r.status ≡ RequestStatus.cancelled
    → any (λ x. x.id == draws.entry) db.ledger ≡ false
    → Uncompensated orm draws msg ack r db
outcome-Uncompensated orm laws draws msg ack r db debit applied found cancelled fresh =
    subst
      (λ o.
        o.find_one TimeOffRequest (is_request msg.request_id) db.requests ≡ some r
        → Uncompensated o draws msg ack r db)
      (orm_path orm laws)
      (λ seen.
        standard-Uncompensated orm.phase_totals laws.sums_by_phase draws msg ack r db debit applied
          seen cancelled fresh)
      found
