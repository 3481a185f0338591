-- ===== src/Processor/Commits.antt =====
-- What becomes of an APPROVED request in a drain of outbox/outbox.processor.ts, among the messages of
-- other requests.
use hcm.Prelude.{
  Option, ◌≡◌, refl, ◌∙◌, ap, Bool, false, List, [], ◌∷◌, ◌++◌, String, ◌==◌, eq_iff, ℕ, ℤ, some,
  find, All, arith, subst, inl, inr, Option-cases,
}
use text.Mathlib.TextPositions.{eq_refl}
use hcm.Common.Enums.{RequestStatus, RequestAction, OutboxType, LedgerPhase}
use hcm.Common.StateMachine.{next_state}
use hcm.Hcm.Core.{Answer, ApplyDeltaAck}
use hcm.Hcm.Client.{HcmClient}
use hcm.Database.{TimeOffRequest, OutboxMessage, BalanceLedgerEntry, Db, same_request}
use hcm.Database.Orm.{Orm, IsOrm, standard, orm_path, save_row}
use hcm.Database.Rows.{find-passes, find-save_row_other, find-overwritten}
use hcm.Balances.{World, commit_reservation, release_reservation, release_commit}
use hcm.Outbox.{claim_due, mark_done, mark_rejected, mark_retry_or_dead}
use hcm.Processor.{
  Draws, command, is_request, outcome, apply_success, apply_rejection, debit_applied,
  debit_rejected, credit_applied, save_request, record_drift, deliver, deliver_all, drain_once,
}
use hcm.Processor.Settled.{acked}

-- A message of another request.
abbrev pub IsOfOther : String → OutboxMessage → Type 0
IsOfOther id m = m.request_id == id ≡ false

-- Saving another request leaves the one of this id.
saved_other :
    (id : String) (r : TimeOffRequest) (rows : List TimeOffRequest)
    → r.id == id ≡ false
    → find (is_request id) (save_row same_request r rows) ≡ find (is_request id) rows
saved_other id r rows other =
    find-save_row_other (is_request id) same_request r rows other (λ (x : TimeOffRequest) same.
      ground (arith, other, eq_iff x.id r.id, eq_iff x.id id, eq_iff r.id id))

module _ (totals : (BalanceLedgerEntry → Bool) → List BalanceLedgerEntry → List (LedgerPhase × ℤ))
    (id : String) where
  abbrev store : Orm
  store = standard totals

  -- What an answer to the message of another request leaves.
  debit_applied-other :
      (draws : Draws) (m : OutboxMessage) (q : TimeOffRequest) (ref : String) (v : ℕ) (b : Bool)
      (db : Db)
      → q.id == id ≡ false
      → find (is_request id) (debit_applied store draws m q ref v b db).requests
        ≡ find (is_request id) db.requests
  unfolding debit_applied record_drift save_request commit_reservation release_reservation
  debit_applied-other draws m q ref v b db other =
      elim (Option-cases (next_state q.status RequestAction.hcm_committed)) [
        | inl stays ↦ ground arith
        | inr (to, next) ↦
            ground (
              arith,
              saved_other id (record q { status = to; hcm_ref = some ref }) db.requests other,
            )
      ]

  credit_applied-other :
      (q : TimeOffRequest) (db : Db)
      → q.id == id ≡ false
      → find (is_request id) (credit_applied store q db).requests ≡ find (is_request id) db.requests
  unfolding credit_applied save_request release_commit
  credit_applied-other q db other =
      elim (Option-cases (next_state q.status RequestAction.hcm_credit_done)) [
        | inl stays ↦ ground arith
        | inr (to, next) ↦
            ground (arith, saved_other id (record q { status = to }) db.requests other)
      ]

  debit_rejected-other :
      (q : TimeOffRequest) (db : Db)
      → q.id == id ≡ false
      → find (is_request id) (debit_rejected store q db).requests ≡ find (is_request id) db.requests
  unfolding debit_rejected save_request release_reservation
  debit_rejected-other q db other =
      elim (Option-cases (next_state q.status RequestAction.hcm_rejected)) [
        | inl stays ↦ ground arith
        | inr (to, next) ↦
            ground (arith, saved_other id (record q { status = to }) db.requests other)
      ]

  owner_other :
      (m : OutboxMessage) (q : TimeOffRequest) (rows : List TimeOffRequest)
      → find (is_request m.request_id) rows ≡ some q
      → IsOfOther id m
      → q.id == id ≡ false
  owner_other m q rows at_id other =
      let own = find-passes (is_request m.request_id) rows q at_id in
      ground (arith, own, other, eq_iff q.id m.request_id, eq_iff q.id id, eq_iff m.request_id id)

  outcome-other :
      (draws : Draws) (m : OutboxMessage) (answer : Answer ApplyDeltaAck) (db : Db)
      → IsOfOther id m
      → find (is_request id) (outcome store draws m answer db).requests
        ≡ find (is_request id) db.requests
  unfolding outcome apply_success apply_rejection mark_done mark_rejected mark_retry_or_dead
  outcome-other draws m (Answer.returns ack) db other =
      elim (Option-cases (find (is_request m.request_id) db.requests)) [
        | inl unknown ↦ ground arith
        | inr (q, at_id) ↦
            let q_other = owner_other m q db.requests at_id other in
            ground (
              arith,
              debit_applied-other draws m q ack.hcm_ref ack.version ack.applied db q_other,
              credit_applied-other q db q_other,
            )
      ]
  outcome-other draws m (Answer.rejection code message) db other =
      elim (Option-cases (find (is_request m.request_id) db.requests)) [
        | inl unknown ↦ ground arith
        | inr (q, at_id) ↦
            ground (arith, debit_rejected-other q db (owner_other m q db.requests at_id other))
      ]
  outcome-other draws m (Answer.unavailable message) db other = ground arith

  module _ (client : HcmClient) (draws : OutboxMessage → Draws) where
    abbrev row_after : List OutboxMessage → World client.State → Option TimeOffRequest
    row_after ms w = find (is_request id) (deliver_all store client draws ms w).db.requests

    left_alone :
        (ms : List OutboxMessage) (w : World client.State)
        → All (IsOfOther id) ms
        → row_after ms w ≡ find (is_request id) w.db.requests
    unfolding deliver_all deliver
    left_alone [] w others = refl
    left_alone (m ∷ ms) w others =
        left_alone ms (deliver store client (draws m) m w) others.1
        ∙ outcome-other (draws m) m (client.apply_delta (command m) w.hcm).0 w.db others.0

    acknowledged :
        (m : OutboxMessage) (w : World client.State) (r : TimeOffRequest) (ack : ApplyDeltaAck)
        → m.type ≡ OutboxType.debit
        → m.request_id ≡ id
        → find (is_request id) w.db.requests ≡ some r
        → r.status ≡ RequestStatus.approved
        → (client.apply_delta (command m) w.hcm).0 ≡ Answer.returns ack
        → find (is_request id) (deliver store client (draws m) m w).db.requests
          ≡ some (record r { status = RequestStatus.committed; hcm_ref = some ack.hcm_ref })
    unfolding deliver
    acknowledged m w r ack debit owner at_id approved answer =
        let own = find-passes (is_request id) w.db.requests r at_id in
        let after = acked store (draws m) m r w.db ack debit (rw owner at_id) approved in
        rw (answer, after.0)
          (find-overwritten (is_request id) same_request r
            (record r { status = RequestStatus.committed; hcm_ref = some ack.hcm_ref })
            w.db.requests at_id (eq_refl r.id) own)

    reached :
        (before after : List OutboxMessage) (m : OutboxMessage) (w : World client.State)
        (r : TimeOffRequest) (ack : ApplyDeltaAck)
        → All (IsOfOther id) before
        → All (IsOfOther id) after
        → m.type ≡ OutboxType.debit
        → m.request_id ≡ id
        → find (is_request id) w.db.requests ≡ some r
        → r.status ≡ RequestStatus.approved
        → (client.apply_delta (command m) (deliver_all store client draws before w).hcm).0
          ≡ Answer.returns ack
        → row_after (before ++ m ∷ after) w
          ≡ some (record r { status = RequestStatus.committed; hcm_ref = some ack.hcm_ref })
    unfolding deliver_all deliver
    reached [] after m w r ack others others' debit owner at_id approved answers =
        left_alone after (deliver store client (draws m) m w) others'
        ∙ acknowledged m w r ack debit owner at_id approved answers
    reached (x ∷ before) after m w r ack others others' debit owner at_id approved answers =
        reached before after m (deliver store client (draws x) x w) r ack others.1 others' debit
          owner
          (outcome-other (draws x) x (client.apply_delta (command x) w.hcm).0 w.db others.0 ∙ at_id)
          approved answers

claim_due-requests :
    (orm : Orm) (now limit : ℕ) (db : Db) → (claim_due orm now limit db).1.requests ≡ db.requests
unfolding claim_due
claim_due-requests orm now limit db = refl

-- A drain that claims the DEBIT of an APPROVED request, in whatever place among the messages of other
-- requests, leaves the request COMMITTED with HCM's reference when HCM, in the state that the messages
-- before it have left, acknowledges the debit, whatever it answers to the others.
pub drain_once-Commits :
    (orm : Orm)
    → IsOrm orm
    → (client : HcmClient) (draws : OutboxMessage → Draws) (now : ℕ) (w : World client.State)
      (before after : List OutboxMessage) (m : OutboxMessage) (r : TimeOffRequest)
      (ack : ApplyDeltaAck)
    → (claim_due orm now 50 w.db).0 ≡ before ++ m ∷ after
    → All (IsOfOther r.id) before
    → All (IsOfOther r.id) after
    → m.type ≡ OutboxType.debit
    → m.request_id ≡ r.id
    → orm.find_one TimeOffRequest (is_request r.id) w.db.requests ≡ some r
    → r.status ≡ RequestStatus.approved
    → let claimed = record w { db = (claim_due orm now 50 w.db).1 } in
      (client.apply_delta (command m) (deliver_all orm client draws before claimed).hcm).0
        ≡ Answer.returns ack
      → orm.find_one TimeOffRequest
          (is_request r.id)
          (drain_once orm client draws now (false, w)).2.db.requests
        ≡ some (record r { status = RequestStatus.committed; hcm_ref = some ack.hcm_ref })
unfolding drain_once
drain_once-Commits orm laws client draws now w before after m r ack claimed others others' debit
      owner at_id approved answers =
    subst
      (λ o.
        (claim_due o now 50 w.db).0 ≡ before ++ m ∷ after
        → o.find_one TimeOffRequest (is_request r.id) w.db.requests ≡ some r
        → (client.apply_delta (command m)
            (deliver_all o client draws before
              (record w { db = (claim_due o now 50 w.db).1 })).hcm).0
          ≡ Answer.returns ack
        → o.find_one TimeOffRequest (is_request r.id)
            (drain_once o client draws now (false, w)).2.db.requests
          ≡ some (record r { status = RequestStatus.committed; hcm_ref = some ack.hcm_ref }))
      (orm_path orm laws)
      (λ taken found answered.
        let w' = record w { db = (claim_due (standard orm.phase_totals) now 50 w.db).1 } in
        let at_id' =
          ap (find (is_request r.id)) (claim_due-requests (standard orm.phase_totals) now 50 w.db)
          ∙ found in
        rw taken (
          reached orm.phase_totals r.id client draws before after m w' r ack others others' debit
            owner at_id' approved answered))
      claimed at_id answers
