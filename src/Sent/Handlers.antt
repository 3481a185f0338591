-- ===== src/Sent/Handlers.antt =====
-- The transactions of time-off/time-off.service.ts and the messages of each request.
use hcm.Prelude.{
  ◌≡◌, Bool, false, List, String, ◌==◌, any, arith, inl, inr, some, find, ℤ, Option-cases,
}
use hcm.Common.Enums.{RequestStatus, RequestAction, LedgerPhase}
use hcm.Common.StateMachine.{next_state}
use hcm.Common.Exec.{ok, transaction, transaction_keeps}
use hcm.Database.{TimeOffRequest, OutboxMessage, BalanceLedgerEntry, Db}
use hcm.Database.Orm.{Orm, standard}
use hcm.Database.Rows.{All-found}
use hcm.Balances.{release_reservation, add_reservation}
use hcm.Processor.{is_request, save_request}
use hcm.TimeOff.{reserve, reject, next_or}
use hcm.TimeOff.Reserve.{reserve-Reserved, submit_leads}
use hcm.Sent.{count, is_debit_of, is_credit_of, IsSentOnce, SentOnce}
use hcm.Sent.Tables.{IsSentOnce-saved, count-none, next_state-allowed}

-- A row with a status to which an action leads.
pub moved-IsSentOnce :
    (outbox : List OutboxMessage) (r : TimeOffRequest) (action : RequestAction) (to : RequestStatus)
    → next_state r.status action ≡ some to
    → IsSentOnce outbox r
    → IsSentOnce outbox (record r { status = to })
moved-IsSentOnce outbox r action to next once =
    let (d, c) = next_state-allowed r.status to action next in
    (omega (arith, d, once.0), omega (arith, c, once.1))

pub next_or-IsSentOnce :
    (outbox : List OutboxMessage) (r : TimeOffRequest) (action : RequestAction)
    → IsSentOnce outbox r
    → IsSentOnce outbox (record r { status = next_or r.status action })
next_or-IsSentOnce outbox r action once = elim (Option-cases (next_state r.status action)) [
  | inl stays ↦ let same : next_or r.status action ≡ r.status = ground arith in rw same once
  | inr (to, next) ↦
      let same : next_or r.status action ≡ to = ground arith in
      rw same (moved-IsSentOnce outbox r action to next once)
]

module _
    (totals : (BalanceLedgerEntry → Bool) → List BalanceLedgerEntry → List (LedgerPhase × ℤ)) where
  abbrev store : Orm
  store = standard totals

  pub create-SentOnce :
      (r : TimeOffRequest) (db : Db)
      → any (λ m. m.request_id == r.id) db.outbox ≡ false
      → SentOnce db
      → SentOnce (save_request store r db)
  unfolding save_request
  create-SentOnce r db fresh h =
      let owned = λ (m : OutboxMessage). m.request_id == r.id in
      let debits : count (is_debit_of r.id) db.outbox ≡ 0 =
        count-none (is_debit_of r.id) owned db.outbox (λ m other. ground (arith, other)) fresh in
      let credits : count (is_credit_of r.id) db.outbox ≡ 0 =
        count-none (is_credit_of r.id) owned db.outbox (λ m other. ground (arith, other)) fresh in
      IsSentOnce-saved db.outbox r db.requests (omega (arith, debits), omega (arith, credits)) h

  reserve-SentOnce :
      (uuid id : String) (db : Db) (r : TimeOffRequest) (db' : Db)
      → reserve store uuid id db ≡ (ok r, db')
      → SentOnce db
      → SentOnce db'
  unfolding save_request add_reservation
  reserve-SentOnce uuid id db r db' e h =
      let done = reserve-Reserved store uuid id db r db' e in
      let q = done.before in
      let once = All-found (IsSentOnce db.outbox) (is_request id) db.requests q done.found h in
      rw (done.written, done.returned)
        (IsSentOnce-saved db.outbox (record q { status = RequestStatus.pending_approval })
          db.requests
          (moved-IsSentOnce db.outbox q RequestAction.submit RequestStatus.pending_approval
            (submit_leads q.status done.legal) once)
          h)

  pub submit-SentOnce :
      (uuid id : String) (db : Db)
      → SentOnce db
      → SentOnce (transaction (reserve store uuid id) db).1
  submit-SentOnce uuid id db h =
      transaction_keeps SentOnce db (reserve store uuid id db) h
        (λ r db' e. reserve-SentOnce uuid id db r db' e h)

  pub reject-SentOnce : (id : String) (db : Db) → SentOnce db → SentOnce (reject store id db).1
  unfolding reject save_request release_reservation
  reject-SentOnce id db h = elim (Option-cases (find (is_request id) db.requests)) [
    | inl unknown ↦ ground (arith, h)
    | inr (r, found) ↦
        let once = All-found (IsSentOnce db.outbox) (is_request id) db.requests r found h in
        ground (
          arith,
          h,
          IsSentOnce-saved db.outbox (record r { status = next_or r.status RequestAction.reject })
              db.requests (next_or-IsSentOnce db.outbox r RequestAction.reject once) h,
        )
  ]
