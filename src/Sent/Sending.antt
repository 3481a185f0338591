-- ===== src/Sent/Sending.antt =====
-- The transactions of time-off/time-off.service.ts that send a message, or take one back.
use hcm.Prelude.{
  sym, subst, ◌≡◌, refl, ◌≤◌, ◌+◌, Bool, true, false, List, String, ◌==◌, any, arith, inl, inr,
  some, none, find, ℤ, Option-cases, Bool-cases, if◌then◌else◌, ◌<>◌,
}
use text.Mathlib.TextPositions.{eq_refl}
use hcm.Common.Enums.{RequestStatus, RequestAction, OutboxType, OutboxStatus, LedgerPhase, is_debit}
use hcm.Common.StateMachine.{next_state, can_transition}
use hcm.Database.{TimeOffRequest, OutboxMessage, BalanceLedgerEntry, Db, same_message, same_request}
use hcm.Database.Orm.{Orm, standard, save_row}
use hcm.Database.Rows.{All-found}
use hcm.Balances.{release_reservation}
use hcm.Outbox.{enqueue, cancel_pending_for_request, is_undelivered_of}
use hcm.Processor.{is_request, save_request}
use hcm.TimeOff.{approve, cancel, cancel_committed, cancel_uncommitted, next_or}
use hcm.Sent.{
  count, is_debit_of, is_credit_of, debits_allowed, credits_allowed, IsSentOnce, SentOnce,
}
use hcm.Sent.Tables.{All-updated, IsSentOnce-saved, IsSentOnce-enqueued, count-enqueued}
use hcm.Sent.Handlers.{next_or-IsSentOnce}

-- No message has this id, as a fresh `uuid()`.
abbrev pub IsFreshMessage : String → Db → Type 0
IsFreshMessage uuid db = any (λ m. m.id == uuid) db.outbox ≡ false

module _
    (totals : (BalanceLedgerEntry → Bool) → List BalanceLedgerEntry → List (LedgerPhase × ℤ)) where
  abbrev store : Orm
  store = standard totals

  -- The message that an action sends for a row, and the tables once both are written.
  abbrev message_of : OutboxType → String → String → TimeOffRequest → OutboxMessage
  message_of type key uuid r = record {
    id = uuid;
    request_id = r.id;
    type = type;
    idempotency_key = key;
    payload = record { employee_id = r.employee_id; location_id = r.location_id; amount = r.days };
    status = OutboxStatus.pending;
    attempts = 0;
    next_attempt_at = none;
    last_error = none;
  }

  abbrev sent_with : OutboxMessage → TimeOffRequest → Db → Db
  sent_with m r db = record db {
    requests = save_row same_request r db.requests;
    outbox = save_row same_message m db.outbox;
  }

  sent_with-SentOnce :
      (type : OutboxType) (key uuid : String) (r : TimeOffRequest) (db : Db)
      → IsFreshMessage uuid db
      → count (is_debit_of r.id) db.outbox + (if is_debit type then 1 else 0)
        ≤ debits_allowed r.status
      → count (is_credit_of r.id) db.outbox + (if is_debit type then 0 else 1)
        ≤ credits_allowed r.status
      → SentOnce db
      → SentOnce (sent_with (message_of type key uuid r) r db)
  sent_with-SentOnce type key uuid r db fresh debits credits h =
      let m = message_of type key uuid r in
      IsSentOnce-enqueued db.outbox m r db.requests fresh refl
        (
          rw (count-enqueued (is_debit_of r.id) m db.outbox fresh)
              (ground (arith, eq_refl r.id, debits)),
          rw (count-enqueued (is_credit_of r.id) m db.outbox fresh)
              (ground (arith, eq_refl r.id, credits)),
        )
        h

  approve-sent_with :
      (uuid id : String) (db : Db) (r : TimeOffRequest)
      → find (is_request id) db.requests ≡ some r
      → can_transition r.status RequestAction.approve ≡ true
      → let r' = record r { status = RequestStatus.approved } in
        (r.status ≡ RequestStatus.pending_approval)
        × ((approve store uuid id db).1
            ≡ sent_with (message_of OutboxType.debit ("debit:" <> r.id) uuid r') r' db)
  unfolding approve save_request enqueue can_transition next_state
  approve-sent_with uuid id db r found legal = (ground arith, ground arith)

  pub approve-SentOnce :
      (uuid id : String) (db : Db)
      → IsFreshMessage uuid db
      → SentOnce db
      → SentOnce (approve store uuid id db).1
  unfolding approve
  approve-SentOnce uuid id db fresh h = elim (Option-cases (find (is_request id) db.requests)) [
    | inl unknown ↦ ground (arith, h)
    | inr (r, found) ↦ elim (Bool-cases (can_transition r.status RequestAction.approve)) [
      | inr illegal ↦ ground (arith, h)
      | inl legal ↦
          let once = All-found (IsSentOnce db.outbox) (is_request id) db.requests r found h in
          let (pending, after) = approve-sent_with uuid id db r found legal in
          let once' = rw pending at once in
          let r' = record r { status = RequestStatus.approved } in
          subst SentOnce (sym after) (
            sent_with-SentOnce OutboxType.debit ("debit:" <> r.id) uuid r' db fresh
              (omega (arith, once'.0)) (omega (arith, once'.1)) h)
    ]
  ]

  cancel_committed-sent_with :
      (uuid : String) (db : Db) (r : TimeOffRequest)
      → r.status ≡ RequestStatus.committed
      → let r' = record r { status = RequestStatus.cancellation_pending } in
        (cancel_committed store uuid r db).1
        ≡ sent_with (message_of OutboxType.credit ("credit:" <> r.id) uuid r') r' db
  unfolding cancel_committed save_request enqueue next_state
  cancel_committed-sent_with uuid db r committed = ground arith

  cancel_committed-SentOnce :
      (uuid : String) (r : TimeOffRequest) (db : Db)
      → IsFreshMessage uuid db
      → r.status ≡ RequestStatus.committed
      → IsSentOnce db.outbox r
      → SentOnce db
      → SentOnce (cancel_committed store uuid r db).1
  cancel_committed-SentOnce uuid r db fresh committed once h =
      let once' = rw committed at once in
      let r' = record r { status = RequestStatus.cancellation_pending } in
      subst SentOnce (sym (cancel_committed-sent_with uuid db r committed)) (
        sent_with-SentOnce OutboxType.credit ("credit:" <> r.id) uuid r' db fresh
          (omega (arith, once'.0)) (omega (arith, once'.1)) h)

  -- A cancellation that sends nothing, with or without the messages that it gives up.
  cancel_uncommitted-SentOnce :
      (r : TimeOffRequest) (db : Db)
      → IsSentOnce db.outbox r
      → SentOnce db
      → SentOnce (cancel_uncommitted store r db).1
  unfolding cancel_uncommitted save_request release_reservation cancel_pending_for_request
  cancel_uncommitted-SentOnce r db once h =
      let r' = record r { status = next_or r.status RequestAction.cancel } in
      let saved =
        IsSentOnce-saved db.outbox r' db.requests
          (next_or-IsSentOnce db.outbox r RequestAction.cancel once) h in
      ground (
        arith,
        saved,
        All-updated (is_undelivered_of r.id)
            (λ m. record m {
              status = OutboxStatus.dead;
              last_error = some "cancelled: request cancelled before delivery";
            })
            db.outbox (λ m. refl) (λ m. refl) (save_row same_request r' db.requests) saved,
      )

  pub cancel-SentOnce :
      (uuid id : String) (db : Db)
      → IsFreshMessage uuid db
      → SentOnce db
      → SentOnce (cancel store uuid id db).1
  unfolding cancel
  cancel-SentOnce uuid id db fresh h = elim (Option-cases (find (is_request id) db.requests)) [
    | inl unknown ↦ ground (arith, h)
    | inr (r, found) ↦
        let once = All-found (IsSentOnce db.outbox) (is_request id) db.requests r found h in
        ground (
          arith,
          h,
          cancel_committed-SentOnce uuid r db fresh,
          once,
          cancel_uncommitted-SentOnce r db once h,
        )
  ]
