-- ===== src/TimeOff/Concurrent/Quiet.antt =====
-- The transactions of time-off/time-off.service.ts and outbox/outbox.service.ts that run without the
-- mutex, and the balances: they write nothing into the ledger, or release the holds of a request.
use hcm.Prelude.{
  ◌≡◌, refl, ◌⊎◌, inl, inr, Bool, true, List, [], ◌∷◌, String, ℤ, pos, ◌≤ℤ◌, ◌-ℤ◌, All, arith,
  int_laws, find, Option-cases, Bool-cases, ℕ, ◌&&◌,
}
use hcm.Common.StateMachine.{can_transition}
use hcm.Common.Enums.{
  RequestAction, RequestStatus, same_status, LedgerPhase, LedgerState, same_phase, is_debit,
}
use hcm.Common.BalanceMath.{compute_available, BalanceComponents}
use hcm.Database.{BalanceLedgerEntry, OutboxMessage, Db}
use hcm.Database.Orm.{Orm, standard, SumsByPhase, update_rows}
use hcm.Balances.{compute_components, release_reservation, is_active_of}
use hcm.Balances.Sums.{sum_where, counts}
use hcm.Balances.Moves.{standard-Moves, amount_of}
use hcm.Outbox.{enqueue, cancel_pending_for_request, claim_due, mark_rejected, mark_retry_or_dead}
use hcm.Hcm.Core.{Answer, RejectionCode}
use hcm.Processor.{Draws, is_request, save_request, outcome, apply_rejection, debit_rejected}
use hcm.TimeOff.{approve, reject, cancel, cancel_committed, cancel_uncommitted}
use hcm.Holds.History.{Step}
use hcm.TimeOff.Concurrent.{NoLess, IsHold, NotNegative, NoNegativeHold, is_quiet}

pub sum_where-nonnegative :
    (phase : LedgerPhase) (p : BalanceLedgerEntry → Bool) (rows : List BalanceLedgerEntry)
    → ((r : BalanceLedgerEntry) → p r ≡ true → same_phase r.phase phase ≡ true)
    → All (NotNegative phase) rows
    → pos 0 ≤ℤ sum_where p rows
sum_where-nonnegative phase p [] held h = omega arith
sum_where-nonnegative phase p (r ∷ rows) held h =
    let rest = sum_where-nonnegative phase p rows held h.1 in
    elim (Bool-cases (p r)) [
      | inl hit ↦ let here = h.0 (held r hit) in rw hit (omega (int_laws, here, rest))
      | inr missed ↦ rw missed rest
    ]

pub released-IsHold :
    (p : BalanceLedgerEntry → Bool) (rows : List BalanceLedgerEntry)
    → All IsHold rows
    → All IsHold (update_rows p (λ r. record r { state = LedgerState.released }) rows)
released-IsHold p [] h = tt
released-IsHold p (r ∷ rows) h = (
  elim (Bool-cases (p r)) [ inl hit ↦ rw hit h.0 | inr missed ↦ rw missed h.0 ],
  released-IsHold p rows h.1,
)

available_more :
    (c : BalanceComponents) (days : ℤ)
    → pos 0 ≤ℤ days
    → compute_available c
      ≤ℤ compute_available (record c { reserved_open = c.reserved_open -ℤ days })
unfolding compute_available
available_more c days h = omega (int_laws, h)

module _ (totals : (BalanceLedgerEntry → Bool) → List BalanceLedgerEntry → List (LedgerPhase × ℤ))
    (sums : SumsByPhase totals) where
  abbrev store : Orm
  store = standard totals

  -- The balances are the same, and the ledger too but for the holds of one request.
  abbrev pub Releases : Db → Db → Type 0
  Releases db db' =
      (db'.balances ≡ db.balances)
      × ((db'.ledger ≡ db.ledger)
          ⊎ ((id : String) × (db'.ledger ≡ (release_reservation store id db).ledger)))

  pub same_components :
      (e l : String) (db db' : Db)
      → db'.balances ≡ db.balances
      → db'.ledger ≡ db.ledger
      → compute_components store e l db' ≡ compute_components store e l db
  unfolding compute_components
  same_components e l db db' balances ledger = rw (balances, ledger) refl

  released-NoLess :
      (id : String) (db : Db)
      → NoNegativeHold db
      → NoLess store db (release_reservation store id db)
  released-NoLess id db h e l =
      let held =
        sum_where-nonnegative LedgerPhase.reserve
          (λ r. is_active_of id LedgerPhase.reserve r && counts e l LedgerPhase.reserve r) db.ledger
          (λ r hit. ground arith) h in
      rw (standard-Moves totals sums id db e l).0 (
        available_more (compute_components store e l db)
          (amount_of id LedgerPhase.reserve e l db.ledger) held)

  pub Releases-NoLess : (db db' : Db) → Releases db db' → NoNegativeHold db → NoLess store db db'
  unfolding release_reservation
  Releases-NoLess db db' (balances, inl ledger) h e l =
      rw (same_components e l db db' balances ledger) (omega arith)
  Releases-NoLess db db' (balances, inr (id, ledger)) h e l =
      rw (same_components e l (release_reservation store id db) db' balances ledger)
        (released-NoLess id db h e l)

  pub Releases-NoNegativeHold :
      (db db' : Db) → Releases db db' → NoNegativeHold db → NoNegativeHold db'
  unfolding release_reservation
  Releases-NoNegativeHold db db' (balances, inl ledger) h = rw ledger h
  Releases-NoNegativeHold db db' (balances, inr (id, ledger)) h =
      rw ledger (released-IsHold (is_active_of id LedgerPhase.reserve) db.ledger h)

  approve-Releases : (uuid id : String) (db : Db) → Releases db (approve store uuid id db).1
  unfolding approve save_request enqueue
  approve-Releases uuid id db = (ground arith, inl (ground arith))

  reject-Releases : (id : String) (db : Db) → Releases db (reject store id db).1
  unfolding reject save_request release_reservation
  reject-Releases id db = (
    ground arith,
    elim (Option-cases (find (is_request id) db.requests)) [
      | inl unknown ↦ inl (ground arith)
      | inr (r, found) ↦ elim (Bool-cases (can_transition r.status RequestAction.reject)) [
        | inl legal ↦ inr (r.id, ground arith)
        | inr illegal ↦ inl (ground arith)
      ]
    ],
  )

  cancel-Releases : (uuid id : String) (db : Db) → Releases db (cancel store uuid id db).1
  unfolding cancel cancel_committed cancel_uncommitted save_request release_reservation enqueue
      cancel_pending_for_request
  cancel-Releases uuid id db = (
    ground arith,
    elim (Option-cases (find (is_request id) db.requests)) [
      | inl unknown ↦ inl (ground arith)
      | inr (r, found) ↦ elim (Bool-cases (can_transition r.status RequestAction.cancel)) [
        | inr illegal ↦ inl (ground arith)
        | inl legal ↦ elim (Bool-cases (same_status r.status RequestStatus.committed)) [
          | inl committed ↦ inl (ground arith)
          | inr uncommitted ↦ inr (r.id, ground arith)
        ]
      ]
    ],
  )

  rejection-Releases :
      (draws : Draws) (msg : OutboxMessage) (code : RejectionCode) (message : String) (db : Db)
      → Releases db (outcome store draws msg (Answer.rejection code message) db)
  unfolding outcome apply_rejection debit_rejected mark_rejected save_request release_reservation
  rejection-Releases draws msg code message db =
      elim (Option-cases (find (is_request msg.request_id) db.requests)) [
        | inl unknown ↦ (ground arith, inl (ground arith))
        | inr (r, found) ↦ elim (Bool-cases (is_debit msg.type)) [
          | inl debit ↦ (ground arith, inr (r.id, ground arith))
          | inr credit ↦ (ground arith, inl (ground arith))
        ]
      ]

  unavailable-Releases :
      (draws : Draws) (msg : OutboxMessage) (message : String) (db : Db)
      → Releases db (outcome store draws msg (Answer.unavailable message) db)
  unfolding outcome mark_retry_or_dead
  unavailable-Releases draws msg message db = (ground arith, inl (ground arith))

  -- A creation, an approval, a rejection, a cancellation, a claim or a delivery that HCM does not
  -- acknowledge.
  pub quiet-Releases :
      (parse_date : String → ℕ) (db db' : Db) (step : Step store parse_date db db')
      → is_quiet store parse_date step ≡ true
      → Releases db db'
  unfolding save_request claim_due
  quiet-Releases parse_date db db' (Step.create r e free) quiet = (refl, inl refl)
  quiet-Releases parse_date db db' (Step.approve uuid id) quiet = approve-Releases uuid id db
  quiet-Releases parse_date db db' (Step.reject id) quiet = reject-Releases id db
  quiet-Releases parse_date db db' (Step.cancel uuid id) quiet = cancel-Releases uuid id db
  quiet-Releases parse_date db db' (Step.claim now limit) quiet = (refl, inl refl)
  quiet-Releases parse_date db db' (Step.deliver draws msg (Answer.rejection code text)) quiet =
      rejection-Releases draws msg code text db
  quiet-Releases parse_date db db' (Step.deliver draws msg (Answer.unavailable text)) quiet =
      unavailable-Releases draws msg text db
  quiet-Releases parse_date db db' _ quiet = absurd (cc quiet)
