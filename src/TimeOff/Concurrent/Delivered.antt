-- ===== src/TimeOff/Concurrent/Delivered.antt =====
-- What an acknowledgement of HCM and the first load of a balance do to the available balances
-- (outbox/outbox.processor.ts, balances/balance.service.ts).
use hcm.Prelude.{
  ◌≡◌, ◌⊎◌, inl, inr, some, find, any, All-mono, false, String, ◌==◌, eq_iff, Bool, List, [], ◌∷◌,
  ◌++◌, ℤ, pos, ◌+ℤ◌, ◌-ℤ◌, ◌≤ℤ◌, int_laws, arith, Bool-cases, Option-cases, ◌&&◌, if◌then◌else◌,
}
use hcm.Common.Enums.{OutboxType, RequestStatus, RequestAction, LedgerPhase}
use hcm.Common.StateMachine.{next_state}
use hcm.Common.BalanceMath.{BalanceComponents, compute_available}
use hcm.Hcm.Core.{Answer, ApplyDeltaAck}
use hcm.Database.{
  Balance, BalanceLedgerEntry, OutboxMessage, TimeOffRequest, Db, same_balance, same_entry,
}
use hcm.Database.Orm.{Orm, standard, SumsByPhase, insert_row}
use hcm.Database.Rows.{All-save_row}
use hcm.Balances.{
  compute_components, commit_reservation, release_reservation, release_commit, commit_entry,
  is_active_of,
}
use hcm.Balances.Sums.{counts, cached, compute_components-sums}
use hcm.Balances.Moves.{standard-Moves, amount_of}
use hcm.Outbox.{mark_done}
use hcm.Processor.{Draws, is_request, outcome, apply_success, credit_applied, save_request}
use hcm.Processor.Settled.{standard-Settles, acked}
use hcm.TimeOff.Concurrent.{IsHold, NoNegativeHold, NoNegativeDebit, NoLess}
use hcm.TimeOff.Concurrent.Quiet.{sum_where-nonnegative, released-IsHold, same_components}

-- Components that give back at least what becomes pending.
committed_more :
    (c : BalanceComponents) (held days : ℤ)
    → days ≤ℤ held
    → compute_available c
      ≤ℤ compute_available (record c {
        reserved_open = c.reserved_open -ℤ held;
        committed_pending = c.committed_pending +ℤ days;
      })
unfolding compute_available
committed_more c held days h = omega (int_laws, h)

credited_more :
    (c : BalanceComponents) (debited : ℤ)
    → pos 0 ≤ℤ debited
    → compute_available c
      ≤ℤ compute_available (record c { committed_pending = c.committed_pending -ℤ debited })
unfolding compute_available
credited_more c debited h = omega (int_laws, h)

loaded_more :
    (c : BalanceComponents) (level : ℤ)
    → c.hcm_balance ≤ℤ level
    → compute_available c ≤ℤ compute_available (record c { hcm_balance = level })
unfolding compute_available
loaded_more c level h = omega (int_laws, h)

-- A row that is appended counts at most where no balance was cached.
cached-append :
    (e l : String) (b : Balance) (rows : List Balance)
    → (cached e l (rows ++ b ∷ []) ≡ cached e l rows)
      ⊎ ((cached e l rows ≡ pos 0) × (cached e l (rows ++ b ∷ []) ≡ b.hcm_balance))
cached-append e l b [] = ground arith
cached-append e l b (r ∷ rows) = ground (arith, cached-append e l b rows)

appended_more :
    (e l : String) (b : Balance) (rows : List Balance)
    → pos 0 ≤ℤ b.hcm_balance
    → cached e l rows ≤ℤ cached e l (rows ++ b ∷ [])
appended_more e l b rows h = elim (cached-append e l b rows) [
  | inl same ↦ rw same (omega arith)
  | inr (nothing, new) ↦ rw (nothing, new) h
]

module _ (totals : (BalanceLedgerEntry → Bool) → List BalanceLedgerEntry → List (LedgerPhase × ℤ))
    (sums : SumsByPhase totals) where
  abbrev store : Orm
  store = standard totals

  pub loads-NoLess :
      (b : Balance) (db : Db)
      → pos 0 ≤ℤ b.hcm_balance
      → NoLess store db (record db { balances = insert_row same_balance b db.balances })
  loads-NoLess b db h e l =
      rw
        (
          compute_components-sums totals sums e l db,
          compute_components-sums totals sums e l
              (record db { balances = insert_row same_balance b db.balances }),
        )
        (loaded_more _ _ (elim (Bool-cases (any (same_balance b) db.balances)) [
          | inl there ↦ rw there (omega arith)
          | inr new ↦ rw new (appended_more e l b db.balances h)
        ]))

  pub commits-NoLess :
      (draws : Draws) (msg : OutboxMessage) (ack : ApplyDeltaAck) (q : TimeOffRequest) (db : Db)
      → msg.type ≡ OutboxType.debit
      → find (is_request msg.request_id) db.requests ≡ some q
      → q.status ≡ RequestStatus.approved
      → any (λ r. r.id == draws.entry) db.ledger ≡ false
      → msg.payload.amount
        ≤ℤ amount_of q.id LedgerPhase.reserve q.employee_id q.location_id db.ledger
      → NoNegativeHold db
      → NoLess store db (outcome store draws msg (Answer.returns ack) db)
  commits-NoLess draws msg ack q db debit found approved fresh held h e l =
      let settled =
        (standard-Settles totals sums draws msg q db debit found approved fresh).0 ack in
      let enough : (if q.employee_id == e && q.location_id == l then msg.payload.amount else pos 0)
          ≤ℤ amount_of q.id LedgerPhase.reserve e l db.ledger =
        elim (Bool-cases (q.employee_id == e && q.location_id == l)) [
          | inl here ↦
              let at_e : e ≡ q.employee_id = ground (arith, eq_iff q.employee_id e, here) in
              let at_l : l ≡ q.location_id = ground (arith, eq_iff q.location_id l, here) in
              rw here (rw (at_e, at_l) held)
          | inr away ↦ rw away (
              sum_where-nonnegative LedgerPhase.reserve
                (λ r. is_active_of q.id LedgerPhase.reserve r && counts e l LedgerPhase.reserve r)
                db.ledger (λ r hit. ground arith) h)
        ] in
      rw (settled.1 e l) (committed_more (compute_components store e l db) _ _ enough)

  pub commits-NoNegativeHold :
      (draws : Draws) (msg : OutboxMessage) (ack : ApplyDeltaAck) (q : TimeOffRequest) (db : Db)
      → msg.type ≡ OutboxType.debit
      → find (is_request msg.request_id) db.requests ≡ some q
      → q.status ≡ RequestStatus.approved
      → NoNegativeHold db
      → NoNegativeHold (outcome store draws msg (Answer.returns ack) db)
  unfolding commit_reservation release_reservation
  commits-NoNegativeHold draws msg ack q db debit found approved h =
      let released = (release_reservation store q.id db).ledger in
      let entry =
        commit_entry draws.entry q.id q.employee_id q.location_id msg.payload.amount
          (some ack.version) in
      rw (acked store draws msg q db ack debit found approved).2 (
        All-save_row IsHold same_entry entry (λ hold. absurd (cc hold)) released
          (All-mono released (λ (x : BalanceLedgerEntry) hold. inr hold)
            (released-IsHold (is_active_of q.id LedgerPhase.reserve) db.ledger h)))

  -- The balances are the same, and the ledger too but for the debits of one request.
  abbrev Credits : Db → Db → Type 0
  Credits db db' =
      (db'.balances ≡ db.balances)
      × ((db'.ledger ≡ db.ledger)
          ⊎ ((id : String) × (db'.ledger ≡ (release_commit store id db).ledger)))

  outcome-Credits :
      (draws : Draws) (msg : OutboxMessage) (ack : ApplyDeltaAck) (db : Db)
      → msg.type ≡ OutboxType.credit
      → Credits db (outcome store draws msg (Answer.returns ack) db)
  unfolding outcome apply_success credit_applied mark_done save_request release_commit
  outcome-Credits draws msg ack db credit =
      elim (Option-cases (find (is_request msg.request_id) db.requests)) [
        | inl unknown ↦ (ground arith, inl (ground arith))
        | inr (r, found) ↦ elim (Option-cases (next_state r.status RequestAction.hcm_credit_done)) [
          | inl stays ↦ (ground arith, inr (r.id, ground arith))
          | inr (to, next) ↦ (ground arith, inr (r.id, ground arith))
        ]
      ]

  pub Credits-NoLess : (db db' : Db) → Credits db db' → NoNegativeDebit db → NoLess store db db'
  unfolding release_commit
  Credits-NoLess db db' (balances, inl ledger) h e l =
      rw (same_components totals sums e l db db' balances ledger) (omega arith)
  Credits-NoLess db db' (balances, inr (id, ledger)) h e l =
      let debited =
        sum_where-nonnegative LedgerPhase.commit
          (λ r. is_active_of id LedgerPhase.commit r && counts e l LedgerPhase.commit r) db.ledger
          (λ r hit. ground arith) h in
      rw
        (
          same_components totals sums e l (release_commit store id db) db' balances ledger,
          (standard-Moves totals sums id db e l).1,
        )
        (credited_more (compute_components store e l db)
          (amount_of id LedgerPhase.commit e l db.ledger) debited)

  pub Credits-NoNegativeHold :
      (db db' : Db) → Credits db db' → NoNegativeHold db → NoNegativeHold db'
  unfolding release_commit
  Credits-NoNegativeHold db db' (balances, inl ledger) h = rw ledger h
  Credits-NoNegativeHold db db' (balances, inr (id, ledger)) h =
      rw ledger (released-IsHold (is_active_of id LedgerPhase.commit) db.ledger h)

  pub credits-NoLess :
      (draws : Draws) (msg : OutboxMessage) (ack : ApplyDeltaAck) (db : Db)
      → msg.type ≡ OutboxType.credit
      → NoNegativeDebit db
      → NoLess store db (outcome store draws msg (Answer.returns ack) db)
  credits-NoLess draws msg ack db credit =
      Credits-NoLess db (outcome store draws msg (Answer.returns ack) db)
        (outcome-Credits draws msg ack db credit)

  pub credits-NoNegativeHold :
      (draws : Draws) (msg : OutboxMessage) (ack : ApplyDeltaAck) (db : Db)
      → msg.type ≡ OutboxType.credit
      → NoNegativeHold db
      → NoNegativeHold (outcome store draws msg (Answer.returns ack) db)
  credits-NoNegativeHold draws msg ack db credit =
      Credits-NoNegativeHold db (outcome store draws msg (Answer.returns ack) db)
        (outcome-Credits draws msg ack db credit)
