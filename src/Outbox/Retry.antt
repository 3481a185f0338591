-- ===== src/Outbox/Retry.antt =====
-- The retry policy of outbox/outbox.service.ts (`markRetryOrDead`).
use hcm.Prelude.{
  [], ℕ, ◌+◌, ◌*◌, ◌^◌, ◌≤◌, ◌≡◌, ◌⊎◌, false, true, some, List, String, ◌==◌, Bool, subst, ◌∷◌,
  Bool-cases, inl, ℤ, inr, ◌-◌, arith, leb, refl,
}
use hcm.Common.Enums.{OutboxStatus, LedgerPhase}
use hcm.Database.{OutboxMessage, BalanceLedgerEntry, Db}
use hcm.Database.Orm.{Orm, update_rows, IsOrm, orm_path, standard}
use hcm.Outbox.{mark_retry_or_dead, has_id}

-- The row of a message after one more failure: it waits for the backoff, or is given up. The rest of
-- it stays.
abbrev pub Retried : OutboxMessage → String → ℕ → OutboxMessage → OutboxMessage → Type 0
Retried msg error now m m' =
    ((msg.attempts ≤ 3)
      × (m' ≡ record m {
        status = OutboxStatus.failed;
        attempts = msg.attempts + 1;
        last_error = some error;
        next_attempt_at = some (now + 200 * 2 ^ msg.attempts);
      }))
    ⊎ ((4 ≤ msg.attempts)
        × (m' ≡ record m {
          status = OutboxStatus.dead;
          attempts = msg.attempts + 1;
          last_error = some error;
        }))

-- The rows before and after: those of the message are as `Retried` says, all others as they were.
abbrev pub RowsRetried :
    OutboxMessage → String → ℕ → List OutboxMessage → List OutboxMessage → Type 0
RowsRetried msg error now [] rows = rows ≡ []
RowsRetried msg error now (m ∷ ms) [] = ⊥
RowsRetried msg error now (m ∷ ms) (m' ∷ ms') =
    ((((m.id == msg.id) ≡ false) × (m' ≡ m))
      ⊎ (((m.id == msg.id) ≡ true) × Retried msg error now m m'))
    × RowsRetried msg error now ms ms'

updated_rows :
    (msg : OutboxMessage) (error : String) (now : ℕ) (f : OutboxMessage → OutboxMessage)
    → ((m : OutboxMessage) → Retried msg error now m (f m))
    → (rows : List OutboxMessage)
    → RowsRetried msg error now rows (update_rows (has_id msg.id) f rows)
updated_rows msg error now f holds [] = refl
updated_rows msg error now f holds (m ∷ rows) = elim (Bool-cases (m.id == msg.id)) [
  | inl mine ↦ rw mine (inr (refl, holds m), updated_rows msg error now f holds rows)
  | inr other ↦ rw other (inl (refl, refl), updated_rows msg error now f holds rows)
]

-- What one recorded failure has done to the database, and the status that the processor is told.
abbrev pub RecordsFailure : Orm → OutboxMessage → String → ℕ → Db → Type 0
RecordsFailure orm msg error now db =
    let (status, db') = mark_retry_or_dead orm msg error now db in
    RowsRetried msg error now db.outbox db'.outbox
    × (((msg.attempts ≤ 3) × (status ≡ OutboxStatus.failed))
        ⊎ ((4 ≤ msg.attempts) × (status ≡ OutboxStatus.dead)))
    × (db' ≡ record db { outbox = db'.outbox })

standard-RecordsFailure :
    (totals : (BalanceLedgerEntry → Bool) → List BalanceLedgerEntry → List (LedgerPhase × ℤ))
    (msg : OutboxMessage) (error : String) (now : ℕ) (db : Db)
    → RecordsFailure (standard totals) msg error now db
unfolding mark_retry_or_dead
standard-RecordsFailure totals msg error now db =
    let same : msg.attempts + 1 - 1 ≡ msg.attempts = omega arith in
    elim (Bool-cases (leb 5 (msg.attempts + 1))) [
      | inl spent ↦
          let done : 4 ≤ msg.attempts = ground arith in
          rw spent
            (updated_rows msg error now _ (λ m. inr (done, refl)) db.outbox, inr (done, refl), refl)
      | inr left ↦
          let more : msg.attempts ≤ 3 = ground arith in
          rw left (
            updated_rows msg error now _ (λ m. inl (more, rw same refl)) db.outbox,
            inl (more, refl),
            refl,
          )
    ]

-- A transient failure changes nothing but the rows of its message, which all remain: they have one
-- attempt more and the error, wait twice as long after each attempt, and at the fifth are given up as
-- DEAD; the processor is told which. The rows of other messages and all other tables stay as they
-- are.
pub mark_retry_or_dead-RecordsFailure :
    (orm : Orm)
    → IsOrm orm
    → (msg : OutboxMessage) (error : String) (now : ℕ) (db : Db)
    → RecordsFailure orm msg error now db
mark_retry_or_dead-RecordsFailure orm laws msg error now db =
    subst (λ o. RecordsFailure o msg error now db) (orm_path orm laws)
      (standard-RecordsFailure orm.phase_totals msg error now db)
