-- ===== src/Processor/InStep.antt =====
-- A delivery of outbox/outbox.processor.ts through the in-process client: the engine's balance beside
-- the cached one.
use hcm.Common.BalanceMath.{BalanceComponents}
use hcm.Prelude.{
  subst, ◌≡◌, refl, Bool, true, ◌&&◌, if◌then◌else◌, ◌⊎◌, inl, inr, false, none, some, String, ◌==◌,
  any, lookup, ℤ, pos, ◌+ℤ◌, ◌-ℤ◌, int_laws, arith, sym,
}
use hcm.Common.Enums.{RequestStatus, OutboxType}
use hcm.Hcm.Core.{Answer, ApplyDeltaAck, RejectionCode, HcmCore, key, apply_delta, signed}
use hcm.Hcm.Core.Deltas.{balance_at, has_returned, apply_delta-Moves, apply_delta_error-level}
use hcm.Hcm.Client.{in_process}
use hcm.Database.{OutboxMessage, TimeOffRequest, Db}
use hcm.Database.Orm.{Orm, IsOrm}
use hcm.Balances.{World, compute_components}
use hcm.Processor.{Draws, command, is_request, outcome, deliver}
use hcm.Processor.Settled.{outcome-Settles}
use text.Mathlib.TextPositions.{eq_refl}

-- The engine's balance is the cached one less the debits that are pending against it.
abbrev pub InStep : Orm → String → String → World HcmCore → Type 0
InStep orm e l w =
    balance_at (key e l) w.hcm
    ≡ (compute_components orm e l w.db).hcm_balance
      -ℤ (compute_components orm e l w.db).committed_pending

Answer-cases :
    {A : Type 0} (answer : Answer A)
    → ((a : A) × (answer ≡ Answer.returns a))
      ⊎ (((code : RejectionCode) × (text : String) × (answer ≡ Answer.rejection code text))
          ⊎ ((text : String) × (answer ≡ Answer.unavailable text)))
Answer-cases (Answer.returns a) = inl (a, refl)
Answer-cases (Answer.rejection code text) = inr (inl (code, text, refl))
Answer-cases (Answer.unavailable text) = inr (inr (text, refl))

signed-debit :
    (msg : OutboxMessage)
    → msg.type ≡ OutboxType.debit
    → signed (command msg) ≡ pos 0 -ℤ msg.payload.amount
signed-debit msg debit = rw debit refl

-- The engine's balance is so much more than the cached one less the debits that are pending.
abbrev pub IsAhead : Orm → String → String → World HcmCore → ℤ → Type 0
IsAhead orm e l w d =
    balance_at (key e l) w.hcm
    ≡ ((compute_components orm e l w.db).hcm_balance
        -ℤ (compute_components orm e l w.db).committed_pending)
      +ℤ d

-- What a ghost success has acknowledged without a debit.
abbrev pub ghost_amount : OutboxMessage → String → HcmCore → ℤ
ghost_amount msg now core =
    if has_returned (apply_delta (command msg) now core).0 && core.faults.ghost_success
    then msg.payload.amount
    else pos 0

-- The two balances after an answer, from the components that it leaves.
level_after :
    (orm : Orm) (draws : Draws) (msg : OutboxMessage) (db : Db) (e l : String) (b d : ℤ)
    (answer seen : Answer ApplyDeltaAck) (c : BalanceComponents)
    → answer ≡ seen
    → compute_components orm e l (outcome orm draws msg seen db) ≡ c
    → b ≡ (c.hcm_balance -ℤ c.committed_pending) +ℤ d
    → b
      ≡ ((compute_components orm e l (outcome orm draws msg answer db)).hcm_balance
          -ℤ (compute_components orm e l (outcome orm draws msg answer db)).committed_pending)
        +ℤ d
level_after orm draws msg db e l b d answer seen c same left h =
    subst
      (λ a.
        b
        ≡ ((compute_components orm e l (outcome orm draws msg a db)).hcm_balance
            -ℤ (compute_components orm e l (outcome orm draws msg a db)).committed_pending)
          +ℤ d)
      (sym same)
      (subst (λ (x : BalanceComponents). b ≡ (x.hcm_balance -ℤ x.committed_pending) +ℤ d) (sym left)
        h)

-- A debit of `a` on both sides, or on one of them.
debited :
    (ghost : Bool) (b b' h c a : ℤ)
    → b ≡ h -ℤ c
    → b' ≡ (if ghost then b else b +ℤ (pos 0 -ℤ a))
    → b' ≡ (h -ℤ (c +ℤ a)) +ℤ (if ghost then a else pos 0)
debited true b b' h c a level moved = rw (moved, level) (omega int_laws)
debited false b b' h c a level moved = rw (moved, level) (omega int_laws)

-- No debit on either side.
untouched : (b b' d h c : ℤ) → b ≡ h -ℤ c → b' ≡ b → d ≡ pos 0 → b' ≡ (h -ℤ c) +ℤ d
untouched b b' d h c level kept nothing = rw (kept, level, nothing) (omega int_laws)

-- The debit of an APPROVED request through the in-process client keeps the two balances in step,
-- however the engine answers, but for a ghost success, which leaves the engine ahead by exactly the
-- amount that it has acknowledged: otherwise its balance of the key stays the cached one less the
-- pending debits. The message is of the request's key, the engine has not seen its idempotency key,
-- and the id drawn for the entry is new.
pub deliver-InStep :
    (orm : Orm)
    → IsOrm orm
    → (now : String) (draws : Draws) (msg : OutboxMessage) (q : TimeOffRequest) (w : World HcmCore)
    → msg.type ≡ OutboxType.debit
    → orm.find_one TimeOffRequest (is_request msg.request_id) w.db.requests ≡ some q
    → q.status ≡ RequestStatus.approved
    → q.employee_id ≡ msg.payload.employee_id
    → q.location_id ≡ msg.payload.location_id
    → any (λ r. r.id == draws.entry) w.db.ledger ≡ false
    → lookup msg.idempotency_key w.hcm.applied ≡ none
    → InStep orm msg.payload.employee_id msg.payload.location_id w
    → IsAhead orm msg.payload.employee_id msg.payload.location_id
        (deliver orm (in_process now) draws msg w)
        (ghost_amount msg now w.hcm)
unfolding deliver
deliver-InStep orm laws now draws msg q w debit found approved at_e at_l fresh new level =
    let e = msg.payload.employee_id in
    let l = msg.payload.location_id in
    let settles = outcome-Settles orm laws draws msg q w.db debit found approved fresh in
    let cmd = command msg in
    let before = compute_components orm e l w.db in
    let b = balance_at (key e l) w.hcm in
    let (answer, core) = apply_delta cmd now w.hcm in
    let ghost = ghost_amount msg now w.hcm in
    elim (Answer-cases answer) [
      | inl (ack, returned) ↦
          let moved = (apply_delta-Moves cmd now w.hcm ack new returned).2 in
          let here = (settles.0 ack).1 e l in
          level_after orm draws msg w.db e l _ ghost answer (Answer.returns ack) _ returned here (
            rw (at_e, at_l, eq_refl, eq_refl, returned)
              (debited w.hcm.faults.ghost_success b _ before.hcm_balance before.committed_pending
                msg.payload.amount level (ground (arith, moved, signed-debit msg debit))))
      | inr (inl (code, text, thrown)) ↦
          let kept = apply_delta_error-level cmd now w.hcm (rw thrown refl) in
          level_after orm draws msg w.db e l _ ghost answer (Answer.rejection code text) _ thrown
            ((settles.1 code text).1 e l)
            (untouched b _ ghost before.hcm_balance before.committed_pending level kept
              (rw thrown refl))
      | inr (inr (text, thrown)) ↦
          let kept = apply_delta_error-level cmd now w.hcm (rw thrown refl) in
          level_after orm draws msg w.db e l _ ghost answer (Answer.unavailable text) _ thrown
            ((settles.2 text).1 e l)
            (untouched b _ ghost before.hcm_balance before.committed_pending level kept
              (rw thrown refl))
    ]
