-- ===== src/Hcm/Core/Replay.antt =====
-- The idempotency keys of hcm/hcm-core.ts: what `applied` remembers and how a repeated key is answered.
use text.Mathlib.TextPositions.{eq_refl}
use hcm.Prelude.{
  refl, inl, inr, ◌≡◌, true, none, some, List, [], ◌∷◌, String, eq_iff, arith, lookup, insert,
  lookup-insert, Bool, Option-cases, false,
}
use hcm.Hcm.Core
use hcm.Hcm.Core.{
  HcmBalanceRow, HcmCore, ApplyDeltaCommand, ApplyDeltaAck, Answer, returns, key, acknowledge,
  settle, apply_delta, bump, pos, signed,
}
use hcm.Hcm.Core.Versions.{Op, perform, perform_all}

abbrev replay : ApplyDeltaAck → ApplyDeltaAck
replay ack = record ack { replayed = true }

module _ (ik : String) (prior : ApplyDeltaAck) where
  abbrev IsRemembered : HcmCore → Type 0
  IsRemembered core = lookup ik core.applied ≡ some prior

  acknowledge-IsRemembered :
      (cmd : ApplyDeltaCommand) (row : HcmBalanceRow) (applied : Bool) (core : HcmCore)
      → lookup cmd.idempotency_key core.applied ≡ none
      → IsRemembered core
      → IsRemembered (acknowledge cmd row applied core).1
  unfolding acknowledge
  acknowledge-IsRemembered cmd row applied core fresh h =
      rw lookup-insert (ground (arith, eq_iff cmd.idempotency_key ik))

  settle-IsRemembered :
      (cmd : ApplyDeltaCommand) (now : String) (row : HcmBalanceRow) (core : HcmCore)
      → lookup cmd.idempotency_key core.applied ≡ none
      → IsRemembered core
      → IsRemembered (settle cmd now row core).1
  unfolding settle
  settle-IsRemembered cmd now row core fresh h =
      let row' = bump row (signed cmd) now in
      ground (
        arith,
        acknowledge-IsRemembered cmd row false core fresh h,
        acknowledge-IsRemembered cmd row' true
            (record core {
              balances = insert (key cmd.employee_id cmd.location_id) row' core.balances;
            })
            fresh h,
      )

  apply_delta-IsRemembered :
      (cmd : ApplyDeltaCommand) (now : String) (core : HcmCore)
      → IsRemembered core
      → IsRemembered (apply_delta cmd now core).1
  unfolding apply_delta Core.seed
  apply_delta-IsRemembered cmd now core h =
      let created = Core.seed cmd.employee_id cmd.location_id (pos 0) now core in
      elim (Option-cases (lookup cmd.idempotency_key core.applied)) [
        | inr (a, done) ↦ rw (done, apply_delta) h
        | inl fresh ↦
            elim (Option-cases (lookup (key cmd.employee_id cmd.location_id) core.balances)) [
              | inl unseen ↦ ground (arith, settle-IsRemembered cmd now created.0 created.1 fresh h)
              | inr (row, seen) ↦ ground (arith, settle-IsRemembered cmd now row core fresh h)
            ]
      ]

  perform-IsRemembered :
      (op : Op) (core : HcmCore) → IsRemembered core → IsRemembered (perform op core)
  unfolding perform Core.configure_faults Core.seed Core.adjust Core.get_balance
  perform-IsRemembered (Op.configure_faults p) core h = h
  perform-IsRemembered (Op.seed e l b now) core h = h
  perform-IsRemembered (Op.adjust e l d now) core h = ground arith
  perform-IsRemembered (Op.get_balance e l now) core h = ground arith
  perform-IsRemembered (Op.apply_delta cmd now) core h = apply_delta-IsRemembered cmd now core h

  perform_all-IsRemembered :
      (ops : List Op) (core : HcmCore) → IsRemembered core → IsRemembered (perform_all ops core)
  unfolding perform_all
  perform_all-IsRemembered [] core h = h
  perform_all-IsRemembered (op ∷ ops) core h =
      perform_all-IsRemembered ops (perform op core) (perform-IsRemembered op core h)

module _ (cmd : ApplyDeltaCommand) (now : String) (ack : ApplyDeltaAck) where
  acknowledge_stores :
      (row : HcmBalanceRow) (applied : Bool) (core : HcmCore)
      → (acknowledge cmd row applied core).0 ≡ returns ack
      → lookup cmd.idempotency_key (acknowledge cmd row applied core).1.applied ≡ some ack
  unfolding acknowledge
  acknowledge_stores row applied core e = rw (lookup-insert, eq_refl) (ground arith)

  settle_stores :
      (row : HcmBalanceRow) (core : HcmCore)
      → (settle cmd now row core).0 ≡ returns ack
      → lookup cmd.idempotency_key (settle cmd now row core).1.applied ≡ some ack
  unfolding settle
  settle_stores row core e =
      let row' = bump row (signed cmd) now in
      ground (
        arith,
        acknowledge_stores row false core,
        acknowledge_stores row' true (record core {
          balances = insert (key cmd.employee_id cmd.location_id) row' core.balances;
        }),
      )

  -- What the key holds afterwards, up to the `replayed` mark.
  abbrev Holds : HcmCore → Type 0
  Holds core =
      (prior : ApplyDeltaAck) × (lookup cmd.idempotency_key core.applied ≡ some prior)
      × (replay prior ≡ replay ack)

  apply_delta_stores :
      (core : HcmCore)
      → (apply_delta cmd now core).0 ≡ returns ack
      → Holds (apply_delta cmd now core).1
  unfolding apply_delta
  apply_delta_stores core e =
      let created = Core.seed cmd.employee_id cmd.location_id (pos 0) now core in
      elim (Option-cases (lookup cmd.idempotency_key core.applied)) [
        | inr (prior, done) ↦ (prior, rw (done, apply_delta) done, ground arith)
        | inl fresh ↦
            elim (Option-cases (lookup (key cmd.employee_id cmd.location_id) core.balances)) [
              | inl unseen ↦ (ack, ground (arith, settle_stores created.0 created.1), refl)
              | inr (row, seen) ↦ (ack, ground (arith, settle_stores row core), refl)
            ]
      ]

-- Once a command has been acknowledged, the same idempotency key is answered with the same
-- acknowledgement, marked as replayed, and changes nothing: at any later time, after any calls but
-- `reset`, and whatever else the repeated command says.
pub apply_delta_once :
    (cmd : ApplyDeltaCommand) (now : String) (core : HcmCore) (ack : ApplyDeltaAck)
    → (apply_delta cmd now core).0 ≡ returns ack
    → (ops : List Op) (again : ApplyDeltaCommand) (later : String)
    → again.idempotency_key ≡ cmd.idempotency_key
    → let core' = perform_all ops (apply_delta cmd now core).1 in
      apply_delta again later core' ≡ (returns (record ack { replayed = true }), core')
apply_delta_once cmd now core ack e ops again later same =
    let (prior, found, marked) = apply_delta_stores cmd now ack core e in
    let core' = perform_all ops (apply_delta cmd now core).1 in
    let found' : lookup again.idempotency_key core'.applied ≡ some prior =
      rw same (
        perform_all-IsRemembered cmd.idempotency_key prior ops (apply_delta cmd now core).1
          found) in
    unfold apply_delta in rw (found', apply_delta) (ground (arith, marked))
