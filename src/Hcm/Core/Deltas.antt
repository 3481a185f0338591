-- ===== src/Hcm/Core/Deltas.antt =====
-- What one `applyDelta` of hcm/hcm-core.ts does to the balances, by how it ends.
use hcm.Prelude.{
  ℕ, ◌≡◌, String, false, lookup, ℤ, none, not, some, arith, lookup-insert, Bool, Option-cases,
  eq_iff, if◌then◌else◌, true, ◌+ℤ◌, inl, inr, refl,
}
use text.Mathlib.TextPositions.{eq_refl}
use hcm.Hcm.Core
use hcm.Hcm.Core.{
  HcmBalanceRow, HcmCore, ApplyDeltaCommand, ApplyDeltaAck, Answer, returns, key, acknowledge,
  settle, apply_delta, pos, bump, signed,
}

-- The balance and the version at a key; an unknown key counts as zero.
abbrev pub balance_at : String → HcmCore → ℤ
balance_at k core = elim (lookup k core.balances) [ none ↦ pos 0 | some row ↦ row.balance ]

abbrev pub version_at : String → HcmCore → ℕ
version_at k core = elim (lookup k core.balances) [ none ↦ 0 | some row ↦ row.version ]

abbrev pub key_of : ApplyDeltaCommand → String
key_of cmd = key cmd.employee_id cmd.location_id

abbrev pub has_returned : {A : Type 0} → Answer A → Bool
has_returned (returns a) = true
has_returned _ = false

module _ (cmd : ApplyDeltaCommand) (now : String) where
  settle_error :
      (found : HcmBalanceRow) (core : HcmCore) (j : String) (row : HcmBalanceRow)
      → has_returned (settle cmd now found core).0 ≡ false
      → lookup j core.balances ≡ some row
      → let core' = (settle cmd now found core).1 in
        (core'.applied ≡ core.applied) × (lookup j core'.balances ≡ some row)
  unfolding settle acknowledge
  settle_error found core j row throws seen = ground arith

  -- Creating a row that was not there changes no other.
  seed_keeps :
      (core : HcmCore) (j : String) (row : HcmBalanceRow)
      → lookup j core.balances ≡ some row
      → lookup (key_of cmd) core.balances ≡ none
      → let core' = (Core.seed cmd.employee_id cmd.location_id (pos 0) now core).1 in
        (core'.applied ≡ core.applied) × (lookup j core'.balances ≡ some row)
  unfolding Core.seed
  seed_keeps core j row seen unseen =
      (refl, rw lookup-insert (ground (arith, eq_iff (key_of cmd) j)))

  -- What a fresh acknowledgement of `cmd` has done between two states of the object.
  abbrev pub Moves : HcmCore → ApplyDeltaAck → HcmCore → Type 0
  Moves core ack core' =
      (ack.replayed ≡ false)
      × (ack.applied ≡ not core.faults.ghost_success)
      × (balance_at (key_of cmd) core' ≡ (
          if core.faults.ghost_success
          then balance_at (key_of cmd) core
          else balance_at (key_of cmd) core +ℤ signed cmd))
      × (ack.balance ≡ balance_at (key_of cmd) core')
      × (ack.version ≡ version_at (key_of cmd) core')

  settle-Moves :
      (row : HcmBalanceRow) (core : HcmCore) (ack : ApplyDeltaAck)
      → lookup (key_of cmd) core.balances ≡ some row
      → (settle cmd now row core).0 ≡ returns ack
      → Moves core ack (settle cmd now row core).1
  unfolding settle acknowledge
  settle-Moves row core ack found e = ground (
    arith,
    found,
    lookup-insert (key_of cmd) (key_of cmd) (bump row (signed cmd) now) core.balances,
    eq_refl (key_of cmd),
  )

  pub seed_stores :
      (b : ℤ) (core : HcmCore)
      → let (row, core') = Core.seed cmd.employee_id cmd.location_id b now core in
        lookup (key_of cmd) core'.balances ≡ some row
  unfolding Core.seed
  seed_stores b core = rw (lookup-insert, eq_refl)

  seed_fields :
      (b : ℤ) (core : HcmCore)
      → let (row, core') = Core.seed cmd.employee_id cmd.location_id b now core in
        (row.balance ≡ b) × (core'.faults ≡ core.faults)
  unfolding Core.seed
  seed_fields b core = (refl, refl)

  -- A command that is answered for the first time moves the balance of its key by exactly its signed
  -- amount, or not at all under ghost success, and the acknowledgement carries the balance and the
  -- version that the key then has.
  pub apply_delta-Moves :
      (core : HcmCore) (ack : ApplyDeltaAck)
      → lookup cmd.idempotency_key core.applied ≡ none
      → (apply_delta cmd now core).0 ≡ returns ack
      → Moves core ack (apply_delta cmd now core).1
  unfolding apply_delta
  apply_delta-Moves core ack fresh e =
      let created = Core.seed cmd.employee_id cmd.location_id (pos 0) now core in
      elim (Option-cases (lookup (key_of cmd) core.balances)) [
        | inl unseen ↦ ground (
          arith,
          settle-Moves created.0 created.1 ack,
          seed_stores (pos 0) core,
          seed_fields (pos 0) core,
        )
        | inr (row, seen) ↦ ground (arith, settle-Moves row core ack seen)
      ]

  -- A call that throws has remembered no acknowledgement and has changed no row that was there.
  pub apply_delta_error :
      (core : HcmCore) (j : String) (row : HcmBalanceRow)
      → has_returned (apply_delta cmd now core).0 ≡ false
      → lookup j core.balances ≡ some row
      → let core' = (apply_delta cmd now core).1 in
        (core'.applied ≡ core.applied) × (lookup j core'.balances ≡ some row)
  unfolding apply_delta
  apply_delta_error core j row throws seen =
      let created = Core.seed cmd.employee_id cmd.location_id (pos 0) now core in
      elim (Option-cases (lookup cmd.idempotency_key core.applied)) [
        | inr (prior, done) ↦ rw (done, apply_delta) (refl, seen)
        | inl fresh ↦ elim (Option-cases (lookup (key_of cmd) core.balances)) [
          | inl unseen ↦
              ground
                (arith, settle_error created.0 created.1 j row, seed_keeps core j row seen unseen)
          | inr (found, at) ↦ ground (arith, settle_error found core j row)
        ]
      ]

  -- A call that throws has not moved the balance of its key, also where it has created the key.
  pub apply_delta_error-level :
      (core : HcmCore)
      → has_returned (apply_delta cmd now core).0 ≡ false
      → balance_at (key_of cmd) (apply_delta cmd now core).1 ≡ balance_at (key_of cmd) core
  unfolding apply_delta
  apply_delta_error-level core throws =
      let created = Core.seed cmd.employee_id cmd.location_id (pos 0) now core in
      elim (Option-cases (lookup (key_of cmd) core.balances)) [
        | inr (row, known) ↦
            ground (arith, apply_delta_error core (key_of cmd) row throws known, known)
        | inl unseen ↦ ground (
          arith,
          unseen,
          settle_error created.0 created.1 (key_of cmd) created.0,
          seed_stores (pos 0) core,
          seed_fields (pos 0) core,
        )
      ]
