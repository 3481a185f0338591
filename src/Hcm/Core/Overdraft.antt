-- ===== src/Hcm/Core/Overdraft.antt =====
-- The overdraft check of hcm/hcm-core.ts.
use hcm.Prelude.{
  ◌≡◌, String, ℤ, pos, ◌+ℤ◌, ◌≤ℤ◌, int_laws, false, arith, lookup, insert, lookup-insert,
  Option-cases, inl, inr,
}
use hcm.Hcm.Core
use hcm.Hcm.Core.{
  HcmBalanceRow, HcmCore, ApplyDeltaCommand, DeltaType, key, acknowledge, settle, apply_delta, bump,
  signed,
}
use hcm.Hcm.Core.Deltas.{balance_at, key_of}

module _ (cmd : ApplyDeltaCommand) (now : String) (j : String) where
  stored_balance :
      (core : HcmCore) (row : HcmBalanceRow)
      → pos 0 ≤ℤ balance_at j core
      → pos 0 ≤ℤ row.balance
      → pos 0 ≤ℤ balance_at j (record core { balances = insert (key_of cmd) row core.balances })
  stored_balance core row h k = ground (arith, lookup-insert (key_of cmd) j row core.balances)

  credited : (a b : ℤ) → pos 0 ≤ℤ a → pos 0 ≤ℤ b → pos 0 ≤ℤ a +ℤ b
  credited a b h k = omega int_laws

  settle-non_negative :
      (row : HcmBalanceRow) (core : HcmCore)
      → core.faults.silent_overdraw ≡ false
      → pos 0 ≤ℤ cmd.amount
      → pos 0 ≤ℤ row.balance
      → pos 0 ≤ℤ balance_at j core
      → pos 0 ≤ℤ balance_at j (settle cmd now row core).1
  unfolding settle acknowledge
  settle-non_negative row core strict amount r h =
      let moved = bump row (signed cmd) now in
      ground (arith, stored_balance core moved h, credited row.balance cmd.amount r amount)

-- No employee has less than nothing.
abbrev pub NonNegative : HcmCore → Type 0
NonNegative core = (j : String) → pos 0 ≤ℤ balance_at j core

-- An engine that does not overdraw silently never drives a balance below zero: if none is negative
-- before a command whose amount is not negative, none is after it, however the command ends.
pub apply_delta-NonNegative :
    (cmd : ApplyDeltaCommand) (now : String) (core : HcmCore)
    → core.faults.silent_overdraw ≡ false
    → pos 0 ≤ℤ cmd.amount
    → NonNegative core
    → NonNegative (apply_delta cmd now core).1
unfolding apply_delta Core.seed
apply_delta-NonNegative cmd now core strict amount h j =
    let (created, core') = Core.seed cmd.employee_id cmd.location_id (pos 0) now core in
    elim (Option-cases (lookup (key_of cmd) core.balances)) [
      | inl unseen ↦
          let rest = stored_balance cmd now j core created (h j) (omega arith) in
          let settled =
            settle-non_negative cmd now j created core' strict amount (omega arith) rest in
          ground (arith, h j, settled)
      | inr (row, seen) ↦
          let own : pos 0 ≤ℤ row.balance = ground (arith, h (key_of cmd)) in
          ground (arith, h j, settle-non_negative cmd now j row core strict amount own (h j))
    ]
