-- ===== src/Common/BalanceMath.antt =====
-- common/balance-math.ts: the derived balance and the predicate that guards a reservation.
pub mod Bounds
use hcm.Prelude.{ℤ, pos, ◌-ℤ◌, ltb_ℤ, leb_ℤ, Bool, ◌&&◌}

pub record BalanceComponents : Type 0 where
  pub hcm_balance : ℤ
  pub reserved_open : ℤ
  pub committed_pending : ℤ

-- `extends BalanceComponents`
pub record BalanceView : Type 0 where
  pub components : BalanceComponents
  pub open components use *
  pub available : ℤ

unfoldable pub compute_available : BalanceComponents → ℤ
compute_available c = c.hcm_balance -ℤ c.reserved_open -ℤ c.committed_pending

unfoldable pub to_view : BalanceComponents → BalanceView
to_view c = record { components = c; available = compute_available c }

unfoldable pub can_reserve : BalanceComponents → ℤ → Bool
can_reserve c days = ltb_ℤ (pos 0) days && leb_ℤ days (compute_available c)

unfoldable pub is_over_allocated : BalanceComponents → Bool
is_over_allocated c = ltb_ℤ (compute_available c) (pos 0)
