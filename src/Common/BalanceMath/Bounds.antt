-- ===== src/Common/BalanceMath/Bounds.antt =====
-- The guard of a reservation (common/balance-math.ts).
use hcm.Prelude.{ℤ, pos, ◌+ℤ◌, ◌-ℤ◌, ◌≤ℤ◌, int_laws, ◌≡◌, ◌↔◌, true, arith}
use hcm.Common.BalanceMath.{BalanceComponents, compute_available, can_reserve}

-- The components once `days` more are held.
abbrev pub hold : BalanceComponents → ℤ → BalanceComponents
hold c days = record c { reserved_open = c.reserved_open +ℤ days }

pub compute_available-hold :
    (c : BalanceComponents) (days : ℤ)
    → compute_available (hold c days) ≡ compute_available c -ℤ days
unfolding compute_available
compute_available-hold c days = omega int_laws

pub can_reserve-le :
    (c : BalanceComponents) (days : ℤ)
    → can_reserve c days ≡ true
    → (pos 1 ≤ℤ days) × (days ≤ℤ compute_available c)
unfolding can_reserve
can_reserve-le c days h = ground arith

pub le-can_reserve :
    (c : BalanceComponents) (days : ℤ)
    → pos 1 ≤ℤ days
    → days ≤ℤ compute_available c
    → can_reserve c days ≡ true
unfolding can_reserve
le-can_reserve c days p q = ground arith

-- A reservation is allowed exactly when it is of at least one day and the available balance is
-- still not negative once the days are held.
pub can_reserve_iff :
    (c : BalanceComponents) (days : ℤ)
    → (can_reserve c days ≡ true) ↔ ((pos 1 ≤ℤ days) × (pos 0 ≤ℤ compute_available (hold c days)))
can_reserve_iff c days = (
  λ h. let (p, q) = can_reserve-le c days h in (p, rw compute_available-hold (omega int_laws)),
  λ h. let (p, q) = h in le-can_reserve c days p (fits p q),
)
  where
    fits : pos 1 ≤ℤ days → pos 0 ≤ℤ compute_available (hold c days) → days ≤ℤ compute_available c
    fits p q = let q' = rw compute_available-hold at q in omega int_laws
