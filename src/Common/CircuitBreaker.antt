-- ===== src/Common/CircuitBreaker.antt =====
-- common/circuit-breaker.ts: the circuit breaker around the HCM. A method that mutates the object
-- returns the new one; `now` is the time in milliseconds.
use hcm.Prelude.{ℕ, ◌+◌, Bool, true, false, leb, if◌then◌else◌}

-- `OPEN` is `opened`.
pub data CircuitState : Type 0 where
  closed opened half_open : CircuitState

pub record CircuitBreakerOptions : Type 0 where
  pub failure_threshold : ℕ
  pub cooldown_ms : ℕ

pub record CircuitBreaker : Type 0 where
  pub state : CircuitState
  pub consecutive_failures : ℕ
  pub opened_at : ℕ

abbrev pub new : CircuitBreaker
new = record { state = CircuitState.closed; consecutive_failures = 0; opened_at = 0 }

-- `this.state === 'OPEN'`
abbrev pub is_open : CircuitState → Bool
is_open CircuitState.opened = true
is_open _ = false

abbrev pub not_open : CircuitState → Bool
not_open CircuitState.opened = false
not_open _ = true

-- `now - openedAt >= cooldownMs`, in a form that needs no subtraction.
abbrev pub cooled : CircuitBreakerOptions → ℕ → CircuitBreaker → Bool
cooled opts now b = leb (b.opened_at + opts.cooldown_ms) now

unfoldable pub get_state :
    CircuitBreakerOptions → ℕ → CircuitBreaker → CircuitState × CircuitBreaker
get_state opts now b =
    let b' =
      if is_open b.state
      then (if cooled opts now b then record b { state = CircuitState.half_open } else b)
      else b in
    (b'.state, b')

unfoldable pub can_attempt : CircuitBreakerOptions → ℕ → CircuitBreaker → Bool × CircuitBreaker
unfolding get_state
can_attempt opts now b = let (state, b') = get_state opts now b in (not_open state, b')

unfoldable pub record_success : CircuitBreaker → CircuitBreaker
record_success b = record b { consecutive_failures = 0; state = CircuitState.closed }

unfoldable pub record_failure : CircuitBreakerOptions → ℕ → CircuitBreaker → CircuitBreaker
record_failure opts now b =
    let failures = b.consecutive_failures + 1 in
    if leb opts.failure_threshold failures
    then record { state = CircuitState.opened; consecutive_failures = failures; opened_at = now }
    else record b { consecutive_failures = failures }
