-- ===== src/Hcm/HttpClient/Breaking.antt =====
-- How the guard of hcm/http-hcm.client.ts drives the circuit breaker over a history of calls.
use hcm.Prelude.{
  if◌then◌else◌, subst, sym, Bool, ltb, ℕ, ◌≤◌, ◌+◌, ◌≡◌, refl, true, false, List, [], ◌∷◌, arith,
  Bool-cases, inl, inr, ◌&&◌,
}
use hcm.Common.CircuitBreaker.{
  CircuitState, CircuitBreakerOptions, CircuitBreaker, get_state, can_attempt, record_success,
  record_failure, is_open,
}
use hcm.Hcm.Core.{Answer}
use hcm.Hcm.HttpClient.{Attempt, finish, guarded}

-- A call: when it starts, when its outcome is recorded, and what it gives if it is made.
abbrev pub Call : Type 0 → Type 0
Call A = ℕ × ℕ × Attempt A

abbrev pub is_closed : CircuitState → Bool
is_closed CircuitState.closed = true
is_closed _ = false

-- The breaker is CLOSED exactly while it has counted fewer failures than the threshold.
abbrev pub CountsFailures : CircuitBreakerOptions → CircuitBreaker → Type 0
CountsFailures opts b = is_closed b.state ≡ ltb b.consecutive_failures opts.failure_threshold

module _ (opts : CircuitBreakerOptions) where
  get_state-CountsFailures :
      (now : ℕ) (b : CircuitBreaker)
      → CountsFailures opts b
      → CountsFailures opts (get_state opts now b).1
  unfolding get_state
  get_state-CountsFailures now b h = ground arith

  record_failure-CountsFailures :
      (now : ℕ) (b : CircuitBreaker)
      → CountsFailures opts b
      → CountsFailures opts (record_failure opts now b)
  unfolding record_failure
  record_failure-CountsFailures now b h = ground arith

  record_success-CountsFailures :
      (b : CircuitBreaker) → 1 ≤ opts.failure_threshold → CountsFailures opts (record_success b)
  unfolding record_success
  record_success-CountsFailures b some_failures = ground arith

  -- A breaker that has counted `n` failures in a row.
  abbrev pub HasCounted : ℕ → CircuitBreaker → Type 0
  HasCounted n b = (b.consecutive_failures ≡ n) × CountsFailures opts b

  get_state-HasCounted :
      (now n : ℕ) (b : CircuitBreaker) → HasCounted n b → HasCounted n (get_state opts now b).1
  unfolding get_state
  get_state-HasCounted now n b h = (ground (arith, h.0), get_state-CountsFailures now b h.1)

module _ {A : Type 0} where
  -- A call that fails, if it is made, in one way or the other.
  abbrev pub fails : Call A → Bool
  fails (now, later, Attempt.answered (Answer.unavailable m)) = true
  fails (now, later, Attempt.failed text) = true
  fails _ = false

  -- A call that returns, if it is made.
  abbrev pub succeeds : Call A → Bool
  succeeds (now, later, Attempt.answered (Answer.returns a)) = true
  succeeds _ = false

  -- The failures since the last success, `n` of them before these calls. An HCM that refuses a
  -- command has neither failed nor succeeded.
  abbrev pub in_a_row : ℕ → List (Call A) → ℕ
  in_a_row n [] = n
  in_a_row n (c ∷ calls) = in_a_row (if succeeds c then 0 else if fails c then n + 1 else n) calls

  -- The answer of a call that is made.
  abbrev pub answer : Attempt A → Answer A
  answer (Attempt.answered a) = a
  answer (Attempt.failed text) = Answer.unavailable text

module _ {A : Type 0} (opts : CircuitBreakerOptions) where
  unfoldable pub guarded_all : List (Call A) → CircuitBreaker → CircuitBreaker
  guarded_all [] b = b
  guarded_all ((now, later, attempt) ∷ calls) b =
      guarded_all calls (guarded opts now later attempt b).1

  -- The calls that are made: the others find the breaker OPEN before its cooldown has passed.
  abbrev pub made : List (Call A) → CircuitBreaker → List (Call A)
  made [] b = []
  made ((now, later, attempt) ∷ calls) b =
      let rest = made calls (guarded opts now later attempt b).1 in
      if is_open b.state && ltb now (b.opened_at + opts.cooldown_ms)
      then rest
      else (now, later, attempt) ∷ rest

  finish-HasCounted :
      (now later : ℕ) (attempt : Attempt A) (n : ℕ) (b : CircuitBreaker)
      → 1 ≤ opts.failure_threshold
      → HasCounted opts n b
      → HasCounted opts (in_a_row n ((now, later, attempt) ∷ [])) (finish opts later attempt b).1
  unfolding finish record_success record_failure
  finish-HasCounted now later (Attempt.answered (Answer.returns a)) n b some_failures h =
      (refl, record_success-CountsFailures opts b some_failures)
  finish-HasCounted now later (Attempt.answered (Answer.rejection c m)) n b some_failures h = h
  finish-HasCounted now later (Attempt.answered (Answer.unavailable m)) n b some_failures h =
      (ground (arith, h.0), record_failure-CountsFailures opts later b h.1)
  finish-HasCounted now later (Attempt.failed t) n b some_failures h =
      (ground (arith, h.0), record_failure-CountsFailures opts later b h.1)

  -- A call that is refused leaves the breaker, and one that is made is recorded.
  guarded-refused :
      (now later : ℕ) (attempt : Attempt A) (b : CircuitBreaker)
      → is_open b.state && ltb now (b.opened_at + opts.cooldown_ms) ≡ true
      → (guarded opts now later attempt b).1 ≡ b
  unfolding guarded can_attempt get_state
  guarded-refused now later attempt b refused = ground arith

  guarded-made :
      (now later : ℕ) (attempt : Attempt A) (b : CircuitBreaker)
      → is_open b.state && ltb now (b.opened_at + opts.cooldown_ms) ≡ false
      → (guarded opts now later attempt b).1
        ≡ (finish opts later attempt (get_state opts now b).1).1
  unfolding guarded can_attempt get_state
  guarded-made now later attempt b allowed = ground arith

  -- Over any history of calls, at whatever times and however they end, the breaker has counted the
  -- failures in a row of the calls that were made, those since the last one that returned, where a
  -- rejection by HCM is neither a failure nor a success, and it is CLOSED exactly while they are
  -- fewer than the threshold. The threshold is at least one, and the breaker has counted so before.
  pub guarded_all-CountsFailures :
      (calls : List (Call A)) (n : ℕ) (b : CircuitBreaker)
      → 1 ≤ opts.failure_threshold
      → HasCounted opts n b
      → HasCounted opts (in_a_row n (made calls b)) (guarded_all calls b)
  unfolding guarded_all
  guarded_all-CountsFailures [] n b some_failures h = h
  guarded_all-CountsFailures ((now, later, attempt) ∷ calls) n b some_failures h =
      let b' = (guarded opts now later attempt b).1 in
      elim (Bool-cases (is_open b.state && ltb now (b.opened_at + opts.cooldown_ms))) [
        | inl refused ↦
            let kept : HasCounted opts n b' =
              subst (HasCounted opts n) (sym (guarded-refused now later attempt b refused)) h in
            rw refused (guarded_all-CountsFailures calls n b' some_failures kept)
        | inr allowed ↦
            let counted : HasCounted opts (in_a_row n ((now, later, attempt) ∷ [])) b' =
              subst (HasCounted opts (in_a_row n ((now, later, attempt) ∷ [])))
                (sym (guarded-made now later attempt b allowed))
                (finish-HasCounted now later attempt n _ some_failures
                  (get_state-HasCounted opts now n b h)) in
            rw allowed (guarded_all-CountsFailures calls _ b' some_failures counted)
      ]

  pub finish_answers :
      (later : ℕ) (attempt : Attempt A) (b : CircuitBreaker)
      → (finish opts later attempt b).0 ≡ answer attempt
  unfolding finish
  finish_answers later (Attempt.answered (Answer.returns a)) b = refl
  finish_answers later (Attempt.answered (Answer.rejection c m)) b = refl
  finish_answers later (Attempt.answered (Answer.unavailable m)) b = refl
  finish_answers later (Attempt.failed t) b = refl
