-- ===== src/Tests/Engine.antt =====
-- Inputs for the theorems on hcm/hcm-core.ts and hcm/http-hcm.client.ts.
use hcm.Prelude.{
  ℕ, ◌+◌, arith, ◌+ℤ◌, ◌-ℤ◌, show_ℕ, ◌≡◌, refl, true, false, [], ◌∷◌, List, String, ℤ, pos, lookup,
}
use hcm.Hcm.Core.{
  HcmBalanceRow, HcmCore, ApplyDeltaCommand, ApplyDeltaAck, DeltaType, Answer, new, key,
  RejectionCode, apply_delta, get_balance, acknowledge, settle, gen_ref,
}
use hcm.Common.CircuitBreaker
use hcm.Common.CircuitBreaker.{CircuitBreakerOptions}
use hcm.Hcm.HttpClient.{Attempt}
use hcm.Hcm.HttpClient.Breaking.{
  Call, HasCounted, in_a_row, made, guarded_all, guarded_all-CountsFailures,
}
use hcm.Hcm.Core
use hcm.Hcm.Core.Keys.{get_balance-seed_shared}
use hcm.Hcm.Core.Overdraft.{NonNegative, apply_delta-NonNegative}
use hcm.Hcm.Core.Versions.{Op, perform_all, Grows, perform_all-Grows}
use hcm.Hcm.Core.Replay.{apply_delta_once}

abbrev row : HcmBalanceRow
row = record {
  employee_id = "emp-1";
  location_id = "loc-1";
  balance = pos 10;
  version = 1;
  as_of = "2026-01-01T00:00:00.000Z";
}

abbrev core : HcmCore
core = record new { balances = ("emp-1|loc-1", row) ∷ [] }

abbrev debit_of : ℤ → ApplyDeltaCommand
debit_of amount = record {
  employee_id = "emp-1";
  location_id = "loc-1";
  amount = amount;
  type = DeltaType.debit;
  idempotency_key = "debit:req-1";
}

abbrev noon : String
noon = "2026-01-01T12:00:00.000Z"

abbrev first_ack : ApplyDeltaAck
first_ack = record {
  hcm_ref = "hcm-ref-1";
  balance = pos 7;
  version = 2;
  applied = true;
  replayed = false;
}

acknowledged : (apply_delta (debit_of (pos 3)) noon core).0 ≡ Answer.returns first_ack
unfolding apply_delta settle acknowledge gen_ref key ◌+ℤ◌ ◌-ℤ◌ show_ℕ
acknowledged = refl

refused : (apply_delta (debit_of (pos 30)) noon core).1 ≡ core
unfolding apply_delta settle key ◌+ℤ◌ ◌-ℤ◌
refused = refl

-- Between the call and its repetition the balance is set anew and another key is read.
abbrev between : List Op
between = Op.seed "emp-1" "loc-1" (pos 20) noon ∷ Op.get_balance "emp-2" "loc-1" noon ∷ []

apply_delta_once_example :
    let core' = perform_all between (apply_delta (debit_of (pos 3)) noon core).1 in
    apply_delta (debit_of (pos 4)) noon core'
    ≡ (Answer.returns (record first_ack { replayed = true }), core')
apply_delta_once_example =
    apply_delta_once (debit_of (pos 3)) noon core first_ack acknowledged between (debit_of (pos 4))
      noon refl

perform_all-Grows_example :
    Grows
      (lookup "emp-1|loc-1" core.balances)
      (lookup "emp-1|loc-1" (perform_all between core).balances)
perform_all-Grows_example = perform_all-Grows "emp-1|loc-1" between core

core-NonNegative : NonNegative core
core-NonNegative j = ground arith

apply_delta-NonNegative_example : NonNegative (apply_delta (debit_of (pos 3)) noon core).1
apply_delta-NonNegative_example =
    apply_delta-NonNegative (debit_of (pos 3)) noon core refl (omega arith) core-NonNegative

-- Three failures open the breaker for a second.
abbrev options : CircuitBreakerOptions
options = record { failure_threshold = 3; cooldown_ms = 1000 }

abbrev timeout_at : ℕ → Call ℕ
timeout_at now = (now, now + 5, Attempt.failed "aborted")

abbrev two_timeouts : List (Call ℕ)
two_timeouts = timeout_at 10 ∷ timeout_at 20 ∷ []

abbrev early : Call ℕ
early = (500, 505, Attempt.answered (Answer.returns 7))

-- A rejection between two failures.
abbrev history : List (Call ℕ)
history =
    timeout_at 10
    ∷ (15, 16, Attempt.answered (Answer.rejection RejectionCode.insufficient_balance "short"))
    ∷ timeout_at 20
    ∷ []

guarded_all-CountsFailures_example :
    HasCounted options
      (in_a_row 0 (made options history CircuitBreaker.new))
      (guarded_all options history CircuitBreaker.new)
guarded_all-CountsFailures_example =
    guarded_all-CountsFailures options history 0 CircuitBreaker.new (omega arith) (refl, refl)

get_balance-seed_shared_example :
    let (seeded_row, core') = Core.seed "emp|1" "loc" (pos 20) noon core in
    get_balance "emp" "1|loc" noon core' ≡ (Answer.returns seeded_row, core')
get_balance-seed_shared_example =
    get_balance-seed_shared "emp" "1" "loc" (pos 20) noon noon core refl
