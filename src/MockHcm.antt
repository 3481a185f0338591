-- ===== src/MockHcm.antt =====
-- mock-hcm/mock-hcm.controller.ts: the HCM engine as a server. A handler gives its reply and the new
-- engine; `now` is the time of the engine's clock as a text.
pub mod Remote
use hcm.Prelude.{ℕ, Bool, true, List, Option, none, some, String, ℤ}
use hcm.Hcm.Core
use hcm.Hcm.Core.{
  HcmBalanceRow, ApplyDeltaCommand, ApplyDeltaAck, RejectionCode, Answer, PartialFaultConfig,
  HcmCore,
}
use hcm.Hcm.HttpClient.{ErrorBody}

-- A handler returns, with status 200, or throws an `HttpException` of this body and status.
pub data Reply (A : Type 0) : Type 0 where
  returned : A → Reply A
  thrown : ErrorBody → ℕ → Reply A

-- `err.code`
abbrev pub code_text : RejectionCode → String
code_text RejectionCode.insufficient_balance = "INSUFFICIENT_BALANCE"
code_text RejectionCode.invalid_dimensions = "INVALID_DIMENSIONS"

unfoldable pub guard : {A : Type 0} → Answer A → Reply A
guard (Answer.returns a) = returned a
guard (Answer.rejection code message) =
    thrown (record { code = some (code_text code); message = some message }) 422
guard (Answer.unavailable message) =
    thrown (record { code = some "UNAVAILABLE"; message = some message }) 503

unfoldable pub get_balance : String → String → String → HcmCore → Reply HcmBalanceRow × HcmCore
get_balance employee_id location_id now core =
    let (answer, core') = Core.get_balance employee_id location_id now core in (guard answer, core')

unfoldable pub apply : ApplyDeltaCommand → String → HcmCore → Reply ApplyDeltaAck × HcmCore
apply body now core = let (answer, core') = Core.apply_delta body now core in (guard answer, core')

-- The `balances` of the reply.
unfoldable pub corpus : HcmCore → List HcmBalanceRow
corpus core = Core.dump_corpus core

-- `{ ok: true }`
pub record Ok : Type 0 where
  pub ok : Bool

unfoldable pub reset : HcmCore → Ok × HcmCore
reset core = (record { ok = true }, Core.reset core)

unfoldable pub faults : PartialFaultConfig → HcmCore → Ok × HcmCore
faults body core = (record { ok = true }, Core.configure_faults body core)

unfoldable pub seed : String → String → ℤ → String → HcmCore → HcmBalanceRow × HcmCore
seed employee_id location_id balance now core = Core.seed employee_id location_id balance now core

unfoldable pub adjust : String → String → ℤ → String → HcmCore → Reply HcmBalanceRow × HcmCore
adjust employee_id location_id delta now core =
    let (answer, core') = Core.adjust employee_id location_id delta now core in
    (guard answer, core')

-- `{ ok: res.ok, status: res.status }`
pub record Emitted : Type 0 where
  pub ok : Bool
  pub status : ℕ

-- `emitBatch`, where `post` is the `fetch` that posts the balances to the target.
unfoldable pub emit_batch : (List HcmBalanceRow → Bool × ℕ) → HcmCore → Emitted
emit_batch post core =
    let (ok, status) = post (Core.dump_corpus core) in record { ok = ok; status = status }
