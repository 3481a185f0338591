-- ===== src/Hcm/Client.antt =====
-- hcm/hcm-client.interface.ts: the HCM as the services see it, a state with two calls; and the
-- in-process client of hcm/in-process-hcm.client.ts.
use hcm.Prelude.{String}
use hcm.Hcm.Core.{
  HcmBalanceRow, ApplyDeltaCommand, ApplyDeltaAck, Answer, HcmCore, get_balance, apply_delta,
}

-- `IHcmClient`
pub record HcmClient : Type 1 where
  pub State : Type 0
  pub get_balance : String → String → State → Answer HcmBalanceRow × State
  pub apply_delta : ApplyDeltaCommand → State → Answer ApplyDeltaAck × State

-- `InProcessHcmClient`, at a time `now` of the engine's clock.
abbrev pub in_process : String → HcmClient
in_process now = record {
  State = HcmCore;
  get_balance = λ e l core. get_balance e l now core;
  apply_delta = λ cmd core. apply_delta cmd now core;
}
