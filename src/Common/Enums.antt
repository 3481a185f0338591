-- ===== src/Common/Enums.antt =====
-- common/enums.ts and the `RequestAction` of common/state-machine.ts: the domain enums, with the
-- comparisons that the services make.
use hcm.Prelude.{Bool, true, false}

pub data RequestStatus : Type 0 where
  draft pending_approval approved committed rejected cancelled : RequestStatus
  cancellation_pending failed : RequestStatus

pub data LedgerPhase : Type 0 where
  reserve commit release hcm_adjustment : LedgerPhase

pub data LedgerState : Type 0 where
  active released reconciled : LedgerState

pub data OutboxType : Type 0 where
  debit credit : OutboxType

pub data OutboxStatus : Type 0 where
  pending inflight done failed dead : OutboxStatus

pub data ReconciliationEventType : Type 0 where
  reconciled balance_increased balance_decreased over_allocated drift_detected :
      ReconciliationEventType

pub data RequestAction : Type 0 where
  submit approve reject cancel hcm_committed hcm_rejected hcm_credit_done : RequestAction

-- `===` on the enums.
abbrev pub same_status : RequestStatus → RequestStatus → Bool
same_status RequestStatus.draft RequestStatus.draft = true
same_status RequestStatus.pending_approval RequestStatus.pending_approval = true
same_status RequestStatus.approved RequestStatus.approved = true
same_status RequestStatus.committed RequestStatus.committed = true
same_status RequestStatus.rejected RequestStatus.rejected = true
same_status RequestStatus.cancelled RequestStatus.cancelled = true
same_status RequestStatus.cancellation_pending RequestStatus.cancellation_pending = true
same_status RequestStatus.failed RequestStatus.failed = true
same_status _ _ = false

abbrev pub same_phase : LedgerPhase → LedgerPhase → Bool
same_phase LedgerPhase.reserve LedgerPhase.reserve = true
same_phase LedgerPhase.commit LedgerPhase.commit = true
same_phase LedgerPhase.release LedgerPhase.release = true
same_phase LedgerPhase.hcm_adjustment LedgerPhase.hcm_adjustment = true
same_phase _ _ = false

abbrev pub same_state : LedgerState → LedgerState → Bool
same_state LedgerState.active LedgerState.active = true
same_state LedgerState.released LedgerState.released = true
same_state LedgerState.reconciled LedgerState.reconciled = true
same_state _ _ = false

abbrev pub is_debit : OutboxType → Bool
is_debit OutboxType.debit = true
is_debit OutboxType.credit = false

abbrev pub same_outbox_status : OutboxStatus → OutboxStatus → Bool
same_outbox_status OutboxStatus.pending OutboxStatus.pending = true
same_outbox_status OutboxStatus.inflight OutboxStatus.inflight = true
same_outbox_status OutboxStatus.done OutboxStatus.done = true
same_outbox_status OutboxStatus.failed OutboxStatus.failed = true
same_outbox_status OutboxStatus.dead OutboxStatus.dead = true
same_outbox_status _ _ = false

abbrev pub same_event_type : ReconciliationEventType → ReconciliationEventType → Bool
same_event_type ReconciliationEventType.reconciled ReconciliationEventType.reconciled = true
same_event_type ReconciliationEventType.balance_increased
      ReconciliationEventType.balance_increased =
    true
same_event_type ReconciliationEventType.balance_decreased
      ReconciliationEventType.balance_decreased =
    true
same_event_type ReconciliationEventType.over_allocated ReconciliationEventType.over_allocated = true
same_event_type ReconciliationEventType.drift_detected ReconciliationEventType.drift_detected = true
same_event_type _ _ = false

abbrev pub same_action : RequestAction → RequestAction → Bool
same_action RequestAction.submit RequestAction.submit = true
same_action RequestAction.approve RequestAction.approve = true
same_action RequestAction.reject RequestAction.reject = true
same_action RequestAction.cancel RequestAction.cancel = true
same_action RequestAction.hcm_committed RequestAction.hcm_committed = true
same_action RequestAction.hcm_rejected RequestAction.hcm_rejected = true
same_action RequestAction.hcm_credit_done RequestAction.hcm_credit_done = true
same_action _ _ = false
