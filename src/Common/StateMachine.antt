-- ===== src/Common/StateMachine.antt =====
-- common/state-machine.ts: the transition table of a time-off request, kept as data, and the three
-- functions that read it.
pub mod Lifecycle
use hcm.Prelude.{
  ℕ, zero, suc, Bool, true, false, Option, none, some, is_some, List, [], ◌∷◌, if◌then◌else◌,
}
use hcm.Common.Enums.{RequestStatus, RequestAction, same_action}

-- `Partial<Record<RequestAction, RequestStatus>>`
abbrev pub Row : Type 0
Row = List (RequestAction × RequestStatus)

-- `row[action]`
abbrev pub row_get : RequestAction → Row → Option RequestStatus
row_get a [] = none
row_get a ((b, s) ∷ r) = if same_action a b then some s else row_get a r

unfoldable pub transitions : RequestStatus → Row
transitions RequestStatus.draft =
    (RequestAction.submit, RequestStatus.pending_approval)
    ∷ (RequestAction.cancel, RequestStatus.cancelled)
    ∷ []
transitions RequestStatus.pending_approval =
    (RequestAction.approve, RequestStatus.approved)
    ∷ (RequestAction.reject, RequestStatus.rejected)
    ∷ (RequestAction.cancel, RequestStatus.cancelled)
    ∷ []
transitions RequestStatus.approved =
    (RequestAction.hcm_committed, RequestStatus.committed)
    ∷ (RequestAction.hcm_rejected, RequestStatus.failed)
    ∷ (RequestAction.cancel, RequestStatus.cancelled)
    ∷ []
transitions RequestStatus.committed =
    (RequestAction.cancel, RequestStatus.cancellation_pending) ∷ []
transitions RequestStatus.cancellation_pending =
    (RequestAction.hcm_credit_done, RequestStatus.cancelled) ∷ []
transitions RequestStatus.rejected = []
transitions RequestStatus.cancelled = []
transitions RequestStatus.failed = []

unfoldable pub next_state : RequestStatus → RequestAction → Option RequestStatus
unfolding transitions
next_state from action = row_get action (transitions from)

unfoldable pub can_transition : RequestStatus → RequestAction → Bool
unfolding transitions
can_transition from action = is_some (row_get action (transitions from))

-- `Object.keys(row).length === 0`
unfoldable pub is_terminal : RequestStatus → Bool
unfolding transitions
is_terminal state = elim (transitions state) [ [] ↦ true | _ ∷ _ ↦ false ]
