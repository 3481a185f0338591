-- ===== src/Common/StateMachine/Lifecycle.antt =====
-- The lifecycle of a request as the table of common/state-machine.ts draws it: a step relation, its
-- runs, and what every run has in common.
use hcm.Prelude.{
  ℕ, suc, ◌+◌, ◌≤◌, ◌<◌, ◌≡◌, refl, ◌↔◌, inl, inr, true, false, none, some, is_some, Bool-cases,
  arith,
}
use hcm.Common.Enums.{RequestStatus, RequestAction}
use hcm.Common.StateMachine.{next_state, can_transition, is_terminal}

-- A run of actions, each legal where it is taken, with the number of them.
pub data Run : ℕ → RequestStatus → RequestStatus → Type 0 where
  stay : {s : RequestStatus} → Run 0 s s
  step :
      {n : ℕ} {s u : RequestStatus} (a : RequestAction) (t : RequestStatus)
      → next_state s a ≡ some t
      → Run n t u
      → Run (suc n) s u

-- The most actions that a request in this state can still take.
abbrev pub actions_left : RequestStatus → ℕ
actions_left RequestStatus.draft = 5
actions_left RequestStatus.pending_approval = 4
actions_left RequestStatus.approved = 3
actions_left RequestStatus.committed = 2
actions_left RequestStatus.cancellation_pending = 1
actions_left _ = 0

pub next_state-actions_left :
    (s : RequestStatus) (a : RequestAction) (t : RequestStatus)
    → next_state s a ≡ some t
    → actions_left t < actions_left s
unfolding next_state
next_state-actions_left s a t h = ground arith

-- Every action uses up at least one of the actions left: no lifecycle is longer than five actions
-- from DRAFT, and none goes round in a circle.
pub Run-actions_left :
    (n : ℕ) (s t : RequestStatus) → Run n s t → n + actions_left t ≤ actions_left s
Run-actions_left n s t stay = omega arith
Run-actions_left n s t (step {n = m} a u h r) =
    omega (arith, next_state-actions_left s a u h, Run-actions_left m u t r)

pub can_transition-is_some :
    (s : RequestStatus) (a : RequestAction) → can_transition s a ≡ is_some (next_state s a)
unfolding can_transition next_state
can_transition-is_some s a = refl

terminal_blocks :
    (s : RequestStatus) (a : RequestAction) → is_terminal s ≡ true → next_state s a ≡ none
unfolding is_terminal next_state
terminal_blocks s a h = ground arith

-- In a state that is not terminal, the first action of its row and where it leads.
first_action :
    (s : RequestStatus)
    → is_terminal s ≡ false
    → (a : RequestAction) × (t : RequestStatus) × (next_state s a ≡ some t)
unfolding is_terminal next_state
first_action RequestStatus.draft h = (RequestAction.submit, RequestStatus.pending_approval, refl)
first_action RequestStatus.pending_approval h =
    (RequestAction.approve, RequestStatus.approved, refl)
first_action RequestStatus.approved h = (RequestAction.hcm_committed, RequestStatus.committed, refl)
first_action RequestStatus.committed h =
    (RequestAction.cancel, RequestStatus.cancellation_pending, refl)
first_action RequestStatus.cancellation_pending h =
    (RequestAction.hcm_credit_done, RequestStatus.cancelled, refl)
first_action RequestStatus.rejected h = cc
first_action RequestStatus.cancelled h = cc
first_action RequestStatus.failed h = cc

-- A state is terminal exactly when no action has a next state in it, and the guard
-- `can_transition` refuses exactly the actions that have no next state.
is_terminal_iff :
    (s : RequestStatus)
    → ((is_terminal s ≡ true) ↔ ((a : RequestAction) → next_state s a ≡ none))
      × ((a : RequestAction) → (can_transition s a ≡ false) ↔ (next_state s a ≡ none))
is_terminal_iff s = (
  (
    λ h a. terminal_blocks s a h,
    λ none_left. elim (Bool-cases (is_terminal s)) [
      | inl e ↦ e
      | inr e ↦ let (a, t, x) = first_action s e in cc (none_left a)
    ],
  ),
  λ a. (guard_refuses s a, refused_guard s a),
)
  where
    guard_refuses :
        (x : RequestStatus) (a : RequestAction) → can_transition x a ≡ false → next_state x a ≡ none
    guard_refuses x a h = ground (arith, can_transition-is_some x a)

    refused_guard :
        (x : RequestStatus) (a : RequestAction) → next_state x a ≡ none → can_transition x a ≡ false
    refused_guard x a h = ground (arith, can_transition-is_some x a)

-- A request becomes COMMITTED in one way only, by the acknowledgement of an APPROVED one.
next_state-committed :
    (s : RequestStatus) (a : RequestAction)
    → next_state s a ≡ some RequestStatus.committed
    → (s ≡ RequestStatus.approved) × (a ≡ RequestAction.hcm_committed)
unfolding next_state
next_state-committed s a h = ground arith

-- From every state a terminal state can be reached, in at most five actions.
terminal_reachable :
    (s : RequestStatus)
    → (n : ℕ) × (t : RequestStatus) × (n ≤ 5) × Run n s t × (is_terminal t ≡ true)
unfolding next_state is_terminal
terminal_reachable RequestStatus.draft =
    (1, RequestStatus.cancelled, omega arith, step RequestAction.cancel _ refl stay, refl)
terminal_reachable RequestStatus.pending_approval =
    (1, RequestStatus.cancelled, omega arith, step RequestAction.cancel _ refl stay, refl)
terminal_reachable RequestStatus.approved =
    (1, RequestStatus.cancelled, omega arith, step RequestAction.cancel _ refl stay, refl)
terminal_reachable RequestStatus.committed = (
  2,
  RequestStatus.cancelled,
  omega arith,
  step RequestAction.cancel _ refl (step RequestAction.hcm_credit_done _ refl stay),
  refl,
)
terminal_reachable RequestStatus.cancellation_pending =
    (1, RequestStatus.cancelled, omega arith, step RequestAction.hcm_credit_done _ refl stay, refl)
terminal_reachable RequestStatus.rejected = (0, RequestStatus.rejected, omega arith, stay, refl)
terminal_reachable RequestStatus.cancelled = (0, RequestStatus.cancelled, omega arith, stay, refl)
terminal_reachable RequestStatus.failed = (0, RequestStatus.failed, omega arith, stay, refl)
