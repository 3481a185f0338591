-- ===== src/Sent.antt =====
-- How many messages a request has in the outbox (outbox/outbox.service.ts), for each status that
-- common/state-machine.ts knows: what a debit or a credit must not be sent twice for.
pub mod Tables
pub mod Handlers
pub mod Sending
pub mod Delivery
pub mod History
use hcm.Prelude.{ℕ, ◌+◌, ◌≤◌, Bool, List, [], ◌∷◌, String, ◌==◌, All, not, ◌&&◌, if◌then◌else◌}
use hcm.Common.Enums.{RequestStatus, OutboxType, is_debit}
use hcm.Database.{TimeOffRequest, OutboxMessage, Db}

abbrev pub count : {A : Type 0} → (A → Bool) → List A → ℕ
count p [] = 0
count p (x ∷ xs) = (if p x then 1 else 0) + count p xs

-- A DEBIT, or a CREDIT, of this request.
abbrev pub is_debit_of : String → OutboxMessage → Bool
is_debit_of id m = m.request_id == id && is_debit m.type

abbrev pub is_credit_of : String → OutboxMessage → Bool
is_credit_of id m = m.request_id == id && not (is_debit m.type)

-- How many of each a request of a status may have: a DEBIT once it has left PENDING_APPROVAL, and a
-- CREDIT once it has left COMMITTED.
abbrev pub debits_allowed : RequestStatus → ℕ
debits_allowed RequestStatus.draft = 0
debits_allowed RequestStatus.pending_approval = 0
debits_allowed _ = 1

abbrev pub credits_allowed : RequestStatus → ℕ
credits_allowed RequestStatus.cancellation_pending = 1
credits_allowed RequestStatus.cancelled = 1
credits_allowed _ = 0

abbrev pub IsSentOnce : List OutboxMessage → TimeOffRequest → Type 0
IsSentOnce outbox r =
    (count (is_debit_of r.id) outbox ≤ debits_allowed r.status)
    × (count (is_credit_of r.id) outbox ≤ credits_allowed r.status)

-- Every request has at most the messages that its status allows.
abbrev pub SentOnce : Db → Type 0
SentOnce db = All (IsSentOnce db.outbox) db.requests
