-- ===== src/Sent/Tables.antt =====
-- Counting the messages of a request over the writes of outbox/outbox.service.ts and of
-- time-off/time-off.service.ts.
use hcm.Prelude.{
  ◌≡◌, refl, ◌≤◌, ◌+◌, Bool, false, List, [], ◌∷◌, ◌++◌, ◌==◌, eq_iff, any, All, All-mono, arith,
  inl, inr, some, if◌then◌else◌, Bool-cases,
}
use hcm.Common.Enums.{RequestStatus, RequestAction}
use hcm.Common.StateMachine.{next_state}
use hcm.Database.{TimeOffRequest, OutboxMessage, same_message, same_request}
use hcm.Database.Orm.{update_rows, save_row}
use hcm.Database.Rows.{All-save_row, OrReplaced}
use hcm.Sent.{count, is_debit_of, is_credit_of, debits_allowed, credits_allowed, IsSentOnce}

module _ {A : Type 0} where
  -- A write that leaves what is counted.
  count-update_rows :
      (q p : A → Bool) (f : A → A) (xs : List A)
      → ((x : A) → q (f x) ≡ q x)
      → count q (update_rows p f xs) ≡ count q xs
  count-update_rows q p f [] same = refl
  count-update_rows q p f (x ∷ xs) same = ground (arith, same x, count-update_rows q p f xs same)

  count-append :
      (q : A → Bool) (x : A) (xs : List A)
      → count q (xs ++ x ∷ []) ≡ count q xs + (if q x then 1 else 0)
  count-append q x [] = ground arith
  count-append q x (y ∷ xs) = ground (arith, count-append q x xs)

  pub count-none :
      (q p : A → Bool) (xs : List A)
      → ((x : A) → p x ≡ false → q x ≡ false)
      → any p xs ≡ false
      → count q xs ≡ 0
  count-none q p [] part h = refl
  count-none q p (x ∷ xs) part h = ground (arith, part x, count-none q p xs part)

-- A write that changes neither the request nor the type of a message.
pub All-updated :
    (p : OutboxMessage → Bool) (f : OutboxMessage → OutboxMessage) (outbox : List OutboxMessage)
    → ((m : OutboxMessage) → (f m).request_id ≡ m.request_id)
    → ((m : OutboxMessage) → (f m).type ≡ m.type)
    → (rows : List TimeOffRequest) → All (IsSentOnce outbox) rows
    → All (IsSentOnce (update_rows p f outbox)) rows
All-updated p f outbox owner type rows h =
    All-mono rows
      (λ (x : TimeOffRequest) once. (
        rw (count-update_rows (is_debit_of x.id) p f outbox (λ m. rw (owner m, type m) refl))
            once.0,
        rw (count-update_rows (is_credit_of x.id) p f outbox (λ m. rw (owner m, type m) refl))
            once.1,
      ))
      h

-- A request that is saved with at least the allowance that it had.
pub IsSentOnce-saved :
    (outbox : List OutboxMessage) (r : TimeOffRequest) (rows : List TimeOffRequest)
    → IsSentOnce outbox r
    → All (IsSentOnce outbox) rows
    → All (IsSentOnce outbox) (save_row same_request r rows)
IsSentOnce-saved outbox r rows mine h =
    All-save_row (IsSentOnce outbox) same_request r mine rows
      (All-mono rows (λ (x : TimeOffRequest) c. inr c) h)

-- What a message more makes of the counts of its request.
pub count-enqueued :
    (q : OutboxMessage → Bool) (m : OutboxMessage) (outbox : List OutboxMessage)
    → any (same_message m) outbox ≡ false
    → count q (save_row same_message m outbox) ≡ count q outbox + (if q m then 1 else 0)
count-enqueued q m outbox new = rw new (count-append q m outbox)

-- A new message of a request that is saved with it.
pub IsSentOnce-enqueued :
    (outbox : List OutboxMessage) (m : OutboxMessage) (r : TimeOffRequest)
    (rows : List TimeOffRequest)
    → any (same_message m) outbox ≡ false
    → m.request_id ≡ r.id
    → IsSentOnce (save_row same_message m outbox) r
    → All (IsSentOnce outbox) rows
    → All (IsSentOnce (save_row same_message m outbox)) (save_row same_request r rows)
IsSentOnce-enqueued outbox m r rows new owner mine h =
    All-save_row (IsSentOnce (save_row same_message m outbox)) same_request r mine rows
      (All-mono rows others h)
  where
    others :
        (x : TimeOffRequest)
        → IsSentOnce outbox x
        → OrReplaced (IsSentOnce (save_row same_message m outbox)) same_request r mine x
    others x once = elim (Bool-cases (same_request r x)) [
      | inl hit ↦ inl hit
      | inr missed ↦
          let apart : m.request_id == x.id ≡ false =
            rw owner (ground (arith, missed, eq_iff r.id x.id, eq_iff x.id r.id)) in
          inr (
            rw (count-enqueued (is_debit_of x.id) m outbox new, apart) (omega (arith, once.0)),
            rw (count-enqueued (is_credit_of x.id) m outbox new, apart) (omega (arith, once.1)),
          )
    ]

-- No action takes an allowance away.
pub next_state-allowed :
    (from to : RequestStatus) (action : RequestAction)
    → next_state from action ≡ some to
    → (debits_allowed from ≤ debits_allowed to) × (credits_allowed from ≤ credits_allowed to)
unfolding next_state
next_state-allowed from to action h = ground arith
