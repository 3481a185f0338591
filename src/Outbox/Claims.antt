-- ===== src/Outbox/Claims.antt =====
-- Claiming of outbox/outbox.service.ts (`claimDue`): what is claimed, and what a later claim may get.
use hcm.Prelude.{
  ℕ, zero, suc, ◌≤◌, ◌≡◌, refl, Bool, false, List, [], ◌∷◌, map, String, has, filter, take, length,
  All, arith, subst, Bool-cases, inl, inr, ap, none, ℤ,
}
use hcm.Common.Enums.{OutboxStatus, LedgerPhase}
use hcm.Database.{OutboxMessage, Db, BalanceLedgerEntry}
use hcm.Database.Orm.{Orm, IsOrm, standard, orm_path, update_rows}
use hcm.Outbox.{is_due, claim_due}

abbrev pub message_ids : List OutboxMessage → List String
message_ids = map (λ (m : OutboxMessage). m.id)

-- The claimed messages are due, and no more than the limit.
abbrev pub claimed_copy : OutboxMessage → OutboxMessage
claimed_copy m = record m { status = OutboxStatus.inflight }

length-take {ℓ} : {A : Type ℓ} (n : ℕ) (xs : List A) → length (take n xs) ≤ n
length-take zero xs = omega arith
length-take (suc n) [] = omega arith
length-take (suc n) (x ∷ xs) = omega (arith, length-take {ℓ} n xs)

length-map {ℓ κ} :
    {A : Type ℓ} {B : Type κ} (f : A → B) (xs : List A) → length (map f xs) ≡ length xs
length-map f [] = refl
length-map f (x ∷ xs) = ap suc (length-map f xs)

All-take {ℓ κ} : {A : Type ℓ} (P : A → Type κ) (n : ℕ) (xs : List A) → All P xs → All P (take n xs)
All-take P zero xs h = tt
All-take P (suc n) [] h = tt
All-take P (suc n) (x ∷ xs) h = (h.0, All-take P n xs h.1)

All-map {ℓ κ} :
    {A B : Type ℓ} (P : B → Type κ) (f : A → B) (xs : List A)
    → All (λ x. P (f x)) xs
    → All P (map f xs)
All-map P f [] h = tt
All-map P f (x ∷ xs) h = (h.0, All-map P f xs h.1)

-- A message that has been set INFLIGHT is not due, whenever that is asked.
due_are_others :
    (ids : List String) (later : ℕ) (rows : List OutboxMessage)
    → All
        (λ (m : OutboxMessage). has m.id ids ≡ false)
        (filter (is_due later) (
          update_rows
            (λ m. has m.id ids)
            (λ m. record m { status = OutboxStatus.inflight; next_attempt_at = none })
            rows))
due_are_others ids later [] = tt
due_are_others ids later (m ∷ rows) = elim (Bool-cases (has m.id ids)) [
  | inl mine ↦ rw mine (due_are_others ids later rows)
  | inr other ↦ rw other (elim (Bool-cases (is_due later m)) [
    | inl due ↦ rw due (other, due_are_others ids later rows)
    | inr idle ↦ rw idle (due_are_others ids later rows)
  ])
]

-- What two claims in a row have to do with one another.
abbrev Disjoint : Orm → ℕ → ℕ → ℕ → ℕ → Db → Type 0
Disjoint orm now limit later limit' db =
    let first = claim_due orm now limit db in
    (length first.0 ≤ limit)
    × All (λ (m : OutboxMessage). has m.id (message_ids first.0) ≡ false)
        (claim_due orm later limit' first.1).0

pub map-map_ids :
    (f : OutboxMessage → OutboxMessage) (ms : List OutboxMessage)
    → ((m : OutboxMessage) → (f m).id ≡ m.id)
    → message_ids (map f ms) ≡ message_ids ms
map-map_ids f [] h = refl
map-map_ids f (m ∷ ms) h = cc (h m, map-map_ids f ms h)

standard-Disjoint :
    (totals : (BalanceLedgerEntry → Bool) → List BalanceLedgerEntry → List (LedgerPhase × ℤ))
    (now limit later limit' : ℕ) (db : Db)
    → Disjoint (standard totals) now limit later limit' db
unfolding claim_due
standard-Disjoint totals now limit later limit' db =
    let due = take limit (filter (is_due now) db.outbox) in
    let fresh = λ (m : OutboxMessage). has m.id (message_ids due) ≡ false in
    (
      rw (length-map claimed_copy due) (length-take limit (filter (is_due now) db.outbox)),
      rw (map-map_ids claimed_copy due (λ m. refl)) (
          All-map fresh claimed_copy _
            (All-take fresh limit' _ (due_are_others (message_ids due) later db.outbox))),
    )

-- A claim takes at most `limit` messages, and a second claim right after it, at whatever time and
-- with whatever limit, takes none of them again.
pub claim_due-Disjoint :
    (orm : Orm)
    → IsOrm orm
    → (now limit later limit' : ℕ) (db : Db)
    → let first = claim_due orm now limit db in
      (length first.0 ≤ limit)
      × All
          (λ (m : OutboxMessage). has m.id (message_ids first.0) ≡ false)
          (claim_due orm later limit' first.1).0
claim_due-Disjoint orm laws now limit later limit' db =
    subst (λ o. Disjoint o now limit later limit' db) (orm_path orm laws)
      (standard-Disjoint orm.phase_totals now limit later limit' db)
