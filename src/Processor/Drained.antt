-- ===== src/Processor/Drained.antt =====
-- What a drain of outbox/outbox.processor.ts that runs to its end leaves in the outbox.
use hcm.Outbox.{max_attempts, base_backoff_ms}
use hcm.Outbox.Claims.{message_ids, map-map_ids, claimed_copy}
use hcm.Hcm.Core.{RejectionCode}
use hcm.Processor.{command}
use hcm.Prelude.{
  leb, ◌+◌, ◌*◌, ◌^◌, some, none, ◌<>◌, ◌≡◌, refl, true, false, ◌==◌, String, ℕ, Bool, List, [],
  ◌∷◌, map, has, All, filter, take, eq_iff, Bool-cases, inl, inr, arith, subst, ℤ, none,
}
use hcm.Common.Enums.{OutboxStatus, same_outbox_status, LedgerPhase}
use hcm.Hcm.Core.{Answer, ApplyDeltaAck}
use hcm.Hcm.Client.{HcmClient}
use hcm.Database.{OutboxMessage, BalanceLedgerEntry, Db}
use hcm.Database.Orm.{Orm, IsOrm, standard, orm_path, update_rows}
use hcm.Balances.{World, commit_reservation, release_reservation, release_commit}
use hcm.Outbox.{claim_due, is_due, has_id, mark_done, mark_rejected, mark_retry_or_dead}
use hcm.Processor.{
  Draws, outcome, apply_success, apply_rejection, debit_applied, debit_rejected, credit_applied,
  save_request, record_drift, deliver, deliver_all, drain_once,
}

abbrev is_inflight : OutboxMessage → Bool
is_inflight m = same_outbox_status m.status OutboxStatus.inflight

-- No message is in the hands of a delivery.
abbrev pub NoneInflight : List OutboxMessage → Type 0
NoneInflight = All (λ (m : OutboxMessage). is_inflight m ≡ false)

-- Only messages of these ids are.
abbrev Among : List String → List OutboxMessage → Type 0
Among ids = All (λ (m : OutboxMessage). is_inflight m ≡ true → has m.id ids ≡ true)

-- What an answer does to the outbox: it takes the message's own rows out of INFLIGHT.
abbrev Takes : String → List OutboxMessage → List OutboxMessage → Type 0
Takes id rows rows' =
    (f : OutboxMessage → OutboxMessage) × ((m : OutboxMessage) → is_inflight (f m) ≡ false)
    × (rows' ≡ update_rows (has_id id) f rows)

taken-Among :
    (id : String) (ids : List String) (f : OutboxMessage → OutboxMessage)
    → ((m : OutboxMessage) → is_inflight (f m) ≡ false)
    → (rows : List OutboxMessage) → Among (id ∷ ids) rows
    → Among ids (update_rows (has_id id) f rows)
taken-Among id ids f out [] h = tt
taken-Among id ids f out (m ∷ rows) h = (
  elim (Bool-cases (m.id == id)) [
    | inl own ↦ λ busy. absurd (ground (arith, out m))
    | inr other ↦ λ busy. ground (arith, h.0, eq_iff m.id id, eq_iff id m.id)
  ],
  taken-Among id ids f out rows h.1,
)

claimed-Among :
    (ids : List String) (f : OutboxMessage → OutboxMessage)
    → ((m : OutboxMessage) → (f m).id ≡ m.id)
    → (rows : List OutboxMessage) → NoneInflight rows
    → Among ids (update_rows (λ m. has m.id ids) f rows)
claimed-Among ids f same [] h = tt
claimed-Among ids f same (m ∷ rows) h = (
  elim (Bool-cases (has m.id ids)) [
    | inl hit ↦ λ busy. rw (hit, same m) hit
    | inr missed ↦ λ busy. absurd (ground (arith, h.0))
  ],
  claimed-Among ids f same rows h.1,
)

none-Among : (rows : List OutboxMessage) → Among [] rows → NoneInflight rows
none-Among [] h = tt
none-Among (m ∷ rows) h = (ground (arith, h.0), none-Among rows h.1)

module _
    (totals : (BalanceLedgerEntry → Bool) → List BalanceLedgerEntry → List (LedgerPhase × ℤ)) where
  abbrev store : Orm
  store = standard totals

  success-outbox :
      (draws : Draws) (msg : OutboxMessage) (ack : ApplyDeltaAck) (db : Db)
      → (outcome store draws msg (Answer.returns ack) db).outbox
        ≡ update_rows
            (has_id msg.id)
            (λ m. record m { status = OutboxStatus.done; last_error = none })
            db.outbox
  unfolding outcome apply_success debit_applied credit_applied mark_done save_request record_drift
      commit_reservation release_reservation release_commit
  success-outbox draws msg ack db = ground arith

  rejection-outbox :
      (draws : Draws) (msg : OutboxMessage) (code : RejectionCode) (text : String) (db : Db)
      → (outcome store draws msg (Answer.rejection code text) db).outbox
        ≡ update_rows
            (has_id msg.id)
            (λ m. record m { status = OutboxStatus.dead; last_error = some ("REJECTED: " <> text) })
            db.outbox
  unfolding outcome apply_rejection debit_rejected mark_rejected save_request release_reservation
  rejection-outbox draws msg code text db = ground arith

  outcome-Takes :
      (draws : Draws) (msg : OutboxMessage) (answer : Answer ApplyDeltaAck) (db : Db)
      → Takes msg.id db.outbox (outcome store draws msg answer db).outbox
  unfolding outcome mark_retry_or_dead
  outcome-Takes draws msg (Answer.returns ack) db = (
    λ (m : OutboxMessage). record m { status = OutboxStatus.done; last_error = none },
    λ m. refl,
    success-outbox draws msg ack db,
  )
  outcome-Takes draws msg (Answer.rejection code text) db = (
    λ (m : OutboxMessage). record m {
      status = OutboxStatus.dead;
      last_error = some ("REJECTED: " <> text);
    },
    λ m. refl,
    rejection-outbox draws msg code text db,
  )
  outcome-Takes draws msg (Answer.unavailable text) db =
      elim (Bool-cases (leb max_attempts (msg.attempts + 1))) [
        | inl over ↦ (
          λ (m : OutboxMessage). record m {
            status = OutboxStatus.dead;
            attempts = msg.attempts + 1;
            last_error = some text;
          },
          λ m. refl,
          ground arith,
        )
        | inr again ↦ (
          λ (m : OutboxMessage). record m {
            status = OutboxStatus.failed;
            attempts = msg.attempts + 1;
            last_error = some text;
            next_attempt_at = some (draws.now + base_backoff_ms * 2 ^ msg.attempts);
          },
          λ m. refl,
          ground arith,
        )
      ]

  outcome-Among :
      (draws : Draws) (msg : OutboxMessage) (ids : List String) (answer : Answer ApplyDeltaAck)
      (db : Db)
      → Among (msg.id ∷ ids) db.outbox
      → Among ids (outcome store draws msg answer db).outbox
  outcome-Among draws msg ids answer db h =
      let (f, out, e) = outcome-Takes draws msg answer db in
      rw e (taken-Among msg.id ids f out db.outbox h)

  module _ (client : HcmClient) (draws : OutboxMessage → Draws) where
    deliver_all-NoneInflight :
        (msgs : List OutboxMessage) (w : World client.State)
        → Among (message_ids msgs) w.db.outbox
        → NoneInflight (deliver_all store client draws msgs w).db.outbox
    unfolding deliver_all deliver
    deliver_all-NoneInflight [] w h = none-Among w.db.outbox h
    deliver_all-NoneInflight (msg ∷ msgs) w h =
        deliver_all-NoneInflight msgs (deliver store client (draws msg) msg w) (
          outcome-Among (draws msg) msg (message_ids msgs)
            (client.apply_delta (command msg) w.hcm).0 w.db h)

    standard-NoneInflight :
        (now : ℕ) (w : World client.State)
        → NoneInflight w.db.outbox
        → NoneInflight (drain_once store client draws now (false, w)).2.db.outbox
    unfolding drain_once claim_due
    standard-NoneInflight now w h =
        let due = take 50 (filter (is_due now) w.db.outbox) in
        let claimed = λ (m : OutboxMessage). record m {
          status = OutboxStatus.inflight;
          next_attempt_at = none;
        } in
        deliver_all-NoneInflight (map claimed_copy due) _ (
          rw (map-map_ids claimed_copy due (λ m. refl))
            (claimed-Among (message_ids due) claimed (λ m. refl) w.db.outbox h))

-- A drain that runs to its end leaves no message INFLIGHT when none was before it, whatever HCM
-- answers to each delivery.
pub drain_once-NoneInflight :
    (orm : Orm)
    → IsOrm orm
    → (client : HcmClient) (draws : OutboxMessage → Draws) (now : ℕ) (w : World client.State)
    → NoneInflight w.db.outbox
    → NoneInflight (drain_once orm client draws now (false, w)).2.db.outbox
drain_once-NoneInflight orm laws client draws now w h =
    subst (λ o. NoneInflight (drain_once o client draws now (false, w)).2.db.outbox)
      (orm_path orm laws) (standard-NoneInflight orm.phase_totals client draws now w h)
