-- ===== src/Tests/Drain.antt =====
-- A drain of two debits, of which the second one is of an APPROVED request, and a snapshot that has
-- this debit before it is acknowledged.
use hcm.Prelude.{none, arith, ◌≡◌, refl, true, false, some, [], ◌∷◌, pos, find, ◌+ℤ◌, ◌-ℤ◌, show_ℕ}
use hcm.Common.Enums.{RequestStatus, OutboxStatus}
use hcm.Hcm.Core.{
  Answer, ApplyDeltaAck, HcmCore, new, default_faults, apply_delta, settle, acknowledge, gen_ref,
  key,
}
use hcm.Hcm.Client.{HcmClient, in_process}
use hcm.Database.{TimeOffRequest, OutboxMessage, Db}
use hcm.Balances.{World}
use hcm.Outbox.{claim_due}
use hcm.Processor.{Draws, is_request, command, deliver, deliver_all, drain_once}
use hcm.Processor.Commits.{drain_once-Commits}
use hcm.Sync.{HcmBalanceUpdate, SyncDraws, balance_for}
use hcm.Sync.LateAck.{CountedTwice, late_ack-CountedTwice}
use hcm.Tests.Store.{parse_date, balance, store, store-IsOrm, draft, debit, other_debit, seeded}

abbrev ack : ApplyDeltaAck
ack = record {
  hcm_ref = "hcm-ref-1";
  balance = pos 7;
  version = 2;
  applied = true;
  replayed = false;
}

abbrev approved : TimeOffRequest
approved = record draft { status = RequestStatus.approved }

-- The engine knows the key and fails once, which is for the message that comes first.
abbrev engine : HcmCore
engine = record new {
  faults = record default_faults { failures_to_inject = 1 };
  balances =
      (
        "emp-1|loc-1",
        record {
          employee_id = "emp-1";
          location_id = "loc-1";
          balance = pos 10;
          version = 1;
          as_of = "2026-01-01";
        },
      )
      ∷ [];
}

abbrev client : HcmClient
client = in_process "2026-01-02"

abbrev world : World HcmCore
world = record {
  db = record seeded { requests = approved ∷ []; outbox = other_debit ∷ debit ∷ [] };
  hcm = engine;
}

abbrev draws : OutboxMessage → Draws
draws m = record { entry = "entry-1"; event = "event-1"; now = 5 }

abbrev claimed : OutboxMessage → OutboxMessage
claimed m = record m { status = OutboxStatus.inflight }

both_claimed : (claim_due store 5 50 world.db).0 ≡ claimed other_debit ∷ claimed debit ∷ []
unfolding claim_due
both_claimed = refl

first_fails :
    (client.apply_delta
      (command debit)
      (deliver_all store client draws
        (claimed other_debit ∷ [])
        (record world { db = (claim_due store 5 50 world.db).1 })).hcm).0
    ≡ Answer.returns ack
unfolding deliver_all deliver apply_delta settle acknowledge gen_ref key ◌+ℤ◌ ◌-ℤ◌ show_ℕ
first_fails = refl

drain_once-Commits_example :
    find (is_request "req-1") (drain_once store client draws 5 (false, world)).2.db.requests
    ≡ some (record approved { status = RequestStatus.committed; hcm_ref = some "hcm-ref-1" })
drain_once-Commits_example =
    drain_once-Commits store store-IsOrm client draws 5 world (claimed other_debit ∷ []) []
      (claimed debit) approved ack both_claimed (refl, tt) tt refl refl refl refl first_fails

-- The snapshot of version 3, seven days after the debit of version 2, was reconciled already.
abbrev snapshot : HcmBalanceUpdate
snapshot = record {
  employee_id = "emp-1";
  location_id = "loc-1";
  balance = pos 7;
  version = 3;
  as_of = none;
}

abbrev overtaken : Db
overtaken = record world.db {
  balances = record balance { hcm_balance = pos 7; last_reconciled_version = 3 } ∷ [];
}

abbrev drawn : SyncDraws
drawn = record { event = "event-1"; now = 5 }

cached_version : (balance_for store parse_date snapshot overtaken).last_reconciled_version ≡ 3
unfolding balance_for
cached_version = refl

late_ack-CountedTwice_example :
    CountedTwice store parse_date (draws debit) drawn debit ack snapshot overtaken
late_ack-CountedTwice_example =
    late_ack-CountedTwice store store-IsOrm parse_date (draws debit) drawn debit ack approved
      snapshot overtaken refl refl refl refl refl refl (omega arith) (omega (arith, cached_version))
