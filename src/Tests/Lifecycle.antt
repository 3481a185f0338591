-- ===== src/Tests/Lifecycle.antt =====
-- Inputs for the theorems on the lifecycle of a request and on the derived balance.
use hcm.Prelude.{List, length, ◌+ℤ◌, ◌-ℤ◌, false, ◌≡◌, refl, none, some, true, [], ◌∷◌, pos}
use hcm.Common.Enums.{RequestStatus}
use hcm.Common.StateMachine.{next_state, can_transition}
use hcm.Common.Exec.{ok}
use hcm.Hcm.Core.{HcmCore, HcmBalanceRow, new, key}
use hcm.Hcm.Client.{in_process, HcmClient}
use hcm.Database.{TimeOffRequest, Db}
use hcm.Balances.{World, compute_components}
use hcm.Balances.Moves.{Moves, settles-Moves}
use hcm.Processor.{Draws, drain_once, deliver}
use hcm.Processor.InStep.{InStep, IsAhead, ghost_amount, deliver-InStep}
use hcm.Processor.Drained.{NoneInflight, drain_once-NoneInflight}
use hcm.Processor.Settled.{Settles, outcome-Settles}
use hcm.TimeOff
use hcm.TimeOff.{CreateTimeOffRequestDto, cancel_uncommitted}
use hcm.TimeOff.Idempotent.{Replayed, create-Replayed}
use hcm.TimeOff.Messages.{Approves, approve-Approves, Cancels, cancel-Cancels}
use hcm.Sync.{SyncDraws, HcmBalanceUpdate, reconcile_key, ingest_batch}
use hcm.Sync.Batches.{ingest_batch_again}
use hcm.Sync.Shown.{ShowsResult}
use hcm.Sync.View.{reconcile_key-ShowsResult}
use hcm.Tests.Store.{store, store-IsOrm, parse_date, draft, debit, committed, seeded}

abbrev dto : CreateTimeOffRequestDto
dto = record {
  employee_id = "emp-1";
  location_id = "loc-1";
  start_date = "2026-01-05";
  end_date = "2026-01-07";
  days = pos 3;
  reason = none;
  submit = true;
}

abbrev world : World HcmCore
world = record { db = seeded; hcm = new }

abbrev client : HcmClient
client = in_process "2026-01-01"

-- The second call asks for more days, which does not matter.
create-Replayed_example :
    Replayed "req-1"
      (TimeOff.create store client parse_date "req-1" "entry-1" dto (some "key-1") world)
      (TimeOff.create store client parse_date "req-2" "entry-2"
        (record dto { days = pos 30 })
        (some "key-1")
        (TimeOff.create store client parse_date "req-1" "entry-1" dto (some "key-1") world).1)
create-Replayed_example =
    create-Replayed store store-IsOrm client parse_date "req-1" "entry-1" "req-2" "entry-2" dto
      (record dto { days = pos 30 }) "key-1" world refl refl refl

abbrev submitted : TimeOffRequest
submitted = record draft { status = RequestStatus.pending_approval }

abbrev approved : TimeOffRequest
approved = record draft { status = RequestStatus.approved }

abbrev awaiting : Db
awaiting = record seeded { requests = submitted ∷ [] }

abbrev under_way : Db
under_way = (TimeOff.approve store "msg-1" "req-1" awaiting).1

approve_succeeds : TimeOff.approve store "msg-1" "req-1" awaiting ≡ (ok approved, under_way)
unfolding TimeOff.approve can_transition next_state
approve_succeeds = refl

approve-Approves_example : Approves store "msg-1" "req-1" awaiting approved under_way
approve-Approves_example =
    approve-Approves store store-IsOrm "msg-1" "req-1" awaiting approved under_way refl
      approve_succeeds

abbrev delivering : Db
delivering = record seeded { requests = approved ∷ []; outbox = debit ∷ [] }

abbrev called_off : TimeOffRequest
called_off = record draft { status = RequestStatus.cancelled }

abbrev withdrawn : Db
withdrawn = (TimeOff.cancel store "msg-2" "req-1" delivering).1

cancel_succeeds : TimeOff.cancel store "msg-2" "req-1" delivering ≡ (ok called_off, withdrawn)
unfolding TimeOff.cancel cancel_uncommitted can_transition next_state
cancel_succeeds = refl

cancel-Cancels_example : Cancels store "msg-2" "req-1" delivering called_off withdrawn
cancel-Cancels_example =
    cancel-Cancels store store-IsOrm "msg-2" "req-1" delivering called_off withdrawn refl
      cancel_succeeds

abbrev pending_debit : Db
pending_debit = record seeded { ledger = committed ∷ [] }

settles-Moves_example : Moves store "req-1" pending_debit "emp-1" "loc-1"
settles-Moves_example = settles-Moves store store-IsOrm "req-1" pending_debit "emp-1" "loc-1"

abbrev absorbing : HcmBalanceUpdate
absorbing = record {
  employee_id = "emp-1";
  location_id = "loc-1";
  balance = pos 7;
  version = 3;
  as_of = none;
}

abbrev drawn : SyncDraws
drawn = record { event = "event-1"; now = 5 }

reconcile_key-ShowsResult_example :
    let (r, db') = reconcile_key store parse_date drawn absorbing pending_debit in
    ShowsResult
      (compute_components store "emp-1" "loc-1" pending_debit)
      (compute_components store "emp-1" "loc-1" db')
      r
reconcile_key-ShowsResult_example =
    reconcile_key-ShowsResult store store-IsOrm parse_date drawn absorbing pending_debit (refl, tt)

abbrev delivery : Draws
delivery = record { entry = "entry-9"; event = "event-9"; now = 5 }

outcome-Settles_example : Settles store delivery debit approved delivering
outcome-Settles_example =
    outcome-Settles store store-IsOrm delivery debit approved delivering refl refl refl refl

-- The approved request of `delivering` and its debit.
drain_once-NoneInflight_example :
    NoneInflight
      (drain_once store client
        (λ m. delivery)
        5
        (false, record { db = delivering; hcm = new })).2.db.outbox
drain_once-NoneInflight_example =
    drain_once-NoneInflight store store-IsOrm client (λ m. delivery) 5
      (record { db = delivering; hcm = new }) (refl, tt)

-- An engine that knows the key with the balance that is cached.
abbrev level_row : HcmBalanceRow
level_row = record {
  employee_id = "emp-1";
  location_id = "loc-1";
  balance = pos 10;
  version = 1;
  as_of = "2026-01-01";
}

abbrev level_world : World HcmCore
level_world = record {
  db = delivering;
  hcm = record new { balances = ("emp-1|loc-1", level_row) ∷ [] };
}

starts_level : InStep store "emp-1" "loc-1" level_world
unfolding key compute_components ◌-ℤ◌ ◌+ℤ◌
starts_level = refl

-- The engine with ghost successes.
abbrev ghostly : World HcmCore
ghostly = record level_world {
  hcm = record level_world.hcm { faults = record level_world.hcm.faults { ghost_success = true } };
}

deliver-InStep_example :
    IsAhead store "emp-1" "loc-1"
      (deliver store client delivery debit ghostly)
      (ghost_amount debit "2026-01-01" ghostly.hcm)
deliver-InStep_example =
    deliver-InStep store store-IsOrm "2026-01-01" delivery debit approved ghostly refl refl refl
      refl refl refl refl starts_level

-- Two rows of one key, the older one last.
abbrev corpus : List HcmBalanceUpdate
corpus = absorbing ∷ record absorbing { version = 2; balance = pos 9 } ∷ []

ingest_batch_again_example :
    let db' = (ingest_batch store parse_date (λ u. drawn) corpus pending_debit).1 in
    ingest_batch store parse_date (λ u. drawn) corpus db'
    ≡ (record { processed = length corpus; applied = 0; over_allocated = 0 }, db')
ingest_batch_again_example =
    ingest_batch_again store store-IsOrm parse_date (λ u. drawn) (λ u. drawn) corpus pending_debit
