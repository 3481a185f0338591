-- ===== src/Tests/Concurrent.antt =====
-- Two submits for one balance that run at the same time: the first one has checked its request and
-- writes, while the second one waits for the mutex.
use hcm.Prelude.{refl, none, some, [], ◌∷◌, pos, ◌+ℤ◌, ◌-ℤ◌, ◌<◌, arith}
use hcm.Common.BalanceMath.{can_reserve, compute_available}
use hcm.Common.StateMachine.{can_transition, next_state}
use hcm.Common.KeyedMutex.{run_exclusive, start, update}
use hcm.Database.{TimeOffRequest, Db}
use hcm.Balances.{compute_components}
use hcm.TimeOff.{placed}
use hcm.TimeOff.Concurrent.{Call, Submits, Step, Reach, begun, key_of_call}
use hcm.TimeOff.Concurrent.Safety.{NotOverspent, Step-NeverOverspends}
use hcm.Tests.Store.{store, store-IsOrm, draft, seeded}

-- Each of the two fits the balance of ten days, and both do not.
abbrev long_draft : TimeOffRequest
long_draft = record draft { id = "req-2"; days = pos 8 }

abbrev two_drafts : Db
two_drafts = record seeded { requests = draft ∷ long_draft ∷ [] }

abbrev first : Call
first = Call.submit "entry-1" "req-1" "emp-1" "loc-1"

abbrev second : Call
second = Call.submit "entry-2" "req-2" "emp-1" "loc-1"

abbrev entered : Call → Submits → Submits
entered c s = record s {
  mutex = run_exclusive (key_of_call c) s.mutex;
  call = update s.call s.mutex.count c;
  plan = update s.plan s.mutex.count none;
}

abbrev both : Submits
both = entered second (entered first (begun two_drafts))

abbrev running : Submits
running = record both { mutex = start 0 both.mutex }

abbrev planned : Submits
planned = record running { plan = update running.plan 0 (some draft) }

abbrev written : Submits
written = record planned {
  db = (placed store "entry-1" draft planned.db).1;
  plan = update planned.plan 0 none;
}

in_range : 0 < both.mutex.count
unfolding run_exclusive
in_range = omega arith

abbrev reach_planned : Reach store two_drafts planned
unfolding run_exclusive start can_transition next_state can_reserve compute_available
    compute_components ◌+ℤ◌ ◌-ℤ◌
reach_planned =
    Reach.later
      (Reach.later (Reach.later (Reach.later Reach.begin (Step.enters first)) (Step.enters second))
        (Step.starts 0 (omega (arith, in_range)) refl refl))
      (Step.checks 0 "entry-1" "req-1" "emp-1" "loc-1" draft (omega (arith, in_range)) refl refl
        refl refl refl refl)

abbrev first_writes : Step store planned written
unfolding run_exclusive start
first_writes =
    Step.places 0 "entry-1" "req-1" "emp-1" "loc-1" draft (omega (arith, in_range)) refl refl refl

Step-NeverOverspends_example : NotOverspent store planned.db written.db
unfolding first_writes
Step-NeverOverspends_example =
    Step-NeverOverspends store store-IsOrm two_drafts planned written tt reach_planned first_writes
      refl
