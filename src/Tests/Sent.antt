-- ===== src/Tests/Sent.antt =====
-- A request that is created, submitted and approved, with the debit that it then has in the outbox.
use hcm.Prelude.{refl, ◌+ℤ◌, ◌-ℤ◌}
use hcm.Common.BalanceMath.{can_reserve, compute_available}
use hcm.Common.StateMachine.{next_state, can_transition}
use hcm.Balances.{add_reservation, compute_components}
use hcm.Common.Exec.{transaction}
use hcm.Database.{Db}
use hcm.Processor.{save_request}
use hcm.TimeOff
use hcm.Holds.History.{Step, Reach}
use hcm.Sent.{SentOnce}
use hcm.Sent.History.{AllFresh, Reach-SentOnce}
use hcm.Tests.Store.{store, store-IsOrm, parse_date, draft, seeded}

abbrev pending : Db
pending =
    (transaction (TimeOff.reserve store "entry-1" "req-1") (save_request store draft seeded)).1

abbrev approved : Db
approved = (TimeOff.approve store "msg-1" "req-1" pending).1

abbrev approval : Reach store parse_date seeded approved
approval =
    Reach.next
      (Reach.next (Reach.next Reach.start (Step.create draft refl refl))
        (Step.submit "entry-1" "req-1"))
      (Step.approve "msg-1" "req-1")

approval-AllFresh : AllFresh store parse_date approval
unfolding TimeOff.reserve save_request add_reservation compute_components can_reserve
    compute_available can_transition next_state ◌+ℤ◌ ◌-ℤ◌
approval-AllFresh = (((tt, refl), tt), refl)

Reach-SentOnce_example : SentOnce approved
Reach-SentOnce_example =
    Reach-SentOnce store store-IsOrm parse_date seeded approved approval approval-AllFresh tt
