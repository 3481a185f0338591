-- ===== src/Tests/Mutex.antt =====
-- Inputs for the theorems on common/keyed-mutex.ts: two calls for one key and one for another.
use hcm.Prelude.{◌≡◌, ℕ, ◌<◌, refl, arith}
use hcm.Common.KeyedMutex.{System, Stage, Step, Reach, idle, run_exclusive, start, finish}
use hcm.Common.KeyedMutex.Exclusion.{
  mutual_exclusion, first_in_first_out, CanMove, unfinished-CanMove,
}

-- The first call runs, the second one waits for it, and one for another key has entered.
abbrev held : System
held = run_exclusive "b" (run_exclusive "a" (start 0 (run_exclusive "a" idle)))

abbrev handed_over : System
handed_over = start 1 (finish 0 held)

reach_held : Reach held
unfolding run_exclusive start
reach_held =
    Reach.later
      (Reach.later
        (Reach.later (Reach.later Reach.begin (Step.enters "a"))
          (Step.starts 0 (omega arith) refl refl))
        (Step.enters "a"))
      (Step.enters "b")

reach_handed_over : Reach handed_over
unfolding run_exclusive start finish
reach_handed_over =
    Reach.later (Reach.later reach_held (Step.ends 0 (omega arith) refl))
      (Step.starts 1 (omega arith) refl refl)

has_three : 2 < handed_over.count
unfolding run_exclusive start finish
has_three = omega arith

runs : handed_over.stage 1 ≡ Stage.running
unfolding run_exclusive start finish
runs = refl

same_key : handed_over.key_of 0 ≡ handed_over.key_of 1
unfolding run_exclusive start finish
same_key = refl

mutual_exclusion_example : ◌≡◌ {A = ℕ} 1 1
mutual_exclusion_example =
    mutual_exclusion handed_over reach_handed_over 1 1 (omega (arith, has_three))
      (omega (arith, has_three)) refl runs runs

first_in_first_out_example : handed_over.stage 0 ≡ Stage.done
first_in_first_out_example =
    first_in_first_out handed_over reach_handed_over 0 1 (omega arith) (omega (arith, has_three))
      same_key (λ waits. cc (waits, runs))

unfinished-CanMove_example : CanMove handed_over (handed_over.key_of 1)
unfinished-CanMove_example =
    unfinished-CanMove handed_over reach_handed_over 1 (omega (arith, has_three))
      (λ over. cc (over, runs))
