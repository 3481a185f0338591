-- ===== src/Processor/Timer.antt =====
-- The timer of outbox/outbox.processor.ts, which `onModuleInit` sets and `onModuleDestroy` clears.
-- `env` is `process.env`; what `Number` makes of a text, and with it an interval, is a parameter.
use hcm.Prelude.{ℕ, Bool, false, Option, none, some, String, ◌==◌, if◌then◌else◌}
use hcm.Common.HttpExceptionFilter.{or_default}
use hcm.Hcm.Client.{HcmClient}
use hcm.Database.{OutboxMessage}
use hcm.Database.Orm.{Orm}
use hcm.Balances.{World}
use hcm.Processor.{Draws, drain_once}

-- `process.env.OUTBOX_AUTODRAIN !== 'false'`
abbrev pub drains_itself : Option String → Bool
drains_itself none = Bool.true
drains_itself (some text) = if text == "false" then false else Bool.true

module _ (Interval : Type 0) (number : String → Interval) (env : String → Option String) where
  -- The interval of `this.timer`, if it is set.
  unfoldable pub on_module_init : Option Interval → Option Interval
  on_module_init timer =
      if drains_itself (env "OUTBOX_AUTODRAIN")
      then some (number (or_default (env "OUTBOX_INTERVAL_MS") "500"))
      else timer

  -- Nothing ticks once the interval is cleared.
  unfoldable pub on_module_destroy : Option Interval → Option Interval
  on_module_destroy timer = none

  -- What the event loop runs each time, while a timer is set.
  unfoldable pub tick :
      (orm : Orm) (client : HcmClient)
      → (OutboxMessage → Draws)
      → ℕ
      → Option Interval
      → Bool × World client.State
      → Bool × World client.State
  tick orm client draws now none state = state
  tick orm client draws now (some interval) state =
      let (n, draining, w) = drain_once orm client draws now state in (draining, w)
