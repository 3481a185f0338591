-- ===== src/Hcm/Core.antt =====
-- hcm/hcm-core.ts: the in-memory HCM. A method that mutates the object returns its answer and the
-- new object; `now` is the text that `this.now().toISOString()` gives, and `genRef` the default
-- counter, since nothing in the program passes another.
pub mod Versions
pub mod Deltas
pub mod Replay
pub mod Keys
pub mod Overdraft
use hcm.Prelude.{
  ℕ, ◌+◌, ◌-◌, Bool, true, false, ◌&&◌, not, Option, none, some, List, [], map, String, ◌<>◌, ℤ,
  pos, ◌+ℤ◌, ◌-ℤ◌, ltb, ltb_ℤ, Dict, lookup, insert, has, if◌then◌else◌, show_ℕ, show_ℤ,
}

pub record HcmBalanceRow : Type 0 where
  pub employee_id : String
  pub location_id : String
  pub balance : ℤ
  pub version : ℕ
  pub as_of : String

pub data DeltaType : Type 0 where
  debit credit : DeltaType

pub record ApplyDeltaCommand : Type 0 where
  pub employee_id : String
  pub location_id : String
  pub amount : ℤ
  pub type : DeltaType
  pub idempotency_key : String

pub record ApplyDeltaAck : Type 0 where
  pub hcm_ref : String
  pub balance : ℤ
  pub version : ℕ
  pub applied : Bool
  pub replayed : Bool

pub data RejectionCode : Type 0 where
  insufficient_balance invalid_dimensions : RejectionCode

-- A call returns, throws an `HcmRejection`, or throws an `HcmUnavailable`.
pub data Answer (A : Type 0) : Type 0 where
  returns : A → Answer A
  rejection : RejectionCode → String → Answer A
  unavailable : String → Answer A

pub record HcmFaultConfig : Type 0 where
  pub failures_to_inject : ℕ
  pub latency_ms : ℕ
  pub invalid_dimensions : List String
  pub auto_create_unknown : Bool
  pub silent_overdraw : Bool
  pub ghost_success : Bool

-- `Partial<HcmFaultConfig>`
pub record PartialFaultConfig : Type 0 where
  pub failures_to_inject : Option ℕ
  pub latency_ms : Option ℕ
  pub invalid_dimensions : Option (List String)
  pub auto_create_unknown : Option Bool
  pub silent_overdraw : Option Bool
  pub ghost_success : Option Bool

abbrev pub default_faults : HcmFaultConfig
default_faults = record {
  failures_to_inject = 0;
  latency_ms = 0;
  invalid_dimensions = [];
  auto_create_unknown = true;
  silent_overdraw = false;
  ghost_success = false;
}

unfoldable pub key : String → String → String
key employee_id location_id = employee_id <> ("|" <> location_id)

pub record HcmCore : Type 0 where
  pub balances : Dict HcmBalanceRow
  pub applied : Dict ApplyDeltaAck
  pub faults : HcmFaultConfig
  pub ref_seq : ℕ

abbrev pub new : HcmCore
new = record { balances = []; applied = []; faults = default_faults; ref_seq = 0 }

abbrev or_else {ℓ} : {A : Type ℓ} → Option A → A → A
or_else none old = old
or_else (some a) old = a

unfoldable pub configure_faults : PartialFaultConfig → HcmCore → HcmCore
configure_faults p core =
    let f = core.faults in
    record core {
      faults = record {
        failures_to_inject = or_else p.failures_to_inject f.failures_to_inject;
        latency_ms = or_else p.latency_ms f.latency_ms;
        invalid_dimensions = or_else p.invalid_dimensions f.invalid_dimensions;
        auto_create_unknown = or_else p.auto_create_unknown f.auto_create_unknown;
        silent_overdraw = or_else p.silent_overdraw f.silent_overdraw;
        ghost_success = or_else p.ghost_success f.ghost_success;
      };
    }

unfoldable pub reset : HcmCore → HcmCore
reset core = record { balances = []; applied = []; faults = default_faults; ref_seq = 0 }

-- `(prev?.version ?? 0)`
abbrev version_of : Option HcmBalanceRow → ℕ
version_of none = 0
version_of (some row) = row.version

unfoldable pub seed : String → String → ℤ → String → HcmCore → HcmBalanceRow × HcmCore
seed employee_id location_id balance now core =
    let k = key employee_id location_id in
    let row : HcmBalanceRow = record {
      employee_id = employee_id;
      location_id = location_id;
      balance = balance;
      version = version_of (lookup k core.balances) + 1;
      as_of = now;
    } in
    (row, record core { balances = insert k row core.balances })

abbrev unknown_dimensions : {A : Type 0} → String → Answer A
unknown_dimensions k = rejection invalid_dimensions ("Unknown dimensions " <> k)

-- `row.balance += delta; row.version += 1; row.asOf = …` on the stored row
abbrev pub bump : HcmBalanceRow → ℤ → String → HcmBalanceRow
bump row delta now = record row {
  balance = row.balance +ℤ delta;
  version = row.version + 1;
  as_of = now;
}

unfoldable pub adjust : String → String → ℤ → String → HcmCore → Answer HcmBalanceRow × HcmCore
adjust employee_id location_id delta now core =
    let k = key employee_id location_id in
    elim (lookup k core.balances) [
      | none ↦ (unknown_dimensions k, core)
      | some row ↦
          let row' = bump row delta now in
          (returns row', record core { balances = insert k row' core.balances })
    ]

unfoldable pub get_balance : String → String → String → HcmCore → Answer HcmBalanceRow × HcmCore
unfolding seed
get_balance employee_id location_id now core =
    let k = key employee_id location_id in
    if has k core.faults.invalid_dimensions
    then (unknown_dimensions k, core)
    else elim (lookup k core.balances) [
      | none ↦
          if core.faults.auto_create_unknown
          then (let (row, core') = seed employee_id location_id (pos 0) now core in
              (returns row, core'))
          else (unknown_dimensions k, core)
      | some row ↦ (returns row, core)
    ]

-- `` `hcm-ref-${++this.refSeq}` ``
unfoldable pub gen_ref : HcmCore → String × HcmCore
gen_ref core = ("hcm-ref-" <> show_ℕ (core.ref_seq + 1), record core { ref_seq = core.ref_seq + 1 })

-- `const signed = cmd.type === 'DEBIT' ? -cmd.amount : cmd.amount`
abbrev pub signed : ApplyDeltaCommand → ℤ
signed cmd = elim cmd.type [ debit ↦ pos 0 -ℤ cmd.amount | credit ↦ cmd.amount ]

abbrev is_debit : DeltaType → Bool
is_debit debit = true
is_debit credit = false

-- The acknowledgement for the row as it now stands, remembered under the idempotency key.
unfoldable pub acknowledge :
    ApplyDeltaCommand → HcmBalanceRow → Bool → HcmCore → Answer ApplyDeltaAck × HcmCore
unfolding gen_ref
acknowledge cmd row applied core =
    let (ref, core') = gen_ref core in
    let ack : ApplyDeltaAck = record {
      hcm_ref = ref;
      balance = row.balance;
      version = row.version;
      applied = applied;
      replayed = false;
    } in
    (returns ack, record core' { applied = insert cmd.idempotency_key ack core'.applied })

-- `applyDelta` from the known row on: ghost success, the overdraft rejection, or the change.
unfoldable pub settle :
    ApplyDeltaCommand → String → HcmBalanceRow → HcmCore → Answer ApplyDeltaAck × HcmCore
settle cmd now row core =
    let k = key cmd.employee_id cmd.location_id in
    let would_go_negative = is_debit cmd.type && ltb_ℤ (row.balance +ℤ signed cmd) (pos 0) in
    if core.faults.ghost_success
    then acknowledge cmd row false core
    else if would_go_negative && not core.faults.silent_overdraw
    then (
      rejection insufficient_balance (
          "Insufficient balance for "
          <> k
          <> ": have "
          <> show_ℤ row.balance
          <> ", need "
          <> show_ℤ cmd.amount),
      core,
    )
    else let row' = bump row (signed cmd) now in
      acknowledge cmd row' true (record core { balances = insert k row' core.balances })

unfoldable pub apply_delta : ApplyDeltaCommand → String → HcmCore → Answer ApplyDeltaAck × HcmCore
apply_delta cmd now core =
    let k = key cmd.employee_id cmd.location_id in
    let f = core.faults in
    elim (lookup cmd.idempotency_key core.applied) [
      | some prior ↦ (returns (record prior { replayed = true }), core)
      | none ↦
          if ltb 0 f.failures_to_inject
          then (
            unavailable "HCM temporarily unavailable",
            record core { faults = record f { failures_to_inject = f.failures_to_inject - 1 } },
          )
          else if has k f.invalid_dimensions
          then (unknown_dimensions k, core)
          else elim (lookup k core.balances) [
            | none ↦
                if f.auto_create_unknown
                then (let (row, core') = seed cmd.employee_id cmd.location_id (pos 0) now core in
                    settle cmd now row core')
                else (unknown_dimensions k, core)
            | some row ↦ settle cmd now row core
          ]
    ]

unfoldable pub dump_corpus : HcmCore → List HcmBalanceRow
dump_corpus core = map (λ (entry : String × HcmBalanceRow). entry.1) core.balances
