-- ===== src/Holds.antt =====
-- Which requests may still hold days: the statement that common/state-machine.ts makes of terminal
-- states, over the tables.
pub mod Tables
pub mod Handlers
pub mod Delivery
pub mod History
use hcm.Prelude.{◌≡◌, Bool, true, false, List, [], ◌∷◌, ◌++◌, String, any, All, not, ◌||◌, arith}
use hcm.Common.Enums.{RequestStatus, LedgerPhase, LedgerState, same_state}
use hcm.Database.{TimeOffRequest, BalanceLedgerEntry, Db, same_entry}
use hcm.Database.Orm.{update_rows, save_row}
use hcm.Balances.{is_active_of}

-- The two states in which a request holds its days.
abbrev pub may_hold : RequestStatus → Bool
may_hold RequestStatus.pending_approval = true
may_hold RequestStatus.approved = true
may_hold _ = false

abbrev pub holds : String → List BalanceLedgerEntry → Bool
holds id ledger = any (is_active_of id LedgerPhase.reserve) ledger

-- A request has an ACTIVE RESERVE entry only while it is PENDING_APPROVAL or APPROVED.
abbrev pub IsCovered : List BalanceLedgerEntry → TimeOffRequest → Type 0
IsCovered ledger r = (may_hold r.status || not (holds r.id ledger)) ≡ true

abbrev pub HoldsAreCovered : Db → Type 0
HoldsAreCovered db = All (IsCovered db.ledger) db.requests

-- Releasing entries covers no request less.
pub holds-released :
    (id : String) (where_ : BalanceLedgerEntry → Bool) (state : LedgerState)
    (ledger : List BalanceLedgerEntry)
    → same_state state LedgerState.active ≡ false
    → holds id ledger ≡ false
    → holds id (update_rows where_ (λ r. record r { state = state }) ledger) ≡ false
holds-released id where_ state [] out h = h
holds-released id where_ state (x ∷ ledger) out h =
    ground (arith, holds-released id where_ state ledger out)

-- The hold that is released is gone.
pub holds-release_self :
    (id : String) (ledger : List BalanceLedgerEntry)
    → holds id (
        update_rows
          (is_active_of id LedgerPhase.reserve)
          (λ r. record r { state = LedgerState.released })
          ledger)
      ≡ false
holds-release_self id [] = ground arith
holds-release_self id (x ∷ ledger) = ground (arith, holds-release_self id ledger)

holds-replaced :
    (id : String) (e : BalanceLedgerEntry) (ledger : List BalanceLedgerEntry)
    → is_active_of id LedgerPhase.reserve e ≡ false
    → holds id ledger ≡ false
    → holds id (update_rows (same_entry e) (λ _. e) ledger) ≡ false
holds-replaced id e [] out h = h
holds-replaced id e (x ∷ ledger) out h = ground (arith, holds-replaced id e ledger out)

holds-append :
    (id : String) (e : BalanceLedgerEntry) (ledger : List BalanceLedgerEntry)
    → is_active_of id LedgerPhase.reserve e ≡ false
    → holds id ledger ≡ false
    → holds id (ledger ++ e ∷ []) ≡ false
holds-append id e [] out h = ground arith
holds-append id e (x ∷ ledger) out h = ground (arith, holds-append id e ledger out)

-- Saving an entry that holds nothing for `id` adds no hold for it.
pub holds-saved :
    (id : String) (e : BalanceLedgerEntry) (ledger : List BalanceLedgerEntry)
    → is_active_of id LedgerPhase.reserve e ≡ false
    → holds id ledger ≡ false
    → holds id (save_row same_entry e ledger) ≡ false
holds-saved id e ledger out h =
    ground (arith, holds-replaced id e ledger out h, holds-append id e ledger out h)
