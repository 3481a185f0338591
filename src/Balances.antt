-- ===== src/Balances.antt =====
-- balances/balance.service.ts: the derived balance, and the changes of the ledger. The service runs
-- over the store `orm`; `uuid` is what `uuid()` returns, and `parse_date` the `new Date(text)` of the
-- platform.
pub mod Sums
pub mod View
pub mod Moves
use hcm.Prelude.{
  ℕ, Bool, false, Option, none, some, List, [], ◌∷◌, foldl, String, ◌==◌, ℤ, pos, ◌+ℤ◌, ◌&&◌,
  if◌then◌else◌,
}
use hcm.Common.Enums.{LedgerPhase, LedgerState, same_phase, same_state}
use hcm.Common.BalanceMath.{BalanceComponents, BalanceView, to_view}
use hcm.Common.Errors.{ServiceError}
use hcm.Common.Exec.{Exec, ok, err, pure, gets, ◌>>=◌, ◌>>◌}
use hcm.Hcm.Core.{Answer}
use hcm.Hcm.Client.{HcmClient}
use hcm.Database.{Balance, BalanceLedgerEntry, Db, at_key, same_balance, same_entry}
use hcm.Database.Orm.{Orm}

-- The database beside the state of the HCM behind the client.
pub record World (H : Type 0) : Type 0 where
  pub db : Db
  pub hcm : H

-- A call of the HCM client, whose rejections are thrown on.
abbrev pub from_answer : {A H : Type 0} → (H → Answer A × H) → Exec ServiceError (World H) A
from_answer call w =
    let (answer, hcm') = call w.hcm in
    let w' = record w { hcm = hcm' } in
    elim answer [
      | Answer.returns a ↦ (ok a, w')
      | Answer.rejection code message ↦ (err (ServiceError.hcm_rejection code message), w')
      | Answer.unavailable message ↦ (err (ServiceError.hcm_unavailable message), w')
    ]

-- `l.employee_id = :employeeId AND l.location_id = :locationId AND l.state = :active`
abbrev pub is_active_at : String → String → BalanceLedgerEntry → Bool
is_active_at e l r =
    r.employee_id == e && r.location_id == l && same_state r.state LedgerState.active

-- `{ requestId, phase, state: ACTIVE }`
abbrev pub is_active_of : String → LedgerPhase → BalanceLedgerEntry → Bool
is_active_of request_id phase r =
    (elim r.request_id [ none ↦ false | some id ↦ id == request_id ])
    && same_phase r.phase phase
    && same_state r.state LedgerState.active

-- The loop over the grouped rows; `Number(r.total) || 0` is the total, an integer column's sum.
abbrev pub add_total : ℤ × ℤ → LedgerPhase × ℤ → ℤ × ℤ
add_total (reserved, committed) (phase, total) =
    if same_phase phase LedgerPhase.reserve
    then (reserved +ℤ total, committed)
    else if same_phase phase LedgerPhase.commit
    then (reserved, committed +ℤ total)
    else (reserved, committed)

-- The rows that `addReservation` and `commitReservation` create.
abbrev pub reserve_entry : String → String → String → String → ℤ → BalanceLedgerEntry
reserve_entry uuid request_id employee_id location_id amount = record {
  id = uuid;
  request_id = some request_id;
  employee_id = employee_id;
  location_id = location_id;
  amount = amount;
  phase = LedgerPhase.reserve;
  state = LedgerState.active;
  hcm_version = none;
}

abbrev pub commit_entry : String → String → String → String → ℤ → Option ℕ → BalanceLedgerEntry
commit_entry uuid request_id employee_id location_id amount hcm_version = record {
  id = uuid;
  request_id = some request_id;
  employee_id = employee_id;
  location_id = location_id;
  amount = amount;
  phase = LedgerPhase.commit;
  state = LedgerState.active;
  hcm_version = hcm_version;
}

module _ (orm : Orm) where
  unfoldable pub ensure_balance_loaded :
      (client : HcmClient) (parse_date : String → ℕ)
      → String
      → String
      → Exec ServiceError (World client.State) (Unit {0})
  ensure_balance_loaded client parse_date employee_id location_id w =
      elim (orm.find_one Balance (at_key employee_id location_id) w.db.balances) [
        | some existing ↦ (ok tt, w)
        | none ↦
            let (r, w') = from_answer (client.get_balance employee_id location_id) w in
            elim r [
              | err e ↦ (err e, w')
              | ok row ↦
                  let balance : Balance = record {
                    employee_id = employee_id;
                    location_id = location_id;
                    hcm_balance = row.balance;
                    last_reconciled_version = row.version;
                    as_of = some (parse_date row.as_of);
                  } in
                  (
                    ok tt,
                    record w' {
                      db = record w'.db {
                        balances = orm.insert_or_ignore Balance same_balance balance w'.db.balances;
                      };
                    },
                  )
            ]
      ]

  unfoldable pub compute_components : String → String → Db → BalanceComponents
  compute_components employee_id location_id db =
      let balance = orm.find_one Balance (at_key employee_id location_id) db.balances in
      let rows = orm.phase_totals (is_active_at employee_id location_id) db.ledger in
      let (reserved_open, committed_pending) = foldl add_total (pos 0, pos 0) rows in
      record {
        hcm_balance = elim balance [ none ↦ pos 0 | some b ↦ b.hcm_balance ];
        reserved_open = reserved_open;
        committed_pending = committed_pending;
      }

  unfoldable pub get_view :
      (client : HcmClient) (parse_date : String → ℕ)
      → String
      → String
      → Exec ServiceError (World client.State) BalanceView
  get_view client parse_date employee_id location_id = do
    ensure_balance_loaded client parse_date employee_id location_id
    components ← gets (λ w. compute_components employee_id location_id w.db)
    pure (to_view components)

  -- The loop of `getViewsForEmployee` over the rows that were found before it.
  unfoldable pub views_of :
      (client : HcmClient) (parse_date : String → ℕ)
      → String
      → List Balance
      → Exec ServiceError (World client.State) (List (String × BalanceView))
  views_of client parse_date employee_id [] = pure []
  views_of client parse_date employee_id (b ∷ bs) = do
    view ← get_view client parse_date employee_id b.location_id
    views ← views_of client parse_date employee_id bs
    pure ((b.location_id, view) ∷ views)

  unfoldable pub get_views_for_employee :
      (client : HcmClient) (parse_date : String → ℕ)
      → String
      → Exec ServiceError (World client.State) (List (String × BalanceView))
  get_views_for_employee client parse_date employee_id = do
    balances ← gets (λ w. orm.find_all Balance (λ b. b.employee_id == employee_id) w.db.balances)
    views_of client parse_date employee_id balances

  unfoldable pub add_reservation : String → String → String → String → ℤ → Db → Db
  add_reservation uuid request_id employee_id location_id amount db =
      let entry = reserve_entry uuid request_id employee_id location_id amount in
      record db { ledger = orm.save BalanceLedgerEntry same_entry entry db.ledger }

  unfoldable pub release_reservation : String → Db → Db
  release_reservation request_id db = record db {
    ledger =
        orm.update BalanceLedgerEntry (is_active_of request_id LedgerPhase.reserve)
          (λ r. record r { state = LedgerState.released }) db.ledger;
  }

  unfoldable pub commit_reservation : String → String → String → String → ℤ → Option ℕ → Db → Db
  commit_reservation uuid request_id employee_id location_id amount hcm_version db =
      let released = release_reservation request_id db in
      let entry = commit_entry uuid request_id employee_id location_id amount hcm_version in
      record released { ledger = orm.save BalanceLedgerEntry same_entry entry released.ledger }

  unfoldable pub release_commit : String → Db → Db
  release_commit request_id db = record db {
    ledger =
        orm.update BalanceLedgerEntry (is_active_of request_id LedgerPhase.commit)
          (λ r. record r { state = LedgerState.released }) db.ledger;
  }
