-- ===== src/Api/Atomic.antt =====
-- What a time-off route that is refused leaves behind, over any store and any HCM.
use hcm.Prelude.{◌≡◌, refl, ◌∙◌, Bool, true, false, String, ℕ, arith, Option}
use hcm.Common.Enums.{RequestAction}
use hcm.Common.StateMachine.{can_transition}
use hcm.Common.Errors.{ServiceError}
use hcm.Common.Exec.{Exec, Result, ok, err, transaction, end_transaction, ◌>>◌}
use hcm.Hcm.Client.{HcmClient}
use hcm.Database.{Db, TimeOffRequest}
use hcm.Database.Orm.{Orm}
use hcm.Balances.{World, ensure_balance_loaded}
use hcm.TimeOff
use hcm.TimeOff.{in_db, guard, or_throw, get_or_throw, Action}
use hcm.Api.{TimeOffRoute, handle_time_off, Ids, CreateTimeOffRequestDto, map_result}

-- Nothing but the cached balances may have changed.
abbrev pub Kept : Db → Db → Type 0
Kept db db' =
    (db'.requests ≡ db.requests)
    × (db'.ledger ≡ db.ledger)
    × (db'.outbox ≡ db.outbox)
    × (db'.events ≡ db.events)

Kept-refl : (db : Db) → Kept db db
Kept-refl db = (refl, refl, refl, refl)

Kept-trans : (a b c : Db) → Kept a b → Kept b c → Kept a c
Kept-trans a b c h k = (k.0 ∙ h.0, k.1 ∙ h.1, k.2 ∙ h.2, k.3 ∙ h.3)

module _ {H : Type 0} where
  -- How `>>=` goes on after its first step.
  abbrev continue :
      {A B : Type 0}
      → (A → Exec ServiceError (World H) B)
      → Result ServiceError A × World H
      → Result ServiceError B × World H
  continue {B} f first = elim first.0 as (λ _. Result ServiceError B × World H) [
    | ok a ↦ f a first.1
    | err x ↦ (err x, first.1)
  ]

  -- After a step that keeps the tables, an error of the rest keeps them too.
  bind_error :
      {A B : Type 0} (w : World H) (first : Result ServiceError A × World H)
      (f : A → Exec ServiceError (World H) B) (e : ServiceError)
      → Kept w.db first.1.db
      → ((a : A) (v : World H) → (f a v).0 ≡ err e → Kept v.db (f a v).1.db)
      → (continue f first).0 ≡ err e
      → Kept w.db (continue f first).1.db
  bind_error w (ok a, v) f e kept rest h = Kept-trans w.db v.db (f a v).1.db kept (rest a v h)
  bind_error w (err x, v) f e kept rest h = kept

-- A transaction that throws has done nothing.
transaction_error :
    {A : Type 0} (db : Db) (ended : Result ServiceError A × Db) (e : ServiceError)
    → (end_transaction db ended).0 ≡ err e
    → (end_transaction db ended).1 ≡ db
transaction_error db (ok a, db') e h = absurd (cc h)
transaction_error db (err x, db') e h = refl

-- An error passes through what wraps the result.
unmapped :
    {A B : Type 0} (f : A → B) (r : Result ServiceError A) (e : ServiceError)
    → map_result f r ≡ err e
    → r ≡ err e
unmapped f (ok a) e h = absurd (cc h)
unmapped f (err x) e h = cc h

module _ (orm : Orm) (client : HcmClient) (parse_date : String → ℕ) where
  ensure_loaded-Kept :
      (e l : String) (w : World client.State)
      → Kept w.db (ensure_balance_loaded orm client parse_date e l w).1.db
  unfolding ensure_balance_loaded
  ensure_loaded-Kept e l w = ground arith

  found_or_not-Kept :
      (id : String) (w : World client.State)
      → Kept w.db (in_db {H = client.State} (get_or_throw orm id) w).1.db
  unfolding get_or_throw
  found_or_not-Kept id w = ground arith

  guard-Kept :
      (b : Bool) (e : ServiceError) (w : World client.State)
      → Kept w.db (in_db {H = client.State} (guard b e) w).1.db
  guard-Kept true e w = Kept-refl w.db
  guard-Kept false e w = Kept-refl w.db

  in_transaction-Kept :
      {A : Type 0} (m : Action A) (w : World client.State) (e : ServiceError)
      → (in_db {H = client.State} (transaction m) w).0 ≡ err e
      → Kept w.db (in_db {H = client.State} (transaction m) w).1.db
  in_transaction-Kept m w e h = rw (transaction_error w.db (m w.db) e h) (Kept-refl w.db)

  submit_error :
      (uuid id : String) (w : World client.State) (e : ServiceError)
      → (TimeOff.submit orm client parse_date uuid id w).0 ≡ err e
      → Kept w.db (TimeOff.submit orm client parse_date uuid id w).1.db
  unfolding TimeOff.submit
  submit_error uuid id w e =
      let reserve : Exec ServiceError (World client.State) TimeOffRequest =
        in_db (transaction (TimeOff.reserve orm uuid id)) in
      let load = λ (pre : TimeOffRequest).
        ensure_balance_loaded orm client parse_date pre.employee_id pre.location_id in
      let legal = λ (pre : TimeOffRequest). can_transition pre.status RequestAction.submit in
      let illegal =
        λ (pre : TimeOffRequest). ServiceError.illegal_transition pre.status RequestAction.submit in
      let check : TimeOffRequest → Exec ServiceError (World client.State) (Unit {0}) =
        λ pre. in_db (guard (legal pre) (illegal pre)) in
      bind_error w (in_db {H = client.State} (get_or_throw orm id) w)
        (λ pre. check pre >> (load pre >> reserve)) e (found_or_not-Kept id w)
        λ pre v.
          bind_error v (check pre v) (λ _. load pre >> reserve) e
            (guard-Kept (legal pre) (illegal pre) v)
            λ _ u.
              bind_error u (load pre u) (λ _. reserve) e
                (ensure_loaded-Kept pre.employee_id pre.location_id u)
                λ _ x. in_transaction-Kept (TimeOff.reserve orm uuid id) x e

  create_error :
      (uuid entry_uuid : String) (dto : CreateTimeOffRequestDto) (key : Option String)
      (w : World client.State) (e : ServiceError)
      → dto.submit ≡ false
      → (TimeOff.create orm client parse_date uuid entry_uuid dto key w).0 ≡ err e
      → ⊥
  unfolding TimeOff.create
  create_error uuid entry_uuid dto key w e later h = ground arith

-- The route that creates a request and submits it in one go.
abbrev pub submits_at_once : TimeOffRoute → Bool
submits_at_once (TimeOffRoute.create dto key) = dto.submit
submits_at_once _ = false

-- A time-off route that is refused, for whatever reason, leaves all requests, ledger entries,
-- messages and events as they were. Over any store and any HCM, for every route but the creation that
-- submits at once.
pub handle_time_off-refused :
    (orm : Orm) (client : HcmClient) (parse_date : String → ℕ) (ids : Ids) (route : TimeOffRoute)
    (w : World client.State) (e : ServiceError)
    → submits_at_once route ≡ false
    → (handle_time_off orm client parse_date ids route w).0 ≡ err e
    → Kept w.db (handle_time_off orm client parse_date ids route w).1.db
unfolding handle_time_off TimeOff.approve TimeOff.reject TimeOff.cancel
handle_time_off-refused orm client parse_date ids (TimeOffRoute.create dto key) w e later h =
    absurd (
      create_error orm client parse_date ids.request ids.entry dto key w e later (unmapped _ _ e h))
handle_time_off-refused orm client parse_date ids (TimeOffRoute.list query) w e later h =
    Kept-refl w.db
handle_time_off-refused orm client parse_date ids (TimeOffRoute.get id) w e later h =
    found_or_not-Kept orm client parse_date id w
handle_time_off-refused orm client parse_date ids (TimeOffRoute.submit id) w e later h =
    submit_error orm client parse_date ids.entry id w e (unmapped _ _ e h)
handle_time_off-refused orm client parse_date ids (TimeOffRoute.approve id) w e later h =
    in_transaction-Kept orm client parse_date (TimeOff.approving orm ids.message id) w e
      (unmapped _ _ e h)
handle_time_off-refused orm client parse_date ids (TimeOffRoute.reject id) w e later h =
    in_transaction-Kept orm client parse_date (TimeOff.rejecting orm id) w e (unmapped _ _ e h)
handle_time_off-refused orm client parse_date ids (TimeOffRoute.cancel id) w e later h =
    in_transaction-Kept orm client parse_date (TimeOff.cancelling orm ids.message id) w e
      (unmapped _ _ e h)
