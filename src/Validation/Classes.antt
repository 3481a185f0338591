-- ===== src/Validation/Classes.antt =====
-- What the four classes of request bodies let through: time-off/dto/create-time-off-request.dto.ts,
-- time-off/dto/list-time-off-request.dto.ts and sync/dto/sync.dto.ts.
use mathlib.Core.Bool.{and-eq-true_iff}
use hcm.Prelude.{
  ◌≡◌, refl, sym, ◌↔◌, ◌∙◌, ℕ, true, false, Bool, Option, none, some, String, [], ◌∷◌, List, ℤ, pos,
  negsuc, All, arith, ◌&&◌, Bool-cases, inl, inr, any, map, ◌==◌,
}
use hcm.Common.Enums.{RequestStatus}
use hcm.Common.Errors.{status_text}
use hcm.TimeOff.{CreateTimeOffRequestDto, ListTimeOffRequestDto}
use hcm.Sync.{HcmBalanceUpdate}
use hcm.Validation.{
  Value, undefined, null, integer, text, array, object, Fields, at, elements, DtoClass,
  create_time_off_request_dto, list_time_off_request_dto, hcm_balance_update_dto, hcm_batch_dto,
  decorators, is_string, is_int, min, is_enum, is_array, validate_nested, is_optional,
  ValidationPipe, field_ok, IsDocumented, request_statuses, all_nested_ok,
}
use hcm.Validation.Reading.{
  as_text, as_integer, as_natural, as_optional_text, as_optional_status, status_of, read_create,
  read_list, read_update, read_batch, as_rows, query_of, update_of, rows_of, read_updates,
}
use hcm.Validation.Bodies.{IsAcceptable, create_body_iff}

abbrev IsObject : Value → Type 0
IsObject (object row) = Unit
IsObject _ = ⊥

abbrev IsTable : Value → Type 0
IsTable (array vs) = All IsObject (elements vs)
IsTable _ = Unit

-- An array that a batch has under `balances` holds objects.
abbrev pub HasTable : DtoClass → Fields → Type 0
HasTable hcm_batch_dto body = IsTable (at "balances" body)
HasTable _ body = Unit

-- What a route is given of a body of its class.
abbrev pub IsTyped : ValidationPipe → DtoClass → Fields → Type 0
IsTyped pipe create_time_off_request_dto body =
    (dto : CreateTimeOffRequestDto) × (read_create body ≡ some dto) × IsAcceptable pipe dto
IsTyped pipe list_time_off_request_dto body =
    (query : ListTimeOffRequestDto) × (read_list body ≡ some query)
IsTyped pipe hcm_balance_update_dto body = (row : HcmBalanceUpdate) × (read_update body ≡ some row)
IsTyped pipe hcm_batch_dto body = (rows : List HcmBalanceUpdate) × (read_batch body ≡ some rows)

query_of_parts :
    (e l : Option (Option String)) (s : Option (Option RequestStatus)) (q : ListTimeOffRequestDto)
    → query_of e l s ≡ some q
    → (e ≡ some q.employee_id) × (l ≡ some q.location_id) × (s ≡ some q.status)
query_of_parts (some _) (some _) (some _) q h = (ground arith, ground arith, ground arith)
query_of_parts _ _ _ q h = absurd (cc h)

update_of_parts :
    (e l : Option String) (b : Option ℤ) (v : Option ℕ) (t : Option (Option String))
    (row : HcmBalanceUpdate)
    → update_of e l b v t ≡ some row
    → (e ≡ some row.employee_id)
      × (l ≡ some row.location_id)
      × (b ≡ some row.balance)
      × (v ≡ some row.version)
      × (t ≡ some row.as_of)
update_of_parts (some _) (some _) (some _) (some _) (some _) row h =
    (ground arith, ground arith, ground arith, ground arith, ground arith)
update_of_parts _ _ _ _ _ row h = absurd (cc h)

rows_of_parts :
    (row : Option HcmBalanceUpdate) (rest : Option (List HcmBalanceUpdate))
    (rows : List HcmBalanceUpdate)
    → rows_of row rest ≡ some rows
    → ((x : HcmBalanceUpdate) × (row ≡ some x)) × ((xs : List HcmBalanceUpdate) × (rest ≡ some xs))
rows_of_parts (some x) (some xs) rows h = ((x, refl), (xs, refl))
rows_of_parts _ _ rows h = absurd (cc h)

abbrev IsRead : {A : Type 0} → Bool → Option A → Type 0
IsRead {A} b o = (b ≡ true) ↔ ((a : A) × (o ≡ some a))

unread_at_all : {A : Type 0} → IsRead {A = A} false none
unread_at_all = (λ h. absurd (cc h), λ r. absurd (cc r.1))

statuses_found :
    (s : String) (statuses : List RequestStatus)
    → IsRead (any (λ v. v == s) (map status_text statuses)) (status_of s statuses)
statuses_found s [] = unread_at_all
statuses_found s (x ∷ xs) = elim (Bool-cases (status_text x == s)) [
  | inl here ↦ rw here (λ h. (some x, refl), λ r. refl)
  | inr later ↦ rw later (statuses_found s xs)
]

module _ (pipe : ValidationPipe) where
  a_text : (v : Value) → IsRead (field_ok pipe (is_string ∷ []) v) (as_text v)
  a_text (text s) = (λ h. (s, refl), λ r. refl)
  a_text _ = unread_at_all

  text_if_there :
      (v : Value) → IsRead (field_ok pipe (is_optional ∷ is_string ∷ []) v) (as_optional_text v)
  text_if_there undefined = (λ h. (none, refl), λ r. refl)
  text_if_there null = (λ h. (none, refl), λ r. refl)
  text_if_there (text s) = (λ h. (some s, refl), λ r. refl)
  text_if_there _ = unread_at_all

  an_integer : (v : Value) → IsRead (field_ok pipe (is_int ∷ []) v) (as_integer v)
  an_integer (integer z) = (λ h. (z, refl), λ r. refl)
  an_integer _ = unread_at_all

  a_natural : (v : Value) → IsRead (field_ok pipe (is_int ∷ min (pos 0) ∷ []) v) (as_natural v)
  a_natural (integer (pos n)) = (λ h. (n, refl), λ r. ground arith)
  a_natural (integer (negsuc n)) = (λ h. absurd (ground arith), λ r. absurd (cc r.1))
  a_natural _ = unread_at_all

  status_if_there :
      (v : Value)
      → IsRead
          (field_ok pipe (is_optional ∷ is_enum (map status_text request_statuses) ∷ []) v)
          (as_optional_status v)
  status_if_there undefined = (λ h. (none, refl), λ r. refl)
  status_if_there null = (λ h. (none, refl), λ r. refl)
  status_if_there (text s) =
      let found = statuses_found s request_statuses in
      (λ h. found.0 ((and-eq-true_iff _ _).0 h).0, λ r. rw (found.1 r) refl)
  status_if_there _ = unread_at_all

  list_query_iff :
      (documented : IsDocumented pipe) (query : Fields)
      → IsRead (pipe.accepts list_time_off_request_dto query) (read_list query)
  unfolding decorators read_list
  list_query_iff documented query =
      let a = documented list_time_off_request_dto query in
      let e = text_if_there (at "employeeId" query) in
      let l = text_if_there (at "locationId" query) in
      let s = status_if_there (at "status" query) in
      (
        λ h.
            let (p1, q1) = (and-eq-true_iff _ _).0 (sym a ∙ h) in
            let (p2, q2) = (and-eq-true_iff _ _).0 q1 in
            let (p3, q3) = (and-eq-true_iff _ _).0 q2 in
            let (x1, e1) = e.0 p1 in
            let (x2, e2) = l.0 p2 in
            let (x3, e3) = s.0 p3 in
            (record { employee_id = x1; location_id = x2; status = x3 }, rw (e1, e2, e3) refl),
        λ (q, read).
            let (e1, e2, e3) = query_of_parts _ _ _ q read in
            a ∙ rw (e.1 (q.employee_id, e1), l.1 (q.location_id, e2), s.1 (q.status, e3)) refl,
      )

  update_body_iff :
      (documented : IsDocumented pipe) (body : Fields)
      → IsRead (pipe.accepts hcm_balance_update_dto body) (read_update body)
  unfolding decorators read_update
  update_body_iff documented body =
      let a = documented hcm_balance_update_dto body in
      let e = a_text (at "employeeId" body) in
      let l = a_text (at "locationId" body) in
      let b = an_integer (at "balance" body) in
      let v = a_natural (at "version" body) in
      let t = text_if_there (at "asOf" body) in
      (
        λ h.
            let (p1, q1) = (and-eq-true_iff _ _).0 (sym a ∙ h) in
            let (p2, q2) = (and-eq-true_iff _ _).0 q1 in
            let (p3, q3) = (and-eq-true_iff _ _).0 q2 in
            let (p4, q4) = (and-eq-true_iff _ _).0 q3 in
            let (p5, q5) = (and-eq-true_iff _ _).0 q4 in
            let (x1, e1) = e.0 p1 in
            let (x2, e2) = l.0 p2 in
            let (x3, e3) = b.0 p3 in
            let (x4, e4) = v.0 p4 in
            let (x5, e5) = t.0 p5 in
            (
              record { employee_id = x1; location_id = x2; balance = x3; version = x4; as_of = x5 },
              rw (e1, e2, e3, e4, e5) refl,
            ),
        λ (row, read).
            let (e1, e2, e3, e4, e5) = update_of_parts _ _ _ _ _ row read in
            a
            ∙ rw
                (
                  e.1 (row.employee_id, e1),
                  l.1 (row.location_id, e2),
                  b.1 (row.balance, e3),
                  v.1 (row.version, e4),
                  t.1 (row.as_of, e5),
                )
                refl,
      )

  rows_iff :
      (documented : IsDocumented pipe) (vs : List Value)
      → All IsObject vs
      → IsRead (all_nested_ok pipe hcm_balance_update_dto vs) (read_updates vs)
  rows_iff documented [] objects = (λ h. ([], refl), λ r. refl)
  rows_iff documented (object row ∷ vs) objects =
      let one = update_body_iff documented row in
      let others = rows_iff documented vs objects.1 in
      (
        λ h.
            let (p, q) = (and-eq-true_iff _ _).0 h in
            let (x, e) = one.0 p in let (xs, es) = others.0 q in (x ∷ xs, rw (e, es) refl),
        λ (rows, read).
            let ((x, e), (xs, es)) = rows_of_parts (read_update row) (read_updates vs) rows read in
            rw (one.1 (x, e), others.1 (xs, es)) refl,
      )
  rows_iff documented (_ ∷ vs) objects = absurd objects.0

  batch_iff :
      (documented : IsDocumented pipe) (v : Value)
      → IsTable v
      → IsRead
          (field_ok pipe (is_array ∷ validate_nested hcm_balance_update_dto ∷ []) v && true)
          (as_rows v)
  batch_iff documented (array vs) table =
      let rows = rows_iff documented (elements vs) table in
      (λ h. rows.0 (ground (arith, h)), λ r. rw (rows.1 r) refl)
  batch_iff documented _ table = unread_at_all

  batch_body_iff :
      (documented : IsDocumented pipe) (body : Fields)
      → IsTable (at "balances" body)
      → IsRead (pipe.accepts hcm_batch_dto body) (read_batch body)
  unfolding decorators read_batch
  batch_body_iff documented body table =
      let a = documented hcm_batch_dto body in
      let rows = batch_iff documented (at "balances" body) table in
      (λ h. rows.0 (sym a ∙ h), λ r. a ∙ rows.1 r)

-- A body passes the decorators of its class exactly when it can be read as what the route is given:
-- a creation of at least one day with ISO dates, ids of at most 128 characters and a reason of at
-- most 500, a query with a known status, a snapshot with a version that is not negative, or a list
-- of such snapshots. Where `balances` of a batch is an array, its elements are objects; where it is
-- anything else, the batch does not pass.
pub accepts_iff :
    (pipe : ValidationPipe)
    → IsDocumented pipe
    → (class : DtoClass) (body : Fields) → HasTable class body
    → (pipe.accepts class body ≡ true) ↔ IsTyped pipe class body
accepts_iff pipe documented create_time_off_request_dto body table =
    create_body_iff pipe documented body
accepts_iff pipe documented list_time_off_request_dto body table =
    list_query_iff pipe documented body
accepts_iff pipe documented hcm_balance_update_dto body table = update_body_iff pipe documented body
accepts_iff pipe documented hcm_batch_dto body table = batch_body_iff pipe documented body table
