-- ===== src/Validation/Reading.antt =====
-- The fields that the handlers read of a body: those that the classes of
-- time-off/dto/create-time-off-request.dto.ts, time-off/dto/list-time-off-request.dto.ts and
-- sync/dto/sync.dto.ts declare, each with its type. A body with a field of another type has no
-- reading. An optional field may be missing or null.
use hcm.Prelude.{
  ℕ, Bool, false, Option, none, some, List, [], ◌∷◌, String, ℤ, pos, if◌then◌else◌, ◌==◌,
}
use hcm.Common.Enums.{RequestStatus}
use hcm.Common.Errors.{status_text}
use hcm.TimeOff.{CreateTimeOffRequestDto, ListTimeOffRequestDto}
use hcm.Sync.{HcmBalanceUpdate}
use hcm.Validation.{
  Value, undefined, null, boolean, integer, text, array, object, Fields, at, elements,
  request_statuses,
}

abbrev pub as_text : Value → Option String
as_text (text s) = some s
as_text _ = none

abbrev pub as_integer : Value → Option ℤ
as_integer (integer z) = some z
as_integer _ = none

abbrev pub as_natural : Value → Option ℕ
as_natural (integer (pos n)) = some n
as_natural _ = none

abbrev pub as_optional_text : Value → Option (Option String)
as_optional_text (text s) = some (some s)
as_optional_text undefined = some none
as_optional_text null = some none
as_optional_text _ = none

-- What `if (dto.submit)` reads.
abbrev pub as_optional_boolean : Value → Option Bool
as_optional_boolean (boolean b) = some b
as_optional_boolean undefined = some false
as_optional_boolean null = some false
as_optional_boolean _ = none

abbrev pub status_of : String → List RequestStatus → Option (Option RequestStatus)
status_of s [] = none
status_of s (x ∷ xs) = if status_text x == s then some (some x) else status_of s xs

abbrev pub as_optional_status : Value → Option (Option RequestStatus)
as_optional_status (text s) = status_of s request_statuses
as_optional_status undefined = some none
as_optional_status null = some none
as_optional_status _ = none

abbrev pub creation_of :
    Option String
    → Option String
    → Option String
    → Option String
    → Option ℤ
    → Option (Option String)
    → Option Bool
    → Option CreateTimeOffRequestDto
creation_of (some e) (some l) (some from) (some to) (some d) (some r) (some b) = some (record {
  employee_id = e;
  location_id = l;
  start_date = from;
  end_date = to;
  days = d;
  reason = r;
  submit = b;
})
creation_of _ _ _ _ _ _ _ = none

unfoldable pub read_create : Fields → Option CreateTimeOffRequestDto
read_create body =
    creation_of (as_text (at "employeeId" body)) (as_text (at "locationId" body))
      (as_text (at "startDate" body)) (as_text (at "endDate" body)) (as_integer (at "days" body))
      (as_optional_text (at "reason" body)) (as_optional_boolean (at "submit" body))

abbrev pub query_of :
    Option (Option String)
    → Option (Option String)
    → Option (Option RequestStatus)
    → Option ListTimeOffRequestDto
query_of (some e) (some l) (some s) = some (record { employee_id = e; location_id = l; status = s })
query_of _ _ _ = none

unfoldable pub read_list : Fields → Option ListTimeOffRequestDto
read_list query =
    query_of (as_optional_text (at "employeeId" query)) (as_optional_text (at "locationId" query))
      (as_optional_status (at "status" query))

abbrev pub update_of :
    Option String
    → Option String
    → Option ℤ
    → Option ℕ
    → Option (Option String)
    → Option HcmBalanceUpdate
update_of (some e) (some l) (some b) (some v) (some t) =
    some (record { employee_id = e; location_id = l; balance = b; version = v; as_of = t })
update_of _ _ _ _ _ = none

unfoldable pub read_update : Fields → Option HcmBalanceUpdate
read_update body =
    update_of (as_text (at "employeeId" body)) (as_text (at "locationId" body))
      (as_integer (at "balance" body)) (as_natural (at "version" body))
      (as_optional_text (at "asOf" body))

abbrev pub as_update : Value → Option HcmBalanceUpdate
as_update (object row) = read_update row
as_update _ = none

abbrev pub rows_of :
    Option HcmBalanceUpdate → Option (List HcmBalanceUpdate) → Option (List HcmBalanceUpdate)
rows_of (some row) (some rows) = some (row ∷ rows)
rows_of _ _ = none

abbrev pub read_updates : List Value → Option (List HcmBalanceUpdate)
read_updates [] = some []
read_updates (v ∷ vs) = rows_of (as_update v) (read_updates vs)

abbrev pub as_rows : Value → Option (List HcmBalanceUpdate)
as_rows (array vs) = read_updates (elements vs)
as_rows _ = none

unfoldable pub read_batch : Fields → Option (List HcmBalanceUpdate)
read_batch body = as_rows (at "balances" body)
