-- ===== src/Validation.antt =====
-- What a request body has to be before a handler sees it: the decorators of
-- time-off/dto/create-time-off-request.dto.ts, time-off/dto/list-time-off-request.dto.ts and
-- sync/dto/sync.dto.ts, and the ValidationPipe that main.ts installs for all routes. class-validator
-- is a parameter, with what its documentation says of each decorator.
pub mod Reading
pub mod Bodies
pub mod Classes
use Prim.Native.Nat.{suc}
use hcm.Prelude.{
  ℕ, Bool, true, false, Option, none, some, List, [], ◌∷◌, String, ◌==◌, ◌≡◌, ℤ, pos, leb, leb_ℤ,
  ltb_ℤ, ◌&&◌, ◌||◌, any, Dict, lookup, map,
}
use hcm.Common.Enums.{RequestStatus}
use hcm.Common.Errors.{status_text, ErrorObject}
use hcm.TimeOff.{CreateTimeOffRequestDto, ListTimeOffRequestDto}
use hcm.Sync.{HcmBalanceUpdate}

-- A value that JSON or a query string gives. A number is an integer or one with a fraction, whose
-- digits nothing reads; `undefined` is a field that an object does not have.
mutual
  pub data Value : Type 0 where
    undefined null : Value
    boolean : Bool → Value
    integer : ℤ → Value
    fraction : String → Value
    text : String → Value
    array : Elements → Value
    object : Fields → Value

  pub data Elements : Type 0 where
    none_left : Elements
    element : Value → Elements → Elements

  pub data Fields : Type 0 where
    closed : Fields
    field : String → Value → Fields → Fields

abbrev pub elements : Elements → List Value
elements none_left = []
elements (element v rest) = v ∷ elements rest

abbrev pub fields : Fields → Dict Value
fields closed = []
fields (field name v rest) = (name, v) ∷ fields rest

-- `body[name]`
abbrev pub at : String → Fields → Value
at name body = elim (lookup name (fields body)) [ none ↦ undefined | some v ↦ v ]

-- The classes that the routes name, and the decorators that stand on their fields.
pub data DtoClass : Type 0 where
  create_time_off_request_dto list_time_off_request_dto : DtoClass
  hcm_balance_update_dto hcm_batch_dto : DtoClass

pub data Decorator : Type 0 where
  is_string is_int is_positive is_boolean is_array is_iso8601 is_optional : Decorator
  max_length : ℕ → Decorator
  min : ℤ → Decorator
  is_enum : List String → Decorator
  validate_nested : DtoClass → Decorator

-- `Object.values(RequestStatus)`
abbrev pub request_statuses : List RequestStatus
request_statuses =
    RequestStatus.draft ∷ RequestStatus.pending_approval ∷ RequestStatus.approved
    ∷ RequestStatus.committed ∷ RequestStatus.rejected ∷ RequestStatus.cancelled
    ∷ RequestStatus.cancellation_pending ∷ RequestStatus.failed ∷ []

abbrev pub create_time_off_request : Dict (List Decorator)
create_time_off_request =
    ("employeeId", is_string ∷ max_length 128 ∷ [])
    ∷ ("locationId", is_string ∷ max_length 128 ∷ [])
    ∷ ("startDate", is_iso8601 ∷ [])
    ∷ ("endDate", is_iso8601 ∷ [])
    ∷ ("days", is_int ∷ is_positive ∷ [])
    ∷ ("reason", is_optional ∷ is_string ∷ max_length 500 ∷ [])
    ∷ ("submit", is_optional ∷ is_boolean ∷ [])
    ∷ []

abbrev pub list_time_off_request : Dict (List Decorator)
list_time_off_request =
    ("employeeId", is_optional ∷ is_string ∷ [])
    ∷ ("locationId", is_optional ∷ is_string ∷ [])
    ∷ ("status", is_optional ∷ is_enum (map status_text request_statuses) ∷ [])
    ∷ []

abbrev pub hcm_balance_update : Dict (List Decorator)
hcm_balance_update =
    ("employeeId", is_string ∷ [])
    ∷ ("locationId", is_string ∷ [])
    ∷ ("balance", is_int ∷ [])
    ∷ ("version", is_int ∷ min (pos 0) ∷ [])
    ∷ ("asOf", is_optional ∷ is_string ∷ [])
    ∷ []

abbrev pub hcm_batch : Dict (List Decorator)
hcm_batch = ("balances", is_array ∷ validate_nested hcm_balance_update_dto ∷ []) ∷ []

unfoldable pub decorators : DtoClass → Dict (List Decorator)
decorators create_time_off_request_dto = create_time_off_request
decorators list_time_off_request_dto = list_time_off_request
decorators hcm_balance_update_dto = hcm_balance_update
decorators hcm_batch_dto = hcm_batch

-- The ValidationPipe with class-validator behind it: whether a body passes as an instance of a
-- class, the response object of its BadRequestException when it does not, what it takes for an
-- ISO 8601 date, the length of a text, and what it makes of nested values that are no objects.
pub record ValidationPipe : Type 0 where
  pub accepts : DtoClass → Fields → Bool
  pub response : DtoClass → Fields → ErrorObject
  pub iso8601 : String → Bool
  pub length : String → ℕ
  pub nested_other : DtoClass → Value → Bool

abbrev pub is_missing : Value → Bool
is_missing undefined = true
is_missing null = true
is_missing _ = false

module _ (pipe : ValidationPipe) where
  abbrev pub nested_ok : DtoClass → Value → Bool
  nested_ok class (object body) = pipe.accepts class body
  nested_ok class v = pipe.nested_other class v

  abbrev pub all_nested_ok : DtoClass → List Value → Bool
  all_nested_ok class [] = true
  all_nested_ok class (v ∷ vs) = nested_ok class v && all_nested_ok class vs

  -- What the documentation says that each decorator checks. `@IsOptional` itself refuses nothing.
  abbrev pub holds : Decorator → Value → Bool
  holds is_string (text s) = true
  holds is_int (integer z) = true
  holds is_positive (integer z) = ltb_ℤ (pos 0) z
  holds is_boolean (boolean b) = true
  holds is_array (array vs) = true
  holds is_iso8601 (text s) = pipe.iso8601 s
  holds is_optional v = true
  holds (max_length n) (text s) = leb (pipe.length s) n
  holds (min m) (integer z) = leb_ℤ m z
  holds (is_enum values) (text s) = any (λ v. v == s) values
  holds (validate_nested class) (array vs) = all_nested_ok class (elements vs)
  holds (validate_nested class) v = nested_ok class v
  holds _ _ = false

  abbrev pub all_hold : List Decorator → Value → Bool
  all_hold [] v = true
  all_hold (d ∷ ds) v = holds d v && all_hold ds v

  abbrev pub has_optional : List Decorator → Bool
  has_optional [] = false
  has_optional (is_optional ∷ ds) = true
  has_optional (d ∷ ds) = has_optional ds

  -- "If the value is empty (null or undefined), all the validators on the property are ignored."
  abbrev pub field_ok : List Decorator → Value → Bool
  field_ok ds v = (has_optional ds && is_missing v) || all_hold ds v

  abbrev pub fields_ok : Dict (List Decorator) → Fields → Bool
  fields_ok [] body = true
  fields_ok (d ∷ rest) body = field_ok d.1 (at d.0 body) && fields_ok rest body

  -- A body passes when every decorated field does; other fields do not count.
  abbrev pub IsDocumented : Type 0
  IsDocumented =
      (class : DtoClass) (body : Fields)
      → pipe.accepts class body ≡ fields_ok (decorators class) body
