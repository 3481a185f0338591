-- ===== src/Validation/Bodies.antt =====
-- The bodies that pass the decorators of time-off/dto/create-time-off-request.dto.ts, and what the
-- service is given of them.
use mathlib.Core.Bool.{and-eq-true_iff}
use hcm.Prelude.{
  sym, ◌≡◌, refl, ◌↔◌, ◌∙◌, ℕ, ◌≤◌, true, false, Bool, Option, none, some, String, [], ◌∷◌, ℤ, pos,
  ◌≤ℤ◌, arith,
}
use hcm.TimeOff.{CreateTimeOffRequestDto}
use hcm.Validation.{
  Value, undefined, null, boolean, integer, text, Fields, at, create_time_off_request_dto,
  decorators, is_string, is_int, is_positive, is_boolean, is_iso8601, is_optional, max_length,
  ValidationPipe, field_ok, IsDocumented,
}
use hcm.Validation.Reading.{
  as_text, as_integer, as_optional_text, as_optional_boolean, read_create, creation_of,
}

-- A value that fails its decorators and has no reading.
pub unread : {A : Type 0} {P : A → Type 0} → (false ≡ true) ↔ ((a : A) × (none ≡ some a) × P a)
unread = (λ h. absurd (cc h), λ r. absurd (cc r.1))

-- Where each field of a creation comes from.
creation_of_parts :
    (e l from to : Option String) (d : Option ℤ) (r : Option (Option String)) (b : Option Bool)
    (dto : CreateTimeOffRequestDto)
    → creation_of e l from to d r b ≡ some dto
    → (e ≡ some dto.employee_id)
      × (l ≡ some dto.location_id)
      × (from ≡ some dto.start_date)
      × (to ≡ some dto.end_date)
      × (d ≡ some dto.days)
      × (r ≡ some dto.reason)
      × (b ≡ some dto.submit)
creation_of_parts (some _) (some _) (some _) (some _) (some _) (some _) (some _) dto h = (
  ground arith,
  ground arith,
  ground arith,
  ground arith,
  ground arith,
  ground arith,
  ground arith,
)
creation_of_parts _ _ _ _ _ _ _ dto h = absurd (cc h)

module _ (pipe : ValidationPipe) where
  -- A text of at most so many characters, if it is there.
  abbrev pub IsShort : ℕ → Option String → Type 0
  IsShort n none = Unit
  IsShort n (some s) = pipe.length s ≤ n

  -- What is known of a creation that the service is asked for.
  abbrev pub IsAcceptable : CreateTimeOffRequestDto → Type 0
  IsAcceptable dto =
      (pipe.length dto.employee_id ≤ 128)
      × (pipe.length dto.location_id ≤ 128)
      × (pipe.iso8601 dto.start_date ≡ true)
      × (pipe.iso8601 dto.end_date ≡ true)
      × (pos 1 ≤ℤ dto.days)
      × IsShort 500 dto.reason

  text_within :
      (n : ℕ) (v : Value)
      → (field_ok pipe (is_string ∷ max_length n ∷ []) v ≡ true)
        ↔ ((s : String) × (as_text v ≡ some s) × (pipe.length s ≤ n))
  text_within n (text s) = (λ h. (s, refl, ground arith), λ (t, e, h). ground arith)
  text_within n _ = unread

  date :
      (v : Value)
      → (field_ok pipe (is_iso8601 ∷ []) v ≡ true)
        ↔ ((s : String) × (as_text v ≡ some s) × (pipe.iso8601 s ≡ true))
  date (text s) = (λ h. (s, refl, ground arith), λ (t, e, h). ground arith)
  date _ = unread

  positive :
      (v : Value)
      → (field_ok pipe (is_int ∷ is_positive ∷ []) v ≡ true)
        ↔ ((z : ℤ) × (as_integer v ≡ some z) × (pos 1 ≤ℤ z))
  positive (integer z) = (λ h. (z, refl, ground arith), λ (t, e, h). ground arith)
  positive _ = unread

  optional_text_within :
      (n : ℕ) (v : Value)
      → (field_ok pipe (is_optional ∷ is_string ∷ max_length n ∷ []) v ≡ true)
        ↔ ((o : Option String) × (as_optional_text v ≡ some o) × IsShort n o)
  optional_text_within n undefined = (λ h. (none, refl, tt), λ r. refl)
  optional_text_within n null = (λ h. (none, refl, tt), λ r. refl)
  optional_text_within n (text s) = (λ h. (some s, refl, ground arith), λ (o, e, h). ground arith)
  optional_text_within n _ = unread

  flag :
      (v : Value)
      → (field_ok pipe (is_optional ∷ is_boolean ∷ []) v ≡ true)
        ↔ ((b : Bool) × (as_optional_boolean v ≡ some b) × Unit {0})
  flag undefined = (λ h. (false, refl, tt), λ r. refl)
  flag null = (λ h. (false, refl, tt), λ r. refl)
  flag (boolean b) = (λ h. (b, refl, tt), λ r. refl)
  flag _ = unread

  -- A body of a creation passes exactly when it can be read as one, of at least one day, with dates
  -- in ISO 8601, two ids of at most 128 characters and a reason, if any, of at most 500.
  pub create_body_iff :
      IsDocumented pipe
      → (body : Fields)
      → (pipe.accepts create_time_off_request_dto body ≡ true)
        ↔ ((dto : CreateTimeOffRequestDto) × (read_create body ≡ some dto) × IsAcceptable dto)
  unfolding decorators read_create
  create_body_iff documented body =
      let e = text_within 128 (at "employeeId" body) in
      let l = text_within 128 (at "locationId" body) in
      let s = date (at "startDate" body) in
      let f = date (at "endDate" body) in
      let d = positive (at "days" body) in
      let r = optional_text_within 500 (at "reason" body) in
      let b = flag (at "submit" body) in
      let a = documented create_time_off_request_dto body in
      (
        λ h.
            let (p1, q1) = (and-eq-true_iff _ _).0 (sym a ∙ h) in
            let (p2, q2) = (and-eq-true_iff _ _).0 q1 in
            let (p3, q3) = (and-eq-true_iff _ _).0 q2 in
            let (p4, q4) = (and-eq-true_iff _ _).0 q3 in
            let (p5, q5) = (and-eq-true_iff _ _).0 q4 in
            let (p6, q6) = (and-eq-true_iff _ _).0 q5 in
            let (p7, q7) = (and-eq-true_iff _ _).0 q6 in
            let (x1, e1, h1) = e.0 p1 in
            let (x2, e2, h2) = l.0 p2 in
            let (x3, e3, h3) = s.0 p3 in
            let (x4, e4, h4) = f.0 p4 in
            let (x5, e5, h5) = d.0 p5 in
            let (x6, e6, h6) = r.0 p6 in
            let (x7, e7, h7) = b.0 p7 in
            (
              record {
                employee_id = x1;
                location_id = x2;
                start_date = x3;
                end_date = x4;
                days = x5;
                reason = x6;
                submit = x7;
              },
              rw (e1, e2, e3, e4, e5, e6, e7) refl,
              (h1, h2, h3, h4, h5, h6),
            ),
        λ (dto, read, fits).
            let (e1, e2, e3, e4, e5, e6, e7) = creation_of_parts _ _ _ _ _ _ _ dto read in
            a
            ∙ rw
                (
                  e.1 (dto.employee_id, e1, fits.0),
                  l.1 (dto.location_id, e2, fits.1),
                  s.1 (dto.start_date, e3, fits.2),
                  f.1 (dto.end_date, e4, fits.3),
                  d.1 (dto.days, e5, fits.4),
                  r.1 (dto.reason, e6, fits.5),
                  b.1 (dto.submit, e7, tt),
                )
                refl,
      )
