-- ===== src/Common/HttpExceptionFilter.antt =====
-- common/http-exception.filter.ts: the envelope that a client gets for what was thrown.
use hcm.Prelude.{ℕ, Option, none, some, [], ◌∷◌, String, ◌==◌, ◌<>◌, Dict, lookup, if◌then◌else◌}
use hcm.Common.Errors.{Details, Message, ErrorResponse, Exception}

-- `{ statusCode, error, message, details? }`
pub record Envelope : Type 0 where
  pub status_code : ℕ
  pub error : String
  pub message : Message
  pub details : Option Details

-- `name.replace(/Exception$/, '')`
abbrev pub strip_exception : String → String
strip_exception String.[] = ""
strip_exception (String.◌∷◌ c rest) =
    let stripped = strip_exception rest in
    if String.◌∷◌ c rest == "Exception" then "" else String.◌∷◌ c stripped

-- The letters of class names; `toUpperCase` leaves their digits as they are.
abbrev capitals : Dict String
capitals =
    ("a", "A")
    ∷ ("b", "B")
    ∷ ("c", "C")
    ∷ ("d", "D")
    ∷ ("e", "E")
    ∷ ("f", "F")
    ∷ ("g", "G")
    ∷ ("h", "H")
    ∷ ("i", "I")
    ∷ ("j", "J")
    ∷ ("k", "K")
    ∷ ("l", "L")
    ∷ ("m", "M")
    ∷ ("n", "N")
    ∷ ("o", "O")
    ∷ ("p", "P")
    ∷ ("q", "Q")
    ∷ ("r", "R")
    ∷ ("s", "S")
    ∷ ("t", "T")
    ∷ ("u", "U")
    ∷ ("v", "V")
    ∷ ("w", "W")
    ∷ ("x", "X")
    ∷ ("y", "Y")
    ∷ ("z", "Z")
    ∷ []

abbrev capital : String → String
capital letter = elim (lookup letter capitals) [ none ↦ letter | some upper ↦ upper ]

-- `toUpperCase()`
abbrev pub to_upper_case : String → String
to_upper_case String.[] = ""
to_upper_case (String.◌∷◌ c rest) = capital (String.◌∷◌ c String.[]) <> to_upper_case rest

abbrev pub or_default {ℓ} : {A : Type ℓ} → Option A → A → A
or_default none default = default
or_default (some a) default = a

unfoldable pub catch : Exception → Envelope
catch (Exception.http_exception name status (ErrorResponse.plain text)) = record {
  status_code = status;
  error = to_upper_case (strip_exception name);
  message = Message.text text;
  details = none;
}
catch (Exception.http_exception name status (ErrorResponse.object b)) = record {
  status_code = status;
  error = or_default b.error "INTERNAL_ERROR";
  message = or_default b.message (Message.text "Internal server error");
  details = b.details;
}
catch (Exception.error message) = record {
  status_code = 500;
  error = "INTERNAL_ERROR";
  message = Message.text message;
  details = none;
}
catch Exception.unknown = record {
  status_code = 500;
  error = "INTERNAL_ERROR";
  message = Message.text "Internal server error";
  details = none;
}
