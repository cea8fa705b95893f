-- ===== src/Alerts/Status.antt =====
-- app/core/status_errors.py: the category of an error. What its regular expressions find in the
-- error's text is a parameter of the text (`Signs`).
use creator_engagement_proje.Base.{
  ℕ, String, Bool, ◌||◌, not, Option, none, some, List, [], ◌∷◌, any, contains, leb, if◌then◌else◌,
  nat_key,
}

pub data Category : Type 0 where
  login_expired risk_limited session_rejected upstream_error : Category
  transport_error protocol_error program_error : Category

-- str(error), the numbers that follow HTTP in it, and which of the expressions, in the order of the
-- code, find something. `stopped`: the text names a stopped browser (status_alerts.py).
pub record Signs : Type 0 where
  pub text : String
  pub codes : List ℕ
  pub login : Bool
  pub limited : Bool
  pub rejected : Bool
  pub transport : Bool
  pub protocol : Bool
  pub connection : Bool
  pub login_code : Bool
  pub risk_code : Bool
  pub stopped : Bool

-- The type of an exception, and the tests that the code makes of it.
pub record ExceptionType : Type 0 where
  pub name : String
  pub is_network : Bool
  pub is_named_transport : Bool
  pub is_author_session : Bool
  pub is_crawler_or_value : Bool

-- A reason, or an exception with its __cause__ if it has one.
pub data Error : Type 0 where
  reason : Signs → Error
  raised : Signs → ExceptionType → Error
  raised_from : Signs → ExceptionType → Error → Error

abbrev pub signs_of : Error → Signs
signs_of (reason s) = s
signs_of (raised s t) = s
signs_of (raised_from s t cause) = s

abbrev pub risk_codes : List ℕ
risk_codes = 403 ∷ 406 ∷ 412 ∷ 418 ∷ 429 ∷ 432 ∷ 461 ∷ 471 ∷ []

-- The tests on the text.
unfoldable pub category_of_text : Signs → Option Category
category_of_text s =
    if contains s.codes 401 || s.login
    then some login_expired
    else if any (λ code. contains risk_codes code) s.codes || s.limited
    then some risk_limited
    else if s.rejected
    then some session_rejected
    else if any (λ code. leb 500 code) s.codes
    then some upstream_error
    else if s.transport
    then some transport_error
    else if s.protocol
    then some protocol_error
    else if s.connection
    then some transport_error
    else if s.login_code
    then some login_expired
    else if s.risk_code
    then some risk_limited
    else none

-- The tests on an exception's type.
unfoldable pub category_of_type : ExceptionType → Option Category
category_of_type t =
    if t.is_network
    then some transport_error
    else if t.is_named_transport
    then some transport_error
    else if t.is_author_session
    then some session_rejected
    else if not t.is_crawler_or_value
    then some program_error
    else none

abbrev pub or_category : Option Category → Option Category → Option Category
or_category none other = other
or_category (some category) other = some category

unfoldable pub status_error : Error → Option Category
unfolding category_of_text category_of_type
status_error (reason s) = category_of_text s
status_error (raised s t) = or_category (category_of_text s) (category_of_type t)
status_error (raised_from s t cause) =
    or_category (category_of_text s) (or_category (status_error cause) (category_of_type t))
