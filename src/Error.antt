-- ===== src/Error.antt =====
-- error.rs: the error type of every handler, its HTTP status, and the results that carry it.
-- The `source` of an `AppError` is left out: only the log reads it.
pub mod Laws
use mizan_connect.Base.{ℕ, Str, codes, Option, none, some, ◌≡◌}

pub data ErrorCode : Type 0 where
  bad_request unauthorized forbidden not_found conflict payload_too_large : ErrorCode
  unprocessable_entity too_many_requests internal not_implemented service_unavailable : ErrorCode

unfoldable pub as_str : ErrorCode → Str
as_str bad_request = codes "bad_request"
as_str unauthorized = codes "unauthorized"
as_str forbidden = codes "forbidden"
as_str not_found = codes "not_found"
as_str conflict = codes "conflict"
as_str payload_too_large = codes "payload_too_large"
as_str unprocessable_entity = codes "unprocessable_entity"
as_str too_many_requests = codes "too_many_requests"
as_str internal = codes "internal_error"
as_str not_implemented = codes "not_implemented"
as_str service_unavailable = codes "service_unavailable"

unfoldable pub status : ErrorCode → ℕ
status bad_request = 400
status unauthorized = 401
status forbidden = 403
status not_found = 404
status conflict = 409
status payload_too_large = 413
status unprocessable_entity = 422
status too_many_requests = 429
status internal = 500
status not_implemented = 501
status service_unavailable = 503

pub record AppError : Type 0 where
  pub code : ErrorCode
  pub message : Str

-- `AppError::new` and the constructors for one code.
abbrev pub app_error : ErrorCode → Str → AppError
app_error c m = record { code = c; message = m }

-- The failures of a statement that the program tells apart.
pub data SqlError : Type 0 where
  row_not_found unique_violation other_failure : SqlError

-- `impl From<sqlx::Error> for AppError`
unfoldable pub from_sqlx : SqlError → AppError
from_sqlx row_not_found = app_error not_found (codes "resource not found")
from_sqlx unique_violation = app_error conflict (codes "resource already exists")
from_sqlx other_failure = app_error internal (codes "database error")

pub data Result {ℓ} (A : Type ℓ) : Type ℓ where
  ok : A → Result A
  err : AppError → Result A

abbrev pub ok_or {ℓ} : {A : Type ℓ} → AppError → Option A → Result A
ok_or e none = err e
ok_or e (some a) = ok a
