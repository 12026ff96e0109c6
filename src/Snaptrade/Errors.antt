-- ===== src/Snaptrade/Errors.antt =====
-- snaptrade/errors.rs: what a failed request to SnapTrade becomes for the client.
use mizan_connect.Base.{ℕ, Str, codes, Bool, true, false, ◌&&◌, leb, ◌==◌, if◌then◌else◌}
use mizan_connect.Error.{
  AppError, app_error, internal, forbidden, not_found, too_many_requests, service_unavailable,
  Result, ok, err,
}

pub data SnaptradeError : Type 0 where
  upstream_status : ℕ → Str → SnaptradeError
  -- Whether the request has timed out.
  transport : Bool → SnaptradeError
  decode : SnaptradeError
  parse : Str → SnaptradeError

-- `Result<_, SnaptradeError>`
pub data Answer (A : Type 0) : Type 0 where
  answered : A → Answer A
  refused : SnaptradeError → Answer A

abbrev pub integration_error : AppError
integration_error = app_error internal (codes "broker integration error")

abbrev of_status : ℕ → AppError
of_status s =
    if s == 401
    then integration_error
    else if s == 403
    then app_error forbidden (codes "broker access denied")
    else if s == 404
    then app_error not_found (codes "broker connection or account not found")
    else if s == 429
    then app_error too_many_requests (codes "upstream rate limit")
    else if leb 500 s && leb s 599
    then app_error service_unavailable (codes "broker temporarily unavailable")
    else integration_error

-- `impl From<SnaptradeError> for AppError`
unfoldable pub from_snaptrade : SnaptradeError → AppError
from_snaptrade (upstream_status s body) = of_status s
from_snaptrade (transport true) = app_error service_unavailable (codes "broker request timed out")
from_snaptrade (transport false) =
    app_error service_unavailable (codes "broker temporarily unavailable")
from_snaptrade decode = integration_error
from_snaptrade (parse message) = integration_error

-- `?` on a `SnaptradeError` in a handler.
unfoldable pub answer_or : {A : Type 0} → Answer A → Result A
answer_or (answered a) = ok a
answer_or (refused e) = err (from_snaptrade e)
