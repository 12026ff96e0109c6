-- ===== src/Error/Laws.antt =====
-- What a client can tell from the slug and the status of error.rs.
use mizan_connect.Base.{◌≤◌, ◌<◌, ◌≡◌, arith}
use mizan_connect.Error.{ErrorCode, as_str, status}

-- Two error codes with the same HTTP status are the same code.
pub status_injective : (c d : ErrorCode) → status c ≡ status d → c ≡ d
unfolding status
status_injective c d h = ground arith

-- Every code is a client error or a server error, never a success.
pub status_bounds : (c : ErrorCode) → (400 ≤ status c) × (status c < 600)
unfolding status
status_bounds c = ground arith

-- Two error codes with the same slug in the response body have the same HTTP status.
pub as_str_injective : (c d : ErrorCode) → as_str c ≡ as_str d → c ≡ d
unfolding as_str
as_str_injective c d h = ground arith
