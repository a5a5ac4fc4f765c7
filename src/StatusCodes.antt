-- ===== src/StatusCodes.antt =====
-- The classes of status codes in httpxp/_status_codes.py. A status is a number, as the
-- properties of a response hand it on.
use httpxp.Prelude.{Bool, leb, ℕ, ◌&&◌}

within : ℕ → ℕ → ℕ → Bool
within low high value = leb low value && leb value high

pub is_informational : ℕ → Bool
is_informational value = within 100 199 value

pub is_success : ℕ → Bool
is_success value = within 200 299 value

pub is_redirect : ℕ → Bool
is_redirect value = within 300 399 value

pub is_client_error : ℕ → Bool
is_client_error value = within 400 499 value

pub is_server_error : ℕ → Bool
is_server_error value = within 500 599 value

pub is_error : ℕ → Bool
is_error value = within 400 599 value
