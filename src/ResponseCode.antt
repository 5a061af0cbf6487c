-- ===== src/ResponseCode.antt =====
-- responsecode.go: the status codes of responses, as the numbers on the wire.
pub mod Errors
mod Tests
use go_graphsync.Base.{ℕ, Bool, true, false, ◌||◌, Option, none, some, ◌==◌, if◌then◌else◌}

abbrev pub request_completed_full : ℕ
request_completed_full = 20

abbrev pub request_completed_partial : ℕ
request_completed_partial = 21

abbrev pub request_rejected : ℕ
request_rejected = 30

abbrev pub request_failed_busy : ℕ
request_failed_busy = 31

abbrev pub request_failed_unknown : ℕ
request_failed_unknown = 32

abbrev pub request_failed_legal : ℕ
request_failed_legal = 33

abbrev pub request_failed_content_not_found : ℕ
request_failed_content_not_found = 34

abbrev pub request_cancelled : ℕ
request_cancelled = 35

unfoldable pub is_success : ℕ → Bool
is_success c = c == request_completed_full || c == request_completed_partial

unfoldable pub is_failure : ℕ → Bool
is_failure c =
    c == request_failed_busy
    || c == request_failed_content_not_found
    || c == request_failed_legal
    || c == request_failed_unknown
    || c == request_cancelled
    || c == request_rejected

unfoldable pub is_terminal : ℕ → Bool
unfolding is_success is_failure
is_terminal c = is_success c || is_failure c

pub data StatusError : Type 0 where
  failed_busy failed_content_not_found failed_legal failed_unknown cancelled : StatusError
  unknown_code : ℕ → StatusError

unfoldable pub as_error : ℕ → Option StatusError
unfolding is_success
as_error c =
    if is_success c
    then none
    else if c == request_failed_busy
    then some failed_busy
    else if c == request_failed_content_not_found
    then some failed_content_not_found
    else if c == request_failed_legal
    then some failed_legal
    else if c == request_failed_unknown
    then some failed_unknown
    else if c == request_cancelled
    then some cancelled
    else some (unknown_code c)
