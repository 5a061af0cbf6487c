-- ===== src/ResponseCode/Errors.antt =====
-- The errors of responsecode.go against its classes of codes.
use go_graphsync.Base.{ℕ, ◌≡◌, true, false, none, some, arith, ◌⊎◌, ◌↔◌}
use go_graphsync.ResponseCode.{
  is_success, is_failure, is_terminal, as_error, unknown_code, request_rejected,
}

-- A code has no error exactly when it is a success; its error is the unspecific one exactly when the
-- code is RequestRejected or no code that ends a request; and no code is both a success and a
-- failure.
pub as_error_lem :
    (c : ℕ)
    → ((as_error c ≡ none) ↔ (is_success c ≡ true))
      × ((as_error c ≡ some (unknown_code c)) ↔ ((c ≡ request_rejected) ⊎ (is_terminal c ≡ false)))
      × (is_success c ≡ true → is_failure c ≡ false)
unfolding as_error is_success is_failure is_terminal
as_error_lem c = ground arith
