-- ===== src/ResponseCode/Tests.antt =====
-- Runs for responsecode.go.
use go_graphsync.Base.{◌≡◌, refl, true, false, none, some, ◌⊎◌, ◌↔◌}
use go_graphsync.ResponseCode.{
  is_success, is_failure, is_terminal, as_error, unknown_code, request_rejected, failed_legal,
}
use go_graphsync.ResponseCode.Errors.{as_error_lem}

legal_has_its_error : as_error 33 ≡ some failed_legal
unfolding as_error
legal_has_its_error = refl

as_error_lem_example :
    ((as_error 30 ≡ none) ↔ (is_success 30 ≡ true))
    × ((as_error 30 ≡ some (unknown_code 30))
        ↔ ((30 ≡ request_rejected) ⊎ (is_terminal 30 ≡ false)))
    × (is_success 30 ≡ true → is_failure 30 ≡ false)
as_error_lem_example = as_error_lem 30
