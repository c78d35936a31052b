-- ===== src/Error.antt =====
-- The library's error codes (src/panda/unievent/http/error.h, error.icc).
use Prim.Native.String.{String}
use uni_event_http.Base.{ℕ, zero, suc, ◌≡◌, refl, Option, none, some}

-- `enum class errc`.
pub data Errc : Type 0 where
  connect_error no_redirect_uri redirection_limit unexpected_redirect transfer_aborted : Errc
  server_stopping pipeline_canceled upgrade_in_pipeline upgrade_wrong_request : Errc

-- A non-empty `ErrorCode`: one of this library's, one of `std::errc`, one that the system, the
-- stream or the message parser reports, or one nested in another (`nest_error`).
pub data ErrorCode : Type 0 where
  http : Errc → ErrorCode
  connection_reset operation_canceled timed_out connection_aborted not_connected : ErrorCode
  external : ℕ → ErrorCode
  nested : Errc → ErrorCode → ErrorCode

-- The messages of the exceptions (`HttpError`) that the code throws.
pub data HttpError : Type 0 where
  double_response continue_after_response chunk_after_completed : HttpError
  upgrade_impossible : HttpError
  one_request_at_a_time already_in_progress no_uri no_host bad_proxy no_verify_paths : HttpError
  chunk_after_transfer chunk_when_inactive : HttpError
  no_locations empty_location already_running already_listening : HttpError
  recursive_sync : HttpError

-- `(int)code`: the enumeration starts at 1.
errc_value : Errc → ℕ
errc_value connect_error = 1
errc_value no_redirect_uri = 2
errc_value redirection_limit = 3
errc_value unexpected_redirect = 4
errc_value transfer_aborted = 5
errc_value server_stopping = 6
errc_value pipeline_canceled = 7
errc_value upgrade_in_pipeline = 8
errc_value upgrade_wrong_request = 9

-- The cast `(errc)condition` followed by the `switch`; `none` is a value that no label names.
errc_of : ℕ → Option Errc
errc_of (suc zero) = some connect_error
errc_of (suc (suc zero)) = some no_redirect_uri
errc_of (suc (suc (suc zero))) = some redirection_limit
errc_of (suc (suc (suc (suc zero)))) = some unexpected_redirect
errc_of (suc (suc (suc (suc (suc zero))))) = some transfer_aborted
errc_of (suc (suc (suc (suc (suc (suc zero)))))) = some server_stopping
errc_of (suc (suc (suc (suc (suc (suc (suc zero))))))) = some pipeline_canceled
errc_of (suc (suc (suc (suc (suc (suc (suc (suc zero)))))))) = some upgrade_in_pipeline
errc_of (suc (suc (suc (suc (suc (suc (suc (suc (suc zero))))))))) = some upgrade_wrong_request
errc_of _ = none

text_of : Errc → String
text_of connect_error = "connect error"
text_of no_redirect_uri = "server did not return valid Location header in redirection response"
text_of redirection_limit = "redirection limit exceeded"
text_of unexpected_redirect = "unexpected redirection response"
text_of transfer_aborted = "server aborted body transfer by sending final response code"
text_of server_stopping = "server is stopping"
text_of pipeline_canceled = "pipelined requests were canceled"
text_of upgrade_in_pipeline = "received upgrade request in a pipelined http connection"
text_of upgrade_wrong_request = "this request can't be upgraded"

-- `ErrorCategory::message`.
message : ℕ → String
unfolding errc_of text_of
message condition = elim (errc_of condition) [ some e ↦ text_of e | none ↦ "" ]

-- The number of an error code leads back to that code, so each code has its own message label.
errc_of-errc_value : (e : Errc) → errc_of (errc_value e) ≡ some e
unfolding errc_of errc_value
errc_of-errc_value connect_error = refl
errc_of-errc_value _ = refl
