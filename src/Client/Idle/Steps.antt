-- ===== src/Client/Idle/Steps.antt =====
-- Every client is sound at every time, and a failure ends its request.
use uni_event_http.Base.{ℕ, Bool, true, false, Option, none, some}
use uni_event_http.Error.{ErrorCode, HttpError, nested, connect_error, timed_out}
use uni_event_http.Client.State.{Scheme, Request, RedirectContext, Client}
use uni_event_http.Client.Redirect.{Reaction}
use uni_event_http.Client.Read.{
  Delivery, canceled, read_failed, connect_done, write_done, timer_fired, file_complete,
}
use uni_event_http.Client.Idle.{IsSound}
use uni_event_http.Client.Idle.Redirect.{KeepsHost}

abbrev SoundChunk : Client × Option HttpError → Type 0
SoundChunk t = IsSound t.0

module _ (default_port : Scheme → ℕ) (on_redirect : RedirectContext → Request → Reaction)
    (keeps : (ctx : RedirectContext) (r : Request) → KeepsHost (on_redirect ctx r) r) where
  abbrev SoundRound : Client × Bool → Type 0
  SoundRound t = IsSound t.0

-- The error that a failure of the stream, of the parser or of time reports.
unfoldable pub failure : Delivery → Option ErrorCode
failure (read_failed err) = some err
failure (connect_done (some err)) = some (nested connect_error err)
failure (write_done o) = o
failure (timer_fired true) = some (nested connect_error timed_out)
failure (timer_fired false) = some timed_out
failure (canceled err) = some err
failure (file_complete o) = o
failure _ = none
