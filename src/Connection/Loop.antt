-- ===== src/Connection/Loop.antt =====
-- A connection's life as a sequence of what the event loop delivers and of calls that the user makes
-- between deliveries.
use uni_event_http.Base.{ℕ, ◌-◌, Bool, true, ◌&&◌, Option, List, [], ◌∷◌, if◌then◌else◌}
use uni_event_http.Error.{ErrorCode}
use uni_event_http.Connection.State.{Chunk, Event, Conn, is_active}
use uni_event_http.Connection.Calls.{Call, calls}
use uni_event_http.Connection.Read.{
  Parsed, on_read, on_read_error, on_connection, on_write, on_shutdown, on_eof, on_idle,
}

pub data Delivery : Type 0 where
  data_read : List Parsed → Delivery
  read_failed : ErrorCode → Delivery
  connected written : Option ErrorCode → Delivery
  shutdown_done end_of_file idle_timeout : Delivery
  called : List Call → Delivery

module _ (page : ℕ → Chunk) (user : Event → Conn → List Call) where
  unfoldable pub deliver : Delivery → Conn → Conn
  deliver (data_read ps) c = on_read page user ps c
  deliver (read_failed err) c = on_read_error page user err c
  deliver (connected err) c = on_connection err c
  deliver (written err) c = on_write err (record c { write_queue_size = c.write_queue_size - 1 })
  deliver shutdown_done c = on_shutdown c
  deliver end_of_file c = on_eof c
  deliver idle_timeout c = if is_active c.idle_timer then on_idle c else c
  deliver (called ks) c = calls ks c

  -- Without a listener the stream delivers nothing, and after `read_ignore` no data; the timer and
  -- the user are no such events.
  abbrev pub delivers : Delivery → Conn → Bool
  delivers (data_read ps) c = c.listening && c.reading
  delivers (read_failed err) c = c.listening && c.reading
  delivers idle_timeout c = true
  delivers (called ks) c = true
  delivers _ c = c.listening

  unfoldable pub step : Delivery → Conn → Conn
  step d c = if delivers d c then deliver d c else c

  unfoldable pub run : List Delivery → Conn → Conn
  run [] c = c
  run (d ∷ ds) c = run ds (step d c)
