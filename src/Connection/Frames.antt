-- ===== src/Connection/Frames.antt =====
-- The responses do not mix: each is written whole before anything else is.
pub mod Frame
pub mod Write
pub mod Respond
pub mod Answered
pub mod Calls
pub mod Steady
pub mod Awaited
pub mod Held
pub mod Take
pub mod Read
use uni_event_http.Base.{
  ℕ, ◌≡◌, Bool, true, false, Option, none, some, List, [], ◌∷◌, ◌==◌, is_some, not, ◌&&◌,
  if◌then◌else◌,
}
use uni_event_http.Connection.State.{
  Output, continue_100, head, body_chunk, final_chunk, Conn, ServerResponse, front?, is,
}
use uni_event_http.Connection.Respond.{response_completed}
use uni_event_http.Connection.Flow.{is_open}

-- The response that is begun and not ended (the newest output comes first).
abbrev pub unfinished : List Output → Option ℕ
unfinished [] = none
unfinished (head i s ∷ w) = if s.completed then none else some i
unfinished (final_chunk i b ∷ w) = none
unfinished (_ ∷ w) = unfinished w

-- A head, and an interim response, comes when no response is unfinished, and a piece of a body when
-- its own response is.
abbrev pub InFrames : List Output → Type 0
InFrames [] = Unit {0}
InFrames (continue_100 i ∷ w) = (unfinished w ≡ none) × InFrames w
InFrames (head i s ∷ w) = (unfinished w ≡ none) × InFrames w
InFrames (body_chunk i b ∷ w) = (unfinished w ≡ some i) × InFrames w
InFrames (final_chunk i b ∷ w) = (unfinished w ≡ some i) × InFrames w

-- The request at the front, if its response is given and not complete.
abbrev pub pending_of : ℕ → Option ServerResponse → Option ℕ
pending_of i o = if is_some o && not (response_completed o) then some i else none

abbrev pub pending : Conn → List ℕ → Option ℕ
pending c [] = none
pending c (i ∷ rest) = pending_of i (c.heap i).response

-- A request that is at the front, with its whole response.
pub record IsHeld (j : ℕ) (c : Conn) : Type 0 where
  pub at_front : is j (front? c.requests) ≡ true
  pub whole : response_completed (c.heap j).response ≡ true

-- The request that ends when it is received is at the front, with its whole response.
abbrev pub HoldsFront : Conn → Type 0
HoldsFront c =
    (j : ℕ) → (c.heap j).finish_on_receive ≡ true → (c.heap j).is_done ≡ false → IsHeld j c

-- Nothing is unfinished: the next response may be written.
pub record IsRested (c : Conn) : Type 0 where
  pub frames : is_open c.stream ≡ true → InFrames c.wire
  pub rested : is_open c.stream ≡ true → unfinished c.wire ≡ none
  pub holds : is_open c.stream ≡ true → HoldsFront c

-- What is unfinished is the response to the front request.
pub record IsFramed (c : Conn) : Type 0 where
  pub frames : is_open c.stream ≡ true → InFrames c.wire
  pub matches : is_open c.stream ≡ true → unfinished c.wire ≡ pending c c.requests
  pub holds : is_open c.stream ≡ true → HoldsFront c
