-- ===== src/Connection/Flow.antt =====
-- A response is not held back: once its request is at the front of the queue, it is being sent.
pub mod Frame
pub mod Finish
pub mod Write
pub mod Calls
pub mod Take
pub mod Read
use uni_event_http.Base.{
  ℕ, suc, ◌≡◌, refl, Bool, true, false, Option, none, some, List, [], ◌∷◌, ◌==◌, arith, ◌∙◌,
  is_some, is_empty, if◌then◌else◌,
}
use uni_event_http.Connection.State.{
  Output, body_chunk, final_chunk, StreamState, opened, Conn, back?, is,
}
use uni_event_http.Connection.Order.{begun, responded}

abbrev pub is_open : StreamState → Bool
is_open opened = true
is_open _ = false

-- Each piece of a body goes out behind the head of its own response (the newest output comes first).
abbrev pub InTurn : List Output → Type 0
InTurn [] = Unit {0}
InTurn (body_chunk i b ∷ w) = (begun w ≡ suc i) × InTurn w
InTurn (final_chunk i b ∷ w) = (begun w ≡ suc i) × InTurn w
InTurn (_ ∷ w) = InTurn w

-- If the front of the queue has a response, that was begun, and nothing behind it.
abbrev pub FrontBegun : Conn → List ℕ → Type 0
FrontBegun c [] = Unit {0}
FrontBegun c (i ∷ rest) = responded c i ≡ true → begun c.wire ≡ suc i

abbrev pub ParsingUnread : Conn → Option ℕ → Type 0
ParsingUnread c none = Unit {0}
ParsingUnread c (some i) = (c.heap i).is_done ≡ false

abbrev pub ParsingQueued : Option ℕ → List ℕ → Type 0
ParsingQueued none q = Unit {0}
ParsingQueued (some i) q = is i (back? q) ≡ true

-- The request that the parser is in the middle of is not received in full, and is at the back of the
-- queue unless the connection closes; and a connection that closes has a request to finish. What was written is in turn.
pub record IsReady (c : Conn) : Type 0 where
  pub parsing_unread : ParsingUnread c c.parsing
  pub parsing_queued :
      is_open c.stream ≡ true → c.closing ≡ false → ParsingQueued c.parsing c.requests
  pub closing_busy : is_open c.stream ≡ true → c.closing ≡ true → is_empty c.requests ≡ false
  pub in_turn : is_open c.stream ≡ true → InTurn c.wire

pub record IsFlowing (c : Conn) : Type 0 where
  pub ready : IsReady c
  pub front_begun : is_open c.stream ≡ true → FrontBegun c c.requests
