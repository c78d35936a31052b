-- ===== src/Connection/Order.antt =====
-- The responses go out in the order in which the requests came in.
pub mod Respond
pub mod Finish
pub mod Calls
pub mod Read
use uni_event_http.Base.{
  ℕ, zero, suc, ◌+◌, ◌≤◌, ◌<◌, ◌≡◌, refl, Bool, true, false, Option, none, some, List, [], ◌∷◌,
  ◌++◌, ◌==◌, arith, if◌then◌else◌, is_some,
}
use uni_event_http.Connection.State.{Output, continue_100, head, body_chunk, final_chunk, Conn}

-- One more than the number of the last request whose response was begun.
abbrev pub begun : List Output → ℕ
begun [] = 0
begun (head i s ∷ w) = suc i
begun (_ ∷ w) = begun w

-- Each response is begun after those to earlier requests, and once (the newest output comes first).
abbrev pub InOrder : List Output → Type 0
InOrder [] = Unit {0}
InOrder (head i s ∷ w) = (begun w ≤ i) × InOrder w
InOrder (_ ∷ w) = InOrder w

abbrev pub responded : Conn → ℕ → Bool
responded c i = is_some (c.heap i).response

-- The numbers rise along the queue, from `lo` to below `hi`.
abbrev pub Rising : (lo hi : ℕ) → List ℕ → Type 0
Rising lo hi [] = Unit {0}
Rising lo hi (i ∷ rest) = (lo ≤ i) × (i < hi) × Rising (suc i) hi rest

-- A request whose response was begun has its response.
abbrev pub Fits : Conn → ℕ → Type 0
Fits c i = (begun c.wire ≤ suc i) × (begun c.wire ≡ suc i → responded c i ≡ true)

abbrev pub FrontFits : Conn → List ℕ → Type 0
FrontFits c [] = Unit {0}
FrontFits c (i ∷ rest) = Fits c i

abbrev pub ParsingFits : Conn → Option ℕ → Type 0
ParsingFits c none = Unit {0}
ParsingFits c (some i) = (suc i ≡ c.next_id) × Fits c i

pub record IsOrdered (c : Conn) : Type 0 where
  pub in_order : InOrder c.wire
  pub rising : Rising 0 c.next_id c.requests
  pub front_fits : FrontFits c c.requests
  pub parsing_fits : ParsingFits c c.parsing
  pub begun_bounded : begun c.wire ≤ c.next_id
