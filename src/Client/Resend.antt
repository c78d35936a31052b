-- ===== src/Client/Resend.antt =====
-- A request with a form that is sent a second time, after a redirect.
use uni_event_http.Base.{ℕ, zero, suc, ◌≡◌, Option, none, some, List, [], ◌∷◌}
use uni_event_http.Client.Form.{FormPiece, streamer}
use uni_event_http.Client.State.{Uri, Request, Event, sends, Client}
use uni_event_http.Client.Request.{with_scheme, form_events}

-- The inputs that are streamed, in order.
pub inputs : List FormPiece → List (Option ℕ)
inputs [] = []
inputs (streamer input ∷ pieces) = input ∷ inputs pieces
inputs (_ ∷ pieces) = inputs pieces

unfoldable pub no_inputs : ℕ → List (Option ℕ)
no_inputs zero = []
no_inputs (suc n) = none ∷ no_inputs n

-- Behind a request of the URI `u`, the client wrote a form with `n` files, each from no input.
abbrev pub SentEmptied : Uri → ℕ → Client → Type 0
SentEmptied u n d =
    (head : Request) × (before : List Event) × (pieces : List FormPiece) × (head.uri
      ≡ some (with_scheme u))
    × (d.events ≡ form_events pieces (sends head ∷ before))
    × (inputs pieces ≡ no_inputs n)
