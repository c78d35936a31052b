-- ===== src/Examples/Worlds.antt =====
-- A pool with a client at work, a user agent on it, and a request with a form.
use uni_event_http.Base.{◌≡◌, refl, true, false, none, some, List, [], ◌∷◌, ℕ, suc, Bool, Option}
use uni_event_http.Error.{operation_canceled}
use uni_event_http.Server.Config.{eq_bytes}
use uni_event_http.Pool.State.{
  NetLoc, NetLocList, netloc_eq, find, store, assign, new_pool, set_idle_timeout, set_insert,
}
use uni_event_http.Pool.State.{request as entry_request}
use uni_event_http.Client.State.{Request, netloc, netloc_of, check_uri}
use uni_event_http.Client.Form.{FormItem, field, streamed_file}
use uni_event_http.Client.Request.{send, prepare_head, form_events}
use uni_event_http.Client.State.{sends, new_client}
use uni_event_http.Client.Redirect.{resolve, redirect}
use uni_event_http.Client.FormOrder.{complete, streamed, form_pieces, emptied, send-form_pieces}
use uni_event_http.Client.Read.{canceled}
use uni_event_http.World.Plain.{IsPlain}
use uni_event_http.World.State.{World, new_world, ask, deliver, IsRound, asks, delivers, here, next}
use uni_event_http.World.Entry.{WorldHolds}
use uni_event_http.World.Invariant.{Reach-WorldHolds}
use uni_event_http.Client.State.{Response, Uri}
use uni_event_http.UserAgent.Session.{Turn, handler}
use uni_event_http.UserAgent.Redirect.{GoesOnWith, redirect-GoesOnWith}
use uni_event_http.Examples.Clients.{
  next_page, moved, default_port, start_page, page_request, follows,
}

abbrev plain_request : Request
plain_request = record page_request { ssl_ctx = none }

abbrev place : NetLoc
place = record {
  host = b'h' ∷ [];
  port = 8443;
  ssl_ctx = none;
  proxy = none;
  ssl_check_cert = true;
}

plain_request-IsPlain : IsPlain plain_request
unfolding check_uri
plain_request-IsPlain = record {
  hosted = refl;
  schemed = refl;
  no_context = refl;
  no_proxy = refl;
  certified = refl;
}

abbrev asked_once : World
asked_once = (ask default_port plain_request (new_world 1 1000)).0

abbrev asked_twice : World
asked_twice = (ask default_port plain_request asked_once).0

abbrev shared_entry : NetLocList
shared_entry = record { free = []; busy = 0 ∷ []; queue = 1 ∷ [] }

asked_twice-find : find place asked_twice.pool.clients ≡ some shared_entry
unfolding ask check_uri netloc netloc_of entry_request assign new_pool set_idle_timeout set_insert
    find store netloc_eq eq_bytes
asked_twice-find = refl

-- The client's first request is cancelled while the second one waits.
Reach-WorldHolds_example :
    WorldHolds default_port
      (deliver default_port follows 5 0 (canceled operation_canceled) asked_twice)
unfolding IsRound
Reach-WorldHolds_example =
    Reach-WorldHolds default_port (λ i. follows) (λ i ctx r p. (p, refl)) 1 1000
      (next
        (next (next here (asks plain_request plain_request-IsPlain refl))
          (asks plain_request plain_request-IsPlain refl))
        (delivers 0 5 0 place shared_entry (canceled operation_canceled) asked_twice-find refl tt))

abbrev two_items : List FormItem
two_items = field (b'a' ∷ []) (b'1' ∷ []) ∷ streamed_file (some 4) (b'f' ∷ []) [] [] ∷ []

abbrev form_request : Request
form_request = record page_request { form_streaming = true; form = two_items }

send-form_pieces_example :
    let d = complete default_port 5 none 1 (send form_request (new_client false)) in
    (d.events ≡ form_events (form_pieces two_items) (sends (prepare_head form_request) ∷ []))
    × (d.form_field ≡ none)
    × (d.request
        ≡ some (record (prepare_head form_request) {
          form = emptied two_items;
          transfer_completed = true;
        }))
unfolding streamed
send-form_pieces_example = send-form_pieces default_port 5 none form_request (new_client false) refl

-- A jar that knows how many responses it has seen, and puts that number into a request.
abbrev counting_jar : ℕ → Request → Option Uri → Bool → ℕ → Request
counting_jar count r u top_level now = record r { cookies = count ∷ [] }

abbrev counts : ℕ → Response → Option Uri → ℕ → ℕ
counts count res u now = suc count

abbrev agent_turn : Turn ℕ
agent_turn = record {
  agent = record {
    jar = 3;
    config = record { identity = some (b'u' ∷ []); ssl_ctx = some 9; proxy = none };
  };
  now = 5;
  context_uri = none;
  top_level = true;
  response = moved;
}

redirect-GoesOnWith_example : GoesOnWith (some 9) none (4 ∷ []) (resolve start_page next_page) (
    redirect default_port
      (handler (λ text. 0) counts counting_jar agent_turn)
      5
      none
      moved
      page_request
      (new_client false))
unfolding resolve
redirect-GoesOnWith_example =
    redirect-GoesOnWith (λ text. 0) counts counting_jar default_port (λ j r u top_level now. refl)
      agent_turn none start_page next_page page_request (new_client false) refl refl refl refl refl
      refl refl refl
