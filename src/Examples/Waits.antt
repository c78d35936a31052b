-- ===== src/Examples/Waits.antt =====
-- Requests for whose response a thread waits, in a program of which only the number of requests is known.
use uni_event_http.Base.{
  ℕ, suc, ◌≡◌, refl, Bool, true, false, Option, none, some, List, [], ◌∷◌, ◌==◌,
}
use uni_event_http.Error.{ErrorCode, HttpError, timed_out}
use uni_event_http.Client.State.{Request, new_client, sends}
use uni_event_http.Client.Request.{send, prepare_head, form_events}
use uni_event_http.Client.FormOrder.{complete, streamed, form_pieces}
use uni_event_http.Client.Build.{
  Setting, set_timeout, form_field, new_request, build, items_in, items_of, build-send,
}
use uni_event_http.Http.{
  Thread, value, returned, recursive_request, Notification, http_request_sync, unexpected,
}
use uni_event_http.Http.Guard.{http_request_sync-guard, http_request_sync-last}
use uni_event_http.Examples.Clients.{default_port, page_request, moved}

abbrev free_thread : Thread
free_thread = record {
  sync_loop = none;
  busy = false;
  sync_pool = none;
  instances = (0, 1) ∷ [];
  next = 2;
}

abbrev busy_thread : Thread
busy_thread = record free_thread { sync_loop = some 0; busy = true; sync_pool = some 1 }

abbrev is_unused : ℕ → ℕ → Bool
is_unused pool count = count == 0

abbrev runs_nothing : ℕ → Thread → ℕ → Thread × ℕ
runs_nothing pool t count = (t, count)

abbrev takes_request : ℕ → Request → ℕ → ℕ × Option HttpError
takes_request pool r count = (suc count, none)

-- The request times out, is sent again by its callback, and is answered.
abbrev answers_second : ℕ → Thread → ℕ → (Thread × ℕ) × List Notification
answers_second pool t count = ((t, count), (none, some timed_out) ∷ (some moved, none) ∷ [])

http_request_sync-guard_example :
    (true ≡ true
      → http_request_sync is_unused runs_nothing takes_request answers_second page_request
          busy_thread 4
        ≡ (busy_thread, 4, recursive_request))
    × (true ≡ false
        → (http_request_sync is_unused runs_nothing takes_request answers_second page_request
            busy_thread 4).0.busy
          ≡ false)
http_request_sync-guard_example =
    http_request_sync-guard is_unused runs_nothing takes_request answers_second page_request
      busy_thread 4 (λ _. refl)

abbrev no_error : Option ErrorCode
no_error = none

http_request_sync-last_example :
    (no_error ≡ none
      → (http_request_sync is_unused runs_nothing takes_request answers_second page_request
          free_thread 0).2
        ≡ returned (value (some moved)))
    × ((e : ErrorCode)
        → no_error ≡ some e
        → (http_request_sync is_unused runs_nothing takes_request answers_second page_request
            free_thread 0).2
          ≡ returned (unexpected e))
http_request_sync-last_example =
    http_request_sync-last is_unused runs_nothing takes_request answers_second page_request
      free_thread 0 ((none, some timed_out) ∷ []) (some moved) none refl (refl, refl)

abbrev form_settings : List Setting
form_settings = form_field (b'a' ∷ []) (b'1' ∷ []) ∷ set_timeout 5 ∷ []

build-send_example :
    let r = build form_settings (new_request true page_request) in
    (complete default_port 5 none
      (streamed (items_in form_settings))
      (send r (new_client false))).events
    ≡ form_events (form_pieces (items_in form_settings)) (sends (prepare_head r) ∷ [])
unfolding items_of items_in
build-send_example =
    build-send default_port 5 none true page_request form_settings (new_client false) refl
