-- ===== src/World/Step.antt =====
-- What each thing that happens to a pool's client at work leads to (Client.cc, Request.icc).
use uni_event_http.Base.{
  ℕ, suc, ◌≡◌, refl, Bool, true, not, ◌&&◌, Option, none, some, List, [], ◌==◌, sym, subst, ◌∙◌,
  is_some, is_empty, if_elim, arith,
}
use uni_event_http.Error.{ErrorCode, HttpError}
use uni_event_http.Pool.State.{NetLoc}
use uni_event_http.Client.State.{Scheme, Request, Response, RedirectContext, Client, check_uri}
use uni_event_http.Client.Form.{send_from}
use uni_event_http.Client.Request.{drop_connection, request, formed, run_form}
use uni_event_http.Client.Redirect.{Reaction, analyze, analyze_request, is_redirect}
use uni_event_http.Client.Read.{
  Parsed, take_response, round, on_eof, on_connect, on_write, notify_part, cancel_if, is_done_state,
  is_done, is_in_headers, hides_part, check_send_chunk, send_chunk, send_final_chunk, send_checked,
  send_final_checked, form_next, form_file_complete, on_request,
}
use uni_event_http.World.Plain.{
  IsPlain, has_scheme, location_at, location_at_direct, location, Serves, StartableIf,
}
use uni_event_http.World.Outcome.{
  Outcome, stays, Serves-Holds, changed-Serves, finish_request-Outcome, cancel-Outcome,
}
use uni_event_http.World.Redirect.{KeepsPlain, redirect-Outcome}

module _ (default_port : Scheme → ℕ) where
  -- Another state of the request, with its place left alone.
  updated-Serves :
      (n : NetLoc) (c d : Client) (r : Request) (s : Serves default_port n [] c)
      → d.request ≡ some r
      → r.uri ≡ s.request.uri
      → r.proxy ≡ s.request.proxy
      → r.ssl_ctx ≡ s.request.ssl_ctx
      → r.ssl_check_cert ≡ s.request.ssl_check_cert
      → r.verify_paths_fail ≡ s.request.verify_paths_fail
      → d.netloc ≡ c.netloc
      → d.pooled ≡ c.pooled
      → d.pool_calls ≡ c.pool_calls
      → Serves default_port n [] d
  updated-Serves n c d r s e u p x k f a b m = record {
    request = r;
    has_request = e;
    plain = plain;
    located = located;
    at = a ∙ s.at;
    pooled = b ∙ s.pooled;
    called = m ∙ s.called;
  }
    where
      plain : IsPlain r
      plain = record {
        hosted = subst (λ o. check_uri o ≡ none) (sym u) s.plain.hosted;
        schemed = subst (λ o. has_scheme o ≡ true) (sym u) s.plain.schemed;
        no_context = x ∙ s.plain.no_context;
        no_proxy = p ∙ s.plain.no_proxy;
        certified = f ∙ s.plain.certified;
      }

      located : location default_port r ≡ n
      located =
          subst (λ o. location_at default_port o r ≡ n) (sym u)
            (location_at_direct default_port s.request.uri r s.request (p ∙ s.plain.no_proxy)
                s.plain.no_proxy x k
              ∙ s.located)

  pub form_file_complete-Outcome :
      (now : ℕ) (n : NetLoc) (o : Option Request) (err : Option ErrorCode) (c : Client)
      → Serves default_port n [] c
      → StartableIf default_port n o
      → Outcome default_port n o (form_file_complete default_port now o err c)
  unfolding form_file_complete run_form formed
  form_file_complete-Outcome now n o (some err) c s t =
      finish_request-Outcome default_port now n o (some err) c (Serves-Holds default_port n c s) t
  form_file_complete-Outcome now n o none c s t = stays (
      subst (λ v. Serves default_port n [] (form_next default_port c.form_field v c))
        (sym s.has_request) (by_field c.form_field))
    where
      by_field :
          (field : Option ℕ)
          → Serves default_port n [] (form_next default_port field (some s.request) c)
      by_field none = s
      by_field (some k) =
          let f = send_from 0 (suc k) s.request.form in
          updated-Serves n c (run_form f (record c { request = some (formed f s.request) }))
            (formed f s.request) s refl refl refl refl refl refl refl refl refl

  pub sends_chunk-Serves :
      (n : NetLoc) (chunk : List ℕ) (c : Client)
      → Serves default_port n [] c
      → Serves default_port n [] (on_request (λ r d. (send_chunk r chunk d).0) c.request c)
  unfolding send_chunk
  sends_chunk-Serves n chunk c s =
      subst (λ v. Serves default_port n [] (on_request (λ r d. (send_chunk r chunk d).0) v c))
        (sym s.has_request) (by_check (check_send_chunk s.request))
    where
      by_check : (e : Option HttpError) → Serves default_port n [] (send_checked e chunk c).0
      by_check (some e) = s
      by_check none =
          if_elim (Serves default_port n []) (is_empty chunk) _ _ (λ _. s)
            (λ _. changed-Serves default_port n c _ refl refl refl refl s)

  pub sends_final_chunk-Serves :
      (n : NetLoc) (chunk : List ℕ) (c : Client)
      → Serves default_port n [] c
      → Serves default_port n [] (on_request (λ r d. (send_final_chunk r chunk d).0) c.request c)
  unfolding send_final_chunk
  sends_final_chunk-Serves n chunk c s =
      subst (λ v. Serves default_port n [] (on_request (λ r d. (send_final_chunk r chunk d).0) v c))
        (sym s.has_request) (by_check (check_send_chunk s.request))
    where
      by_check :
          (e : Option HttpError)
          → Serves default_port n [] (send_final_checked e s.request chunk c).0
      by_check (some e) = s
      by_check none =
          updated-Serves n c _ (record s.request { transfer_completed = true }) s refl refl refl
            refl refl refl refl refl refl

  asked-Serves :
      (n : NetLoc) (r : Request) (c : Client)
      → Serves default_port n [] c
      → Serves default_port n [] (request default_port r c).0
  unfolding request
  asked-Serves n r c s =
      if_elim (λ (t : Client × Option HttpError × Request). Serves default_port n [] t.0)
        (is_some c.request) _ _ (λ _. s) (λ h. absurd (ground (arith, h, s.has_request)))

module _ (default_port : Scheme → ℕ) (on_redirect : RedirectContext → Request → Reaction)
    (keeps : (ctx : RedirectContext) (r : Request) → KeepsPlain (on_redirect ctx r) r) where
  analyze_request-Outcome :
      (now : ℕ) (n : NetLoc) (o : Option Request) (c : Client)
      → Serves default_port n [] c
      → StartableIf default_port n o
      → Outcome default_port n o (analyze_request default_port on_redirect now o c)
  unfolding analyze_request
  analyze_request-Outcome now n o c s t =
      subst (λ v. Outcome default_port n o (analyze default_port on_redirect now o v c.response c))
        (sym s.has_request) (by_response c.response)
    where
      by_response :
          (res : Option Response)
          → Outcome default_port n o (analyze default_port on_redirect now o (some s.request) res c)
      by_response none = stays s
      by_response (some res) =
          if_elim (Outcome default_port n o) (res.code == 100) _ _
            (λ _. stays (changed-Serves default_port n c _ refl refl refl refl s))
            (λ _.
              if_elim (Outcome default_port n o) (s.request.follow_redirect && is_redirect res.code)
                _ _
                (λ _.
                  redirect-Outcome default_port on_redirect keeps now n o res s.request c s.plain
                    s.located s t)
                (λ _.
                  finish_request-Outcome default_port now n o none c
                    (Serves-Holds default_port n c s) t))

  take_response-Serves :
      (n : NetLoc) (whole : Bool) (p : Parsed) (c : Client)
      → Serves default_port n [] c
      → Serves default_port n [] (take_response whole p c)
  unfolding take_response
  take_response-Serves n whole p c s = changed-Serves default_port n c _ refl refl refl refl s

  cancel_if-Outcome :
      (now : ℕ) (n : NetLoc) (o : Option Request) (err : Option ErrorCode) (c : Client)
      → Serves default_port n [] c
      → StartableIf default_port n o
      → Outcome default_port n o (cancel_if default_port on_redirect now o err c)
  cancel_if-Outcome now n o none c s t = stays s
  cancel_if-Outcome now n o (some err) c s t =
      cancel-Outcome default_port now n o err c (Serves-Holds default_port n c s) t

  notify_part-Serves :
      (n : NetLoc) (o : Option Request) (res : Response) (c : Client)
      → Serves default_port n [] c
      → Serves default_port n [] (notify_part o res c)
  notify_part-Serves n none res c s = s
  notify_part-Serves n (some r) res c s =
      if_elim (Serves default_port n []) (hides_part r res) _ _ (λ _. s)
        (λ _. changed-Serves default_port n c _ refl refl refl refl s)

  -- A round of the loop of `on_read`.
  pub round-Outcome :
      (now : ℕ) (n : NetLoc) (o : Option Request) (p : Parsed) (c : Client)
      → Serves default_port n [] c
      → StartableIf default_port n o
      → Outcome default_port n o (round default_port on_redirect now o p c).0
  unfolding round drop_connection
  round-Outcome now n o p c s t =
      if_elim after (not c.has_context) _ _
        (λ _. stays (changed-Serves default_port n c _ refl refl refl refl s))
        (λ _.
          if_elim after (is_some p.error) _ _ (λ _. cancel_if-Outcome now n o p.error _ taken t)
            (λ _.
              if_elim after (is_in_headers p.state) _ _ (λ _. stays taken)
                (λ _.
                  if_elim after (not (is_done p.state)) _ _
                    (λ _. stays (notify_part-Serves n c.request _ _ taken))
                    (λ _. analyze_request-Outcome now n o _ taken t))))
    where
      after : Client × Bool → Type 0
      after t = Outcome default_port n o t.0

      taken : Serves default_port n [] (take_response (is_done_state p.state) p c)
      taken = take_response-Serves n (is_done_state p.state) p c s

  pub on_eof-Outcome :
      (now : ℕ) (n : NetLoc) (o : Option Request) (p : Parsed) (c : Client)
      → Serves default_port n [] c
      → StartableIf default_port n o
      → Outcome default_port n o (on_eof default_port on_redirect now o p c)
  unfolding on_eof
  on_eof-Outcome now n o p c s t =
      if_elim (Outcome default_port n o) (not (is_some c.request)) _ _
        (λ h. absurd (ground (arith, h, s.has_request)))
        (λ _.
          if_elim (Outcome default_port n o) (is_some p.error) _ _
            (λ _. cancel_if-Outcome now n o p.error _ taken t)
            (λ _. analyze_request-Outcome now n o _ taken t))
    where
      taken : Serves default_port n [] (take_response true p c)
      taken = take_response-Serves n true p c s

  pub on_connect-Outcome :
      (now : ℕ) (n : NetLoc) (o : Option Request) (err : Option ErrorCode) (c : Client)
      → Serves default_port n [] c
      → StartableIf default_port n o
      → Outcome default_port n o (on_connect default_port on_redirect now o err c)
  unfolding on_connect
  on_connect-Outcome now n o none c s t = stays s
  on_connect-Outcome now n o (some err) c s t =
      if_elim (Outcome default_port n o) (is_some c.request) _ _
        (λ _. cancel-Outcome default_port now n o _ c (Serves-Holds default_port n c s) t)
        (λ _. stays s)

  pub on_write-Outcome :
      (now : ℕ) (n : NetLoc) (o : Option Request) (err : Option ErrorCode) (c : Client)
      → Serves default_port n [] c
      → StartableIf default_port n o
      → Outcome default_port n o (on_write default_port on_redirect now o err c)
  unfolding on_write
  on_write-Outcome now n o none c s t = stays s
  on_write-Outcome now n o (some err) c s t =
      if_elim (Outcome default_port n o) (is_some c.request) _ _
        (λ _. cancel-Outcome default_port now n o _ c (Serves-Holds default_port n c s) t)
        (λ _. stays s)
