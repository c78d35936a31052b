-- ===== src/World/Rest.antt =====
-- What things that happen to a pool's client lead to (Client.cc): a client at work goes on or goes back,
-- and an idle one stays idle.
use uni_event_http.Base.{
  ℕ, refl, Bool, not, Option, none, some, [], ◌∷◌, sym, subst, arith, is_some, if_elim,
}
use uni_event_http.Error.{ErrorCode}
use uni_event_http.Pool.State.{NetLoc}
use uni_event_http.Client.State.{Scheme, Request, Response, RedirectContext, Client}
use uni_event_http.Client.Request.{drop_connection, finish_request, finish_if, cancel}
use uni_event_http.Client.Redirect.{Reaction, analyze, analyze_request}
use uni_event_http.Client.Read.{
  Parsed, take_response, round, on_read, on_eof, on_connect, on_write, time_out, notify_part,
  cancel_if, is_done_state, is_done, is_in_headers, Delivery, asked, canceled, data_read,
  read_failed, connect_done, write_done, timer_fired, end_of_file, sends_chunk, sends_final_chunk,
  file_complete, send_chunk, send_final_chunk, form_next, form_file_complete, on_request, step,
}
use uni_event_http.World.Plain.{Serves, Rests, StartableIf}
use uni_event_http.World.State.{IsRound}
use uni_event_http.World.Outcome.{Outcome, stays, Serves-Holds, changed-After, cancel-Outcome}
use uni_event_http.World.Redirect.{KeepsPlain}
use uni_event_http.World.Step.{
  form_file_complete-Outcome, sends_chunk-Serves, sends_final_chunk-Serves, round-Outcome,
  on_eof-Outcome, on_connect-Outcome, on_write-Outcome,
}

module _ (default_port : Scheme → ℕ) (on_redirect : RedirectContext → Request → Reaction) where
  cancel-Rests :
      (now : ℕ) (n : NetLoc) (o : Option Request) (err : ErrorCode) (c : Client)
      → Rests default_port n [] c
      → Rests default_port n [] (cancel default_port now o err c)
  unfolding cancel
  cancel-Rests now n o err c r =
      if_elim (Rests default_port n []) (is_some c.request) _ _
        (λ h. absurd (ground (arith, h, r.no_request))) (λ _. r)

  cancel_if-Rests :
      (now : ℕ) (n : NetLoc) (o : Option Request) (err : Option ErrorCode) (c : Client)
      → Rests default_port n [] c
      → Rests default_port n [] (cancel_if default_port on_redirect now o err c)
  cancel_if-Rests now n o none c r = r
  cancel_if-Rests now n o (some err) c r = cancel-Rests now n o err c r

  take_response-Rests :
      (n : NetLoc) (whole : Bool) (p : Parsed) (c : Client)
      → Rests default_port n [] c
      → Rests default_port n [] (take_response whole p c)
  unfolding take_response
  take_response-Rests n whole p c r =
      changed-After default_port n [] [] none c _ refl refl refl (λ e. e) r

  analyze_request-Rests :
      (now : ℕ) (n : NetLoc) (o : Option Request) (c : Client)
      → Rests default_port n [] c
      → Rests default_port n [] (analyze_request default_port on_redirect now o c)
  unfolding analyze_request
  analyze_request-Rests now n o c r =
      subst (λ v. Rests default_port n [] (analyze default_port on_redirect now o v c.response c))
        (sym r.no_request) (by_response c.response)
    where
      by_response :
          (res : Option Response)
          → Rests default_port n [] (analyze default_port on_redirect now o none res c)
      by_response none = r
      by_response (some res) = r

  round-Rests :
      (now : ℕ) (n : NetLoc) (o : Option Request) (p : Parsed) (c : Client)
      → Rests default_port n [] c
      → Rests default_port n [] (round default_port on_redirect now o p c).0
  unfolding round drop_connection
  round-Rests now n o p c r =
      if_elim idle (not c.has_context) _ _
        (λ _. changed-After default_port n [] [] none c _ refl refl refl (λ e. e) r)
        (λ _.
          if_elim idle (is_some p.error) _ _ (λ _. cancel_if-Rests now n o p.error _ taken)
            (λ _.
              if_elim idle (is_in_headers p.state) _ _ (λ _. taken)
                (λ _.
                  if_elim idle (not (is_done p.state)) _ _
                    (λ _.
                      subst
                        (λ v. Rests default_port n [] (
                          notify_part v (record p.response { is_done = is_done_state p.state })
                            (take_response (is_done_state p.state) p c)))
                        (sym r.no_request) taken)
                    (λ _. analyze_request-Rests now n o _ taken))))
    where
      idle : Client × Bool → Type 0
      idle t = Rests default_port n [] t.0

      taken : Rests default_port n [] (take_response (is_done_state p.state) p c)
      taken = take_response-Rests n (is_done_state p.state) p c r

  form_file_complete-Rests :
      (now : ℕ) (n : NetLoc) (o : Option Request) (err : Option ErrorCode) (c : Client)
      → Rests default_port n [] c
      → Rests default_port n [] (form_file_complete default_port now o err c)
  unfolding form_file_complete finish_request
  form_file_complete-Rests now n o (some err) c r =
      subst (λ v. Rests default_port n [] (finish_if default_port now o (some err) v c))
        (sym r.no_request) r
  form_file_complete-Rests now n o none c r =
      subst (λ v. Rests default_port n [] (form_next default_port c.form_field v c))
        (sym r.no_request) (by_field c.form_field)
    where
      by_field : (field : Option ℕ) → Rests default_port n [] (form_next default_port field none c)
      by_field none = r
      by_field (some k) = r

  -- Nothing that happens to an idle client gives it a request, or makes it call the pool.
  pub step-Rests :
      (now : ℕ) (n : NetLoc) (o : Option Request) (d : Delivery) (c : Client)
      → IsRound d
      → Rests default_port n [] c
      → Rests default_port n [] (step default_port on_redirect now o d c)
  unfolding step on_read on_eof on_connect on_write time_out IsRound
  step-Rests now n o (asked q) c w r = absurd w
  step-Rests now n o (canceled err) c w r = cancel-Rests now n o err c r
  step-Rests now n o (data_read []) c w r = r
  step-Rests now n o (data_read (p ∷ [])) c w r =
      let t = round default_port on_redirect now o p c in
      if_elim (Rests default_port n []) t.1 _ _ (λ _. round-Rests now n o p c r)
        (λ _. round-Rests now n o p c r)
  step-Rests now n o (data_read (p ∷ p' ∷ ps)) c w r = absurd w
  step-Rests now n o (read_failed err) c w r = cancel-Rests now n o err c r
  step-Rests now n o (connect_done none) c w r = r
  step-Rests now n o (connect_done (some err)) c w r =
      if_elim (Rests default_port n []) (is_some c.request) _ _ (λ _. cancel-Rests now n o _ c r)
        (λ _. r)
  step-Rests now n o (write_done none) c w r = r
  step-Rests now n o (write_done (some err)) c w r =
      if_elim (Rests default_port n []) (is_some c.request) _ _ (λ _. cancel-Rests now n o _ c r)
        (λ _. r)
  step-Rests now n o (timer_fired connecting) c w r = cancel-Rests now n o _ c r
  step-Rests now n o (end_of_file p) c w r =
      if_elim (Rests default_port n []) (not (is_some c.request)) _ _
        (λ _. changed-After default_port n [] [] none c _ refl refl refl (λ e. e) r)
        (λ h. absurd (ground (arith, h, r.no_request)))
  step-Rests now n o (sends_chunk chunk) c w r =
      subst (λ v. Rests default_port n [] (on_request (λ q d. (send_chunk q chunk d).0) v c))
        (sym r.no_request) r
  step-Rests now n o (sends_final_chunk chunk) c w r =
      subst (λ v. Rests default_port n [] (on_request (λ q d. (send_final_chunk q chunk d).0) v c))
        (sym r.no_request) r
  step-Rests now n o (file_complete err) c w r = form_file_complete-Rests now n o err c r

module _ (default_port : Scheme → ℕ) (on_redirect : RedirectContext → Request → Reaction)
    (keeps : (ctx : RedirectContext) (r : Request) → KeepsPlain (on_redirect ctx r) r) where
  -- Whatever happens to a pool's client at work, it goes on with a plain request of its location, or
  -- calls the pool once to go back and has then the request that waited or is idle, or besides hands the
  -- pool a plain redirected request that can be started.
  pub step-Outcome :
      (now : ℕ) (n : NetLoc) (o : Option Request) (d : Delivery) (c : Client)
      → IsRound d
      → Serves default_port n [] c
      → StartableIf default_port n o
      → Outcome default_port n o (step default_port on_redirect now o d c)
  unfolding step on_read time_out IsRound
  step-Outcome now n o (asked q) c w s t = absurd w
  step-Outcome now n o (canceled err) c w s t =
      cancel-Outcome default_port now n o err c (Serves-Holds default_port n c s) t
  step-Outcome now n o (data_read []) c w s t = stays s
  step-Outcome now n o (data_read (p ∷ [])) c w s t =
      let after = round-Outcome default_port on_redirect keeps now n o p c s t in
      if_elim (Outcome default_port n o) (round default_port on_redirect now o p c).1 _ _
        (λ _. after) (λ _. after)
  step-Outcome now n o (data_read (p ∷ p' ∷ ps)) c w s t = absurd w
  step-Outcome now n o (read_failed err) c w s t =
      cancel-Outcome default_port now n o err c (Serves-Holds default_port n c s) t
  step-Outcome now n o (connect_done err) c w s t =
      on_connect-Outcome default_port on_redirect keeps now n o err c s t
  step-Outcome now n o (write_done err) c w s t =
      on_write-Outcome default_port on_redirect keeps now n o err c s t
  step-Outcome now n o (timer_fired connecting) c w s t =
      cancel-Outcome default_port now n o _ c (Serves-Holds default_port n c s) t
  step-Outcome now n o (end_of_file p) c w s t =
      on_eof-Outcome default_port on_redirect keeps now n o p c s t
  step-Outcome now n o (sends_chunk chunk) c w s t =
      stays (sends_chunk-Serves default_port n chunk c s)
  step-Outcome now n o (sends_final_chunk chunk) c w s t =
      stays (sends_final_chunk-Serves default_port n chunk c s)
  step-Outcome now n o (file_complete err) c w s t =
      form_file_complete-Outcome default_port now n o err c s t
