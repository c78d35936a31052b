-- ===== src/Client/FormOrder.antt =====
-- A form is sent whole and in order, and what a second sending of it lacks.
use mathlib.Core.List.{append_assoc}
use uni_event_http.Base.{
  ℕ, zero, suc, ◌+◌, ◌≡◌, refl, true, false, Option, none, some, List, [], ◌∷◌, ◌++◌, ◌∙◌, sym, ap,
  subst, arith, length, if◌then◌else◌, is_some, length-append,
}
use uni_event_http.Client.Form.{
  FormItem, field, embedded_file, streamed_file, FormPiece, field_piece, file_piece, data_piece,
  streamer, trailer, start, FormRun, send_items, send_from,
}
use uni_event_http.Client.State.{Scheme, Request, Event, sends, writes_form, Client}
use uni_event_http.Client.Request.{form_events, formed, run_form, prepare_head, prepare, send}
use uni_event_http.Client.Read.{form_file_complete}

-- The pieces of a form, item by item, and its end.
unfoldable pub form_pieces : List FormItem → List FormPiece
form_pieces [] = trailer ∷ []
form_pieces (field name content ∷ items) = field_piece name content ∷ form_pieces items
form_pieces (embedded_file name content mime_type filename ∷ items) =
    file_piece name filename mime_type ∷ data_piece content ∷ form_pieces items
form_pieces (streamed_file input name mime_type filename ∷ items) =
    streamer input ∷ file_piece name filename mime_type ∷ form_pieces items

-- How many files are streamed.
unfoldable pub streamed : List FormItem → ℕ
streamed [] = 0
streamed (streamed_file input name mime_type filename ∷ items) = suc (streamed items)
streamed (_ ∷ items) = streamed items

-- The items after they were sent: their inputs are gone.
unfoldable pub emptied : List FormItem → List FormItem
emptied [] = []
emptied (streamed_file input name mime_type filename ∷ items) =
    streamed_file none name mime_type filename ∷ emptied items
emptied (i ∷ items) = i ∷ emptied items

form_events-append :
    (ps qs : List FormPiece) (before : List Event)
    → form_events (ps ++ qs) before ≡ form_events qs (form_events ps before)
unfolding form_events
form_events-append [] qs before = refl
form_events-append (p ∷ ps) qs before = form_events-append ps qs _

-- A run from the item behind `pre` on leaves `pre` alone.
send_from-prefix :
    (k : ℕ) (pre items : List FormItem)
    → send_from k (length pre) (pre ++ items)
      ≡ (let f = send_items (k + length pre) items in record f { items = pre ++ f.items })
unfolding send_from
send_from-prefix k [] items = let e : k + 0 ≡ k = omega arith in rw e refl
send_from-prefix k (i ∷ pre) items =
    let e : suc k + length pre ≡ k + suc (length pre) = omega arith in
    ap (λ (f : FormRun). record f { items = i ∷ f.items }) (send_from-prefix (suc k) pre items)
    ∙ ap (λ (n : ℕ). let f = send_items n items in record f { items = i ∷ (pre ++ f.items) }) e

length-snoc :
    (pre : List FormItem) (i : FormItem) (k : ℕ) → length pre ≡ k → length (pre ++ i ∷ []) ≡ suc k
length-snoc pre i k e = omega (arith, length-append {0} pre (i ∷ []), e)

-- The run behind the item `k` of a form.
send_from-next :
    (pre : List FormItem) (i : FormItem) (items : List FormItem) (k : ℕ)
    → length pre ≡ k
    → send_from 0 (suc k) (pre ++ i ∷ items)
      ≡ (let f = send_items (suc k) items in record f { items = pre ++ i ∷ f.items })
send_from-next pre i items k e =
    let l : length (pre ++ i ∷ []) ≡ suc k = length-snoc pre i k e in
    let f = send_items (suc k) items in
    ap (λ (n : ℕ). send_from 0 n (pre ++ i ∷ items)) (sym l)
    ∙ ap (λ xs. send_from 0 (length (pre ++ i ∷ [])) xs) (sym (append_assoc pre (i ∷ []) items))
    ∙ send_from-prefix 0 (pre ++ i ∷ []) items
    ∙ ap (λ (n : ℕ). let g = send_items n items in record g { items = (pre ++ i ∷ []) ++ g.items })
        (omega (arith, l))
    ∙ ap (λ (xs : List FormItem). record f { items = xs }) (append_assoc pre (i ∷ []) f.items)

module _ (default_port : Scheme → ℕ) (now : ℕ) (queued : Option Request) where
  -- The files of the form are streamed one after the other, with no error.
  pub complete : ℕ → Client → Client
  complete zero c = c
  complete (suc n) c = complete n (form_file_complete default_port now queued none c)

  -- The client that has sent the items behind `pre` as far as the run `f` goes.
  abbrev waiting : Client → Request → List FormItem → List Event → FormRun → Client
  waiting c r pre before f = record c {
    request = some (record r {
      form = pre ++ f.items;
      transfer_completed = if is_some f.form_field then r.transfer_completed else true;
    });
    form_field = f.form_field;
    events = form_events f.pieces before;
  }

  -- The client that has sent them all.
  abbrev whole : Client → Request → List FormItem → List Event → List FormItem → Client
  whole c r pre before items = record c {
    request = some (record r { form = pre ++ emptied items; transfer_completed = true });
    form_field = none;
    events = form_events (form_pieces items) before;
  }

  complete-whole :
      (c : Client) (r : Request) (items pre : List FormItem) (before : List Event) (k : ℕ)
      → length pre ≡ k
      → complete (streamed items) (waiting c r pre before (send_items k items))
        ≡ whole c r pre before items
  unfolding complete send_items start form_pieces streamed emptied form_events form_file_complete
      run_form formed
  complete-whole c r [] pre before k e = refl
  complete-whole c r (field name content ∷ items) pre before k e = simp append_assoc at (
      complete-whole c r items (pre ++ field name content ∷ [])
        (writes_form (field_piece name content) ∷ before) (suc k) (length-snoc pre _ k e))
  complete-whole c r (embedded_file name content mime_type filename ∷ items) pre before k e =
      simp append_assoc at (
        complete-whole c r items (pre ++ embedded_file name content mime_type filename ∷ [])
          (writes_form (data_piece content)
            ∷ writes_form (file_piece name filename mime_type)
            ∷ before)
          (suc k) (length-snoc pre _ k e))
  complete-whole c r (streamed_file input name mime_type filename ∷ items) pre before k e =
      ap (λ (f : FormRun). complete (streamed items) (next f)) (send_from-next pre sent items k e)
      ∙ simp append_assoc at (
          complete-whole c r items (pre ++ sent ∷ [])
            (writes_form (file_piece name filename mime_type)
              ∷ writes_form (streamer input)
              ∷ before)
            (suc k) (length-snoc pre _ k e))
    where
      sent : FormItem
      sent = streamed_file none name mime_type filename

      -- The client that goes on with the run `f` behind the file.
      next : FormRun → Client
      next f =
          let d = waiting c r pre before (record {
            items = sent ∷ items;
            pieces = streamer input ∷ file_piece name filename mime_type ∷ [];
            form_field = some k;
          }) in
          run_form f (record d {
            request = some (
                formed f (record r {
                  form = pre ++ sent ∷ items;
                  transfer_completed = r.transfer_completed;
                }));
          })

  -- A form is sent whole and in order: once each of its files was streamed, the client has written, behind
  -- the request, the pieces of its items one after the other and then the end of the form, waits for no
  -- file, and has marked the body as sent; of the items only the inputs of the files are gone.
  pub send-form_pieces :
      (r : Request) (c : Client)
      → r.form_streaming ≡ true
      → let d = complete (streamed r.form) (send r c) in
        (d.events ≡ form_events (form_pieces r.form) (sends (prepare_head r) ∷ c.events))
        × (d.form_field ≡ none)
        × (d.request
            ≡ some (record (prepare_head r) { form = emptied r.form; transfer_completed = true }))
  unfolding send prepare prepare_head run_form formed
  send-form_pieces r c e =
      subst (λ d. Sent d)
        (sym (streaming ∙ complete-whole start_client (prepare_head r) r.form [] _ 0 refl))
        (refl, refl, refl)
    where
      start_client : Client
      start_client = record c { weak = false; has_context = true }

      Sent : Client → Type 0
      Sent d =
          (d.events ≡ form_events (form_pieces r.form) (sends (prepare_head r) ∷ c.events))
          × (d.form_field ≡ none)
          × (d.request
              ≡ some (record (prepare_head r) { form = emptied r.form; transfer_completed = true }))

      streaming :
          complete (streamed r.form) (send r c)
          ≡ complete (streamed r.form) (
              waiting start_client
                (prepare_head r)
                []
                (sends (prepare_head r) ∷ c.events)
                (send_items 0 r.form))
      streaming = rw e refl
