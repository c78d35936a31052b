-- ===== src/Client/Build.antt =====
-- The builder of a request (src/panda/unievent/http/Request.h). What the message library sets in a new
-- request, and the settings of its own builder, are not part of this model.
use mathlib.Core.List.{append_assoc, append-nil}
use uni_event_http.Base.{
  ℕ, ◌≡◌, refl, Bool, true, false, not, ◌||◌, Option, none, some, List, [], ◌∷◌, ◌++◌, ◌∙◌, sym, ap,
  subst, arith, u16, is_empty,
}
use uni_event_http.Client.Form.{FormItem, field, embedded_file, streamed_file}
use uni_event_http.Client.State.{Scheme, Request, Proxy, Client, sends}
use uni_event_http.Client.Request.{send, prepare_head, form_events}
use uni_event_http.Client.FormOrder.{complete, streamed, form_pieces, send-form_pieces}

-- `Request ()`: what its own members are set to. `blank` is what the message library and the stream
-- library set, and `default_ssl_verify` the global of that name.
unfoldable pub new_request : (default_ssl_verify : Bool) (blank : Request) → Request
new_request default_ssl_verify blank = record blank {
  timeout = 20000;
  connect_timeout = 0;
  follow_redirect = true;
  tcp_nodelay = false;
  redirection_limit = 20;
  ssl_ctx = none;
  proxy = none;
  proxy_resolve = true;
  form = [];
  ssl_check_cert = default_ssl_verify;
  redirection_counter = 0;
  transfer_completed = false;
  active = false;
  timer_active = false;
}

-- A call of the builder.
pub data Setting : Type 0 where
  set_timeout set_connect_timeout set_redirection_limit set_tcp_hints : ℕ → Setting
  set_follow_redirect set_ssl_check_cert set_tcp_nodelay : Bool → Setting
  set_ssl_ctx : Option ℕ → Setting
  set_proxy : Option Proxy → Setting
  form_field : (name value : List ℕ) → Setting
  form_item : FormItem → Setting
  form_file : (name value mime_type filename : List ℕ) → Setting
  form_file_in : (name : List ℕ) (input : ℕ) (mime_type filename : List ℕ) → Setting

-- `form_stream`, and an item more.
abbrev add_item : FormItem → Request → Request
add_item i r = record r { form_streaming = true; form = r.form ++ i ∷ [] }

unfoldable set : Setting → Request → Request
set (set_timeout val) r = record r { timeout = val }
set (set_connect_timeout val) r = record r { connect_timeout = val }
set (set_redirection_limit val) r = record r { redirection_limit = u16 val }
set (set_tcp_hints val) r = record r { tcp_hints = val }
set (set_follow_redirect val) r = record r { follow_redirect = val }
set (set_ssl_check_cert val) r = record r { ssl_check_cert = val }
set (set_tcp_nodelay val) r = record r { tcp_nodelay = val }
set (set_ssl_ctx val) r = record r { ssl_ctx = val }
set (set_proxy val) r = record r { proxy = val }
set (form_field name value) r = add_item (field name value) r
set (form_item i) r = add_item i r
set (form_file name value mime_type filename) r =
    add_item (embedded_file name value mime_type filename) r
set (form_file_in name input mime_type filename) r =
    add_item (streamed_file (some input) name mime_type filename) r

pub build : List Setting → Request → Request
build [] r = r
build (v ∷ settings) r = build settings (set v r)

-- The items that a list of calls adds, in their order.
unfoldable pub items_of : Setting → List FormItem
items_of (form_field name value) = field name value ∷ []
items_of (form_item i) = i ∷ []
items_of (form_file name value mime_type filename) =
    embedded_file name value mime_type filename ∷ []
items_of (form_file_in name input mime_type filename) =
    streamed_file (some input) name mime_type filename ∷ []
items_of _ = []

unfoldable pub items_in : List Setting → List FormItem
items_in [] = []
items_in (v ∷ settings) = items_of v ++ items_in settings

-- The items are behind those before them, and any of them makes the form one that is streamed.
abbrev Adds : List FormItem → Request → Request → Type 0
Adds items r r' =
    (r'.form ≡ r.form ++ items) × (r'.form_streaming ≡ (not (is_empty items) || r.form_streaming))

set-Adds : (v : Setting) (r : Request) → Adds (items_of v) r (set v r)
unfolding set items_of
set-Adds (set_timeout val) r = (sym (append-nil r.form), refl)
set-Adds (set_connect_timeout val) r = (sym (append-nil r.form), refl)
set-Adds (set_redirection_limit val) r = (sym (append-nil r.form), refl)
set-Adds (set_tcp_hints val) r = (sym (append-nil r.form), refl)
set-Adds (set_follow_redirect val) r = (sym (append-nil r.form), refl)
set-Adds (set_ssl_check_cert val) r = (sym (append-nil r.form), refl)
set-Adds (set_tcp_nodelay val) r = (sym (append-nil r.form), refl)
set-Adds (set_ssl_ctx val) r = (sym (append-nil r.form), refl)
set-Adds (set_proxy val) r = (sym (append-nil r.form), refl)
set-Adds (form_field name value) r = (refl, refl)
set-Adds (form_item i) r = (refl, refl)
set-Adds (form_file name value mime_type filename) r = (refl, refl)
set-Adds (form_file_in name input mime_type filename) r = (refl, refl)

join-Adds :
    (xs ys : List FormItem) (r r' r'' : Request)
    → Adds xs r r'
    → Adds ys r' r''
    → Adds (xs ++ ys) r r''
join-Adds [] ys r r' r'' a b =
    (b.0 ∙ ap (λ zs. zs ++ ys) (a.0 ∙ append-nil r.form), ground (arith, a.1, b.1))
join-Adds (x ∷ xs) ys r r' r'' a b =
    (b.0 ∙ ap (λ zs. zs ++ ys) a.0 ∙ append_assoc r.form (x ∷ xs) ys, ground (arith, a.1, b.1))

build-Adds : (settings : List Setting) (r : Request) → Adds (items_in settings) r (build settings r)
unfolding build items_in
build-Adds [] r = (sym (append-nil r.form), refl)
build-Adds (v ∷ settings) r =
    join-Adds (items_of v) (items_in settings) r (set v r) (build settings (set v r)) (set-Adds v r)
      (build-Adds settings (set v r))

-- A request that is built with items of a form, among any other settings, is sent with its form: once each
-- of its files was streamed, the client has written, behind the request, the pieces of the items in the
-- order in which they were added, and then the end of the form.
pub build-send :
    (default_port : Scheme → ℕ) (now : ℕ) (queued : Option Request) (default_ssl_verify : Bool)
    (blank : Request) (settings : List Setting) (c : Client)
    → is_empty (items_in settings) ≡ false
    → let r = build settings (new_request default_ssl_verify blank) in
      (complete default_port now queued (streamed (items_in settings)) (send r c)).events
      ≡ form_events (form_pieces (items_in settings)) (sends (prepare_head r) ∷ c.events)
build-send default_port now queued default_ssl_verify blank settings c e =
    let r = build settings (new_request default_ssl_verify blank) in
    let a = build-Adds settings (new_request default_ssl_verify blank) in
    let form_lem : r.form ≡ items_in settings = a.0 ∙ (unfold new_request in refl) in
    subst
      (λ items.
        (complete default_port now queued (streamed items) (send r c)).events
        ≡ form_events (form_pieces items) (sends (prepare_head r) ∷ c.events))
      form_lem (send-form_pieces default_port now queued r c (ground (arith, a.1, e))).0
