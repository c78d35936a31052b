-- ===== src/UserAgent.antt =====
-- The user agent's part in a request: `UserAgent::inject` and its use in `redirect_event`
-- (src/panda/unievent/http/UserAgent.cc). What the cookie jar, which is not part of this library, puts
-- into a request is the argument `populate`.
pub mod Session
pub mod Redirect
use uni_event_http.Base.{
  ℕ, ◌≡◌, refl, Bool, true, false, ◌||◌, Option, none, some, List, [], ◌∷◌, ◌++◌, arith, ap, ◌∙◌,
  if◌then◌else◌, is_some, if_elim,
}
use uni_event_http.Client.State.{
  HeaderName, user_agent, Header, Proxy, Request, RedirectContext, Uri,
}
use uni_event_http.Client.Redirect.{redirected, Reaction, goes_on}

pub record Config : Type 0 where
  pub identity : Option (List ℕ)
  pub ssl_ctx : Option ℕ
  pub proxy : Option Proxy

abbrev is_user_agent : HeaderName → Bool
is_user_agent user_agent = true
is_user_agent _ = false

has_user_agent : List Header → Bool
has_user_agent [] = false
has_user_agent (h ∷ hs) = is_user_agent h.name || has_user_agent hs

abbrev add_identity : Option (List ℕ) → List Header → List Header
add_identity none hs = hs
add_identity (some id) hs =
    if has_user_agent hs
    then hs
    else hs ++ record { name = user_agent; exact_case = true; value = id } ∷ []

-- `if (_config.x && !req->x) req->x = _config.x`.
abbrev pub or_else {ℓ} : {A : Type ℓ} → Option A → Option A → Option A
or_else none o = o
or_else (some a) o = some a

abbrev apply_config : Config → Request → Request
apply_config conf r = record r {
  headers = add_identity conf.identity r.headers;
  ssl_ctx = or_else r.ssl_ctx conf.ssl_ctx;
  proxy = or_else r.proxy conf.proxy;
}

module _ (populate : Request → Request) where
  pub inject : Config → Request → Request
  inject conf r = apply_config conf (populate r)

  -- The agent's handler of `redirect_event`.
  pub on_redirect : Config → RedirectContext → Request → Reaction
  on_redirect conf ctx r = goes_on (inject conf r)

has_user_agent-append :
    (hs : List Header) (id : List ℕ)
    → has_user_agent (hs ++ record { name = user_agent; exact_case = true; value = id } ∷ []) ≡ true
unfolding has_user_agent
has_user_agent-append [] id = refl
has_user_agent-append (h ∷ hs) id = ground (arith, has_user_agent-append hs id)

-- An agent with an identity leaves no request without a User-Agent header.
add_identity-has :
    (o : Option (List ℕ)) (hs : List Header)
    → is_some o ≡ true
    → has_user_agent (add_identity o hs) ≡ true
add_identity-has none hs h = cc
add_identity-has (some id) hs h =
    if_elim (λ t. has_user_agent t ≡ true) (has_user_agent hs) _ _ (λ e. e)
      (λ _. has_user_agent-append hs id)

add_identity-twice :
    (o : Option (List ℕ)) (hs : List Header)
    → add_identity o (add_identity o hs) ≡ add_identity o hs
add_identity-twice none hs = refl
add_identity-twice (some id) hs = ground (arith, has_user_agent-append hs id)

or_else-twice {ℓ} : {A : Type ℓ} (a b : Option A) → or_else (or_else a b) b ≡ or_else a b
or_else-twice none none = refl
or_else-twice none (some b) = refl
or_else-twice (some a) b = refl

-- If filling the cookies in again changes nothing, neither does injecting the agent's settings again.
inject-inject :
    (populate : Request → Request) (conf : Config) (r : Request)
    → populate (inject populate conf r) ≡ inject populate conf r
    → inject populate conf (inject populate conf r) ≡ inject populate conf r
unfolding inject
inject-inject populate conf r h = ap (apply_config conf) h ∙ twice (populate r)
  where
    twice : (q : Request) → apply_config conf (apply_config conf q) ≡ apply_config conf q
    twice q = λ t. record q {
      headers = add_identity-twice conf.identity q.headers t;
      ssl_ctx = or_else-twice q.ssl_ctx conf.ssl_ctx t;
      proxy = or_else-twice q.proxy conf.proxy t;
    }

-- If the cookie jar leaves a request's SSL context and proxy alone, a request goes on after a redirect,
-- which took its SSL context, with the agent's, and with the agent's proxy if it has none of its own.
redirect_restores :
    (populate : Request → Request) (conf : Config) (prev location : Uri) (r : Request)
    → ((q : Request) → (populate q).ssl_ctx ≡ q.ssl_ctx)
    → ((q : Request) → (populate q).proxy ≡ q.proxy)
    → let r' = inject populate conf (redirected prev location r) in
      (r'.ssl_ctx ≡ conf.ssl_ctx) × (r'.proxy ≡ or_else r.proxy conf.proxy)
unfolding inject redirected
redirect_restores populate conf prev location r s p = (rw s refl, rw p refl)
