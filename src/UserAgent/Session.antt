-- ===== src/UserAgent/Session.antt =====
-- A user agent with its cookie jar and its pool (`request` and the setters of
-- src/panda/unievent/http/UserAgent.h, UserAgent.cc). The cookie jar is not part of this library: its type
-- and its three operations are parameters.
use uni_event_http.Base.{ℕ, Bool, Option, none, some, List}
use uni_event_http.Error.{ErrorCode, HttpError}
use uni_event_http.Client.State.{Scheme, Uri, Request, Response, RedirectContext, Proxy}
use uni_event_http.Client.Redirect.{Reaction, goes_on}
use uni_event_http.UserAgent.{Config, inject}
use uni_event_http.World.State.{World, ask}

pub record UserAgent (J : Type 0) : Type 0 where
  pub jar : J
  pub config : Config

-- A call of the agent: at what time, for what context, and the response that a redirect came with.
pub record Turn (J : Type 0) : Type 0 where
  pub agent : UserAgent J
  pub now : ℕ
  pub context_uri : Option Uri
  pub top_level : Bool
  pub response : Response

module _ {J : Type 0} where
  unfoldable set_cookie_jar : J → UserAgent J → UserAgent J
  set_cookie_jar value a = record a { jar = value }

  unfoldable set_identity : Option (List ℕ) → UserAgent J → UserAgent J
  set_identity value a = record a { config = record a.config { identity = value } }

  unfoldable set_proxy : Option Proxy → UserAgent J → UserAgent J
  set_proxy value a = record a { config = record a.config { proxy = value } }

  unfoldable set_ssl_ctx : Option ℕ → UserAgent J → UserAgent J
  set_ssl_ctx value a = record a { config = record a.config { ssl_ctx = value } }

module _ {J : Type 0} (new_jar : List ℕ → J) (collect : J → Response → Option Uri → ℕ → J)
    (populate : J → Request → Option Uri → Bool → ℕ → Request) where
  unfoldable new_user_agent : List ℕ → Config → UserAgent J
  new_user_agent serialized config = record { jar = new_jar serialized; config = config }

  -- The callback of `response_event`.
  unfoldable on_response : ℕ → Request → Response → Option ErrorCode → UserAgent J → UserAgent J
  on_response now r res none a = record a { jar = collect a.jar res r.uri now }
  on_response now r res (some err) a = a

  abbrev pub injected : Turn J → Request → Request
  injected t r =
      inject (λ q. populate t.agent.jar q t.context_uri t.top_level t.now) t.agent.config r

  -- The callback of `redirect_event`: the agent after it, and the request.
  unfoldable pub after_redirect : Turn J → RedirectContext → UserAgent J
  after_redirect t ctx = record t.agent { jar = collect t.agent.jar t.response ctx.uri t.now }

  abbrev pub handler : Turn J → RedirectContext → Request → Reaction
  handler t ctx r = goes_on (injected (record t { agent = after_redirect t ctx }) r)

  module _ (default_port : Scheme → ℕ) where
    unfoldable pub request : Turn J → Request → World → World × Option HttpError
    request t r w = ask default_port (injected t r) w

    -- The overload that takes the request's own URI for the context.
    unfoldable request_alone : Turn J → Request → World → World × Option HttpError
    unfolding request
    request_alone t r w = request (record t { context_uri = r.uri }) r w
