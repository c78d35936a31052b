-- ===== src/Connection/State.antt =====
-- The objects of one server connection: ServerRequest.h, ServerResponse.h and the members of
-- ServerConnection.h (src/panda/unievent/http). A request is known by the number of its object, in
-- order of creation, and a response by that of the request that it was given to.
use uni_event_http.Base.{
  ℕ, ◌+◌, Bool, true, false, Option, none, some, List, [], ◌∷◌, ◌==◌, if◌then◌else◌, update,
}
use uni_event_http.Error.{ErrorCode}

-- The bytes of a text; an empty one is false in a test.
abbrev pub Chunk : Type 0
Chunk = List ℕ

-- `body.length()` is not 0.
unfoldable pub has_body : List Chunk → Bool
has_body [] = false
has_body ([] ∷ parts) = has_body parts
has_body ((b ∷ bytes) ∷ parts) = true

-- `keep_alive` is what the message's `keep_alive()` reads from its headers and version.
pub record ServerResponse : Type 0 where
  pub code : ℕ
  pub chunked : Bool
  pub body : List Chunk
  pub keep_alive : Bool
  pub has_date : Bool
  pub completed : Bool

-- What the Connection header says: "upgrade", the same word in other letter case, or no such thing.
pub data UpgradeHeader : Type 0 where
  exact other_case absent : UpgradeHeader

-- `connection` and `server` tell whether those pointers are set; `upgrade_header`, `keep_alive`,
-- `expects_continue` and `http_10` are what the message's headers and version say.
pub record ServerRequest : Type 0 where
  pub connection : Bool
  pub server : Bool
  pub response : Option ServerResponse
  pub routed : Bool
  pub partial : Bool
  pub finish_on_receive : Bool
  pub is_done : Bool
  pub keep_alive : Bool
  pub upgrade_header : UpgradeHeader
  pub expects_continue : Bool
  pub http_10 : Bool

-- The constructor; what the parser fills in comes with the parts of the message.
unfoldable pub new_server_request : ServerRequest
new_server_request = record {
  connection = true;
  server = false;
  response = none;
  routed = false;
  partial = false;
  finish_on_receive = false;
  is_done = false;
  keep_alive = true;
  upgrade_header = absent;
  expects_continue = false;
  http_10 = false;
}

-- What is handed to the stream, in order; `head` is `to_vector` of the response to request `i`.
pub data Output : Type 0 where
  continue_100 : ℕ → Output
  head : ℕ → ServerResponse → Output
  body_chunk : ℕ → Chunk → Output
  final_chunk : ℕ → Chunk → Output

-- The calls of the user's callbacks.
pub data Event : Type 0 where
  route_event receive_event request_event finish_event : ℕ → Event
  partial_event error_event : ℕ → Option ErrorCode → Event
  drop_event : ℕ → Option ErrorCode → Event

-- Undefined behaviour and failed assertions.
pub data Fault : Type 0 where
  front_of_empty null_timer foreign_request requests_left timer_with_requests : Fault
  not_completed no_requests : Fault

-- `shut` after `shutdown` and `disconnect`, `closed` after `reset`, `detached` after an upgrade.
pub data StreamState : Type 0 where
  opened shut closed detached : StreamState

-- The timer is null, or an object that is active or not.
pub data Timer : Type 0 where
  null : Timer
  active stopped : Timer

-- `parsing` is the request that the parser is in the middle of; `wire` and `events` hold the newest
-- first; `listening` is the stream's event listener, `reading` false after `read_ignore`, and
-- `in_server` tells whether the server's table holds the connection.
pub record Conn : Type 0 where
  pub requests : List ℕ
  pub heap : ℕ → ServerRequest
  pub next_id : ℕ
  pub parsing : Option ℕ
  pub requests_processed : ℕ
  pub idle_timeout : ℕ
  pub max_keepalive_requests : ℕ
  pub idle_timer : Timer
  pub closing : Bool
  pub stopping : Bool
  pub wire : List Output
  pub write_queue_size : ℕ
  pub stream : StreamState
  pub reading : Bool
  pub listening : Bool
  pub in_server : Bool
  pub events : List Event
  pub faults : List Fault

-- The constructor of `ServerConnection`; no request object is there yet.
unfoldable pub new_connection : (idle_timeout max_keepalive_requests : ℕ) → Conn
unfolding new_server_request
new_connection idle_timeout max_keepalive_requests = record {
  requests = [];
  heap = λ _. record new_server_request { connection = false };
  next_id = 0;
  parsing = none;
  requests_processed = 0;
  idle_timeout = idle_timeout;
  max_keepalive_requests = max_keepalive_requests;
  idle_timer = if idle_timeout == 0 then null else active;
  closing = false;
  stopping = false;
  wire = [];
  write_queue_size = 0;
  stream = opened;
  reading = true;
  listening = true;
  in_server = true;
  events = [];
  faults = [];
}

-- Access to the parts of the state.
abbrev pub front? : List ℕ → Option ℕ
front? [] = none
front? (i ∷ rest) = some i

abbrev rest_of : List ℕ → List ℕ
rest_of [] = []
rest_of (i ∷ rest) = rest

abbrev pub back? : List ℕ → Option ℕ
back? [] = none
back? (i ∷ []) = some i
back? (i ∷ j ∷ rest) = back? (j ∷ rest)

abbrev pub is : ℕ → Option ℕ → Bool
is i none = false
is i (some j) = j == i

abbrev pub put_request : ℕ → ServerRequest → Conn → Conn
put_request i r c = record c { heap = update c.heap i r }

abbrev pub put_response : ℕ → ServerResponse → Conn → Conn
put_response i s c = put_request i (record (c.heap i) { response = some s }) c

abbrev pub emit : Event → Conn → Conn
emit e c = record c { events = e ∷ c.events }

abbrev pub fail : Fault → Conn → Conn
fail f c = record c { faults = f ∷ c.faults }

-- `assert`: execution goes on, as it does in a release build.
abbrev pub assert : Bool → Fault → Conn → Conn
assert true f c = c
assert false f c = fail f c

abbrev pub write : Output → Conn → Conn
write o c = record c { wire = o ∷ c.wire; write_queue_size = c.write_queue_size + 1 }

abbrev pub stop_timer : Timer → Timer
stop_timer null = null
stop_timer _ = stopped

abbrev pub is_active : Timer → Bool
is_active active = true
is_active _ = false

abbrev pub read_ignore : Conn → Conn
read_ignore c = record c { reading = false }
