-- ===== src/Lib.antt =====
-- UniEvent-HTTP, an asynchronous HTTP client and server: a model of its own logic and what holds of it.
--
-- The program. A server (src/panda/unievent/http/Server.h, Server.cc) listens at its locations and
-- holds a table of connections. A connection (ServerConnection.h, ServerConnection.cc) turns what its
-- stream delivers into requests, hands them to the user's callbacks, and sends the responses in the
-- order of the requests; the user acts on it through the request and the response objects
-- (ServerRequest.h, ServerRequest.icc, ServerResponse.h, ServerResponse.icc). On the other side a
-- client (Client.h, Client.cc, Request.h, Request.icc, Response.h) carries one request at a time and
-- follows redirects; a pool (Pool.h, Pool.cc) shares clients among the requests to one location, and
-- a user agent (UserAgent.h, UserAgent.cc) fills in its settings and cookies.
--
-- The files. All sources named here are in src/panda/unievent/http, if no path is given.
--   Base: names and helpers that the other files share.
--   Error: error.h, error.icc.
--   Connection/State: the objects of a connection. A request is known by the number of its object
--     and lives in `heap`; `requests` is the deque of the source.
--   Connection/Respond: ServerConnection.cc from `respond` to `upgrade`, each function under its name;
--     `write_next_response` and `finish_request`, which call each other, recurse on the queue.
--   Connection/Calls: ServerRequest.icc and ServerResponse.icc, and all calls of the user as a type.
--   Connection/Read: `on_read` and the other handlers of ServerConnection.cc.
--   Connection/Loop: a run of a connection, as a list of deliveries.
--   Connection/Order, Connection/Flow, Connection/Frames and the files below them, Drop, Limits, Errors,
--     Stuck: theorems on the connection.
--   Server/Config, Server/Lifecycle, Server/Date: Server.h and Server.cc.
--   Server/Stop, Server/Invariant: theorems on the server.
--   Pool/State: Pool.h and Pool.cc, and `NetLoc` of Request.h.
--   Pool/Entry, Pool/Invariant, Pool/History, Pool/Conservation, Pool/Order, Pool/Idle: theorems on the
--     pool; Pool/Location: its table.
--   Client/Build: the builder of Request.h, and a theorem on it.
--   Client/Form: Form.h, Form.cc, and `send_form` of Client.cc.
--   Client/State, Client/Request, Client/Redirect: Request.h, Request.icc, Response.h, Client.cc.
--   Client/Read: the handlers of the stream and of the timer in Client.cc, the calls of Request.icc, and
--     a client's life as a list of what happens to it.
--   Client/Finish, Client/Follow, Client/FormOrder, Client/Resend, Client/Idle and the files below it:
--     theorems on the client.
--   World/State: the pool, its clients and the requests that wait in one state, and what a call of one
--     does to the others.
--   World/Plain, World/Outcome, World/Redirect, World/Step, World/Rest: what one thing that happens to a
--     pool's client leads to.
--   World/Table, World/Entry, World/Ask, World/Calls, World/Keep, World/Invariant: what holds of that
--     state.
--   World/Semaphore and the files below it: what a pool promises, as a semaphore for each location, and
--     that the pool keeps it.
--   UserAgent, UserAgent/Session: UserAgent.h, UserAgent.cc, and the agent on a pool.
--   UserAgent/Redirect: a theorem on it.
--   Http: src/panda/unievent/http.h and http.icc. Http/Guard: theorems on it.
--   Examples: runs of the model and each theorem at a concrete input.
--
-- The conventions. A function of the source that changes an object is a function from the object's
-- state to the next state, under the source's name. An exception is the second part of a result, and
-- the code that made the call catches it. Assertions and undefined behaviour are recorded in `faults`,
-- and execution goes on, as it does in a release build. The counters have their 16 and 64 bits; sizes
-- and times that the code does not add to have none. No function has fuel: each recurses on the queue,
-- on the list of parsed messages or on a table.
--
-- What is a parameter: what the message parsers return for each round of `on_read` (`Parsed`), what
-- the user's callbacks call in answer to an event of a connection (`user`) and to a redirect
-- (`on_redirect`), the page of `default_error_response`, what the operating system does with a
-- location (`bind`), what the pools and the event loop do while a thread waits (Http), the default port
-- of a scheme, the operations of the cookie jar, the times of the event loop, and whether the SSL library
-- can make the default context that checks certificates when a request needs it (`verify_paths_fail`).
--
-- What is assumed of the user: the handlers of `finish_event` and `drop_event`, of the events of a
-- request that is dropped, and of the client's, the pool's and the server's notifications make no call
-- back. A stream delivers data only while it has a listener and reads, and after a read error nothing
-- of the message before is read on. A response is given to one request.
--
-- The client alone (Client/) is given the request that waits for it in the pool as an argument, and
-- records its calls of the pool; World/State carries them out, when what happened to the client is over.
-- There the handlers of `redirect_event` may be others at each step, as those of a user agent, whose
-- cookies change, are; each round of the loop of `on_read` is an event of its own, and a request has
-- the number of its turn at the pool, a new one after a redirect. The theorem on it is about requests
-- with a scheme, no proxy and no SSL context of their own, since the location of others may change
-- under the pool, and for which the default SSL context can be made.
--
-- A header's name is one of those that the code looks for or another; whether its letters have the case
-- of the code's own word is kept beside it, since a redirect compares with case and the rest does not.
--
-- What is not modelled: the callbacks of a request as objects, what an SSL context holds, the text that
-- is made of the pieces of a form and what a streamer reads, addresses of sockets, and the printing of
-- configurations.
pub mod Base
pub mod Error
pub mod Connection
pub mod Server
pub mod Pool
pub mod Client
pub mod UserAgent
pub mod World
pub mod Http
pub mod Examples
