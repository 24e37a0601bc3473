-- ===== src/Lib.antt =====
-- coro_actor: an actor framework over asio coroutines.
--
-- A master process reads a configuration (src/coro_actor_config.cpp), forks a proxy and the actors
-- (src/coro_actor.cpp) and waits for signals. Each actor connects to the proxy over a unix socket. A
-- service in one actor that calls a service in another sends a request to the proxy, which chooses an
-- actor that offers the service, keeps the chain of actors of each call id, and sends the response back
-- along it. In an actor process a context (src/coro_actor_ctx.cpp) keeps a queue of messages, which come
-- from clients over sessions (src/coro_actor_session.cpp) or from the proxy, and one coroutine works on
-- them.
--
-- Which file models which part:
--   Prelude            names that the others share, lists over native numbers, maps as lookups
--   Packet             include/coro_actor_pack.h and include/coro_actor_protocol.h
--   Proxy              handle_proxy_handle_request and update_actor_info of src/coro_actor.cpp, with
--                      the tables of include/coro_actor.h
--   Proxy/Deal         handle_proxy_deal_actor, a round at a time between two suspensions
--   Proxy/System       handle_proxy_accept and the coroutines of all connections, as a step relation
--   Proxy/Choice, Selection, Handling, Delivery, Calls, Tables, Sound, Safety, Rounds,
--   Proxy/System/Invariant
--                      proofs on the choice of an actor, on what is sent, on calls and their
--                      responses, and on the tables
--   Config             include/coro_actor_config.h
--   Config/Yaml        what the loader uses of yaml-cpp, as an interface
--   Config/Loader      coro_actor_config::load; Rules and Consistent have its proofs
--   Supervisor         init_proxy_process, reap_proxy_process, stop_proxy_process,
--                      spawn_actor_process, init_actor_processes, reap_actor_processes,
--                      stop_actor_processes, update_processes_status, stop_server and
--                      signal_handler of src/coro_actor.cpp; Start and Signals have the proofs
--   Session            coro_actor_session::handle_remote_pack, over an interface of asio; Stream and
--                      Ends have the proofs
--   PidFile            create_pidfile, delete_pidfile and handle_stop_command of src/coro_actor.cpp;
--                      Stop has the proofs
--   Worker             coro_actor_ctx: push_msg, notify_complete, set_call_id and handle_message
--   Worker/Send        send and set_response_pack of coro_actor_ctx, and what a packet does in
--                      handle_actor_internal of src/coro_actor.cpp
--   Worker/Steps, Wakeups, Calls, Ids, Serves
--                      the context as a step relation, in Steps, and the proofs
--   Net                asio as an interface, and what a read takes of the bytes that arrive
--   Wire               the packets on the unix sockets as bytes: what handle_proxy_deal_actor,
--                      handle_proxy_handle_request, handle_actor_notify_proxy, handle_actor_internal
--                      and the context write and read; Frames, Broken and Answer have the proofs
--   Proxy/Exchange     proofs on a request and its response between two free actors
--   ClientCall         proofs on the messages of a client, from its session to the responses
--   RemoteCall         proofs on a call from the caller's send through the proxy to the service and back
--   Actor              handle_actor_notify_proxy and handle_actor_remote of src/coro_actor.cpp; Table,
--                      Starts and Handshake have the proofs
--   Logger             set_logger of src/coro_actor.cpp
--   StartUp            run, init and set_daemon of src/coro_actor.cpp, for main.cpp; Twice and Processes
--                      have the proofs
--   Title              cpystrn, init_setproctitle and set_proctitle of src/coro_actor.cpp; Copies, Shows
--                      and Moves have the proofs
--   Examples           the services under example/; Threads and Sqlite are those of
--                      example/use_thread/svc_use_thread.cpp and example/use_sqlite/svc_use_sqlite.cpp
--   the Tests of each  concrete runs; Net/Lists, Wire/Codecs and Config/Loader/Document are examples of
--                      the interfaces
--
-- The state is explicit. A coroutine is a function from the state to the next point where it is
-- suspended, with the local variables that are live there, and the orders in which coroutines run are
-- sequences of steps. An actor_info, which three tables share, lives in a store, and the tables hold
-- its number. A null pointer that is read, an empty list that is popped and an iterator to an erased
-- element are values of their own (crashed, fault). An unordered_map is a function to Option, since no
-- order of its entries matters; only the configurations of the actors are a list. A process id and a
-- length are numbers; seq_ of the context wraps at 2^32.
--
-- Loops: the loops over lists recurse on them. The loop of init_actor_processes has as many rounds as
-- there are actors, as in the source. The session's loop runs on fuel, and more fuel than bytes still
-- arrive is enough, since a round takes at least seven of them. A client's call of an example's
-- service is followed on fuel, one for each call that the service makes and one for its response; the
-- result holds for any fuel that is enough for these.
--
-- Code outside of the repository is a parameter: yaml-cpp (Config/Yaml), asio's reads and byte
-- orders with their documented laws (Net), struct_pack, whose deserialize reads what serialize has made
-- (Wire), std::to_string (Worker), the streams of the pid file (PidFile) and of svc_add (Examples), fork
-- and waitpid (Supervisor), dlopen, dlsym and the connection to the proxy (Actor), what cxxopts has parsed,
-- the system calls of set_daemon, the log directory and the acceptors (StartUp), what spdlog can open
-- (Logger), the results of sqlite3_step (Examples/Sqlite), and the services that an actor loads
-- (Worker). Whether a write fails is chosen by the step, or by the host.
--
-- The memory in Title has a number at each address, and the strings that are copied are texts outside of
-- the area that is written. In Examples/Threads the test of use_count and the call of cancel_one are steps
-- of their own, since another thread may run in between.
--
-- A coroutine of a service that stands in send is one of the waiting or the due ones of the timer in the
-- context; send_returns is how one that is due goes on. The turns of the coroutine of handle_message are
-- given by resume_if_due, which leaves it where it is unless its timer has been cancelled or its write is
-- done.
--
-- Not modelled: look_call_chain and the logging itself; handle_proxy_process and handle_actor_process,
-- which open the proxy's socket, spawn the coroutines and run the io_context; the functions of the
-- examples that only spawn a coroutine; the calls of an example's service by several clients at once, and
-- what it gets from a service that makes calls itself; the temporary copies that std::thread makes of a
-- lambda.
pub mod Prelude
pub mod Packet
pub mod Net
pub mod Wire
pub mod Proxy
pub mod Config
pub mod Supervisor
pub mod Session
pub mod Worker
pub mod ClientCall
pub mod RemoteCall
pub mod Actor
pub mod PidFile
pub mod Logger
pub mod StartUp
pub mod Title
pub mod Examples
