-- ===== src/Actor/Tests.antt =====
-- The start of an actor process of src/coro_actor.cpp with one service.
use coro_actor.Prelude.{
  ◌≡◌, refl, ℕ, ℕ_discrete, Bytes-discrete, true, false, some, none, [], ◌∷◌, ◌++◌, Bytes, codes,
  ite, arith, ◌↔◌,
}
use coro_actor.Prelude.Map.{Map, empty, insert, bytes_key, nat_key}
use coro_actor.Proxy.{Proxy}
use coro_actor.Net.Lists.{list_asio}
use coro_actor.Wire.{write_connect, write_connack}
use coro_actor.Wire.Codecs.{lists}
use coro_actor.Config.{ActorConfig}
use coro_actor.Actor.{
  Process, Host, serving, stopped, handle_actor_notify_proxy, handle_actor_remote,
}
use coro_actor.Actor.Table.{load_functions-IsLoaded}
use coro_actor.Actor.Starts.{IsStarted, handle_actor_notify_proxy-serving_iff}
use coro_actor.Actor.Starts.Stops.{IsStopped, handle_actor_notify_proxy-stopped_iff}
use coro_actor.Actor.Handshake.{IsConnected, IsJoined, handle_actor_notify_proxy-IsJoined}

abbrev adder : ActorConfig
adder = record {
  name = codes "adder";
  count = 1;
  lib = codes "svc_add";
  address = codes "127.0.0.1";
  port = some 8080;
  services = codes "add" ∷ [];
}

abbrev process : Process
process = record {
  pid = 7;
  actor_name = codes "adder";
  unix_fd = codes "proxy";
  actor_config_map = insert empty (codes "adder") adder;
  ac_map = insert empty (codes "adder") 4;
}

-- The answer arrives on each connection.
abbrev answer : Bytes
answer = 2 ∷ 0 ∷ 0 ∷ 0 ∷ 1 ∷ 1 ∷ []

abbrev host : Host ℕ ℕ Bytes
host = record {
  dlopen = λ lib. ite (Bytes-discrete lib (codes "svc_add")) (some 1) none;
  dlsym = λ lib service. ite (Bytes-discrete service (codes "add")) (some 50) none;
  async_connect = λ fd. some answer;
  async_write = λ l s. some s;
}

abbrev table : Map Bytes ℕ
table = insert empty (codes "add") 50

handle_actor_notify_proxy-serving_iff_example :
    (handle_actor_notify_proxy host list_asio lists process ≡ serving table [])
    ↔ IsStarted host list_asio lists process table []
handle_actor_notify_proxy-serving_iff_example =
    handle_actor_notify_proxy-serving_iff host list_asio lists process table []

-- The configuration of an actor that has not been configured has no library.
abbrev unknown : Process
unknown = record process { actor_name = codes "none" }

handle_actor_notify_proxy-stopped_iff_example :
    (handle_actor_notify_proxy host list_asio lists unknown ≡ stopped)
    ↔ IsStopped host list_asio lists unknown
handle_actor_notify_proxy-stopped_iff_example =
    handle_actor_notify_proxy-stopped_iff host list_asio lists unknown

stopped_test : handle_actor_notify_proxy host list_asio lists unknown ≡ stopped
unfolding handle_actor_notify_proxy Bytes-discrete ℕ_discrete
stopped_test = refl

remote_test :
    handle_actor_remote process (λ a. some 1 ∷ some 2 ∷ none ∷ [])
    ≡ record { sessions = 1 ∷ 2 ∷ []; returned = true }
unfolding handle_actor_remote Bytes-discrete ℕ_discrete
remote_test = refl

abbrev proxy : Proxy
proxy = record {
  service_map = insert empty (codes "add") (codes "adder");
  actor_info_map = empty;
  actor_pid_map = empty;
  actor_call_chain_map = empty;
  actors = λ a. record {
    name = [];
    pid = 0;
    is_waiting = false;
    call_id = [];
    msg_queue = [];
    socket = 0;
  };
  next_actor = 0;
  is_open = λ s. true;
}

abbrev hello_bytes : Bytes
hello_bytes = write_connect list_asio lists (record { pid = 7; name = codes "adder" })

process-IsConnected : IsConnected host list_asio lists process table (hello_bytes ++ []) [] []
unfolding Bytes-discrete ℕ_discrete write_connack write_connect
process-IsConnected = record {
  lib = 1;
  opened = refl;
  loaded = load_functions-IsLoaded (host.dlsym 1) (codes "add" ∷ []) empty table refl;
  connection = answer;
  connected = refl;
  told = answer;
  wrote = refl;
  carries = refl;
  carries_back = refl;
  fits = omega arith;
  fits_back = omega arith;
}

handle_actor_notify_proxy-IsJoined_example :
    IsJoined host list_asio lists process table (hello_bytes ++ []) [] [] proxy 3
unfolding Bytes-discrete
handle_actor_notify_proxy-IsJoined_example =
    handle_actor_notify_proxy-IsJoined host list_asio lists process table (hello_bytes ++ []) [] []
      proxy 3 process-IsConnected
