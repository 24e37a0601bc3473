-- ===== src/Actor.antt =====
-- How an actor process of src/coro_actor.cpp starts: `handle_actor_process` runs
-- `handle_actor_notify_proxy`, which loads the services and connects to the proxy, and then
-- `handle_actor_remote`, which accepts the clients.
pub mod Table
pub mod Starts
pub mod Handshake
mod Tests
use coro_actor.Prelude.{
  ℕ, Bool, true, false, Option, some, none, List, [], ◌∷◌, Bytes, if◌then◌else◌,
}
use coro_actor.Prelude.Map.{Map, empty, insert, bytes_key}
use coro_actor.Packet.{Connack, connect, connack, request, response, other}
use coro_actor.Config.{ActorConfig}
use coro_actor.Net.{Asio}
use coro_actor.Wire.{StructPack, Parsed, parsed, unasserted, write_connect, read_connack}

-- The members of `coro_actor` that the process uses; an acceptor is a handle.
pub record Process : Type 0 where
  pub pid : ℕ
  pub actor_name : Bytes
  pub unix_fd : Bytes
  pub actor_config_map : Map Bytes ActorConfig
  pub ac_map : Map Bytes ℕ

-- What the system does for the process: libraries `Lib` and functions `Func` of them, where they are
-- found, and sockets `S`, where `ec` is not set.
pub record Host (Lib Func S : Type 0) : Type 0 where
  pub dlopen : Bytes → Option Lib
  pub dlsym : Lib → Bytes → Option Func
  pub async_connect : Bytes → Option S
  pub async_write : Bytes → S → Option S

-- The ends of `handle_actor_notify_proxy`.
pub data Notified (Func S : Type 0) : Type 0 where
  stopped : Notified Func S  -- after `stop_server`
  gave_up : Notified Func S  -- it has returned with the io_context running
  unasserted_ack : Notified Func S
  serving : Map Bytes Func → S → Notified Func S  -- `g_actor_ctx`, and both coroutines

-- `this->actor_config_map[this->actor_name]`.
abbrev pub config_of : Process → ActorConfig
config_of p = elim (p.actor_config_map p.actor_name) [
  | none ↦ record { name = []; count = 0; lib = []; address = []; port = some 0; services = [] }
  | some cfg ↦ cfg
]

module _ {Func : Type 0} where
  -- The loop over the services: none where `dlsym` does not find one.
  abbrev pub load_functions :
      (Bytes → Option Func) → List Bytes → Map Bytes Func → Option (Map Bytes Func)
  load_functions dlsym [] service_map = some service_map
  load_functions dlsym (service ∷ services) service_map = elim (dlsym service) [
    | none ↦ none
    | some service_func ↦ load_functions dlsym services (insert service_map service service_func)
  ]

module _ {Lib Func S : Type 0} (host : Host Lib Func S) (asio : Asio S)
    (struct_pack : StructPack) where
  -- The answer of the proxy.
  abbrev pub acknowledged : Map Bytes Func → Option (Parsed × S) → Notified Func S
  acknowledged service_map none = gave_up
  acknowledged service_map (some (unasserted, s)) = unasserted_ack
  acknowledged service_map (some (parsed (connack c), s)) =
      if c.result then serving service_map s else gave_up
  acknowledged service_map (some (parsed (connect c), s)) = unasserted_ack
  acknowledged service_map (some (parsed (request c), s)) = unasserted_ack
  acknowledged service_map (some (parsed (response c), s)) = unasserted_ack
  acknowledged service_map (some (parsed (other c), s)) = unasserted_ack

  -- From the connection on.
  abbrev pub notify : Process → Map Bytes Func → Notified Func S
  notify p service_map = elim (host.async_connect p.unix_fd) [
    | none ↦ stopped
    | some s ↦
        elim (host.async_write
          (write_connect asio struct_pack (record { pid = p.pid; name = p.actor_name })) s) [
            | none ↦ gave_up
            | some t ↦ acknowledged service_map (read_connack asio struct_pack t)
          ]
  ]

  -- From the library on.
  abbrev pub load_library : Process → ActorConfig → Notified Func S
  load_library p cfg = elim (host.dlopen cfg.lib) [
    | none ↦ stopped
    | some dl_handle ↦ elim (load_functions (host.dlsym dl_handle) cfg.services empty) [
      | none ↦ stopped
      | some service_map ↦ notify p service_map
    ]
  ]

  -- `handle_actor_notify_proxy`.
  pub handle_actor_notify_proxy : Process → Notified Func S
  handle_actor_notify_proxy p = load_library p (config_of p)

-- What `handle_actor_remote` has done with the results of `async_accept`, a socket or none where `ec`
-- is set: the sessions that it has started, and whether it has returned.
pub record Accepted : Type 0 where
  pub sessions : List ℕ
  pub returned : Bool

abbrev pub accept_all : List (Option ℕ) → Accepted
accept_all [] = record { sessions = []; returned = false }
accept_all (none ∷ results) = record { sessions = []; returned = true }
accept_all (some socket ∷ results) =
    let rest = accept_all results in record rest { sessions = socket ∷ rest.sessions }

-- `handle_actor_remote`, with the results of each acceptor.
pub handle_actor_remote : Process → (ℕ → List (Option ℕ)) → Accepted
handle_actor_remote p results = elim (p.ac_map p.actor_name) [
  | none ↦ record { sessions = []; returned = true }
  | some acceptor ↦ accept_all (results acceptor)
]
