-- ===== src/Actor/Handshake.antt =====
-- A new actor process and the proxy: `handle_actor_notify_proxy` on the one side of their connection, and
-- `handle_proxy_deal_actor` on the other.
use coro_actor.Prelude.{◌≡◌, refl, ℕ, ◌^◌, ◌<◌, Bool, true, some, [], ◌∷◌, ◌++◌, Bytes, length}
use coro_actor.Prelude.Map.{Map, empty}
use coro_actor.Packet.{Connect, Connack, connect, connack}
use coro_actor.Proxy.{Proxy, pointer_at, list_at}
use coro_actor.Proxy.Tables.{list_at-insert_self, pointer_at-insert_self}
use coro_actor.Proxy.Deal
use coro_actor.Proxy.Deal.{deal, deal_connect, writing, looped, connack_written}
use coro_actor.Net.{Asio}
use coro_actor.Wire.{StructPack, proxy_packet, write_connect, write_connack}
use coro_actor.Wire.Frames.{IsRead, proxy_packet-IsRead}
use coro_actor.Wire.Answer.{read_connack-write_connack}
use coro_actor.Actor.{Process, Host, serving, config_of, handle_actor_notify_proxy}
use coro_actor.Actor.Table.{IsLoaded}
use coro_actor.Actor.Starts.{IsStarted, hello, handle_actor_notify_proxy-serving_iff}

module _ {Lib Func S : Type 0} (host : Host Lib Func S) (asio : Asio S) (struct_pack : StructPack)
    (p : Process) where
  abbrev pub connect_of : Connect
  connect_of = record { pid = p.pid; name = p.actor_name }

  abbrev pub accepts : Connack
  accepts = record { result = true }

  -- The library and the services are found; the proxy is connected to; what the process writes arrives at
  -- the proxy's end `u`, and what the proxy answers arrives at the process's end.
  pub record IsConnected (table : Map Bytes Func) (u : S) (rest more : Bytes) : Type 0 where
    pub lib : Lib
    pub opened : host.dlopen (config_of p).lib ≡ some lib
    pub loaded : IsLoaded (host.dlsym lib) (config_of p).services empty table
    pub connection : S
    pub connected : host.async_connect p.unix_fd ≡ some connection
    pub told : S
    pub wrote : host.async_write (hello host asio struct_pack p) connection ≡ some told
    pub carries : asio.arriving u ≡ write_connect asio struct_pack connect_of ++ rest
    pub carries_back : asio.arriving told ≡ write_connack asio struct_pack accepts ++ more
    pub fits : length (struct_pack.connects.serialize connect_of) < 2 ^ 32
    pub fits_back : length (struct_pack.connacks.serialize accepts) < 2 ^ 32

  -- The proxy has read the packet and answers it, and knows the process by its pid and in its group; the
  -- process serves its messages.
  pub record IsJoined (table : Map Bytes Func) (u : S) (rest more : Bytes) (q : Proxy) (socket : ℕ)
      : Type 0 where
    pub reads : IsRead asio struct_pack (proxy_packet asio struct_pack) (connect connect_of) rest u
    pub after : Proxy
    pub answers :
        deal q socket (connect connect_of) ≡ writing after socket (connack accepts) connack_written
    pub goes_on : (failed : Bool) → Deal.resume after connack_written failed ≡ looped after
    pub by_pid : pointer_at after.actor_pid_map p.pid ≡ some q.next_actor
    pub in_group :
        list_at after.actor_info_map p.actor_name
        ≡ list_at q.actor_info_map p.actor_name ++ q.next_actor ∷ []
    pub end_of_process : S
    pub serves : handle_actor_notify_proxy host asio struct_pack p ≡ serving table end_of_process
    pub left : asio.arriving end_of_process ≡ more

  -- Where the library and the services of a new actor process are found and its connection to the proxy
  -- carries what both write, with data of less than 2^32 bytes, the proxy reads the process's pid and name,
  -- answers with the result true, finds the process by its pid and at the end of its group, and goes on to
  -- the head of its loop; and the process serves its messages with the table of its services, with the
  -- bytes behind the answer left to be read.
  pub handle_actor_notify_proxy-IsJoined :
      (table : Map Bytes Func) (u : S) (rest more : Bytes) (q : Proxy) (socket : ℕ)
      → IsConnected table u rest more
      → IsJoined table u rest more q socket
  unfolding deal deal_connect Deal.resume write_connect
  handle_actor_notify_proxy-IsJoined table u rest more q socket h =
      let (s, r, e) =
        read_connack-write_connack asio struct_pack accepts more h.told h.fits_back
          h.carries_back in
      let started : IsStarted host asio struct_pack p table s = record {
        lib = h.lib;
        opened = h.opened;
        loaded = h.loaded;
        connection = h.connection;
        connected = h.connected;
        told = h.told;
        wrote = h.wrote;
        ack = accepts;
        answered = r;
        accepted = refl;
      } in
      record {
        reads =
            proxy_packet-IsRead asio struct_pack (connect connect_of) rest u tt h.fits h.carries;
        after = _;
        answers = refl;
        goes_on = λ failed. refl;
        by_pid = pointer_at-insert_self q.actor_pid_map p.pid (some q.next_actor);
        in_group = list_at-insert_self q.actor_info_map p.actor_name _;
        end_of_process = s;
        serves = (handle_actor_notify_proxy-serving_iff host asio struct_pack p table s).1 started;
        left = e;
      }
