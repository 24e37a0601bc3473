-- ===== src/Wire/Tests.antt =====
-- A request on a unix socket of src/coro_actor.cpp whose bytes are a list.
use coro_actor.Prelude.{◌≡◌, refl, none, [], ◌∷◌, ◌++◌, Bytes, codes, arith}
use coro_actor.Packet.{Request, request, request_proto}
use coro_actor.Net.Lists.{list_asio}
use coro_actor.Wire.{proxy_packet, actor_packet, read_packet}
use coro_actor.Wire.Codecs.{lists}
use coro_actor.Wire.Frames.{IsRead, write_packet, proxy_packet-IsRead, actor_packet-IsRead}
use coro_actor.Wire.Broken.{read_packet-broken}

abbrev sum : Request
sum = record {
  pid = 5;
  call_id = codes "5-1";
  service_name = codes "add";
  request_pack = record { type = 2; value = codes "1+2" };
}

-- The packet, and a byte of the next one behind it.
abbrev bytes : Bytes
bytes = write_packet list_asio lists (request sum) ++ (3 ∷ [])

abbrev data_bytes : Bytes
data_bytes = lists.requests.serialize sum

proxy_packet-IsRead_example :
    IsRead list_asio lists (proxy_packet list_asio lists) (request sum) (3 ∷ []) bytes
proxy_packet-IsRead_example =
    proxy_packet-IsRead list_asio lists (request sum) (3 ∷ []) bytes tt (omega arith) refl

actor_packet-IsRead_example :
    IsRead list_asio lists (actor_packet list_asio lists) (request sum) (3 ∷ []) bytes
actor_packet-IsRead_example =
    actor_packet-IsRead list_asio lists (request sum) (3 ∷ []) bytes tt (omega arith) refl

-- The first bytes of the packet, without its last two.
abbrev cut : Bytes
cut = 3 ∷ 0 ∷ 0 ∷ 0 ∷ 13 ∷ 5 ∷ 2 ∷ 3 ∷ codes "5-1" ++ (3 ∷ codes "add" ++ codes "1")

read_packet-broken_example : read_packet list_asio lists (proxy_packet list_asio lists) cut ≡ none
read_packet-broken_example =
    read_packet-broken list_asio lists request_proto data_bytes 43 (50 ∷ [])
      (proxy_packet list_asio lists) cut (omega arith) refl
