-- ===== src/Wire.antt =====
-- The packets on the unix sockets between the proxy and the actors: what `handle_proxy_deal_actor`,
-- `handle_proxy_handle_request`, `handle_actor_notify_proxy` and `handle_actor_internal` of
-- src/coro_actor.cpp and the context of src/coro_actor_ctx.cpp write and read. A packet is its protocol
-- byte, the length of its data in four bytes, and its data.
pub mod Frames
pub mod Broken
pub mod Answer
pub mod Codecs
mod Tests
use coro_actor.Prelude.{
  ◌≡◌, ℕ, ◌^◌, ◌%◌, Bool, true, false, Option, some, none, List, [], ◌∷◌, ◌++◌, Bytes, length, drop,
  if◌then◌else◌, ◌==◌,
}
use coro_actor.Packet.{
  Packet, connect, connack, request, response, other, Connect, Connack, Request, Response,
  connect_proto, connack_proto, request_proto, response_proto,
}
use coro_actor.Net.{Asio, ◌>>=◌, byte}

-- What the program uses of struct_pack for a type: `deserialize` has a value for what `serialize` makes.
pub record Codec (A : Type 0) : Type 0 where
  pub serialize : A → Bytes
  pub deserialize : Bytes → Option A
  pub round : (a : A) → deserialize (serialize a) ≡ some a

pub record StructPack : Type 0 where
  pub connects : Codec Connect
  pub connacks : Codec Connack
  pub requests : Codec Request
  pub responses : Codec Response

-- A read of a packet: its kind is not one that the reader has a case for, or `assert` fails.
pub data Parsed : Type 0 where
  parsed : Packet → Parsed
  unasserted : Parsed

abbrev pub asserted {ℓ} : {A : Type ℓ} → (A → Packet) → Option A → Parsed
asserted kind none = unasserted
asserted kind (some a) = parsed (kind a)

module _ {S : Type 0} (asio : Asio S) (struct_pack : StructPack) where
  -- The three buffers of a write. The length is a `uint32_t`.
  abbrev pub write_buf : ℕ → Bytes → Bytes
  write_buf proto data_bytes =
      proto ∷ [] ++ (asio.host_to_network_long (length data_bytes % 2 ^ 32) ++ data_bytes)

  -- `handle_actor_notify_proxy`, `handle_proxy_deal_actor`, `handle_proxy_handle_request` and
  -- `coro_actor_ctx::send`, `handle_proxy_deal_actor` and `coro_actor_ctx::handle_message`.
  unfoldable pub write_connect : Connect → Bytes
  write_connect pack = write_buf connect_proto (struct_pack.connects.serialize pack)

  unfoldable pub write_connack : Connack → Bytes
  write_connack pack = write_buf connack_proto (struct_pack.connacks.serialize pack)

  pub write_request : Request → Bytes
  write_request pack = write_buf request_proto (struct_pack.requests.serialize pack)

  pub write_response : Response → Bytes
  write_response pack = write_buf response_proto (struct_pack.responses.serialize pack)

  -- The reads at the head of a loop: none where one of them fails.
  pub read_frame : S → Option (ℕ × Bytes × S)
  read_frame s = do
    (proto, s1) ← asio.async_read 1 s
    (size, s2) ← asio.async_read 4 s1
    (deserialize_pack, s3) ← asio.async_read (asio.network_to_host_long size) s2
    some (byte proto, deserialize_pack, s3)

  -- The `switch` of `handle_proxy_deal_actor`.
  pub proxy_packet : ℕ → Bytes → Parsed
  proxy_packet proto data_bytes =
      if proto == connect_proto
      then asserted connect (struct_pack.connects.deserialize data_bytes)
      else if proto == request_proto
      then asserted request (struct_pack.requests.deserialize data_bytes)
      else if proto == response_proto
      then asserted response (struct_pack.responses.deserialize data_bytes)
      else parsed (other proto)

  -- The `switch` of `handle_actor_internal`.
  pub actor_packet : ℕ → Bytes → Parsed
  actor_packet proto data_bytes =
      if proto == request_proto
      then asserted request (struct_pack.requests.deserialize data_bytes)
      else if proto == response_proto
      then asserted response (struct_pack.responses.deserialize data_bytes)
      else parsed (other proto)

  -- The answer that `handle_actor_notify_proxy` waits for.
  pub connack_packet : ℕ → Bytes → Parsed
  connack_packet proto data_bytes =
      if proto == connack_proto
      then asserted connack (struct_pack.connacks.deserialize data_bytes)
      else unasserted

  -- What a loop has read when a packet has arrived; none where a read has failed.
  pub read_packet : (ℕ → Bytes → Parsed) → S → Option (Parsed × S)
  unfolding read_frame
  read_packet packet s = do (proto, data_bytes, t) ← read_frame s; some (packet proto data_bytes, t)

  -- The reads of `handle_actor_notify_proxy`, the first of them into the buffers of both fields.
  pub read_connack : S → Option (Parsed × S)
  unfolding connack_packet
  read_connack s = do
    (head, s1) ← asio.async_read 5 s
    (serialize_pack, s2) ← asio.async_read (asio.network_to_host_long (drop 1 head)) s1
    some (connack_packet (byte head) serialize_pack, s2)
