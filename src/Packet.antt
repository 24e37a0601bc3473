-- ===== src/Packet.antt =====
-- include/coro_actor_pack.h and include/coro_actor_protocol.h: what the processes send each other.
use coro_actor.Prelude.{ℕ, Bool, Bytes}

-- `coro_actor_pack_t`.
pub record Pack : Type 0 where
  pub type : ℕ  -- uint8_t
  pub value : Bytes

-- `coro_actor_connect_t`.
pub record Connect : Type 0 where
  pub pid : ℕ
  pub name : Bytes

-- `coro_actor_connack_t`.
pub record Connack : Type 0 where
  pub result : Bool

-- `coro_actor_request_t`.
pub record Request : Type 0 where
  pub pid : ℕ
  pub call_id : Bytes
  pub service_name : Bytes
  pub request_pack : Pack

-- `coro_actor_response_t`.
pub record Response : Type 0 where
  pub pid : ℕ
  pub call_id : Bytes
  pub service_name : Bytes
  pub response_pack : Pack

-- The protocol byte in front of a packet.
abbrev pub connect_proto : ℕ
connect_proto = 0x01

abbrev pub connack_proto : ℕ
connack_proto = 0x02

abbrev pub request_proto : ℕ
request_proto = 0x03

abbrev pub response_proto : ℕ
response_proto = 0x04

abbrev pub not_service_proto : ℕ
not_service_proto = 0x05

-- A packet with its protocol byte; `other` is a byte that no reader has a case for.
pub data Packet : Type 0 where
  connect : Connect → Packet
  connack : Connack → Packet
  request : Request → Packet
  response : Response → Packet
  other : ℕ → Packet
