-- ===== src/Wire/Frames.antt =====
-- What is written on the unix sockets is read again.
use coro_actor.Prelude.{
  ◌≡◌, refl, ap, sym, ◌∙◌, ℕ, ◌^◌, ◌%◌, ◌<◌, some, [], ◌∷◌, ◌++◌, Bytes, length, append_assoc,
  arith,
}
use coro_actor.Packet.{
  Packet, connect, connack, request, response, other, connect_proto, connack_proto, request_proto,
  response_proto,
}
use coro_actor.Net.{Asio}
use coro_actor.Net.Reads.{read-arriving}
use coro_actor.Wire.{
  StructPack, Parsed, parsed, write_buf, write_connect, write_connack, write_request,
  write_response, read_frame, proxy_packet, actor_packet, read_packet,
}

module _ {S : Type 0} (asio : Asio S) (struct_pack : StructPack) where
  read_frame-reads :
      (proto : ℕ) (size data_bytes : Bytes) (s s1 s2 s3 : S)
      → asio.async_read 1 s ≡ some (proto ∷ [], s1)
      → asio.async_read 4 s1 ≡ some (size, s2)
      → asio.async_read (asio.network_to_host_long size) s2 ≡ some (data_bytes, s3)
      → read_frame asio struct_pack s ≡ some (proto, data_bytes, s3)
  unfolding read_frame
  read_frame-reads proto size data_bytes s s1 s2 s3 r1 r2 r3 = rw (r1, r2, r3) refl

  read_frame-write_buf :
      (proto : ℕ) (data_bytes rest : Bytes) (s : S)
      → length data_bytes < 2 ^ 32
      → asio.arriving s ≡ write_buf asio struct_pack proto data_bytes ++ rest
      → (t : S) × (read_frame asio struct_pack s ≡ some (proto, data_bytes, t))
        × (asio.arriving t ≡ rest)
        × (asio.is_open t ≡ asio.is_open s)
  read_frame-write_buf proto data_bytes rest s fits e =
      let n = length data_bytes % 2 ^ 32 in
      let same : n ≡ length data_bytes = omega (arith, fits) in
      let size = asio.host_to_network_long n in
      let (s1, r1, e1, o1) =
        read-arriving asio 1 (proto ∷ []) (size ++ (data_bytes ++ rest)) s refl
          (e ∙ ap (◌∷◌ proto) (append_assoc size data_bytes rest)) in
      let (s2, r2, e2, o2) =
        read-arriving asio 4 size (data_bytes ++ rest) s1 (asio.length_long n) e1 in
      let (s3, r3, e3, o3) =
        read-arriving asio (asio.network_to_host_long size) data_bytes rest s2
          (sym (asio.long n (omega (arith, fits)) ∙ same)) e2 in
      (s3, read_frame-reads proto size data_bytes s s1 s2 s3 r1 r2 r3, e3, o3 ∙ o2 ∙ o1)

  -- What the actors write to the proxy, what the proxy writes to them but for the answer to `connect`, and
  -- the data of both.
  abbrev pub IsToProxy : Packet → Type 0
  IsToProxy (connect c) = Unit
  IsToProxy (request r) = Unit
  IsToProxy (response r) = Unit
  IsToProxy (connack c) = ⊥
  IsToProxy (other b) = ⊥

  abbrev pub IsToActor : Packet → Type 0
  IsToActor (request r) = Unit
  IsToActor (response r) = Unit
  IsToActor (connect c) = ⊥
  IsToActor (connack c) = ⊥
  IsToActor (other b) = ⊥

  abbrev pub data_of : Packet → Bytes
  data_of (connect c) = struct_pack.connects.serialize c
  data_of (connack c) = struct_pack.connacks.serialize c
  data_of (request r) = struct_pack.requests.serialize r
  data_of (response r) = struct_pack.responses.serialize r
  data_of (other b) = []

  abbrev pub proto_of : Packet → ℕ
  proto_of (connect c) = connect_proto
  proto_of (connack c) = connack_proto
  proto_of (request r) = request_proto
  proto_of (response r) = response_proto
  proto_of (other b) = b

  abbrev pub write_packet : Packet → Bytes
  write_packet (connect c) = write_connect asio struct_pack c
  write_packet (connack c) = write_connack asio struct_pack c
  write_packet (request r) = write_request asio struct_pack r
  write_packet (response r) = write_response asio struct_pack r
  write_packet (other b) = write_buf asio struct_pack b []

  write_packet-buf :
      (p : Packet) → write_packet p ≡ write_buf asio struct_pack (proto_of p) (data_of p)
  unfolding write_connect write_connack write_request write_response
  write_packet-buf (connect c) = refl
  write_packet-buf (connack c) = refl
  write_packet-buf (request r) = refl
  write_packet-buf (response r) = refl
  write_packet-buf (other b) = refl

  proxy_packet-of :
      (p : Packet) → IsToProxy p → proxy_packet asio struct_pack (proto_of p) (data_of p) ≡ parsed p
  unfolding proxy_packet
  proxy_packet-of (connect c) h = rw (struct_pack.connects.round c) refl
  proxy_packet-of (request r) h = rw (struct_pack.requests.round r) refl
  proxy_packet-of (response r) h = rw (struct_pack.responses.round r) refl
  proxy_packet-of (connack c) h = absurd h
  proxy_packet-of (other b) h = absurd h

  actor_packet-of :
      (p : Packet) → IsToActor p → actor_packet asio struct_pack (proto_of p) (data_of p) ≡ parsed p
  unfolding actor_packet
  actor_packet-of (request r) h = rw (struct_pack.requests.round r) refl
  actor_packet-of (response r) h = rw (struct_pack.responses.round r) refl
  actor_packet-of (connect c) h = absurd h
  actor_packet-of (connack c) h = absurd h
  actor_packet-of (other b) h = absurd h

  -- The packet `p` has been read from `s`, and the bytes `rest` still arrive.
  pub record IsRead (packet : ℕ → Bytes → Parsed) (p : Packet) (rest : Bytes) (s : S) : Type 0 where
    pub next : S
    pub reads : read_packet asio struct_pack packet s ≡ some (parsed p, next)
    pub left : asio.arriving next ≡ rest
    pub still_open : asio.is_open next ≡ asio.is_open s

  kind-IsRead :
      (packet : ℕ → Bytes → Parsed) (p : Packet) (rest : Bytes) (s : S)
      → packet (proto_of p) (data_of p) ≡ parsed p
      → length (data_of p) < 2 ^ 32
      → asio.arriving s ≡ write_packet p ++ rest
      → IsRead packet p rest s
  unfolding read_packet
  kind-IsRead packet p rest s kind fits e =
      let (t, r, f, o) =
        read_frame-write_buf (proto_of p) (data_of p) rest s fits
          (e ∙ ap (λ b. b ++ rest) (write_packet-buf p)) in
      record { next = t; reads = rw (r, kind) refl; left = f; still_open = o }

  -- A connect packet, a request or a response that an actor writes, with data of less than 2^32 bytes, is
  -- read by the proxy as it was, and the bytes behind it are left.
  pub proxy_packet-IsRead :
      (p : Packet) (rest : Bytes) (s : S)
      → IsToProxy p
      → length (data_of p) < 2 ^ 32
      → asio.arriving s ≡ write_packet p ++ rest
      → IsRead (proxy_packet asio struct_pack) p rest s
  proxy_packet-IsRead p rest s h fits e =
      kind-IsRead (proxy_packet asio struct_pack) p rest s (proxy_packet-of p h) fits e

  -- A request or a response that the proxy writes, with data of less than 2^32 bytes, is read by the actor
  -- as it was, and the bytes behind it are left.
  pub actor_packet-IsRead :
      (p : Packet) (rest : Bytes) (s : S)
      → IsToActor p
      → length (data_of p) < 2 ^ 32
      → asio.arriving s ≡ write_packet p ++ rest
      → IsRead (actor_packet asio struct_pack) p rest s
  actor_packet-IsRead p rest s h fits e =
      kind-IsRead (actor_packet asio struct_pack) p rest s (actor_packet-of p h) fits e
