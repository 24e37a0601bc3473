-- ===== src/Wire/Answer.antt =====
-- The proxy's answer to a new actor process is read again.
use coro_actor.Prelude.{
  ◌≡◌, refl, ap, sym, ◌∙◌, suc, ◌^◌, ◌%◌, ◌<◌, some, ◌∷◌, ◌++◌, Bytes, length, append_assoc, arith,
}
use coro_actor.Packet.{connack, Connack, connack_proto}
use coro_actor.Net.{Asio}
use coro_actor.Net.Reads.{read-arriving}
use coro_actor.Wire.{StructPack, parsed, write_connack, connack_packet, read_connack}

module _ {S : Type 0} (asio : Asio S) (struct_pack : StructPack) where
  connack_packet-reads :
      (c : Connack)
      → connack_packet asio struct_pack connack_proto (struct_pack.connacks.serialize c)
        ≡ parsed (connack c)
  unfolding connack_packet
  connack_packet-reads c = rw (struct_pack.connacks.round c) refl

  read_connack-reads :
      (head data_bytes : Bytes) (s s1 s2 : S)
      → asio.async_read 5 s ≡ some (connack_proto ∷ head, s1)
      → asio.async_read (asio.network_to_host_long head) s1 ≡ some (data_bytes, s2)
      → read_connack asio struct_pack s
        ≡ some (connack_packet asio struct_pack connack_proto data_bytes, s2)
  unfolding read_connack
  read_connack-reads head data_bytes s s1 s2 r1 r2 = rw (r1, r2) refl

  -- The answer `c`, with data of less than 2^32 bytes, is read by the actor as it was, and the bytes behind
  -- it are left.
  pub read_connack-write_connack :
      (c : Connack) (rest : Bytes) (s : S)
      → length (struct_pack.connacks.serialize c) < 2 ^ 32
      → asio.arriving s ≡ write_connack asio struct_pack c ++ rest
      → (t : S) × (read_connack asio struct_pack s ≡ some (parsed (connack c), t))
        × (asio.arriving t ≡ rest)
  unfolding write_connack
  read_connack-write_connack c rest s fits e =
      let data_bytes = struct_pack.connacks.serialize c in
      let n = length data_bytes % 2 ^ 32 in
      let same : n ≡ length data_bytes = omega (arith, fits) in
      let size = asio.host_to_network_long n in
      let (s1, r1, e1, _) =
        read-arriving asio 5 (connack_proto ∷ size) (data_bytes ++ rest) s
          (ap suc (asio.length_long n))
          (e ∙ ap (◌∷◌ connack_proto) (append_assoc size data_bytes rest)) in
      let (s2, r2, e2, _) =
        read-arriving asio (asio.network_to_host_long size) data_bytes rest s1
          (sym (asio.long n (omega (arith, fits)) ∙ same)) e1 in
      (
        s2,
        read_connack-reads size data_bytes s s1 s2 r1 r2
            ∙ ap (λ k. some (k, s2)) (connack_packet-reads c),
        e2,
      )
