-- ===== src/Session/Stream.antt =====
-- The messages of src/coro_actor_session.cpp as a client writes them.
use coro_actor.Prelude.{
  ◌≡◌, refl, ap, sym, ◌∙◌, ℕ, suc, ◌^◌, ◌<◌, ◌+◌, true, some, List, [], ◌∷◌, ◌++◌, Bytes, length,
  All, append_assoc, arith,
}
use coro_actor.Net.{Asio}
use coro_actor.Net.Reads.{read-arriving}
use coro_actor.Session.{Msg, Handled, push, read_msg, handle_remote_pack}

-- Names and data whose lengths fit in the fields that carry them.
pub record IsSendable (m : Msg) : Type 0 where
  pub name_fits : length m.service_name < 2 ^ 16
  pub value_fits : length m.pack.value < 2 ^ 32

module _ {S : Type 0} (asio : Asio S) where
  -- A message in the order in which the session reads it.
  abbrev pub encode : Msg → Bytes
  encode m =
      asio.host_to_network_short (length m.service_name)
      ++ (m.service_name
          ++ (m.pack.type ∷ []
              ++ (asio.host_to_network_long (length m.pack.value) ++ m.pack.value)))

  abbrev pub encode_all : List Msg → Bytes
  encode_all [] = []
  encode_all (m ∷ ms) = encode m ++ encode_all ms

  encode-append :
      (m : Msg) (rest : Bytes)
      → encode m ++ rest
        ≡ asio.host_to_network_short (length m.service_name)
          ++ (m.service_name
              ++ (m.pack.type ∷ []
                  ++ (asio.host_to_network_long (length m.pack.value) ++ (m.pack.value ++ rest))))
  encode-append m rest = simp append_assoc

  read_msg-reads :
      (type : ℕ) (len name size value : Bytes) (s s1 s2 s3 s4 s5 : S)
      → asio.async_read 2 s ≡ some (len, s1)
      → asio.async_read (asio.network_to_host_short len) s1 ≡ some (name, s2)
      → asio.async_read 1 s2 ≡ some (type ∷ [], s3)
      → asio.async_read 4 s3 ≡ some (size, s4)
      → asio.async_read (asio.network_to_host_long size) s4 ≡ some (value, s5)
      → read_msg asio s
        ≡ some (record { service_name = name; pack = record { type = type; value = value } }, s5)
  unfolding read_msg
  read_msg-reads type len name size value s s1 s2 s3 s4 s5 r1 r2 r3 r4 r5 =
      rw (r1, r2, r3, r4, r5) refl

  read_msg-encode :
      (m : Msg) (rest : Bytes) (s : S)
      → IsSendable m
      → asio.arriving s ≡ encode m ++ rest
      → (t : S) × (read_msg asio s ≡ some (m, t))
        × (asio.arriving t ≡ rest)
        × (asio.is_open t ≡ asio.is_open s)
  read_msg-encode m rest s h e =
      let len = asio.host_to_network_short (length m.service_name) in
      let size = asio.host_to_network_long (length m.pack.value) in
      let (s1, r1, e1, o1) =
        read-arriving asio 2 len
          (m.service_name ++ (m.pack.type ∷ [] ++ (size ++ (m.pack.value ++ rest)))) s
          (asio.length_short _) (e ∙ encode-append m rest) in
      let (s2, r2, e2, o2) =
        read-arriving asio (asio.network_to_host_short len) m.service_name _ s1
          (sym (asio.short _ h.name_fits)) e1 in
      let (s3, r3, e3, o3) = read-arriving asio 1 (m.pack.type ∷ []) _ s2 refl e2 in
      let (s4, r4, e4, o4) = read-arriving asio 4 size _ s3 (asio.length_long _) e3 in
      let (s5, r5, e5, o5) =
        read-arriving asio (asio.network_to_host_long size) m.pack.value rest s4
          (sym (asio.long _ h.value_fits)) e4 in
      (
        s5,
        read_msg-reads m.pack.type len m.service_name size m.pack.value s s1 s2 s3 s4 s5 r1 r2 r3 r4
            r5,
        e5,
        o5 ∙ o4 ∙ o3 ∙ o2 ∙ o1,
      )

  abbrev pub with_pushed : List Msg → Handled → Handled
  with_pushed [] h = h
  with_pushed (m ∷ ms) h = push m (with_pushed ms h)

  handle_remote_pack-more :
      (n : ℕ) (m : Msg) (s t : S)
      → asio.is_open s ≡ true
      → read_msg asio s ≡ some (m, t)
      → handle_remote_pack asio (suc n) s ≡ push m (handle_remote_pack asio n t)
  unfolding handle_remote_pack
  handle_remote_pack-more n m s t o e = rw (o, e, handle_remote_pack) refl

  -- On an open socket where messages arrive whose lengths fit in their fields, the session pushes each
  -- of them, in their order, and goes on with the bytes behind them; the pushed messages are those that
  -- were sent, whatever bytes the names and the data contain.
  pub handle_remote_pack-encode_all :
      (n : ℕ) (ms : List Msg) (rest : Bytes) (s : S)
      → All IsSendable ms
      → asio.is_open s ≡ true
      → asio.arriving s ≡ encode_all ms ++ rest
      → (t : S) × (asio.arriving t ≡ rest)
        × (asio.is_open t ≡ true)
        × (handle_remote_pack asio (length ms + n) s ≡ with_pushed ms (handle_remote_pack asio n t))
  handle_remote_pack-encode_all n [] rest s h o e =
      (s, e, o, ap (λ k. handle_remote_pack asio k s) (omega arith))
  handle_remote_pack-encode_all n (m ∷ ms) rest s h o e =
      let (t, r, f, p) =
        read_msg-encode m (encode_all ms ++ rest) s h.0
          (e ∙ append_assoc (encode m) (encode_all ms) rest) in
      let (u, g, q, k) = handle_remote_pack-encode_all n ms rest t h.1 (p ∙ o) f in
      (
        u,
        g,
        q,
        ap (λ k. handle_remote_pack asio k s) (omega arith)
            ∙ handle_remote_pack-more (length ms + n) m s t o r
            ∙ ap (push m) k,
      )
