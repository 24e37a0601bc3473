-- ===== src/Session/Ends.antt =====
-- The end of the loop of src/coro_actor_session.cpp.
use coro_actor.Prelude.{
  ◌≡◌, refl, ℕ, zero, suc, ◌<◌, ◌≤◌, ◌+◌, true, some, none, length, arith, Bool-cases, inl, inr,
  ◌⊎◌,
}
use coro_actor.Net.{Asio, byte}
use coro_actor.Net.Reads.{fails, takes, read-Takes, length-takes}
use coro_actor.Session.{Msg, byte, read_msg, handle_remote_pack}

module _ {S : Type 0} (asio : Asio S) where
  -- A round that pushes a message takes at least the seven bytes of its fields.
  read_msg-fewer :
      (s : S)
      → (read_msg asio s ≡ none)
        ⊎ ((m : Msg) × (t : S) × (read_msg asio s ≡ some (m, t))
            × (length (asio.arriving t) + 7 ≤ length (asio.arriving s)))
  unfolding read_msg
  read_msg-fewer s = elim (read-Takes asio 2 s) [
    | fails e ↦ inl (rw e refl)
    | takes len s1 e1 n1 f1 ↦ elim (read-Takes asio (asio.network_to_host_short len) s1) [
      | fails e ↦ inl (rw (e1, e) refl)
      | takes name s2 e2 n2 f2 ↦ elim (read-Takes asio 1 s2) [
        | fails e ↦ inl (rw (e1, e2, e) refl)
        | takes type s3 e3 n3 f3 ↦ elim (read-Takes asio 4 s3) [
          | fails e ↦ inl (rw (e1, e2, e3, e) refl)
          | takes size s4 e4 n4 f4 ↦ elim (read-Takes asio (asio.network_to_host_long size) s4) [
            | fails e ↦ inl (rw (e1, e2, e3, e4, e) refl)
            | takes value s5 e5 n5 f5 ↦ inr (
              record { service_name = name; pack = record { type = byte type; value = value } },
              s5,
              rw (e1, e2, e3, e4, e5) refl,
              omega (
                arith,
                length-takes asio len 2 s s1 n1 f1,
                length-takes asio name (asio.network_to_host_short len) s1 s2 n2 f2,
                length-takes asio type 1 s2 s3 n3 f3,
                length-takes asio size 4 s3 s4 n4 f4,
                length-takes asio value (asio.network_to_host_long size) s4 s5 n5 f5,
              ),
            )
          ]
        ]
      ]
    ]
  ]

  -- With more rounds than bytes still arrive on the socket, the session's loop returns, whatever the
  -- bytes are.
  pub handle_remote_pack-ended :
      (n : ℕ) (s : S) → length (asio.arriving s) < n → (handle_remote_pack asio n s).ended ≡ true
  unfolding handle_remote_pack
  handle_remote_pack-ended zero s h = absurd (omega (arith, h))
  handle_remote_pack-ended (suc n) s h = elim (Bool-cases (asio.is_open s)) [
    | inr o ↦ rw o refl
    | inl o ↦ elim (read_msg-fewer s) [
      | inl e ↦ rw (o, e) refl
      | inr (m, t, e, fewer) ↦ rw (o, e) (handle_remote_pack-ended n t (omega (arith, h, fewer)))
    ]
  ]
