-- ===== src/Session.antt =====
-- A client's session, src/coro_actor_session.cpp: the bytes that arrive on its socket, and the messages
-- that it pushes to the context.
pub mod Stream
pub mod Ends
mod Tests
use coro_actor.Prelude.{
  ◌≡◌, ℕ, zero, suc, ◌^◌, ◌<◌, ◌≤◌, Bool, true, false, Option, some, none, List, [], ◌∷◌, ◌++◌,
  Bytes, length, take, drop, if◌then◌else◌,
}
use coro_actor.Packet.{Pack}
use coro_actor.Net.{Asio, ◌>>=◌, byte}

-- What the session sets of a `coro_actor_msg_t`, but for the socket, which is its own.
pub record Msg : Type 0 where
  pub service_name : Bytes
  pub pack : Pack

-- What the loop has pushed, in order, and whether it has returned.
pub record Handled : Type 0 where
  pub pushed : List Msg
  pub ended : Bool

abbrev pub push : Msg → Handled → Handled
push m h = record h { pushed = m ∷ h.pushed }

module _ {S : Type 0} (asio : Asio S) where
  -- The reads of one round of the loop: none where one of them fails.
  pub read_msg : S → Option (Msg × S)
  read_msg s = do
    (service_length, s1) ← asio.async_read 2 s
    (service_name, s2) ← asio.async_read (asio.network_to_host_short service_length) s1
    (type, s3) ← asio.async_read 1 s2
    (data_length, s4) ← asio.async_read 4 s3
    (request_data, s5) ← asio.async_read (asio.network_to_host_long data_length) s4
    some (
      record {
        service_name = service_name;
        pack = record { type = byte type; value = request_data };
      },
      s5,
    )

  -- `handle_remote_pack`, for as many rounds of its loop as the fuel.
  unfoldable pub handle_remote_pack : ℕ → S → Handled
  unfolding read_msg
  handle_remote_pack zero s = record { pushed = []; ended = false }
  handle_remote_pack (suc n) s =
      if asio.is_open s
      then elim (read_msg s) [
        | none ↦ record { pushed = []; ended = true }
        | some (m, t) ↦ push m (handle_remote_pack n t)
      ]
      else record { pushed = []; ended = true }
