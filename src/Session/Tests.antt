-- ===== src/Session/Tests.antt =====
-- A session of src/coro_actor_session.cpp over a connection whose bytes are a list.
use coro_actor.Prelude.{arith, ◌≡◌, refl, ◌+◌, true, [], ◌∷◌, ◌++◌, Bytes, codes}
use coro_actor.Net.Lists.{list_asio}
use coro_actor.Session.{Msg, handle_remote_pack}
use coro_actor.Session.Stream.{encode_all, with_pushed, handle_remote_pack-encode_all}
use coro_actor.Session.Ends.{handle_remote_pack-ended}

abbrev echo : Msg
echo = record { service_name = codes "echo"; pack = record { type = 1; value = codes "hi" } }

abbrev add : Msg
add = record { service_name = codes "add"; pack = record { type = 2; value = codes "1+2" } }

abbrev stream : Bytes
stream = encode_all list_asio (echo ∷ add ∷ []) ++ (0 ∷ [])

handle_remote_pack-encode_all_example :
    (t : Bytes) × (t ≡ 0 ∷ [])
    × (true ≡ true)
    × (handle_remote_pack list_asio (2 + 1) stream
        ≡ with_pushed list_asio (echo ∷ add ∷ []) (handle_remote_pack list_asio 1 t))
handle_remote_pack-encode_all_example =
    handle_remote_pack-encode_all list_asio 1 (echo ∷ add ∷ []) (0 ∷ []) stream
      (
        record { name_fits = omega arith; value_fits = omega arith },
        (record { name_fits = omega arith; value_fits = omega arith }, tt),
      )
      refl refl

handle_remote_pack-ended_example : (handle_remote_pack list_asio 100 stream).ended ≡ true
handle_remote_pack-ended_example = handle_remote_pack-ended list_asio 100 stream (omega arith)

-- The two messages arrive, and the loop ends at the byte that begins a third one.
session_test :
    handle_remote_pack list_asio 3 stream ≡ record { pushed = echo ∷ add ∷ []; ended = true }
unfolding handle_remote_pack
session_test = refl
