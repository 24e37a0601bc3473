-- ===== src/ClientCall/Tests.antt =====
-- A client of a context of src/coro_actor_ctx.cpp with two messages.
use coro_actor.Prelude.{
  ◌≡◌, refl, ℕ_discrete, Bytes-discrete, true, false, some, List, [], ◌∷◌, ◌++◌, Bytes, codes, map,
  arith,
}
use coro_actor.Prelude.Map.{empty, insert, bytes_key}
use coro_actor.Packet.{Pack}
use coro_actor.Net.Lists.{list_asio}
use coro_actor.Session.{Msg, handle_remote_pack}
use coro_actor.Session.Stream.{encode_all}
use coro_actor.Worker.{Ctx, idle, Served, Outside, open_or_none}
use coro_actor.Worker.Serves.{outputs_due}
use coro_actor.ClientCall.{client_msg, push_all, replies, IsOffered, outputs-replies}

abbrev echo : Pack → Served
echo p = record { response_pack = p; error_msg = []; completed = true }

abbrev world : Outside
world = record {
  service_map = insert empty (codes "echo") echo;
  is_open = λ s. true;
  stopped = false;
}

abbrev blank : Pack
blank = record { type = 0; value = [] }

abbrev ctx : Ctx
ctx = record {
  pid = 7;
  seq = 0;
  error_msg = [];
  call_id = [];
  msg_queue = [];
  curr_resp_pack = record { pid = 0; call_id = []; service_name = []; response_pack = blank };
  response_notify_timer = record { waiting = 0; due = 0 };
  is_waiting = false;
  closed = [];
}

abbrev message : Bytes → Msg
message text = record { service_name = codes "echo"; pack = record { type = 1; value = text } }

abbrev messages : List Msg
messages = message (codes "one") ∷ message (codes "two") ∷ []

-- A byte of a third message has arrived, too.
abbrev bytes : Bytes
bytes = encode_all list_asio messages ++ (0 ∷ [])

echo-IsOffered : (text : Bytes) → IsOffered world (message text)
unfolding Bytes-discrete ℕ_discrete
echo-IsOffered text = record { f = echo; known = refl; completes = refl; succeeds = refl }

socket_open : (d : Ctx) → d.closed ≡ [] → open_or_none world d (some 3) ≡ true
socket_open d e = rw (e, open_or_none) refl

outputs-replies_example :
    outputs_due 2 world (
      push_all (map (client_msg 3) (handle_remote_pack list_asio 2 bytes).pushed) (ctx, idle false))
    ≡ replies world 3 messages
outputs-replies_example =
    outputs-replies list_asio world ctx false 3 messages (0 ∷ []) bytes
      (
        record { name_fits = omega arith; value_fits = omega arith },
        (record { name_fits = omega arith; value_fits = omega arith }, tt),
      )
      refl refl refl refl socket_open
      (echo-IsOffered (codes "one"), (echo-IsOffered (codes "two"), tt))
