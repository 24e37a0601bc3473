-- ===== src/Worker/Send.antt =====
-- The calls of services in other processes: `coro_actor_ctx::send` and `set_response_pack` of
-- src/coro_actor_ctx.cpp, and what a packet from the proxy does in `handle_actor_internal` of
-- src/coro_actor.cpp.
use coro_actor.Prelude.{
  ℕ, zero, suc, ◌+◌, ◌^◌, ◌%◌, Option, some, none, [], ◌∷◌, ◌++◌, Bytes, codes,
}
use coro_actor.Packet.{Pack, Request, Response, Packet, connect, connack, request, response, other}
use coro_actor.Worker.{Msg, Timer, Ctx, Point, Outside, set_call_id, push_msg}

-- What `send` does at first: it refuses a service of its own process, or writes a request.
pub data Sending : Type 0 where
  refused : Ctx → Sending
  writes : Ctx → Request → Sending

abbrev pub sending_ctx : Sending → Ctx
sending_ctx (refused c) = c
sending_ctx (writes c r) = c

-- `to_string` is `std::to_string`.
module _ (to_string : ℕ → Bytes) where
  -- The id of the call, made up where the call starts a chain.
  abbrev pub with_call_id : Ctx → Ctx
  with_call_id c = elim c.call_id [
    | [] ↦
        let seq = (c.seq + 1) % 2 ^ 32 in
        record c { seq = seq; call_id = to_string c.pid ++ (codes "-" ++ to_string seq) }
    | x ∷ l ↦ c
  ]

  -- `send`, up to the point where it is suspended in the write.
  unfoldable pub send : Outside → Ctx → Bytes → Pack → Sending
  send o c name pack = elim (o.service_map name) [
    | some func ↦
        refused (record c { error_msg = codes "This service is already supported by this process" })
    | none ↦
        let d = with_call_id c in
        writes d
          (record { pid = d.pid; call_id = d.call_id; service_name = name; request_pack = pack })
  ]

-- `send` where the write fails: the number of the error is assigned to the text, as a `char`.
unfoldable pub send_failed : ℕ → Ctx → Ctx
send_failed ec c = record c { error_msg = ec % 2 ^ 8 ∷ [] }

-- `send` where the write is done: it waits for the timer.
unfoldable pub send_waits : Ctx → Ctx
send_waits c =
    let t = c.response_notify_timer in
    record c { response_notify_timer = record t { waiting = suc t.waiting } }

-- `cancel_one` wakes a coroutine that waits, if there is one.
abbrev pub cancel_one : Timer → Timer
cancel_one t = elim t.waiting [ zero ↦ t | suc n ↦ record { waiting = n; due = suc t.due } ]

-- `set_response_pack`.
unfoldable pub set_response_pack : Response → Ctx → Ctx
set_response_pack r c = record c {
  curr_resp_pack = r;
  response_notify_timer = cancel_one c.response_notify_timer;
}

-- The rest of `send`, when the timer has woken it: its caller gets the response, which is moved from the
-- context, and `left` is what this leaves of the value. None while `send` still waits.
unfoldable pub send_returns : Bytes → Ctx → Option (Pack × Ctx)
send_returns left c = elim c.response_notify_timer.due [
  | zero ↦ none
  | suc n ↦
      let t = c.response_notify_timer in
      let r = c.curr_resp_pack in
      some (
        r.response_pack,
        record c {
          curr_resp_pack = record r { response_pack = record r.response_pack { value = left } };
          response_notify_timer = record t { due = n };
        },
      )
]

-- The message that `handle_actor_internal` makes of a request from the socket `u`.
abbrev pub message_of : ℕ → Request → Msg
message_of u r = record {
  service_name = r.service_name;
  call_id = r.call_id;
  pack = r.request_pack;
  socket = none;
  unix_socket = some u;
}

-- A packet that `handle_actor_internal` reads from the socket `u`. The call id is moved to the message
-- before `set_call_id` reads it: `moved` is what is left of it.
unfoldable pub deliver : ℕ → Bytes → Packet → Ctx × Point → Ctx × Point
unfolding set_call_id push_msg set_response_pack
deliver u moved (request r) (c, p) = push_msg (message_of u r) (set_call_id moved c, p)
deliver u moved (response r) (c, p) = (set_response_pack r c, p)
deliver u moved (connect r) s = s
deliver u moved (connack r) s = s
deliver u moved (other b) s = s
