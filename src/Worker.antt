-- ===== src/Worker.antt =====
-- The context of an actor process, src/coro_actor_ctx.cpp: the queue of messages, and the coroutine
-- that works on them.
pub mod Send
pub mod Steps
pub mod Wakeups
pub mod Calls
pub mod Ids
pub mod Serves
mod Tests
use coro_actor.Prelude.{
  ℕ, Bool, true, false, Option, some, none, List, [], ◌∷◌, ◌++◌, Bytes, length, if◌then◌else◌, ◌==◌,
}
use coro_actor.Packet.{Pack, Response}

-- `coro_actor_msg_t`; a socket is a handle.
pub record Msg : Type 0 where
  pub service_name : Bytes
  pub call_id : Bytes
  pub pack : Pack
  pub socket : Option ℕ
  pub unix_socket : Option ℕ

-- `response_notify_tiemr_`: how many coroutines of services wait for it, and how many have been woken and are
-- about to go on.
pub record Timer : Type 0 where
  pub waiting : ℕ
  pub due : ℕ

-- The members of `coro_actor_ctx` that change.
pub record Ctx : Type 0 where
  pub pid : ℕ
  pub seq : ℕ  -- uint32_t
  pub error_msg : Bytes
  pub call_id : Bytes
  pub msg_queue : List Msg
  pub curr_resp_pack : Response
  pub response_notify_timer : Timer
  pub is_waiting : Bool
  pub closed : List ℕ  -- the sockets that the loop has closed

-- Where the coroutine of `handle_message` is suspended. `expired` says that its timer has been
-- cancelled, so that it is about to go on.
pub data Point : Type 0 where
  idle : (expired : Bool) → Point
  serving : (expired : Bool) → Msg → Pack → Point
  writing_pack : ℕ → Pack → Point  -- to a client's socket
  writing_response : ℕ → Response → Point  -- to the proxy
  returned : Point
  crashed : Point

-- What a service has done when its function returns: its response, the error message that it leaves,
-- and whether it has called `notify_complete`.
pub record Served : Type 0 where
  pub response_pack : Pack
  pub error_msg : Bytes
  pub completed : Bool

-- What the loop meets outside of the context: the functions of `service_map`, which sockets are open
-- if the loop has not closed them, and whether the io_context is stopped.
pub record Outside : Type 0 where
  pub service_map : Bytes → Option (Pack → Served)
  pub is_open : ℕ → Bool
  pub stopped : Bool

-- `set_call_id`.
unfoldable pub set_call_id : Bytes → Ctx → Ctx
set_call_id id c = record c { call_id = id }

-- The cancelled timer wakes the coroutine that waits for it, if one does.
abbrev pub cancel_msg_timer : Point → Point
cancel_msg_timer (idle expired) = idle true
cancel_msg_timer p = p

abbrev pub cancel_service_timer : Point → Point
cancel_service_timer (serving expired m resp) = serving true m resp
cancel_service_timer p = p

-- `push_msg`.
unfoldable pub push_msg : Msg → Ctx × Point → Ctx × Point
push_msg m (c, p) =
    let queue = c.msg_queue ++ m ∷ [] in
    (record c { msg_queue = queue }, if length queue == 1 then cancel_msg_timer p else p)

abbrev pub completed : Ctx → Ctx
completed c = record c { is_waiting = false; call_id = [] }

-- `notify_complete`.
pub notify_complete : Ctx × Point → Ctx × Point
notify_complete (c, p) = (completed c, cancel_service_timer p)

-- How the loop goes on: with the next round, or to a point where it is suspended.
pub data Round : Type 0 where
  again : Ctx → Round
  suspended : Ctx → Point → Round

-- `close(ec)`, where there is a socket.
abbrev pub close : Option ℕ → Ctx → Ctx
close none c = c
close (some s) c = record c { closed = s ∷ c.closed }

-- The rest of a round when the service has completed.
abbrev pub respond : Ctx → Msg → Pack → Round
respond c m resp = elim c.error_msg [
  | [] ↦ elim m.socket [
    | some s ↦ suspended c (writing_pack s resp)
    | none ↦ elim m.unix_socket [
      | some s ↦ suspended c (
          writing_response s (record {
            pid = c.pid;
            call_id = m.call_id;
            service_name = m.service_name;
            response_pack = resp;
          }))
      | none ↦ again c
    ]
  ]
  | x ∷ l ↦ again (close m.unix_socket (close m.socket (record c { error_msg = [] })))
]

abbrev pub among : ℕ → List ℕ → Bool
among s [] = false
among s (t ∷ l) = if s == t then true else among s l

abbrev pub open_or_none : Outside → Ctx → Option ℕ → Bool
open_or_none o c none = true
open_or_none o c (some s) = if among s c.closed then false else o.is_open s

abbrev pub call_service : Ctx → Msg → Served → Round
call_service c m served =
    let d = record c { call_id = m.call_id; is_waiting = true; error_msg = served.error_msg } in
    if served.completed
    then respond (completed d) m served.response_pack
    else suspended d (serving false m served.response_pack)

abbrev pub find_service : Outside → Ctx → Msg → Round
find_service o c m = elim (o.service_map m.service_name) [
  | none ↦ elim m.socket [ none ↦ suspended c crashed | some s ↦ again (close (some s) c) ]
  | some func ↦ call_service c m (func m.pack)
]

-- A round of the loop of `handle_message` with the message that it has popped.
pub handle_one : Outside → Ctx → Msg → Round
handle_one o c m =
    if open_or_none o c m.socket
    then (if open_or_none o c m.unix_socket then find_service o c m else again c)
    else again c

abbrev pub go_on : Round → (Ctx → Ctx × Point) → Ctx × Point
go_on (again c) loop = loop c
go_on (suspended c p) loop = (c, p)

-- The loop of `handle_message` on the messages in the queue, to the next point where it is suspended.
pub handle_queue : Outside → List Msg → Ctx → Ctx × Point
unfolding handle_one
handle_queue o [] c = (record c { msg_queue = [] }, if o.stopped then returned else idle false)
handle_queue o (m ∷ left) c =
    if o.stopped
    then (record c { msg_queue = m ∷ left }, returned)
    else go_on (handle_one o (record c { msg_queue = left }) m) (handle_queue o left)

pub handle_message : Outside → Ctx → Ctx × Point
unfolding handle_queue
handle_message o c = handle_queue o c.msg_queue c

-- What the coroutine does when it goes on.
pub resume : Outside → Ctx × Point → Ctx × Point
unfolding handle_message
resume o (c, idle expired) = handle_message o c
resume o (c, serving expired m resp) = go_on (respond c m resp) (handle_message o)
resume o (c, writing_pack s resp) = handle_message o c
resume o (c, writing_response s resp) = handle_message o c
resume o (c, returned) = (c, returned)
resume o (c, crashed) = (c, crashed)

-- Whether its timer has been cancelled or its write is done. A coroutine that is not due stays where it is.
abbrev pub is_due : Point → Bool
is_due (idle expired) = expired
is_due (serving expired m resp) = expired
is_due (writing_pack s resp) = true
is_due (writing_response s resp) = true
is_due returned = false
is_due crashed = false

abbrev pub resume_if_due : Outside → Ctx × Point → Ctx × Point
resume_if_due o (c, p) = if is_due p then resume o (c, p) else (c, p)
