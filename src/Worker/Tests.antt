-- ===== src/Worker/Tests.antt =====
-- A context of src/coro_actor_ctx.cpp with one service.
use coro_actor.Prelude.{
  ℕ_discrete, Bytes-discrete, if◌then◌else◌, ◌==◌, arith, ◌≡◌, ◌≢◌, refl, ℕ, Bool, true, false,
  Option, some, none, List, [], ◌∷◌, ◌++◌, Bytes, codes, inl, inr,
}
use coro_actor.Prelude.Map.{empty, insert, bytes_key}
use coro_actor.Packet.{request, Request, Pack}
use coro_actor.Worker.{
  completed, Msg, Ctx, Point, idle, serving, writing_response, Served, Outside, push_msg,
  open_or_none, notify_complete, resume, resume_if_due, handle_message,
}
use coro_actor.Worker.Send.{deliver, send, with_call_id}
use coro_actor.Worker.Steps.{outside, Reach, start, step, pushed, goes_on, completes, WorkerInv}
use coro_actor.Worker.Wakeups.{Reach-WorkerInv}
use coro_actor.Worker.Serves.{IsServable, outputs, after, answers, outputs-answers}
use coro_actor.Worker.Ids.{Follows, now, later, send-distinct}
use coro_actor.Worker.Calls.{deliver-answers, answered_ctx, response_to, handle_message-answers}

abbrev one_code : ℕ → Bytes
one_code n = n ∷ []

-- The service `echo` completes at once, and `slow` does not.
abbrev echo : Pack → Served
echo p = record { response_pack = p; error_msg = []; completed = true }

abbrev slow : Pack → Served
slow p = record { response_pack = p; error_msg = []; completed = false }

abbrev services : Bytes → Option (Pack → Served)
services = insert (insert empty (codes "echo") echo) (codes "slow") slow

abbrev blank : Pack
blank = record { type = 0; value = [] }

abbrev ctx : Ctx
ctx = record {
  pid = 7;
  seq = 0;
  error_msg = [];
  call_id = [];
  msg_queue = [];
  curr_resp_pack = record { pid = 0; call_id = []; service_name = []; response_pack = blank };
  response_notify_timer = record { waiting = 0; due = 0 };
  is_waiting = false;
  closed = [];
}

abbrev echo_request : Msg
echo_request = record {
  service_name = codes "echo";
  call_id = codes "1-1";
  pack = record { type = 3; value = codes "hi" };
  socket = none;
  unix_socket = some 0;
}

abbrev slow_request : Msg
slow_request = record {
  service_name = codes "slow";
  call_id = codes "1-2";
  pack = blank;
  socket = some 5;
  unix_socket = none;
}

abbrev gone : Msg
gone = record echo_request { socket = some 9; unix_socket = none }

-- The client of the socket 9 has gone.
abbrev is_open : ℕ → Bool
is_open s = if s == 9 then false else true

abbrev world : Outside
world = outside one_code services is_open false

abbrev waits : Ctx × Point
waits = (ctx, idle false)

abbrev queued : Ctx × Point
queued = (record ctx { msg_queue = slow_request ∷ [] }, idle true)

abbrev serves : Ctx × Point
serves = (record ctx { call_id = codes "1-2"; is_waiting = true }, serving false slow_request blank)

abbrev served : Ctx × Point
served = (ctx, serving true slow_request blank)

waits-Reach : Reach one_code services waits
unfolding handle_message resume
waits-Reach = step (start ctx refl) (goes_on is_open false refl)

queued-Reach : Reach one_code services queued
unfolding push_msg
queued-Reach = step waits-Reach (pushed slow_request (inl (5, refl)))

serves-Reach : Reach one_code services serves
unfolding handle_message resume Bytes-discrete ℕ_discrete
serves-Reach = step queued-Reach (goes_on is_open false refl)

served-Reach : Reach one_code services served
unfolding notify_complete
served-Reach = step serves-Reach completes

Reach-WorkerInv_example : WorkerInv one_code services served
Reach-WorkerInv_example = Reach-WorkerInv one_code services served-Reach

abbrev with_request : Ctx
with_request = record ctx { msg_queue = gone ∷ echo_request ∷ slow_request ∷ [] }

handle_message-answers_example : handle_message world with_request ≡ (
  answered_ctx with_request (slow_request ∷ []),
  writing_response 0 (response_to with_request echo_request echo_request.pack),
)
unfolding Bytes-discrete ℕ_discrete
handle_message-answers_example =
    handle_message-answers world echo_request (slow_request ∷ []) 0 echo (gone ∷ []) with_request
      (inl refl, tt)
      (record {
        runs = refl;
        no_client = refl;
        from_proxy = refl;
        is_open = refl;
        known = refl;
        completes = refl;
        succeeds = refl;
      })
      refl

-- The packet of `echo_request`.
abbrev remote : Request
remote = record {
  pid = 1;
  call_id = codes "1-1";
  service_name = codes "echo";
  request_pack = record { type = 3; value = codes "hi" };
}

-- The context after a call of a service that then completes.
abbrev called_ctx : Ctx
called_ctx = with_call_id one_code ctx

abbrev later_ctx : Ctx
later_ctx = completed called_ctx

completed-Follows :
    Follows one_code services
      (called_ctx, serving false slow_request blank)
      (later_ctx, serving true slow_request blank)
unfolding notify_complete
completed-Follows = later now (omega arith) completes

send-distinct_example : 7 ∷ (codes "-" ++ 1 ∷ []) ≢ 7 ∷ (codes "-" ++ 2 ∷ [])
unfolding send Bytes-discrete ℕ_discrete
send-distinct_example =
    send-distinct one_code services (λ m n e. cc) is_open is_open false false ctx called_ctx
      later_ctx (with_call_id one_code later_ctx) (serving false slow_request blank)
      (serving true slow_request blank) (codes "add") (codes "sub") blank blank
      (record {
        pid = 7;
        call_id = 7 ∷ (codes "-" ++ 1 ∷ []);
        service_name = codes "add";
        request_pack = blank;
      })
      (record {
        pid = 7;
        call_id = 7 ∷ (codes "-" ++ 2 ∷ []);
        service_name = codes "sub";
        request_pack = blank;
      })
      refl refl completed-Follows (omega arith) refl refl

deliver-answers_example :
    resume_if_due world (deliver 0 [] (request remote) (record ctx { msg_queue = [] }, idle false))
    ≡ (answered_ctx ctx [], writing_response 0 (response_to ctx echo_request echo_request.pack))
unfolding Bytes-discrete ℕ_discrete
deliver-answers_example = deliver-answers world ctx remote 0 echo [] (record {
  runs = refl;
  no_client = refl;
  from_proxy = refl;
  is_open = refl;
  known = refl;
  completes = refl;
  succeeds = refl;
})

-- Two requests of the proxy and one of a client.
abbrev client_request : Msg
client_request = record echo_request { socket = some 5; unix_socket = none }

abbrev requests : List Msg
requests = echo_request ∷ client_request ∷ echo_request ∷ []

abbrev busy : Ctx
busy = record ctx { msg_queue = requests }

not_closed :
    (c : Ctx) (s : ℕ) → c.closed ≡ [] → is_open s ≡ true → open_or_none world c (some s) ≡ true
not_closed c s e o = rw (e, open_or_none) o

echo-IsServable : IsServable world [] echo_request
unfolding Bytes-discrete ℕ_discrete
echo-IsServable = record {
  f = echo;
  known = refl;
  completes = refl;
  succeeds = refl;
  from = inr (refl, (0, refl));
  opens = λ c e. refl;
  opens_unix = λ c e. not_closed c 0 e refl;
}

client-IsServable : IsServable world [] client_request
unfolding Bytes-discrete ℕ_discrete
client-IsServable = record {
  f = echo;
  known = refl;
  completes = refl;
  succeeds = refl;
  from = inl (5, refl);
  opens = λ c e. not_closed c 5 e refl;
  opens_unix = λ c e. refl;
}

outputs-answers_example :
    (outputs 3 world (busy, idle true) ≡ answers world 7 requests)
    × ((resume world (after 3 world (busy, idle true))).1 ≡ idle false)
outputs-answers_example =
    outputs-answers world requests busy (idle true) refl tt
      (echo-IsServable, (client-IsServable, (echo-IsServable, tt))) refl
