-- ===== src/Proxy/Deal.antt =====
-- `handle_proxy_deal_actor` of src/coro_actor.cpp: the coroutine of one connection, between one
-- suspension and the next.
use coro_actor.Prelude.{ℕ, suc, Bool, true, false, none, some, [], ◌∷◌, ◌++◌, back, pop_back}
use coro_actor.Prelude.Map.{insert, nat_key, bytes_key}
use coro_actor.Packet.{
  Packet, connect, connack, request, response, other, Connect, Request, Response,
}
use coro_actor.Proxy.{
  Proxy, ActorInfo, list_at, pointer_at, update_actor_info, enqueue, extend_chain, update, Dispatch,
  returned, sends, fault, handle_request, handle_request_sent,
}

-- What a coroutine does once `handle_proxy_handle_request` has returned.
pub data Next : Type 0 where
  next_packet : Next  -- the head of its loop
  then_caller : Response → Next  -- the last two lines of the response's case

-- The `async_write` at which a coroutine is suspended, with the local variables that are live there.
pub data Point : Type 0 where
  connack_written : Point
  request_written : Request → ℕ → Next → Point
  response_written : Response → ℕ → Point

pub data Outcome : Type 0 where
  looped : Proxy → Outcome  -- back at the head of the loop
  writing : Proxy → ℕ → Packet → Point → Outcome  -- a write to a socket is under way
  crashed : Outcome

-- `co_await handle_proxy_handle_request(af)`, as the last statement of a case.
abbrev pub continue_with : Next → Dispatch → (Proxy → Outcome) → Outcome
continue_with next (returned q) rest = rest q
continue_with next (sends q callee r) rest =
    writing q (q.actors callee).socket (request r) (request_written r callee next)
continue_with next fault rest = crashed

-- The caller is at the end of the chain again: it goes on with its own call.
unfoldable pub wake_caller : Proxy → Response → Outcome
unfolding update_actor_info handle_request
wake_caller p r = elim (back (list_at p.actor_call_chain_map r.call_id)) [
  | none ↦ crashed
  | some caller ↦
      continue_with next_packet (handle_request (update_actor_info p caller r.call_id false) caller)
        looped
]

-- The callee is free.
unfoldable pub wake_callee : Proxy → Response → ℕ → Outcome
unfolding update_actor_info handle_request wake_caller
wake_callee p r callee =
    continue_with (then_caller r) (handle_request (update_actor_info p callee [] false) callee)
      λ q. wake_caller q r

unfoldable pub deal_connect : Proxy → ℕ → Connect → Outcome
deal_connect p socket c =
    writing
      (record p {
        actors = update p.actors p.next_actor info;
        next_actor = suc p.next_actor;
        actor_pid_map = insert p.actor_pid_map c.pid (some p.next_actor);
        actor_info_map =
            insert p.actor_info_map c.name (list_at p.actor_info_map c.name ++ p.next_actor ∷ []);
      })
      socket (connack (record { result = true })) connack_written
  where
    info : ActorInfo
    info = record {
      name = c.name;
      pid = c.pid;
      is_waiting = false;
      call_id = [];
      msg_queue = [];
      socket = socket;
    }

-- The first node of a call starts its chain. (The source does this before it reads through the
-- pointer; both happen in one go.)
abbrev pub start_chain : Proxy → Request → ℕ → Proxy
start_chain p r a = elim (p.actor_call_chain_map r.call_id) [
  | none ↦ extend_chain p r.call_id a
  | some chain ↦ p
]

unfoldable pub deal_request : Proxy → Request → Outcome
unfolding handle_request
deal_request p r = elim (pointer_at p.actor_pid_map r.pid) [
  | none ↦ crashed
  | some a ↦ continue_with next_packet (handle_request (enqueue (start_chain p r a) a r) a) looped
]

-- The response goes to the actor before the last of the chain, where there are two.
unfoldable pub deal_response : Proxy → Response → Outcome
deal_response p r =
    let chain = list_at p.actor_call_chain_map r.call_id in
    elim (back chain) [
      | none ↦ crashed
      | some callee ↦ elim (back (pop_back chain)) [
        | none ↦ crashed
        | some caller ↦
            writing
              (record p {
                actor_call_chain_map = insert p.actor_call_chain_map r.call_id (pop_back chain);
              })
              (p.actors caller).socket (response r) (response_written r callee)
      ]
    ]

-- One round of the loop: a packet has been read. Other protocol bytes have no case.
unfoldable pub deal : Proxy → ℕ → Packet → Outcome
unfolding deal_connect deal_request deal_response
deal p socket (connect c) = deal_connect p socket c
deal p socket (request r) = deal_request p r
deal p socket (response r) = deal_response p r
deal p socket (connack c) = looped p
deal p socket (other b) = looped p

abbrev pub go_on : Proxy → Next → Outcome
go_on p next_packet = looped p
go_on p (then_caller r) = wake_caller p r

-- The write has ended; `failed` is whether it set `ec`.
unfoldable pub resume : Proxy → Point → Bool → Outcome
unfolding handle_request_sent wake_callee
resume p connack_written failed = looped p
resume p (request_written r callee next) failed = elim (handle_request_sent p r callee failed) [
  | none ↦ crashed
  | some q ↦ go_on q next
]
resume p (response_written r callee) failed = wake_callee p r callee
