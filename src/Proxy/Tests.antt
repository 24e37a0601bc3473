-- ===== src/Proxy/Tests.antt =====
-- The proxy of src/coro_actor.cpp with two actors: one calls the service of the other.
use coro_actor.Prelude.{
  arith, ℕ, ℕ_discrete, Bytes-discrete, suc, ◌≡◌, refl, Bool, true, false, some, [], ◌∷◌, ◌++◌,
  Bytes, codes, ◌≢◌, ◌↔◌,
}
use coro_actor.Prelude.Map.{Map, empty, insert, bytes_key, nat_key}
use coro_actor.Packet.{Connect, Request, Response, connect, request, response}
use coro_actor.Proxy.{
  Proxy, update, list_at, enqueue, forward, handle_request, sends, update_actor_info, scanned,
  extend_chain, with_queue, set_actor,
}
use coro_actor.Proxy.Deal.{
  connack_written, response_written, writing, crashed, deal, deal_connect, deal_request,
  deal_response, resume, start_chain,
}
use coro_actor.Proxy.Handling.{Handled, handle_request-Handled}
use coro_actor.Proxy.Delivery.{handle_request-Delivery, Delivery}
use coro_actor.Proxy.Calls.{with_chain, call_returns, deferred_misroutes}
use coro_actor.Proxy.Safety.{IsSafe, handle_request-IsSafe}
use coro_actor.Proxy.Sound.{IsSound, enqueue-From, extend_chain-From}
use coro_actor.Proxy.Rounds.Packets.{Accepts}
use coro_actor.Proxy.System.{
  reading, suspended, System, set_task, accepted, accept, receive, complete, fresh, Reach, start,
  later,
}
use coro_actor.Proxy.System.Invariant.{Inv, Reach-Inv, resume-ne-crashed, receive-crashed_iff}

abbrev services : Map Bytes Bytes
services = insert empty (codes "add") (codes "adder")

abbrev sum : Request
sum = record {
  pid = 1;
  call_id = codes "1-1";
  service_name = codes "add";
  request_pack = record { type = 0; value = codes "1+2" };
}

abbrev answer : Response
answer = record {
  pid = 2;
  call_id = codes "1-1";
  service_name = codes "add";
  response_pack = record { type = 0; value = codes "3" };
}

-- The state after the packet `connect` of a new connection.
abbrev with_actor : Proxy → ℕ → Connect → Proxy
with_actor p socket c = record p {
  actors = update p.actors p.next_actor (record {
    name = c.name;
    pid = c.pid;
    is_waiting = false;
    call_id = [];
    msg_queue = [];
    socket = socket;
  });
  next_actor = suc p.next_actor;
  actor_pid_map = insert p.actor_pid_map c.pid (some p.next_actor);
  actor_info_map =
      insert p.actor_info_map c.name (list_at p.actor_info_map c.name ++ p.next_actor ∷ []);
}

abbrev connecting : System → Connect → System
connecting s c =
    let t = accepted s in
    record t {
      proxy = with_actor t.proxy s.next_socket c;
      tasks = set_task t.tasks s.next_socket (suspended connack_written);
    }

abbrev connected : System → Connect → System
connected s c =
    let t = connecting s c in record t { tasks = set_task t.tasks s.next_socket reading }

abbrev caller : Connect
caller = record { pid = 1; name = codes "front" }

abbrev adder : Connect
adder = record { pid = 2; name = codes "adder" }

abbrev one_actor : System
one_actor = connected (fresh services) caller

abbrev second_connects : System
second_connects = connecting one_actor adder

abbrev two_actors : System
two_actors = connected one_actor adder

one_actor-Reach : Reach services one_actor
unfolding deal deal_connect resume ℕ_discrete
one_actor-Reach =
    later
      (later (later start accept)
        (receive 0 (connect caller) {t = connecting (fresh services) caller} refl refl))
      (complete 0 false connack_written refl refl)

second_connects-Reach : Reach services second_connects
unfolding deal deal_connect ℕ_discrete
second_connects-Reach =
    later (later one_actor-Reach accept) (receive 1 (connect adder) {t = second_connects} refl refl)

two_actors-Reach : Reach services two_actors
unfolding resume ℕ_discrete
two_actors-Reach = later second_connects-Reach (complete 1 false connack_written refl refl)

Reach-Inv_example : Inv two_actors
Reach-Inv_example = Reach-Inv two_actors-Reach

resume-ne-crashed_example : resume second_connects.proxy connack_written true ≢ crashed
unfolding ℕ_discrete
resume-ne-crashed_example = resume-ne-crashed second_connects-Reach 1 connack_written true refl

receive-crashed_iff_example :
    (deal two_actors.proxy 0 (request sum) ≡ crashed) ↔ (¬ Accepts two_actors.proxy (request sum))
unfolding ℕ_discrete
receive-crashed_iff_example = receive-crashed_iff two_actors-Reach 0 (request sum) refl

-- The first actor has asked for the sum: the packet is in its queue, and the call has a chain.
abbrev asked : Proxy
asked = enqueue (start_chain two_actors.proxy sum 0) 0 sum

abbrev in_call : Proxy → ℕ → Bool → Proxy
in_call p a waits =
    set_actor p a (record (p.actors a) { call_id = sum.call_id; is_waiting = waits })

-- The packet at the front of the queue of `af` has gone to the second actor.
abbrev sent_from : Proxy → ℕ → Proxy
sent_from p af =
    in_call
      (extend_chain
        (in_call
          (scanned (with_queue p af []) (codes "adder")
            (record { kept = 1 ∷ []; pids = p.actor_pid_map; chosen = some 1; min_que_size = 0 })
            [])
          0 true)
        sum.call_id 1)
      1 false

abbrev sent : Proxy
sent = sent_from asked 0

asked-sends : handle_request asked 0 ≡ sends sent 1 sum
unfolding handle_request ℕ_discrete Bytes-discrete
asked-sends = refl

handle_request-Delivery_example : Delivery asked 0 sent 1 sum
handle_request-Delivery_example = handle_request-Delivery asked sent 0 1 sum asked-sends

call_returns_example :
    (1 ≡ (two_actors.proxy.actors 1).socket)
    × (request sum ≡ request sum)
    × (deal_response sent answer
        ≡ writing
            (with_chain sent (codes "1-1") (0 ∷ []))
            (two_actors.proxy.actors 0).socket
            (response answer)
            (response_written answer 1))
unfolding deal_request handle_request ℕ_discrete Bytes-discrete
call_returns_example =
    call_returns two_actors.proxy sent sum answer 0 1 1 (request sum) refl refl refl refl

asked-IsSound : IsSound asked
unfolding ℕ_discrete
asked-IsSound =
    let v = (Reach-Inv two_actors-Reach).sound in
    let w = extend_chain-From v (codes "1-1") 0 (omega arith) in
    (enqueue-From w.sound 0 sum (omega arith) (0, refl)).sound

handle_request-IsSafe_example : IsSafe asked (handle_request asked 0)
handle_request-IsSafe_example = handle_request-IsSafe asked 0 asked-IsSound (omega arith)

handle_request-Handled_example : Handled asked 0 (handle_request asked 0)
handle_request-Handled_example = handle_request-Handled asked 0 asked-IsSound (omega arith)

-- The second actor waits in a call of its own when the packet comes, and keeps it until it is free.
abbrev busy : Proxy
busy =
    let p = start_chain two_actors.proxy sum 0 in
    set_actor p 1 (record (p.actors 1) { call_id = codes "2-1"; is_waiting = true })

abbrev kept : Proxy
kept = enqueue (extend_chain (in_call busy 0 true) sum.call_id 1) 1 sum

abbrev free : Proxy
free = set_actor kept 1 (record (kept.actors 1) { call_id = []; is_waiting = false })

deferred_misroutes_example :
    deal_response (sent_from free 1) answer
    ≡ writing
        (with_chain (sent_from free 1) (codes "1-1") (0 ∷ 1 ∷ []))
        1
        (response answer)
        (response_written answer 1)
unfolding forward handle_request update_actor_info ℕ_discrete Bytes-discrete
deferred_misroutes_example =
    deferred_misroutes busy kept free (sent_from free 1) sum answer 1 1 refl refl refl refl
