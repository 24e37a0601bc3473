-- ===== src/RemoteCall/Tests.antt =====
-- A call of the service `add` in src/coro_actor.cpp, which one actor offers.
use coro_actor.Prelude.{
  if◌then◌else◌, ◌==◌, refl, ℕ, suc, ◌+◌, Bytes, ℕ_discrete, Bytes-discrete, true, false, some, [],
  ◌∷◌, codes,
}
use coro_actor.Prelude.Map.{empty, insert, bytes_key, nat_key}
use coro_actor.Packet.{Pack, Request, Response}
use coro_actor.Proxy.{Proxy}
use coro_actor.Proxy.Deal.{start_chain}
use coro_actor.Proxy.Exchange.{IsReady, Chosen}
use coro_actor.Proxy.Exchange.Ready.{IsExchanged, deal_response-IsReady}
use coro_actor.Worker.{Ctx, Served}
use coro_actor.Worker.Send.{send, with_call_id}
use coro_actor.RemoteCall.{Peers, Answers, IsCompleted, deal_request-IsCompleted}

abbrev proxy : Proxy
proxy = record {
  service_map = insert empty (codes "add") (codes "adder");
  actor_info_map = insert empty (codes "adder") (1 ∷ []);
  actor_pid_map = insert (insert empty 1 (some 0)) 2 (some 1);
  actor_call_chain_map = empty;
  actors = λ a. record {
    name = [];
    pid = suc a;
    is_waiting = false;
    call_id = [];
    msg_queue = [];
    socket = a;
  };
  next_actor = 2;
  is_open = λ s. true;
}

abbrev sum : Request
sum = record {
  pid = 1;
  call_id = codes "1-1";
  service_name = codes "add";
  request_pack = record { type = 0; value = codes "1+2" };
}

abbrev add : Pack → Served
add q = record {
  response_pack = record { type = q.type; value = codes "3" };
  error_msg = [];
  completed = true;
}

abbrev blank : Pack
blank = record { type = 0; value = [] }

abbrev peers : Peers
peers = record {
  ctx = λ c. record {
    pid = suc c;
    seq = 0;
    error_msg = [];
    call_id = [];
    msg_queue = [];
    curr_resp_pack = record { pid = 0; call_id = []; service_name = []; response_pack = blank };
    response_notify_timer = record { waiting = 0; due = 0 };
    is_waiting = false;
    closed = [];
  };
  outside = λ c. record {
    service_map = if c == 1 then insert empty (codes "add") add else empty;
    is_open = λ s. true;
    stopped = false;
  };
  socket = λ c. 0;
}

proxy-IsReady : IsReady (start_chain proxy sum 0) sum 0 (codes "adder") 1 []
unfolding Bytes-discrete ℕ_discrete
proxy-IsReady = record {
  known = refl;
  is_waiting = refl;
  msg_queue = refl;
  started = refl;
  offered = refl;
  group = refl;
  free = (
    record {
      is_open = refl;
      is_waiting = refl;
      msg_queue = refl;
      in_call = λ e. cc;
      other = λ e. cc;
    },
    tt,
  );
}

peers-Answers : Answers proxy sum 0 (codes "adder") 1 [] peers add 1
unfolding Bytes-discrete
peers-Answers = record {
  runs = refl;
  no_client = refl;
  from_proxy = refl;
  is_open = refl;
  known = refl;
  completes = refl;
  succeeds = refl;
}

-- The text of a number is its code.
abbrev one_code : ℕ → Bytes
one_code n = (n + 48) ∷ []

abbrev caller : Ctx
caller = with_call_id one_code (peers.ctx 0)

deal_request-IsCompleted_example :
    (c : Chosen (start_chain proxy sum 0) (codes "1-1") 0 1 []) × IsCompleted proxy sum 0
      (codes "adder")
      1
      []
      peers
      add
      caller
      c.callee
unfolding send Bytes-discrete
deal_request-IsCompleted_example =
    deal_request-IsCompleted proxy sum 0 (codes "adder") 1 [] peers add one_code (codes "add")
      (record { type = 0; value = codes "1+2" }) caller refl refl proxy-IsReady (peers-Answers, tt)

abbrev answer : Response
answer = record {
  pid = 2;
  call_id = codes "1-1";
  service_name = codes "add";
  response_pack = record { type = 0; value = codes "3" };
}

deal_response-IsReady_example :
    (c : Chosen (start_chain proxy sum 0) (codes "1-1") 0 1 []) × (last : Proxy) × IsExchanged proxy
      sum answer 0 c.callee last
    × IsReady (start_chain last sum 0) sum 0 (codes "adder") 1 []
unfolding Bytes-discrete
deal_response-IsReady_example =
    deal_response-IsReady proxy sum sum answer 0 (codes "adder") 1 [] proxy-IsReady (λ e. cc) refl
      refl refl refl
