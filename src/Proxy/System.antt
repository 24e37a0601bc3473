-- ===== src/Proxy/System.antt =====
-- The proxy process as it runs: `handle_proxy_accept`, and one coroutine of `handle_proxy_deal_actor`
-- for each connection. The processes at the other ends choose the packets, the kernel whether a read
-- or a write fails, and the io_context which coroutine runs next; so a run is any sequence of steps.
pub mod Invariant
use coro_actor.Prelude.{
  ℕ, suc, ◌≡◌, Bool, true, false, Option, some, none, [], ite, ℕ_discrete, Bytes,
}
use coro_actor.Prelude.Map.{Map, empty}
use coro_actor.Packet.{Packet}
use coro_actor.Proxy.{Proxy, ActorInfo}
use coro_actor.Proxy.Deal.{Point, Outcome, looped, writing, crashed, deal, resume}

-- Where the coroutine of a connection stands.
pub data Task : Type 0 where
  unused : Task  -- no such connection yet
  reading : Task  -- at the head of its loop
  suspended : Point → Task
  finished : Task  -- a read failed, and it has returned

pub record System : Type 0 where
  pub proxy : Proxy
  pub tasks : ℕ → Task
  pub next_socket : ℕ

abbrev pub set_task : (ℕ → Task) → ℕ → Task → ℕ → Task
set_task f k t j = ite (ℕ_discrete k j) t (f j)

-- The state after a round of the connection `k`; none after a crash.
abbrev pub after : System → ℕ → Outcome → Option System
after s k (looped q) = some (record s { proxy = q; tasks = set_task s.tasks k reading })
after s k (writing q w packet t) =
    some (record s { proxy = q; tasks = set_task s.tasks k (suspended t) })
after s k crashed = none

-- `handle_proxy_accept`: the new socket is open.
abbrev pub accepted : System → System
accepted s = record s {
  proxy = record s.proxy {
    is_open = λ k. ite (ℕ_discrete s.next_socket k) true (s.proxy.is_open k);
  };
  tasks = set_task s.tasks s.next_socket reading;
  next_socket = suc s.next_socket;
}

pub data Step (s : System) : System → Type 0 where
  accept : Step s (accepted s)
  hang_up :
      (k : ℕ) → s.tasks k ≡ reading → Step s (record s { tasks = set_task s.tasks k finished })
  receive :
      (k : ℕ) (packet : Packet) {t : System}
      → s.tasks k ≡ reading
      → after s k (deal s.proxy k packet) ≡ some t
      → Step s t
  complete :
      (k : ℕ) (failed : Bool) (point : Point) {t : System}
      → s.tasks k ≡ suspended point
      → after s k (resume s.proxy point failed) ≡ some t
      → Step s t

-- The proxy as `init_proxy_process` forks it, with the services of the configuration.
abbrev pub nobody : ActorInfo
nobody = record { name = []; pid = 0; is_waiting = false; call_id = []; msg_queue = []; socket = 0 }

abbrev pub fresh : Map Bytes Bytes → System
fresh services = record {
  proxy = record {
    service_map = services;
    actor_info_map = empty;
    actor_pid_map = empty;
    actor_call_chain_map = empty;
    actors = λ a. nobody;
    next_actor = 0;
    is_open = λ k. false;
  };
  tasks = λ k. unused;
  next_socket = 0;
}

pub data Reach (services : Map Bytes Bytes) : System → Type 0 where
  start : Reach services (fresh services)
  later : {s t : System} → Reach services s → Step s t → Reach services t
