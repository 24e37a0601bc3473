-- ===== src/Supervisor/Tests.antt =====
-- A master of src/coro_actor.cpp with a proxy and two actors.
use coro_actor.Prelude.{◌≡◌, refl, ℕ, ◌+◌, true, false, some, none, [], ◌∷◌, codes}
use coro_actor.Supervisor.{
  ActorProcess, Server, master, failed, parent, returned, runs_actor, worker, reaped, nothing,
  World, sigchld, sigterm, init_actor_processes, handle_signal, update_processes_status,
}
use coro_actor.Supervisor.Start.{
  started, forked, forks_in_child, init_actor_processes-all_started, sigterm-kills_started,
}
use coro_actor.Supervisor.Signals.{
  Stays, handle_signals, handle_signals-master, after_reaping,
  update_processes_status-after_reaping,
}

abbrev calc : ActorProcess
calc = record { pid = none; exited = false; name = codes "calc" }

abbrev before : Server
before = record {
  type = master;
  pid = 100;
  actor_name = [];
  terminate = false;
  stopped = false;
  proxy = record { pid = some 101; exited = false };
  actor_processes = calc ∷ calc ∷ [];
}

abbrev pid_of : ℕ → ℕ
pid_of n = n + 102

abbrev world : World
world = record { waits = reaped 102 ∷ nothing ∷ []; proxy_fork = failed; actor_forks = λ n. failed }

abbrev after_start : Server
after_start = record before { actor_processes = started pid_of (calc ∷ calc ∷ []) }

abbrev adder : ActorProcess
adder = record { pid = none; exited = false; name = codes "adder" }

-- The second of three actors is forked in the round with the number 1.
abbrev three : Server
three = record before { actor_processes = calc ∷ adder ∷ calc ∷ [] }

init_actor_processes-all_started_example :
    (init_actor_processes (λ n. parent (pid_of n)) three
      ≡ returned (record three { actor_processes = started pid_of (calc ∷ adder ∷ calc ∷ []) }))
    × ((t : Server) × (init_actor_processes (forks_in_child pid_of 1 103) three ≡ runs_actor t)
        × (t.type ≡ worker)
        × (t.actor_name ≡ codes "adder")
        × (t.pid ≡ 103))
init_actor_processes-all_started_example =
    init_actor_processes-all_started pid_of three (calc ∷ []) adder (calc ∷ []) 103 refl
      (refl, (refl, (refl, tt)))

sigterm-kills_started_example :
    handle_signal world after_start sigterm
    ≡ (returned (record after_start { terminate = true; stopped = true }), 101 ∷ forked pid_of 2)
sigterm-kills_started_example = sigterm-kills_started pid_of world before 101 refl refl

update_processes_status-after_reaping_example :
    update_processes_status world.waits after_start ≡ after_reaping (102 ∷ []) after_start
update_processes_status-after_reaping_example =
    update_processes_status-after_reaping world.waits after_start

handle_signals-master_example :
    Stays (handle_signals ((world, sigchld) ∷ (world, sigterm) ∷ []) after_start) after_start
handle_signals-master_example =
    handle_signals-master ((world, sigchld) ∷ (world, sigterm) ∷ []) after_start refl
