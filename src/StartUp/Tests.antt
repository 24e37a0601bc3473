-- ===== src/StartUp/Tests.antt =====
-- A start of main.cpp with a configuration that is read from a small table.
use coro_actor.Prelude.{
  ◌≡◌, ◌≢◌, refl, ℕ, ◌+◌, ◌*◌, Bytes-discrete, ℕ_discrete, true, false, Option, some, none, [], ◌∷◌,
  Bytes, codes, arith, All, ◌++◌,
}
use coro_actor.Prelude.Map.{empty, insert, bytes_key}
use coro_actor.Config.{Config, initial}
use coro_actor.Config.Loader.{load}
use coro_actor.Config.Loader.Document.{document}
use coro_actor.Logger.{Logger, set_logger, info}
use coro_actor.Supervisor.{ActorProcess, Server, failed, parent, returned}
use coro_actor.Supervisor.Start.{IsForked}
use coro_actor.PidFile.{Decimal, Files, create_pidfile}
use coro_actor.StartUp.{
  Options, System, Master, exited, initialised, uses, choose, set_daemon, goes_on, init, run,
  after_init,
}
use coro_actor.StartUp.Twice.{init-once}
use coro_actor.StartUp.Processes.{how_many, configured, init-configured}

-- A number as one character.
abbrev head : Bytes → Option ℕ
head [] = none
head (n ∷ l) = some n

abbrev one_code : Decimal
one_code = record { write = λ n. n ∷ []; read = head; round = λ n h. refl }

abbrev nothing_there : Files
nothing_there = record { text = empty; writable = λ f. true; readable = λ f. true }

abbrev loaded : Config
loaded = (load document (codes "main.yml") initial).1

-- No process is forked, and no address is configured.
abbrev sys : System
sys = record {
  fork = failed;
  setsid = true;
  open_null = some 3;
  dup2 = λ a b. true;
  close = λ a. true;
  logging = record { to_string = λ n. n ∷ []; active_level = 2; opens = λ file. true };
  log_dir = codes "logs/now/";
  listen = λ address port. none;
}

abbrev starts : Options
starts = record { help = false; config = some (codes "main.yml"); stop = none }

abbrev stops : Options
stops = record { help = false; config = none; stop = some (codes "main.yml") }

abbrev with_pid : Files
with_pid = record nothing_there { text = insert empty (codes "/run/coro_actor.pid") (7 ∷ []) }

abbrev unforked : ActorProcess
unforked = record { pid = none; exited = true; name = codes "calc" }

abbrev logger : Logger
logger = record {
  name = codes "actor_master";
  file = codes "logs/now/actor_master-" ++ (7 ∷ codes ".log");
  is_async = false;
  max_size = 1048576 * 5;
  max_files = 3;
  level = some info;
}

abbrev begun : Master
begun = record {
  pid = 7;
  config = loaded;
  logger = logger;
  actor_processes = unforked ∷ unforked ∷ [];
  ac_map = empty;
  files = with_pid;
}

init-begun : init document one_code sys nothing_there (some starts) 7 ≡ initialised begun
unfolding init load set_logger create_pidfile Bytes-discrete ℕ_discrete
init-begun = refl

same_file : (file : Bytes) → choose starts ≡ uses file false → choose stops ≡ uses file true
same_file file e = cc e

not_forked : (r : ℕ) → set_daemon sys ≡ goes_on r → r ≢ 7
unfolding set_daemon
not_forked r e = λ f. cc e

begun-readable : nothing_there.readable begun.config.pid_file ≡ true
begun-readable = refl

init-once_example :
    ((n : Master) → init document one_code sys with_pid (some starts) 8 ≢ initialised n)
    × (after_init document one_code sys with_pid
          (init document one_code sys with_pid (some starts) 8)
        ≡ with_pid)
    × (init document one_code sys with_pid (some stops) 8 ≡ exited 0 (7 ∷ []))
init-once_example =
    init-once document one_code sys sys nothing_there starts starts stops 7 8 begun init-begun
      (omega arith) begun-readable refl same_file (λ e. omega (arith, e)) not_forked

abbrev pid_of : ℕ → ℕ
pid_of n = n + 101

init-configured_example :
    (t : Server) × (run document one_code sys nothing_there
        (some starts)
        7
        (parent 100)
        (λ n. parent (pid_of n))
      ≡ some (returned t))
    × (t.proxy.pid ≡ some 100)
    × All IsForked t.actor_processes
    × ((name : Bytes)
        → how_many name t.actor_processes ≡ configured name begun.config.actor_configs)
init-configured_example =
    init-configured document one_code sys nothing_there starts 7 begun 100 pid_of init-begun
