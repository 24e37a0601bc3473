-- ===== src/StartUp.antt =====
-- How a process of main.cpp starts: `init` and `set_daemon` of src/coro_actor.cpp, with the configuration,
-- the pid file and the actors that the other modules model, and what the destructor leaves.
--
-- The options are what cxxopts has parsed. The title is in the module Title, the signals in Supervisor.
pub mod Twice
pub mod Processes
mod Tests
use coro_actor.Prelude.{
  ℕ, zero, suc, Bool, true, false, not, Option, some, none, List, [], ◌∷◌, ◌++◌, Bytes, codes, ltb,
  ite, Bytes-discrete, if◌then◌else◌, ◌&&◌, ◌||◌,
}
use coro_actor.Prelude.Map.{Map, empty, insert, bytes_key}
use coro_actor.Config.{ActorConfig, Config, initial}
use coro_actor.Config.Yaml.{Yaml}
use coro_actor.Config.Loader.{load}
use coro_actor.Logger.{Logger, Logging, set_logger}
use coro_actor.Supervisor.{
  Server, Forked, go_on, init_proxy_process, init_actor_processes, master, ActorProcess, Fork,
  failed, child, parent,
}
use coro_actor.PidFile.{
  Decimal, Files, Created, created, thrown, create_pidfile, delete_pidfile, handle_stop_command,
}

-- The options with their values.
pub record Options : Type 0 where
  pub help : Bool
  pub config : Option Bytes
  pub stop : Option Bytes

-- What `init` makes of them.
pub data Choice : Type 0 where
  shows_help usage_error : Choice
  uses : (config_file : Bytes) (stop : Bool) → Choice

abbrev pub choose : Options → Choice
choose o = if o.help then shows_help else elim o.config [
  | none ↦ elim o.stop [ none ↦ usage_error | some file ↦ uses file true ]
  | some file ↦ elim o.stop [ none ↦ uses file false | some other ↦ usage_error ]
]

-- What the system calls of `set_daemon` return: a failure is `false` or none.
pub record System : Type 0 where
  pub fork : Fork
  pub setsid : Bool
  pub open_null : Option ℕ
  pub dup2 : ℕ → ℕ → Bool
  pub close : ℕ → Bool
  pub logging : Logging
  pub log_dir : Bytes  -- with the time of the start
  pub listen : Bytes → Option ℕ → Option ℕ  -- an acceptor; none where a call of asio throws

pub data Daemon : Type 0 where
  exits : Daemon  -- the process that has forked
  refuses : Daemon
  goes_on : ℕ → Daemon  -- the child, with its pid

-- `set_daemon`, from the child on.
abbrev pub detach : System → ℕ → Daemon
detach sys pid =
    if sys.setsid
    then elim sys.open_null [
      | none ↦ refuses
      | some fd ↦
          if sys.dup2 fd 0 && sys.dup2 fd 1
          then if ltb 2 fd && not (sys.close fd) then refuses else goes_on pid
          else refuses
    ]
    else refuses

pub set_daemon : System → Daemon
set_daemon sys = elim sys.fork [
  | failed ↦ refuses
  | child pid ↦ detach sys pid
  | parent pid ↦ exits
]

-- The members of the master after `init`.
pub record Master : Type 0 where
  pub pid : ℕ
  pub config : Config
  pub logger : Logger
  pub actor_processes : List ActorProcess
  pub ac_map : Map Bytes ℕ
  pub files : Files

-- How `init` ends: the process exits with a status, after signals to some processes; it throws, with the
-- files, the pid file's name and its pid; or it returns.
pub data Init : Type 0 where
  exited : ℕ → List ℕ → Init
  throws : Files → Bytes → ℕ → Init
  initialised : Master → Init

-- `actor_process{.name = cfg.name}`, as often as `cfg.count`.
abbrev pub emplace_processes : Bytes → ℕ → List ActorProcess
emplace_processes name zero = []
emplace_processes name (suc n) =
    record { pid = none; exited = true; name = name } ∷ emplace_processes name n

-- The acceptor of an actor, where it has an address: none where a call throws.
abbrev pub listen_actor : System → ActorConfig → Map Bytes ℕ → Option (Map Bytes ℕ)
listen_actor sys cfg acs = elim cfg.address [
  | [] ↦ some acs
  | x ∷ rest ↦ elim (sys.listen cfg.address cfg.port) [
    | none ↦ none
    | some acceptor ↦ some (insert acs cfg.name acceptor)
  ]
]

-- The last loop of `init`: none where it throws.
abbrev pub listen_all :
    System
    → List ActorConfig
    → List ActorProcess
    → Map Bytes ℕ
    → Option (List ActorProcess × Map Bytes ℕ)
listen_all sys [] ps acs = some (ps, acs)
listen_all sys (cfg ∷ l) ps acs = elim (listen_actor sys cfg acs) [
  | none ↦ none
  | some acs1 ↦ listen_all sys l (ps ++ emplace_processes cfg.name cfg.count) acs1
]

module _ (y : Yaml) (decimal : Decimal) (sys : System) (files : Files) where
  -- After the last loop.
  abbrev pub listened :
      Files → Config → ℕ → Logger → Option (List ActorProcess × Map Bytes ℕ) → Init
  listened fs c pid logger none = throws fs c.pid_file pid
  listened fs c pid logger (some (ps, acs)) = initialised (record {
    pid = pid;
    config = c;
    logger = logger;
    actor_processes = ps;
    ac_map = acs;
    files = fs;
  })

  -- After `set_logger`.
  abbrev pub logged : Files → Config → ℕ → Option Logger → Init
  logged fs c pid none = throws fs c.pid_file pid
  logged fs c pid (some logger) = listened fs c pid logger (listen_all sys c.actor_configs [] empty)

  -- After `create_pidfile`, and before.
  abbrev pub after_created : Config → ℕ → Created → Init
  after_created c pid (thrown what) = throws files c.pid_file pid
  after_created c pid (created fs) =
      logged fs c pid (set_logger sys.logging master sys.log_dir pid (codes "actor_master"))

  abbrev pub create : Config → ℕ → Init
  create c pid = after_created c pid (create_pidfile decimal files c.pid_file pid)

  abbrev pub daemonised : Config → Daemon → Init
  daemonised c exits = exited 0 []
  daemonised c refuses = exited 1 []
  daemonised c (goes_on child_pid) = create c child_pid

  abbrev pub serve : Config → ℕ → Init
  serve c pid = if c.daemon then daemonised c (set_daemon sys) else create c pid

  -- From `load` on.
  abbrev pub use_config : Bool × Config → Bool → ℕ → Init
  use_config (false, c) stop pid = throws files c.pid_file pid
  use_config (true, c) stop pid =
      if stop then exited 0 (handle_stop_command decimal files c.pid_file) else serve c pid

  abbrev pub use_choice : Choice → ℕ → Init
  use_choice shows_help pid = exited 0 []
  use_choice usage_error pid = exited 1 []
  use_choice (uses file stop) pid = use_config (load y file initial) stop pid

  -- `init` of the process `pid`; none are options that cxxopts throws at.
  pub init : Option Options → ℕ → Init
  init none pid = throws files initial.pid_file pid
  init (some o) pid = use_choice (choose o) pid

  -- The files after the destructor, where `init` has thrown: `exit` does not call it.
  pub after_init : Init → Files
  after_init (exited status killed) = files
  after_init (throws fs file pid) = delete_pidfile decimal fs file pid
  after_init (initialised m) = m.files

  -- The master's members when `init` has returned, for the functions of Supervisor.
  abbrev pub server_of : Master → Server
  server_of m = record {
    type = master;
    pid = m.pid;
    actor_name = [];
    terminate = false;
    stopped = false;
    proxy = record { pid = none; exited = true };
    actor_processes = m.actor_processes;
  }

  abbrev pub run_from : Init → Fork → (ℕ → Fork) → Option Forked
  run_from (exited status killed) fork forks = none
  run_from (throws fs file pid) fork forks = none
  run_from (initialised m) fork forks =
      some (go_on (init_proxy_process (server_of m) fork) (init_actor_processes forks))

  -- `run`, up to the loop of the io_context: none where `init` exits or throws.
  pub run : Option Options → ℕ → Fork → (ℕ → Fork) → Option Forked
  unfolding init
  run o pid fork forks = run_from (init o pid) fork forks
