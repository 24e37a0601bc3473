-- ===== src/Supervisor.antt =====
-- The processes of src/coro_actor.cpp: how the master forks the proxy and the actors, what it does on
-- a signal, and how it stops. What `fork` and `waitpid` return is an argument, and the signals that
-- are sent are a result. A pid of -1 is `none`.
pub mod Start
pub mod Signals
mod Tests
use coro_actor.Prelude.{
  ℕ, zero, suc, Bool, true, false, not, Option, some, none, List, [], ◌∷◌, ◌++◌, Bytes, length, ite,
  ℕ_discrete, if◌then◌else◌,
}

pub data Ptype : Type 0 where
  master worker proxier : Ptype

-- `struct proxy_process`.
pub record ProxyProcess : Type 0 where
  pub pid : Option ℕ
  pub exited : Bool

-- `struct actor_process`.
pub record ActorProcess : Type 0 where
  pub pid : Option ℕ
  pub exited : Bool
  pub name : Bytes

-- The members of `coro_actor` that the functions below use, and whether the io_context is stopped.
pub record Server : Type 0 where
  pub type : Ptype
  pub pid : ℕ
  pub actor_name : Bytes
  pub terminate : Bool
  pub stopped : Bool
  pub proxy : ProxyProcess
  pub actor_processes : List ActorProcess

-- What `fork` returns, the child with its own pid.
pub data Fork : Type 0 where
  failed : Fork
  child : ℕ → Fork
  parent : ℕ → Fork

-- Where a process is after a function that forks. A child runs its loop and exits.
pub data Forked : Type 0 where
  returned : Server → Forked
  runs_proxy : Server → Forked  -- in `handle_proxy_process`
  runs_actor : Server → Forked  -- in `handle_actor_process`

-- `init_proxy_process`.
unfoldable pub init_proxy_process : Server → Fork → Forked
init_proxy_process s failed = returned s
init_proxy_process s (child pid) = runs_proxy (record s { pid = pid })
init_proxy_process s (parent pid) =
    returned (record s { proxy = record s.proxy { pid = some pid } })

-- `this->actor_processes[i]` is written.
abbrev pub set_process : List ActorProcess → ℕ → Option ℕ → Bool → List ActorProcess
set_process [] i pid exited = []
set_process (p ∷ ps) zero pid exited = record p { pid = pid; exited = exited } ∷ ps
set_process (p ∷ ps) (suc i) pid exited = p ∷ set_process ps i pid exited

-- `spawn_actor_process`.
pub spawn_actor_process : Server → Bytes → ℕ → Fork → Forked
spawn_actor_process s name respawn failed = returned s
spawn_actor_process s name respawn (child pid) =
    runs_actor (record s { type = worker; actor_name = name; pid = pid })
spawn_actor_process s name respawn (parent pid) =
    returned (record s { actor_processes = set_process s.actor_processes respawn (some pid) false })

-- The first process that has not been forked, as `idx`, with its name.
abbrev pub find_unforked : List ActorProcess → Option (ℕ × Bytes)
find_unforked [] = none
find_unforked (p ∷ ps) = elim p.pid [
  | none ↦ some (0, p.name)
  | some pid ↦ elim (find_unforked ps) [ none ↦ none | some (i, name) ↦ some (suc i, name) ]
]

-- What the rest of a loop does where the process is still the one that forked.
abbrev pub go_on : Forked → (Server → Forked) → Forked
go_on (returned s) rest = rest s
go_on (runs_proxy s) rest = runs_proxy s
go_on (runs_actor s) rest = runs_actor s

-- The loop of `init_actor_processes`, `n` rounds, with a `fork` for each round.
pub init_rounds : ℕ → (ℕ → Fork) → Server → Forked
unfolding spawn_actor_process
init_rounds zero forks s = returned s
init_rounds (suc n) forks s = elim (find_unforked s.actor_processes) [
  | none ↦ returned s
  | some (i, name) ↦ go_on (spawn_actor_process s name i (forks n)) (λ t. init_rounds n forks t)
]

-- `init_actor_processes`.
pub init_actor_processes : (ℕ → Fork) → Server → Forked
unfolding init_rounds
init_actor_processes forks s = init_rounds (length s.actor_processes) forks s

-- `stop_proxy_process` and `stop_actor_processes`: the processes that get SIGTERM.
pub stop_proxy_process : Server → List ℕ
stop_proxy_process s = elim s.proxy.pid [ none ↦ [] | some pid ↦ pid ∷ [] ]

abbrev pub pids : List ActorProcess → List ℕ
pids [] = []
pids (p ∷ ps) = elim p.pid [ none ↦ pids ps | some pid ↦ pid ∷ pids ps ]

pub stop_actor_processes : Server → List ℕ
stop_actor_processes s = pids s.actor_processes

-- `stop_server`.
pub stop_server : Server → Server
stop_server s = record s { terminate = true; stopped = true }

-- What `waitpid(-1, &status, WNOHANG)` returns.
pub data Wait : Type 0 where
  nothing interrupted error : Wait
  reaped : ℕ → Wait

abbrev pub mark : ℕ → List ActorProcess → List ActorProcess
mark pid [] = []
mark pid (p ∷ ps) =
    let rest = mark pid ps in
    elim p.pid [
      | none ↦ p ∷ rest
      | some q ↦ ite (ℕ_discrete q pid) (record p { exited = true }) p ∷ rest
    ]

abbrev pub mark_proxy : ℕ → ProxyProcess → ProxyProcess
mark_proxy pid p = elim p.pid [
  | none ↦ p
  | some q ↦ ite (ℕ_discrete q pid) (record p { exited = true }) p
]

abbrev pub mark_exited : ℕ → Server → Server
mark_exited pid s = record s {
  proxy = mark_proxy pid s.proxy;
  actor_processes = mark pid s.actor_processes;
}

-- `update_processes_status`, over what the calls of `waitpid` return; at the end of the list no child
-- is left to be waited for.
pub update_processes_status : List Wait → Server → Server
update_processes_status [] s = s
update_processes_status (nothing ∷ ws) s = s
update_processes_status (interrupted ∷ ws) s = update_processes_status ws s
update_processes_status (error ∷ ws) s = s
update_processes_status (reaped pid ∷ ws) s = update_processes_status ws (mark_exited pid s)

-- `reap_proxy_process`.
pub reap_proxy_process : Fork → Server → Forked
unfolding init_proxy_process
reap_proxy_process fork s = elim s.type [
  | master ↦ returned s
  | worker ↦ returned s
  | proxier ↦ elim s.proxy.pid [
    | none ↦ returned s
    | some pid ↦ if s.proxy.exited then init_proxy_process s fork else returned s
  ]
]

-- The loop of `reap_actor_processes`, from `idx` on; `left` are the processes from there.
pub reap_rounds : (ℕ → Fork) → ℕ → List ActorProcess → Server → Forked
unfolding spawn_actor_process
reap_rounds forks idx [] s = returned s
reap_rounds forks idx (p ∷ left) s = elim p.pid [
  | none ↦ reap_rounds forks (suc idx) left s
  | some pid ↦
      if p.exited
      then go_on (spawn_actor_process s p.name idx (forks idx)) (reap_rounds forks (suc idx) left)
      else reap_rounds forks (suc idx) left s
]

-- `reap_actor_processes`.
pub reap_actor_processes : (ℕ → Fork) → Server → Forked
unfolding reap_rounds
reap_actor_processes forks s = elim s.type [
  | master ↦ returned s
  | worker ↦ reap_rounds forks 0 s.actor_processes s
  | proxier ↦ returned s
]

pub data Signal : Type 0 where
  sigint sigterm sigchld : Signal
  other : ℕ → Signal

-- What a signal meets: the results of the calls that its handler may make.
pub record World : Type 0 where
  pub waits : List Wait
  pub proxy_fork : Fork
  pub actor_forks : ℕ → Fork

abbrev pub terminates : Server → Forked × List ℕ
terminates s = (
  returned (stop_server s),
  elim s.type [
    | master ↦ stop_proxy_process s ++ stop_actor_processes s
    | worker ↦ []
    | proxier ↦ []
  ],
)

abbrev pub child_changed : World → Server → Forked
child_changed w s =
    let t = update_processes_status w.waits s in
    if t.terminate
    then returned t
    else go_on (reap_proxy_process w.proxy_fork t) (reap_actor_processes w.actor_forks)

-- The handler of `signal_handler`, with the processes that get SIGTERM.
pub handle_signal : World → Server → Signal → Forked × List ℕ
unfolding stop_server stop_proxy_process stop_actor_processes update_processes_status
    reap_proxy_process reap_actor_processes
handle_signal w s sigint = terminates s
handle_signal w s sigterm = terminates s
handle_signal w s sigchld = (child_changed w s, [])
handle_signal w s (other n) = (returned s, [])
