-- ===== src/Supervisor/Signals.antt =====
-- What the signals of src/coro_actor.cpp do to the processes that a server knows.
use coro_actor.Prelude.{
  arith, sym, subst, ◌≡◌, refl, ap, ◌∙◌, ℕ, Bool, true, false, Option, some, none, List, [], ◌∷◌,
  ite, ℕ_discrete, if◌then◌else◌, map, ◌||◌,
}
use coro_actor.Supervisor.{
  ActorProcess, ProxyProcess, Server, Forked, returned, Wait, nothing, interrupted, error, reaped,
  mark, mark_proxy, mark_exited, update_processes_status, master, go_on, World, Signal, sigint,
  sigterm, sigchld, other, handle_signal, stop_server, reap_proxy_process, reap_actor_processes,
}

-- The pids that `waitpid` returns before the loop ends.
abbrev pub reaped_pids : List Wait → List ℕ
reaped_pids [] = []
reaped_pids (nothing ∷ ws) = []
reaped_pids (interrupted ∷ ws) = reaped_pids ws
reaped_pids (error ∷ ws) = []
reaped_pids (reaped pid ∷ ws) = pid ∷ reaped_pids ws

abbrev pub among : ℕ → List ℕ → Bool
among q [] = false
among q (pid ∷ l) = ite (ℕ_discrete q pid) true (among q l)

abbrev pub has_exited : Option ℕ → Bool → List ℕ → Bool
has_exited none exited l = exited
has_exited (some q) exited l = exited || among q l

abbrev pub exit_proxy : List ℕ → ProxyProcess → ProxyProcess
exit_proxy l p = record p { exited = has_exited p.pid p.exited l }

abbrev pub exit_actors : List ℕ → List ActorProcess → List ActorProcess
exit_actors l [] = []
exit_actors l (p ∷ ps) = record p { exited = has_exited p.pid p.exited l } ∷ exit_actors l ps

-- A server whose processes have exited where their pid is in the list, and are as before otherwise.
abbrev pub after_reaping : List ℕ → Server → Server
after_reaping l s = record s {
  proxy = exit_proxy l s.proxy;
  actor_processes = exit_actors l s.actor_processes;
}

exit_proxy-none : (p : ProxyProcess) → exit_proxy [] p ≡ p
exit_proxy-none p = ground arith

exit_proxy-mark :
    (pid : ℕ) (l : List ℕ) (p : ProxyProcess)
    → exit_proxy l (mark_proxy pid p) ≡ exit_proxy (pid ∷ l) p
exit_proxy-mark pid l p = ground arith

exit_actors-none : (ps : List ActorProcess) → exit_actors [] ps ≡ ps
exit_actors-none [] = refl
exit_actors-none (p ∷ ps) = ground (arith, exit_actors-none ps)

exit_actors-mark :
    (pid : ℕ) (l : List ℕ) (ps : List ActorProcess)
    → exit_actors l (mark pid ps) ≡ exit_actors (pid ∷ l) ps
exit_actors-mark pid l [] = refl
exit_actors-mark pid l (p ∷ ps) = ground (arith, exit_actors-mark pid l ps)

-- A series of signals, each with what its handler's calls return, in a process that stays the same.
abbrev pub handle_signals : List (World × Signal) → Server → Forked
handle_signals [] s = returned s
handle_signals ((w, sig) ∷ more) s = go_on (handle_signal w s sig).0 (λ t. handle_signals more t)

-- `update_processes_status` marks the processes whose pid `waitpid` returned before it returned
-- nothing or an error as exited, and leaves the rest of the server as it was.
pub update_processes_status-after_reaping :
    (ws : List Wait) (s : Server) → update_processes_status ws s ≡ after_reaping (reaped_pids ws) s
unfolding update_processes_status
update_processes_status-after_reaping [] s =
    ground (arith, exit_proxy-none s.proxy, exit_actors-none s.actor_processes)
update_processes_status-after_reaping (nothing ∷ ws) s =
    ground (arith, exit_proxy-none s.proxy, exit_actors-none s.actor_processes)
update_processes_status-after_reaping (interrupted ∷ ws) s =
    update_processes_status-after_reaping ws s
update_processes_status-after_reaping (error ∷ ws) s =
    ground (arith, exit_proxy-none s.proxy, exit_actors-none s.actor_processes)
update_processes_status-after_reaping (reaped pid ∷ ws) s =
    update_processes_status-after_reaping ws (mark_exited pid s)
    ∙ ground (
      arith,
      exit_proxy-mark pid (reaped_pids ws) s.proxy,
      exit_actors-mark pid (reaped_pids ws) s.actor_processes,
    )

-- What a signal may change of a server that stays the master.
abbrev pub actor_pids : List ActorProcess → List (Option ℕ)
actor_pids ps = map (λ p. p.pid) ps

pub record IsKept (s t : Server) : Type 0 where
  pub master_still : t.type ≡ master
  pub proxy_pid : t.proxy.pid ≡ s.proxy.pid
  pub actors : actor_pids t.actor_processes ≡ actor_pids s.actor_processes

actor_pids-exit :
    (l : List ℕ) (ps : List ActorProcess) → actor_pids (exit_actors l ps) ≡ actor_pids ps
actor_pids-exit l [] = refl
actor_pids-exit l (p ∷ ps) = ap (◌∷◌ p.pid) (actor_pids-exit l ps)

after_reaping-IsKept : (l : List ℕ) (s : Server) → s.type ≡ master → IsKept s (after_reaping l s)
after_reaping-IsKept l s m = record {
  master_still = m;
  proxy_pid = refl;
  actors = actor_pids-exit l s.actor_processes;
}

abbrev pub Stays : Forked → Server → Type 0
Stays f s = (t : Server) × (f ≡ returned t) × IsKept s t

if-same : {A : Type 0} (b : Bool) {x y : A} → y ≡ x → (if b then x else y) ≡ x
if-same true e = refl
if-same false e = e

stop_server-IsKept : (s : Server) → s.type ≡ master → IsKept s (stop_server s)
unfolding stop_server
stop_server-IsKept s m = record { master_still = m; proxy_pid = refl; actors = refl }

reap-master :
    (w : World) (t : Server)
    → t.type ≡ master
    → go_on (reap_proxy_process w.proxy_fork t) (reap_actor_processes w.actor_forks) ≡ returned t
unfolding reap_proxy_process reap_actor_processes
reap-master w t m = rw m refl

handle_signal-master :
    (w : World) (s : Server) (sig : Signal) → s.type ≡ master → Stays (handle_signal w s sig).0 s
unfolding handle_signal
handle_signal-master w s sigint m = (stop_server s, refl, stop_server-IsKept s m)
handle_signal-master w s sigterm m = (stop_server s, refl, stop_server-IsKept s m)
handle_signal-master w s (other n) m =
    (s, refl, record { master_still = m; proxy_pid = refl; actors = refl })
handle_signal-master w s sigchld m =
    let t = update_processes_status w.waits s in
    let kept =
      subst (IsKept s) (sym (update_processes_status-after_reaping w.waits s))
        (after_reaping-IsKept (reaped_pids w.waits) s m) in
    (t, if-same t.terminate (reap-master w t kept.master_still), kept)

-- In a master no series of signals forks a process: whatever the handlers' calls return, it returns to
-- the same loop each time, and the pids that it has for the proxy and for the actors stay those that it
-- had, also of processes that have exited.
pub handle_signals-master :
    (ss : List (World × Signal)) (s : Server) → s.type ≡ master → Stays (handle_signals ss s) s
handle_signals-master [] s m =
    (s, refl, record { master_still = m; proxy_pid = refl; actors = refl })
handle_signals-master ((w, sig) ∷ more) s m =
    let (t, e, k) = handle_signal-master w s sig m in
    let (u, f, l) = handle_signals-master more t k.master_still in
    (
      u,
      ap (λ r. go_on r (λ v. handle_signals more v)) e ∙ f,
      record {
        master_still = l.master_still;
        proxy_pid = l.proxy_pid ∙ k.proxy_pid;
        actors = l.actors ∙ k.actors;
      },
    )
