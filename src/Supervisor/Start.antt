-- ===== src/Supervisor/Start.antt =====
-- The processes after `init_actor_processes` of src/coro_actor.cpp, where each `fork` succeeds in the
-- master.
use coro_actor.Prelude.{
  true, Bytes, ◌≡◌, refl, subst, ◌<◌, ◌==◌, if◌then◌else◌, arith, All-append, ℕ, zero, suc, Bool,
  false, Option, some, none, List, [], ◌∷◌, ◌++◌, length, All, append_assoc, ◌∙◌, ap, sym,
}
use coro_actor.Supervisor.{
  ActorProcess, Server, Fork, parent, child, returned, runs_actor, worker, set_process,
  find_unforked, init_rounds, init_actor_processes, pids, master, spawn_actor_process, stop_server,
  stop_proxy_process, stop_actor_processes, sigterm, World, handle_signal,
}

-- The actors with the pids that the forks give them: the loop counts its rounds down.
abbrev pub started : (ℕ → ℕ) → List ActorProcess → List ActorProcess
started pid_of [] = []
started pid_of (p ∷ ps) =
    record p { pid = some (pid_of (length ps)); exited = false } ∷ started pid_of ps

-- The pids of the forks, in the order in which they were made.
abbrev pub forked : (ℕ → ℕ) → ℕ → List ℕ
forked pid_of zero = []
forked pid_of (suc n) = pid_of n ∷ forked pid_of n

abbrev pub IsForked : ActorProcess → Type 0
IsForked p = (pid : ℕ) × (p.pid ≡ some pid)

abbrev pub IsUnforked : ActorProcess → Type 0
IsUnforked p = p.pid ≡ none

find_unforked-append :
    (done : List ActorProcess) (p : ActorProcess) (left : List ActorProcess)
    → All IsForked done
    → IsUnforked p
    → find_unforked (done ++ p ∷ left) ≡ some (length done, p.name)
find_unforked-append [] p left h none_p = rw none_p refl
find_unforked-append (d ∷ done) p left ((pid, eq), h) none_p =
    rw (eq, find_unforked-append done p left h none_p) refl

set_process-append :
    (done : List ActorProcess) (p : ActorProcess) (left : List ActorProcess) (pid : Option ℕ)
    (exited : Bool)
    → set_process (done ++ p ∷ left) (length done) pid exited
      ≡ done ++ record p { pid = pid; exited = exited } ∷ left
set_process-append [] p left pid exited = refl
set_process-append (d ∷ done) p left pid exited =
    ap (◌∷◌ d) (set_process-append done p left pid exited)

same-== : (n : ℕ) → (n == n) ≡ true
same-== n = ground arith

module _ (pid_of : ℕ → ℕ) where
  length-later :
      (before : List ActorProcess) (p : ActorProcess) (left : List ActorProcess)
      → length left < length (before ++ p ∷ left)
  length-later [] p left = omega arith
  length-later (b ∷ before) p left = omega (arith, length-later before p left)

  forks-before :
      (before : List ActorProcess) (p : ActorProcess) (left : List ActorProcess) (pid : ℕ)
      → (if length (before ++ p ∷ left) == length left
          then child pid
          else parent (pid_of (length (before ++ p ∷ left))))
        ≡ parent (pid_of (length (before ++ p ∷ left)))
  forks-before before p left pid = let later = length-later before p left in ground (arith, later)

  started-pids : (ps : List ActorProcess) → pids (started pid_of ps) ≡ forked pid_of (length ps)
  started-pids [] = refl
  started-pids (p ∷ ps) = ap (◌∷◌ (pid_of (length ps))) (started-pids ps)

  init_rounds-found :
      (n i pid : ℕ) (name : Bytes) (forks : ℕ → Fork) (s : Server)
      → find_unforked s.actor_processes ≡ some (i, name)
      → forks n ≡ parent pid
      → init_rounds (suc n) forks s
        ≡ init_rounds n forks
            (record s { actor_processes = set_process s.actor_processes i (some pid) false })
  unfolding init_rounds spawn_actor_process
  init_rounds-found n i pid name forks s found forked_now = rw (found, forked_now, init_rounds) refl

  init_rounds-started :
      (done left : List ActorProcess) (s : Server)
      → All IsForked done
      → All IsUnforked left
      → init_rounds
          (length left)
          (λ n. parent (pid_of n))
          (record s { actor_processes = done ++ left })
        ≡ returned (record s { actor_processes = done ++ started pid_of left })
  unfolding init_rounds
  init_rounds-started done [] s h g = refl
  init_rounds-started done (p ∷ left) s h g =
      let q = record p { pid = some (pid_of (length left)); exited = false } in
      init_rounds-found (length left) (length done) (pid_of (length left)) p.name
        (λ n. parent (pid_of n)) (record s { actor_processes = done ++ p ∷ left })
        (find_unforked-append done p left h g.0) refl
      ∙ ap
          (λ l.
            init_rounds (length left) (λ n. parent (pid_of n)) (record s { actor_processes = l }))
          (set_process-append done p left (some (pid_of (length left))) false
            ∙ sym (append_assoc done (q ∷ []) left))
      ∙ init_rounds-started (done ++ q ∷ []) left s
          (All-append IsForked done (q ∷ []) h ((pid_of (length left), refl), tt)) g.1
      ∙ ap (λ l. returned (record s { actor_processes = l }))
          (append_assoc done (q ∷ []) (started pid_of left))

  -- In the master.
  pub init_actor_processes-started :
      (s : Server)
      → All IsUnforked s.actor_processes
      → init_actor_processes (λ n. parent (pid_of n)) s
        ≡ returned (record s { actor_processes = started pid_of s.actor_processes })
  unfolding init_actor_processes
  init_actor_processes-started s h = init_rounds-started [] s.actor_processes s tt h

  -- The forks as the child of the fork number `k` sees them: the loop counts them down, so those before it
  -- have a higher number.
  abbrev pub forks_in_child : ℕ → ℕ → ℕ → Fork
  forks_in_child k pid n = if n == k then child pid else parent (pid_of n)

  init_rounds-child :
      (done : List ActorProcess) (p : ActorProcess) (left : List ActorProcess) (s : Server)
      (pid : ℕ)
      → All IsForked done
      → IsUnforked p
      → init_rounds
          (suc (length left))
          (forks_in_child (length left) pid)
          (record s { actor_processes = done ++ p ∷ left })
        ≡ runs_actor (record s {
          type = worker;
          actor_name = p.name;
          pid = pid;
          actor_processes = done ++ p ∷ left;
        })
  unfolding init_rounds spawn_actor_process
  init_rounds-child done p left s pid h g =
      rw (find_unforked-append done p left h g, same-== (length left), init_rounds) refl

  init_rounds-runs :
      (done before : List ActorProcess) (p : ActorProcess) (left : List ActorProcess) (s : Server)
      (pid : ℕ)
      → All IsForked done
      → All IsUnforked (before ++ p ∷ left)
      → (t : Server) × (init_rounds
            (length (before ++ p ∷ left))
            (forks_in_child (length left) pid)
            (record s { actor_processes = done ++ (before ++ p ∷ left) })
          ≡ runs_actor t)
        × (t.type ≡ worker)
        × (t.actor_name ≡ p.name)
        × (t.pid ≡ pid)
  init_rounds-runs done [] p left s pid h g =
      (_, init_rounds-child done p left s pid h g.0, refl, refl, refl)
  init_rounds-runs done (b ∷ before) p left s pid h g =
      let n = length (before ++ p ∷ left) in
      let q = record b { pid = some (pid_of n); exited = false } in
      let forks = forks_in_child (length left) pid in
      let (t, e, is_worker, named, has_pid) =
        init_rounds-runs (done ++ q ∷ []) before p left s pid
          (All-append IsForked done (q ∷ []) h ((pid_of n, refl), tt)) g.1 in
      (
        t,
        init_rounds-found n (length done) (pid_of n) b.name forks
              (record s { actor_processes = done ++ b ∷ (before ++ p ∷ left) })
              (find_unforked-append done b (before ++ p ∷ left) h g.0)
              (forks-before before p left pid)
            ∙ ap (λ l. init_rounds n forks (record s { actor_processes = l }))
                (set_process-append done b (before ++ p ∷ left) (some (pid_of n)) false
                  ∙ sym (append_assoc done (q ∷ []) (before ++ p ∷ left)))
            ∙ e,
        is_worker,
        named,
        has_pid,
      )

  -- Let no actor have been forked. Where each fork succeeds in the master, `init_actor_processes` forks every
  -- actor of the configuration, with the pid that its fork gave, and changes nothing else of the server.
  -- The fork that gives the master the pid of the actor `p` is that of the round that `p` has in the loop, and
  -- the child that comes out of this fork runs as a worker under the name of `p`, with its own pid.
  pub init_actor_processes-all_started :
      (s : Server) (before : List ActorProcess) (p : ActorProcess) (left : List ActorProcess)
      (pid : ℕ)
      → s.actor_processes ≡ before ++ p ∷ left
      → All IsUnforked s.actor_processes
      → (init_actor_processes (λ n. parent (pid_of n)) s
          ≡ returned (record s { actor_processes = started pid_of s.actor_processes }))
        × ((t : Server) × (init_actor_processes (forks_in_child (length left) pid) s ≡ runs_actor t)
            × (t.type ≡ worker)
            × (t.actor_name ≡ p.name)
            × (t.pid ≡ pid))
  unfolding init_actor_processes
  init_actor_processes-all_started s before p left pid e h =
      let (t, runs, is_worker, named, has_pid) =
        init_rounds-runs [] before p left s pid tt (subst (All IsUnforked) e h) in
      (
        init_actor_processes-started s h,
        (
          t,
          ap
                (λ l.
                  init_rounds (length l) (forks_in_child (length left) pid)
                    (record s { actor_processes = l }))
                e
              ∙ runs,
          is_worker,
          named,
          has_pid,
        ),
      )

  -- When a master whose proxy has been forked and whose actors have been started receives SIGTERM, the
  -- processes that get SIGTERM are the proxy and, for each actor, the child that was forked for it;
  -- the master is told to terminate and its io_context is stopped.
  pub sigterm-kills_started :
      (w : World) (s : Server) (q : ℕ)
      → s.type ≡ master
      → s.proxy.pid ≡ some q
      → handle_signal w (record s { actor_processes = started pid_of s.actor_processes }) sigterm
        ≡ (
          returned (record s {
            actor_processes = started pid_of s.actor_processes;
            terminate = true;
            stopped = true;
          }),
          q ∷ forked pid_of (length s.actor_processes),
        )
  unfolding handle_signal stop_server stop_proxy_process stop_actor_processes
  sigterm-kills_started w s q t e = rw (t, e, started-pids s.actor_processes) refl
