-- ===== src/StartUp/Processes.antt =====
-- The actors that `init` of src/coro_actor.cpp makes of the configuration, and `init_actor_processes` forks.
use coro_actor.Prelude.{
  true, ◌≡◌, refl, sym, ap, ◌∙◌, subst, ℕ, zero, suc, ◌+◌, some, none, some-injective, List, [],
  ◌∷◌, ◌++◌, Bytes, Bytes-discrete, ite, All, All-append, append_assoc, append-nil, Option-cases,
  inl, inr, arith, length,
}
use coro_actor.Prelude.Map.{Map, empty}
use coro_actor.Config.{ActorConfig}
use coro_actor.Config.Yaml.{Yaml}
use coro_actor.Supervisor.{ActorProcess, Server, parent, returned, init_proxy_process}
use coro_actor.Supervisor.Start.{started, IsForked, IsUnforked, init_actor_processes-started}
use coro_actor.PidFile.{Decimal, Files}
use coro_actor.StartUp.{
  Options, System, Master, initialised, emplace_processes, listen_actor, listen_all, server_of,
  run_from, run, init,
}
use coro_actor.StartUp.Twice.{init-IsStarted}

-- How many processes have the name, and how many the configuration asks for.
abbrev pub how_many : Bytes → List ActorProcess → ℕ
how_many name [] = 0
how_many name (p ∷ ps) = ite (Bytes-discrete p.name name) 1 0 + how_many name ps

abbrev pub configured : Bytes → List ActorConfig → ℕ
configured name [] = 0
configured name (c ∷ l) = ite (Bytes-discrete c.name name) c.count 0 + configured name l

all_processes : List ActorConfig → List ActorProcess
all_processes [] = []
all_processes (c ∷ l) = emplace_processes c.name c.count ++ all_processes l

listen_all-found :
    (sys : System) (cfg : ActorConfig) (l : List ActorConfig) (ps : List ActorProcess)
    (acs acs1 : Map Bytes ℕ)
    → listen_actor sys cfg acs ≡ some acs1
    → listen_all sys (cfg ∷ l) ps acs
      ≡ listen_all sys l (ps ++ emplace_processes cfg.name cfg.count) acs1
listen_all-found sys cfg l ps acs acs1 e = rw (e, listen_all) refl

listen_all-missing :
    (sys : System) (cfg : ActorConfig) (l : List ActorConfig) (ps : List ActorProcess)
    (acs : Map Bytes ℕ)
    → listen_actor sys cfg acs ≡ none
    → listen_all sys (cfg ∷ l) ps acs ≡ none
listen_all-missing sys cfg l ps acs e = rw (e, listen_all) refl

listen_all-processes :
    (sys : System) (l : List ActorConfig) (ps qs : List ActorProcess) (acs bcs : Map Bytes ℕ)
    → listen_all sys l ps acs ≡ some (qs, bcs)
    → qs ≡ ps ++ all_processes l
unfolding all_processes
listen_all-processes sys [] ps qs acs bcs e =
    sym (ap (λ (r : List ActorProcess × Map Bytes ℕ). r.0) (some-injective _ _ e))
    ∙ sym (append-nil ps)
listen_all-processes sys (cfg ∷ l) ps qs acs bcs e =
    elim (Option-cases (listen_actor sys cfg acs)) [
      | inl missing ↦ absurd (cc (e, listen_all-missing sys cfg l ps acs missing))
      | inr (acs1, found) ↦
          listen_all-processes sys l (ps ++ emplace_processes cfg.name cfg.count) qs acs1 bcs
            (sym (listen_all-found sys cfg l ps acs acs1 found) ∙ e)
          ∙ append_assoc ps (emplace_processes cfg.name cfg.count) (all_processes l)
    ]

how_many-append :
    (name : Bytes) (ps qs : List ActorProcess)
    → how_many name (ps ++ qs) ≡ how_many name ps + how_many name qs
how_many-append name [] qs = omega arith
how_many-append name (p ∷ ps) qs = omega (arith, how_many-append name ps qs)

how_many-emplace :
    (name other : Bytes) (n : ℕ)
    → how_many name (emplace_processes other n) ≡ ite (Bytes-discrete other name) n 0
how_many-emplace name other zero =
    elim (Bytes-discrete other name) as (λ d. ◌≡◌ {A = ℕ} 0 (ite d 0 0)) [
      | yes e ↦ refl
      | no different ↦ refl
    ]
how_many-emplace name other (suc n) =
    ap (λ k. ite (Bytes-discrete other name) 1 0 + k) (how_many-emplace name other n)
    ∙ elim (Bytes-discrete other name) as (λ d. ite d 1 0 + ite d n 0 ≡ ite d (suc n) 0) [
      | yes e ↦ omega arith
      | no different ↦ refl
    ]

how_many-all_processes :
    (name : Bytes) (l : List ActorConfig) → how_many name (all_processes l) ≡ configured name l
unfolding all_processes
how_many-all_processes name [] = refl
how_many-all_processes name (c ∷ l) = omega (
  arith,
  how_many-append name (emplace_processes c.name c.count) (all_processes l),
  how_many-emplace name c.name c.count,
  how_many-all_processes name l,
)

emplace_processes-IsUnforked : (name : Bytes) (n : ℕ) → All IsUnforked (emplace_processes name n)
emplace_processes-IsUnforked name zero = tt
emplace_processes-IsUnforked name (suc n) = (refl, emplace_processes-IsUnforked name n)

all_processes-IsUnforked : (l : List ActorConfig) → All IsUnforked (all_processes l)
unfolding all_processes
all_processes-IsUnforked [] = tt
all_processes-IsUnforked (c ∷ l) =
    All-append IsUnforked (emplace_processes c.name c.count) (all_processes l)
      (emplace_processes-IsUnforked c.name c.count) (all_processes-IsUnforked l)

how_many-started :
    (name : Bytes) (pid_of : ℕ → ℕ) (ps : List ActorProcess)
    → how_many name (started pid_of ps) ≡ how_many name ps
how_many-started name pid_of [] = refl
how_many-started name pid_of (p ∷ ps) =
    ap (λ k. ite (Bytes-discrete p.name name) 1 0 + k) (how_many-started name pid_of ps)

started-IsForked : (pid_of : ℕ → ℕ) (ps : List ActorProcess) → All IsForked (started pid_of ps)
started-IsForked pid_of [] = tt
started-IsForked pid_of (p ∷ ps) = ((pid_of (length ps), refl), started-IsForked pid_of ps)

-- Once `init` of the master has returned, and the forks of `run` succeed in it, `run` comes to the loop of the
-- io_context with the proxy forked and with as many forked actors of each name as the configuration asks for
-- under this name, and of no other name.
pub init-configured :
    (y : Yaml) (decimal : Decimal) (sys : System) (files : Files) (o : Options) (p : ℕ) (m : Master)
    (q : ℕ) (pid_of : ℕ → ℕ)
    → init y decimal sys files (some o) p ≡ initialised m
    → (t : Server) × (run y decimal sys files (some o) p (parent q) (λ n. parent (pid_of n))
        ≡ some (returned t))
      × (t.proxy.pid ≡ some q)
      × All IsForked t.actor_processes
      × ((name : Bytes) → how_many name t.actor_processes ≡ configured name m.config.actor_configs)
unfolding run init_proxy_process
init-configured y decimal sys files o p m q pid_of e =
    let l = m.config.actor_configs in
    let h = init-IsStarted y decimal sys files o p m e in
    let s : Server = record (server_of y decimal sys files m) {
      proxy = record { pid = some q; exited = true };
    } in
    let is_all : s.actor_processes ≡ all_processes l =
      listen_all-processes sys l [] m.actor_processes empty m.ac_map h.listens in
    (
      record s { actor_processes = started pid_of s.actor_processes },
      ap (λ k. run_from y decimal sys files k (parent q) (λ n. parent (pid_of n))) e
          ∙ ap some (
              init_actor_processes-started pid_of s
                (subst (All IsUnforked) (sym is_all) (all_processes-IsUnforked l))),
      refl,
      started-IsForked pid_of s.actor_processes,
      λ name.
          how_many-started name pid_of s.actor_processes
          ∙ ap (how_many name) is_all
          ∙ how_many-all_processes name l,
    )
