-- ===== src/Config/Loader/Consistent.antt =====
-- What a configuration that has been loaded says of its actors and services.
use coro_actor.Prelude.{
  ◌≡◌, ◌&&◌, refl, subst, ap, Bool, true, false, ◌&&◌, Option, some, none, List, [], ◌∷◌, ◌++◌,
  Bytes, arith, if◌then◌else◌, Bool-cases, inl, inr,
}
use coro_actor.Prelude.Map.{insert, bytes_key}
use coro_actor.Config.{ActorConfig, Config, initial, contains, names, emplace}
use coro_actor.Config.Yaml.{Yaml, Result, ok, thrown}
use coro_actor.Config.Loader.{
  Loading, claim_actor_name, claim_service, load_services, key, read_endpoint, load_endpoint,
  load_actor, load_actors, pure, load_root, outcome, load, loading,
}
use coro_actor.Config.Loader.Rules.{
  Post, Ensures, >>=-Ensures, >>-Ensures, from_result-Ensures, require-Ensures, when-Ensures,
  pure-Ensures, modify-Ensures, if-Ensures,
}

-- No entry stands twice.
abbrev pub Distinct : List Bytes → Type 0
Distinct [] = Unit
Distinct (x ∷ xs) = (contains xs x ≡ false) × Distinct xs

abbrev pub all_services : List ActorConfig → List Bytes
all_services [] = []
all_services (c ∷ cs) = c.services ++ all_services cs

-- The actor that lists the service.
abbrev pub owner : List ActorConfig → Bytes → Option Bytes
owner [] s = none
owner (c ∷ cs) s = if contains c.services s then some c.name else owner cs s

pub record IsConsistent (c : Config) : Type 0 where
  pub distinct_names : Distinct (names c.actor_configs)
  pub distinct_services : Distinct (all_services c.actor_configs)
  pub owned : (s : Bytes) → c.service_map s ≡ owner c.actor_configs s

-- Between two actors.
record Whole (l : Loading) : Type 0 where
  actors : l.check_actor_name ≡ names l.config.actor_configs
  distinct_names : Distinct l.check_actor_name
  services : l.check_service ≡ all_services l.config.actor_configs
  distinct_services : Distinct l.check_service
  owned : (s : Bytes) → l.config.service_map s ≡ owner l.config.actor_configs s

-- While the services of the actor `name` are read, with those that have been.
record Partly (name : Bytes) (done : List Bytes) (l : Loading) : Type 0 where
  actors : l.check_actor_name ≡ name ∷ names l.config.actor_configs
  distinct_names : Distinct l.check_actor_name
  services : l.check_service ≡ done ++ all_services l.config.actor_configs
  distinct_services : Distinct l.check_service
  owned :
      (s : Bytes)
      → l.config.service_map s
        ≡ (if contains done s then some name else owner l.config.actor_configs s)

claim_service-Partly :
    (name : Bytes) (done : List Bytes) (service : Bytes)
    → Ensures (Partly name done) (claim_service service) (λ _ m.
      Partly name (service ∷ done) (record m {
        config = record m.config { service_map = insert m.config.service_map service name };
      }))
unfolding claim_service
claim_service-Partly name done service = record {
  run = λ l p. elim (Bool-cases (contains l.check_service service)) [
    | inl taken ↦ rw (taken, claim_service) tt
    | inr free ↦
        rw (free, claim_service)
          (record {
            actors = p.actors;
            distinct_names = p.distinct_names;
            services = ap (◌∷◌ service) p.services;
            distinct_services = (free, p.distinct_services);
            owned = λ s. ground (arith, p.owned s);
          })
  ];
}

claim_actor_name-Partly :
    (name : Bytes) → Ensures Whole (claim_actor_name name) (λ _. Partly name [])
unfolding claim_actor_name
claim_actor_name-Partly name = record {
  run = λ l w. elim (Bool-cases (contains l.check_actor_name name)) [
    | inl taken ↦ rw (taken, claim_actor_name) tt
    | inr free ↦
        rw (free, claim_actor_name)
          (record {
            actors = ap (◌∷◌ name) w.actors;
            distinct_names = (free, w.distinct_names);
            services = w.services;
            distinct_services = w.distinct_services;
            owned = w.owned;
          })
  ];
}

-- The actor joins the configuration.
Partly-Whole :
    (l : Loading) (c : ActorConfig)
    → Partly c.name c.services l
    → Whole
        (record l { config = record l.config { actor_configs = emplace c l.config.actor_configs } })
Partly-Whole l c p =
    let d = rw p.actors at p.distinct_names in
    rw d.0 (record {
      actors = p.actors;
      distinct_names = p.distinct_names;
      services = p.services;
      distinct_services = p.distinct_services;
      owned = p.owned;
    })

module _ (y : Yaml) where
  load_services-Partly :
      (name : Bytes) (done : List Bytes) (ns : List y.Node)
      → Ensures (Partly name done) (load_services y name done ns) (λ services. Partly name services)
  unfolding load_services
  load_services-Partly name done [] = pure-Ensures _ (λ l p. p)
  load_services-Partly name done (n ∷ rest) = >>=-Ensures _ _ (from_result-Ensures _) λ service.
      >>-Ensures _ _ (claim_service-Partly name done service) (
        >>-Ensures _ _ (modify-Ensures _ (λ l p. p))
          (load_services-Partly name (service ∷ done) rest))

  read_endpoint-Ensures :
      (P : Loading → Type 0) (n : y.Node) → Ensures P (read_endpoint y n) (λ _. P)
  unfolding read_endpoint
  read_endpoint-Ensures P n =
      >>=-Ensures _ _ (from_result-Ensures _)
        λ address. >>=-Ensures _ _ (from_result-Ensures _) λ port. pure-Ensures _ (λ l p. p)

  load_endpoint-Ensures :
      (P : Loading → Type 0) (n : y.Node) → Ensures P (load_endpoint y n) (λ _. P)
  unfolding load_endpoint
  load_endpoint-Ensures P n =
      if-Ensures (y.is_defined (key y n "actor_address") && y.is_defined (key y n "actor_port"))
        (read_endpoint y n) (pure ([], none)) (read_endpoint-Ensures P n)
        (pure-Ensures _ (λ l p. p))

  load_actor-Whole : (n : y.Node) → Ensures Whole (load_actor y n) (λ _. Whole)
  unfolding load_actor
  load_actor-Whole n = >>-Ensures _ _ (require-Ensures _ _) (
      >>-Ensures _ _ (require-Ensures _ _) (
        >>-Ensures _ _ (require-Ensures _ _) (
          >>-Ensures _ _ (require-Ensures _ _) (
            >>=-Ensures _ _ (from_result-Ensures _) λ name.
              >>=-Ensures _ _ (from_result-Ensures _) λ count.
                >>=-Ensures _ _ (from_result-Ensures _) λ lib.
                  >>=-Ensures _ _ (load_endpoint-Ensures Whole n) λ endpoint.
                    >>-Ensures _ _ (claim_actor_name-Partly name) (
                      >>=-Ensures _ _ (from_result-Ensures _) λ file.
                        >>=-Ensures _ _ (from_result-Ensures _) λ root.
                          >>=-Ensures _ _ (load_services-Partly name [] _)
                            λ services. modify-Ensures _ (λ l p. Partly-Whole l _ p))))))

  load_actors-Whole : (ns : List y.Node) → Ensures Whole (load_actors y ns) (λ _. Whole)
  unfolding load_actors
  load_actors-Whole [] = pure-Ensures _ (λ l w. w)
  load_actors-Whole (n ∷ rest) = >>-Ensures _ _ (load_actor-Whole n) (load_actors-Whole rest)

  -- Another field is stored.
  other-Whole :
      (l : Loading) (c : Config)
      → c.service_map ≡ l.config.service_map
      → c.actor_configs ≡ l.config.actor_configs
      → Whole l
      → Whole (record l { config = c })
  other-Whole l c e f w = record {
    actors = rw f w.actors;
    distinct_names = w.distinct_names;
    services = rw f w.services;
    distinct_services = w.distinct_services;
    owned = rw (e, f) w.owned;
  }

  load_root-Whole : (file : Bytes) → Ensures Whole (load_root y file) (λ _. Whole)
  unfolding load_root
  load_root-Whole file = >>=-Ensures _ _ (from_result-Ensures _) λ root.
      >>-Ensures _ _
        (when-Ensures _ _ (
          >>=-Ensures _ _ (from_result-Ensures _)
            λ daemon. modify-Ensures _ (λ l w. other-Whole l _ refl refl w)))
        (>>=-Ensures _ _ (from_result-Ensures _) λ unix.
          >>-Ensures _ _ (modify-Ensures _ (λ l w. other-Whole l _ refl refl w)) (
            >>-Ensures _ _
              (when-Ensures _ _ (
                >>=-Ensures _ _ (from_result-Ensures _)
                  λ pid_file. modify-Ensures _ (λ l w. other-Whole l _ refl refl w)))
              (load_actors-Whole _)))

  succeeded :
      (r : Result (Unit {0}) × Loading) (c : Config)
      → Post (λ _. Whole) r
      → outcome y r ≡ (true, c)
      → IsConsistent c
  succeeded (ok u, l) c w e = subst IsConsistent (ap (λ (t : Bool × Config). t.1) e) (record {
    distinct_names = rw w.actors at w.distinct_names;
    distinct_services = rw w.services at w.distinct_services;
    owned = w.owned;
  })
  succeeded (thrown t, l) c w e = absurd (cc (ap (λ (t : Bool × Config). t.0) e))

  -- A configuration that `load` has accepted, starting from the one that the constructor makes, names
  -- no actor and no service twice, and its service map leads from each service to the actor that
  -- lists it, and from nothing else.
  pub load-IsConsistent :
      (file : Bytes) (c : Config) → load y file initial ≡ (true, c) → IsConsistent c
  unfolding load
  load-IsConsistent file c e =
      succeeded (load_root y file (loading y initial)) c
        ((load_root-Whole file).run (loading y initial) (record {
          actors = refl;
          distinct_names = tt;
          services = refl;
          distinct_services = tt;
          owned = λ s. refl;
        }))
        e
