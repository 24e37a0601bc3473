-- ===== src/Config.antt =====
-- src/coro_actor_config.cpp and include/coro_actor_config.h: the configuration and how it is loaded.
--
-- yaml-cpp is a parameter, `Yaml`. An exception is a value, and what was stored before it stays
-- stored. The order of an unordered container is open: its list has the newest element first.
pub mod Yaml
pub mod Loader
use coro_actor.Prelude.{
  ℕ, Bool, true, false, Option, some, none, List, [], ◌∷◌, map, if◌then◌else◌, Bytes, String, codes,
  Bytes-discrete, ite,
}
use coro_actor.Prelude.Map.{Map, empty}

-- `struct actor_config`. Nothing gives `port` a value where no address is configured.
pub record ActorConfig : Type 0 where
  pub name : Bytes
  pub count : ℕ  -- uint32_t
  pub lib : Bytes
  pub address : Bytes
  pub port : Option ℕ  -- uint16_t
  pub services : List Bytes

-- `class coro_actor_config`. `unix_` is empty until it is loaded.
pub record Config : Type 0 where
  pub daemon : Bool
  pub unix : Bytes
  pub pid_file : Bytes
  pub service_map : Map Bytes Bytes
  pub actor_configs : List ActorConfig

-- `coro_actor_config::coro_actor_config`.
abbrev pub initial : Config
initial = record {
  daemon = false;
  unix = [];
  pid_file = codes "/run/coro_actor.pid";
  service_map = empty;
  actor_configs = [];
}

-- `set.contains(x)`.
abbrev pub contains : List Bytes → Bytes → Bool
contains [] x = false
contains (y ∷ ys) x = ite (Bytes-discrete y x) true (contains ys x)

abbrev pub names : List ActorConfig → List Bytes
names = map λ c. c.name

-- `actor_config_map_.emplace(cfg.name, cfg)`: an entry that is there already stays.
abbrev pub emplace : ActorConfig → List ActorConfig → List ActorConfig
emplace c l = if contains (names l) c.name then l else c ∷ l
