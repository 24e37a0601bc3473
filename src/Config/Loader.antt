-- ===== src/Config/Loader.antt =====
-- `coro_actor_config::load`.
pub mod Rules
pub mod Consistent
pub mod Document
mod Tests
use coro_actor.Prelude.{
  ℕ, Bool, true, false, ◌&&◌, Option, some, none, List, [], ◌∷◌, ◌++◌, Bytes, String, codes,
  if◌then◌else◌,
}
use coro_actor.Prelude.Map.{insert, bytes_key}
use coro_actor.Config.{Config, contains, emplace}
use coro_actor.Config.Yaml.{Yaml, Result, ok, thrown}

-- The object and the two sets that are local to `load`.
pub record Loading : Type 0 where
  pub config : Config
  pub check_actor_name : List Bytes
  pub check_service : List Bytes

-- Statements that change it and may throw.
abbrev pub Exec {ℓ} : Type ℓ → Type ℓ
Exec A = Loading → Result A × Loading

pub pure {ℓ} : {A : Type ℓ} → A → Exec A
pure a l = (ok a, l)

abbrev pub and_then {ℓ κ} :
    {A : Type ℓ} {B : Type κ} → Result A × Loading → (A → Exec B) → Result B × Loading
and_then (ok a, l) f = f a l
and_then (thrown e, l) f = (thrown e, l)

infixl 5 ◌>>=◌ ◌>>◌
pub ◌>>=◌ {ℓ κ} : {A : Type ℓ} {B : Type κ} → Exec A → (A → Exec B) → Exec B
◌>>=◌ m f l = and_then (m l) f

pub ◌>>◌ {ℓ} : {B : Type ℓ} → Exec (Unit {0}) → Exec B → Exec B
unfolding ◌>>=◌
m >> k = m >>= λ _. k

pub from_result {ℓ} : {A : Type ℓ} → Result A → Exec A
from_result r l = (r, l)

pub require : Bool → Bytes → Exec (Unit {0})
require true e l = (ok tt, l)
require false e l = (thrown e, l)

pub when : Bool → Exec (Unit {0}) → Exec (Unit {0})
unfolding pure
when true m = m
when false m = pure tt

pub modify : (Config → Config) → Exec (Unit {0})
modify f l = (ok tt, record l { config = f l.config })

-- The two checks for names that are there already.
pub claim_actor_name : Bytes → Exec (Unit {0})
claim_actor_name name l =
    if contains l.check_actor_name name
    then (thrown (codes "Cannot set the same 'actor_name' : [" ++ (name ++ codes "]")), l)
    else (ok tt, record l { check_actor_name = name ∷ l.check_actor_name })

pub claim_service : Bytes → Exec (Unit {0})
claim_service service l =
    if contains l.check_service service
    then (thrown (codes "Cannot set the same 'service_name' : [" ++ (service ++ codes "]")), l)
    else (ok tt, record l { check_service = service ∷ l.check_service })

module _ (y : Yaml) where
  open y use {
    Node, load_file, child, is_defined, elements, as_bool, as_string, as_uint32, as_uint16,
  }

  abbrev pub key : Node → String → Node
  key n k = child n (codes k)

  -- The loop over the services of the actor `name`; `services` is `cfg.services`.
  pub load_services : Bytes → List Bytes → List Node → Exec (List Bytes)
  unfolding claim_service
  load_services name services [] = pure services
  load_services name services (n ∷ rest) = do
    service ← from_result (as_string n)
    claim_service service
    modify λ c. record c { service_map = insert c.service_map service name }
    load_services name (service ∷ services) rest

  read_endpoint : Node → Exec (Bytes × Option ℕ)
  read_endpoint n = do
    address ← from_result (as_string (key n "actor_address"))
    port ← from_result (as_uint16 (key n "actor_port"))
    pure (address, some port)

  -- `cfg.address` and `cfg.port`.
  pub load_endpoint : Node → Exec (Bytes × Option ℕ)
  unfolding read_endpoint
  load_endpoint n =
      if is_defined (key n "actor_address") && is_defined (key n "actor_port")
      then read_endpoint n
      else pure ([], none)

  -- The body of the loop over `actor_config`.
  pub load_actor : Node → Exec (Unit {0})
  unfolding load_services load_endpoint claim_actor_name
  load_actor n = do
    require (is_defined (key n "actor_name")) (codes "'actor_name' must be set")
    require (is_defined (key n "actor_count")) (codes "'actor_count' must be set")
    require (is_defined (key n "actor_module")) (codes "'actor_module' must be set")
    require (is_defined (key n "actor_service")) (codes "'actor_service' must be set")
    name ← from_result (as_string (key n "actor_name"))
    count ← from_result (as_uint32 (key n "actor_count"))
    lib ← from_result (as_string (key n "actor_module"))
    endpoint ← load_endpoint n
    claim_actor_name name
    file ← from_result (as_string (key n "actor_service"))
    root ← from_result (load_file file)
    services ← load_services name [] (elements (key root "services"))
    modify λ c. record c {
      actor_configs =
          emplace
            (record {
              name = name;
              count = count;
              lib = lib;
              address = endpoint.0;
              port = endpoint.1;
              services = services;
            })
            c.actor_configs;
    }

  pub load_actors : List Node → Exec (Unit {0})
  unfolding load_actor
  load_actors [] = pure tt
  load_actors (n ∷ rest) = do load_actor n; load_actors rest

  -- The statements of the `try` block.
  pub load_root : Bytes → Exec (Unit {0})
  unfolding load_actors
  load_root file = do
    root ← from_result (load_file file)
    when (is_defined (key root "daemon")) do
      daemon ← from_result (as_bool (key root "daemon"))
      modify λ c. record c { daemon = daemon }
    unix ← from_result (as_string (key root "unix"))
    modify λ c. record c { unix = unix }
    when (is_defined (key root "pid")) do
      pid_file ← from_result (as_string (key root "pid"))
      modify λ c. record c { pid_file = pid_file }
    load_actors (elements (key root "actor_config"))

  abbrev pub outcome : Result (Unit {0}) × Loading → Bool × Config
  outcome (ok _, l) = (true, l.config)
  outcome (thrown e, l) = (false, l.config)

  abbrev pub loading : Config → Loading
  loading c = record { config = c; check_actor_name = []; check_service = [] }

  -- `load`: whether it succeeded, and the object after it. The handler logs the exception.
  unfoldable pub load : Bytes → Config → Bool × Config
  unfolding load_root pure modify from_result require when ◌>>=◌ ◌>>◌
  load file c = outcome (load_root file (loading c))
