-- ===== src/Config/Loader/Tests.antt =====
-- A configuration file of src/coro_actor_config.cpp with one actor that offers two services.
use coro_actor.Prelude.{refl, ℕ_discrete, Bytes-discrete, codes}
use coro_actor.Prelude.Map.{bytes_key}
use coro_actor.Config.Loader.Document.{document}
use coro_actor.Config.{Config, initial}
use coro_actor.Config.Loader.{load}
use coro_actor.Config.Loader.Consistent.{IsConsistent, load-IsConsistent}

abbrev loaded : Config
loaded = (load document (codes "main.yml") initial).1

load-IsConsistent_example : IsConsistent loaded
unfolding load ℕ_discrete Bytes-discrete
load-IsConsistent_example = load-IsConsistent document (codes "main.yml") loaded refl
