-- ===== src/Config/Loader/Document.antt =====
-- A configuration file as a table of numbered nodes, as an example of what yaml-cpp reads.
use coro_actor.Prelude.{
  ℕ, Bytes-discrete, true, not, some, none, List, [], ◌∷◌, Bytes, codes, if◌then◌else◌, ◌==◌,
}
use coro_actor.Prelude.Map.{Map, empty, insert, bytes_key}
use coro_actor.Config.Yaml.{Yaml, ok, thrown}

-- The nodes are numbered, and 0 is no node.
abbrev pub at : Map Bytes ℕ → Bytes → ℕ
at m k = elim (m k) [ none ↦ 0 | some n ↦ n ]

abbrev pub root : Map Bytes ℕ
root = insert (insert empty (codes "unix") 2) (codes "actor_config") 3

abbrev pub actor : Map Bytes ℕ
actor =
    insert
      (insert (insert (insert empty (codes "actor_name") 5) (codes "actor_count") 6)
        (codes "actor_module") 7)
      (codes "actor_service") 8

abbrev pub services : Map Bytes ℕ
services = insert empty (codes "services") 10

abbrev pub child_of : ℕ → Bytes → ℕ
child_of n k =
    if n == 1 then at root k else if n == 4 then at actor k else if n == 9 then at services k else 0

abbrev pub elements_of : ℕ → List ℕ
elements_of n = if n == 3 then 4 ∷ [] else if n == 10 then 11 ∷ 12 ∷ [] else []

abbrev pub text_of : ℕ → Bytes
text_of n =
    if n == 2
    then codes "/tmp/actor.sock"
    else if n == 5
    then codes "calc"
    else if n == 7
    then codes "libcalc.so"
    else if n == 8
    then codes "calc.yml"
    else if n == 11
    then codes "add"
    else codes "sub"

abbrev pub document : Yaml
document = record {
  Node = ℕ;
  load_file = λ f. ok (elim (Bytes-discrete f (codes "main.yml")) [ yes e ↦ 1 | no e ↦ 9 ]);
  child = child_of;
  is_defined = λ n. not (n == 0);
  elements = elements_of;
  as_bool = λ n. ok true;
  as_string = λ n. ok (text_of n);
  as_uint32 = λ n. ok 2;
  as_uint16 = λ n. thrown (codes "bad conversion");
}
