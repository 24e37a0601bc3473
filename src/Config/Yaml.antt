-- ===== src/Config/Yaml.antt =====
-- What the loader uses of yaml-cpp: nodes, how they are read, and the exceptions of the reads.
use coro_actor.Prelude.{ℕ, Bool, List, Bytes}

-- The result of a call that may throw; an exception is its text.
pub data Result {ℓ} (A : Type ℓ) : Type ℓ where
  ok : A → Result A
  thrown : Bytes → Result A

pub record Yaml : Type 1 where
  pub Node : Type 0
  pub load_file : Bytes → Result Node
  pub child : Node → Bytes → Node  -- node["key"]
  pub is_defined : Node → Bool
  pub elements : Node → List Node  -- what a `for` over the node visits
  pub as_bool : Node → Result Bool
  pub as_string : Node → Result Bytes
  pub as_uint32 : Node → Result ℕ
  pub as_uint16 : Node → Result ℕ
