-- ===== src/PidFile.antt =====
-- The pid file of src/coro_actor.cpp: `create_pidfile`, `delete_pidfile` and `handle_stop_command`.
pub mod Stop
mod Tests
use coro_actor.Prelude.{
  ◌≡◌, ℕ, ◌^◌, ◌<◌, Bool, true, false, Option, some, none, List, [], ◌∷◌, ◌++◌, Bytes, ite, codes,
  ℕ_discrete, if◌then◌else◌,
}
use coro_actor.Prelude.Map.{Map, insert, erase, bytes_key}

-- How a number is written to a stream, and read from one: none where `fail()` holds. What has been
-- written is read again.
pub record Decimal : Type 0 where
  pub write : ℕ → Bytes
  pub read : Bytes → Option ℕ
  pub round : (n : ℕ) → n < 2 ^ 31 → read (write n) ≡ some n

-- The files with their contents, and which may be opened to be written or read.
pub record Files : Type 0 where
  pub text : Map Bytes Bytes
  pub writable : Bytes → Bool
  pub readable : Bytes → Bool

pub data Created : Type 0 where
  created : Files → Created
  thrown : Bytes → Created

module _ (decimal : Decimal) where
  -- `create_pidfile` of the process `pid`.
  unfoldable pub create_pidfile : Files → Bytes → ℕ → Created
  create_pidfile fs file pid = elim (fs.text file) [
    | some old ↦ thrown (codes "pid file already exists")
    | none ↦
        if fs.writable file
        then created (record fs { text = insert fs.text file (decimal.write pid) })
        else thrown (codes "Can't Open file: " ++ file)
  ]

  -- The number in the file, where there is one.
  abbrev pub read_pid : Files → Bytes → Option ℕ
  read_pid fs file = elim (fs.text file) [
    | none ↦ none
    | some text ↦ if fs.readable file then decimal.read text else none
  ]

  -- `delete_pidfile` of the process `this_pid`.
  pub delete_pidfile : Files → Bytes → ℕ → Files
  delete_pidfile fs file this_pid = elim (read_pid fs file) [
    | none ↦ fs
    | some pid ↦ ite (ℕ_discrete pid this_pid) (record fs { text = erase fs.text file }) fs
  ]

  -- `handle_stop_command`: the processes that get SIGTERM.
  pub handle_stop_command : Files → Bytes → List ℕ
  handle_stop_command fs file = elim (read_pid fs file) [ none ↦ [] | some pid ↦ pid ∷ [] ]
