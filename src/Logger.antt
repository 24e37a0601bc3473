-- ===== src/Logger.antt =====
-- `set_logger` of src/coro_actor.cpp: where a process logs to.
use coro_actor.Prelude.{
  ℕ, ◌*◌, Bool, true, false, Option, some, none, ◌++◌, Bytes, codes, if◌then◌else◌, ◌==◌,
}
use coro_actor.Supervisor.{Ptype, master, worker, proxier}

-- The levels of spdlog, from 0 on.
pub data Level : Type 0 where
  trace debug info warn err critical off : Level

-- The `switch` over `SPDLOG_ACTIVE_LEVEL`: none where the level is left as it is.
abbrev pub level_of : ℕ → Option Level
level_of n =
    if n == 0
    then some trace
    else if n == 1
    then some debug
    else if n == 2
    then some info
    else if n == 3
    then some warn
    else if n == 4
    then some err
    else if n == 5
    then some critical
    else if n == 6
    then some off
    else none

-- The default logger, with the size and the number of its rotating files.
pub record Logger : Type 0 where
  pub name : Bytes
  pub file : Bytes
  pub is_async : Bool
  pub max_size : ℕ
  pub max_files : ℕ
  pub level : Option Level

-- What the function uses of the library and of spdlog: `std::to_string`, the level of the build, and
-- whether a log file can be opened, where spdlog throws if not.
pub record Logging : Type 0 where
  pub to_string : ℕ → Bytes
  pub active_level : ℕ
  pub opens : Bytes → Bool

abbrev pub is_worker : Ptype → Bool
is_worker master = false
is_worker worker = true
is_worker proxier = false

-- `set_logger`: none where it throws.
unfoldable pub set_logger : Logging → Ptype → Bytes → ℕ → Bytes → Option Logger
set_logger logging type log_dir pid logger_name =
    let log_file =
      log_dir ++ (logger_name ++ (codes "-" ++ (logging.to_string pid ++ codes ".log"))) in
    if logging.opens log_file
    then some (record {
      name = logger_name;
      file = log_file;
      is_async = is_worker type;
      max_size = 1048576 * 5;
      max_files = 3;
      level = level_of logging.active_level;
    })
    else none
