-- ===== src/Title.antt =====
-- The title of a process, src/coro_actor.cpp: `cpystrn`, `init_setproctitle` and `set_proctitle`.
--
-- The memory has a number at each address. A string in C is a text up to its first zero, and is read
-- from outside of the memory that the function writes.
pub mod Copies
pub mod Shows
pub mod Moves
mod Tests
use coro_actor.Prelude.{
  ℕ, zero, suc, ◌+◌, ◌-◌, Option, some, none, List, [], ◌∷◌, Bytes, String, codes, length, ite,
  ℕ_discrete, if◌then◌else◌, ◌==◌,
}

abbrev pub Memory : Type 0
Memory = ℕ → ℕ

-- `*a = c`.
abbrev pub write : Memory → ℕ → ℕ → Memory
write m a c b = ite (ℕ_discrete a b) c (m b)

-- The loop of `cpystrn`, where `--n` is the number, and the end of the function.
abbrev pub copy : ℕ → Memory → ℕ → Bytes → Memory × ℕ
copy zero m dst src = (write m dst 0, dst)
copy (suc n) m dst [] = (write m dst 0, dst)
copy (suc n) m dst (c ∷ src) =
    let rest = copy n (write m dst c) (suc dst) src in if c == 0 then (write m dst c, dst) else rest

-- `cpystrn`: the memory, and the pointer that it returns.
unfoldable pub cpystrn : Memory → ℕ → Bytes → ℕ → Memory × ℕ
cpystrn m dst src zero = (m, dst)
cpystrn m dst src (suc n) = copy n m dst src

-- `memset(p, '\0', n)`.
abbrev pub clear : Memory → ℕ → ℕ → Memory
clear m p zero = m
clear m p (suc n) = clear (write m p 0) (suc p) n

-- The members of `coro_actor` for the title: the pointers of `os_argv`, and `os_argv_last`.
pub record Title : Type 0 where
  pub os_argv : ℕ → Option ℕ
  pub os_argv_first : ℕ  -- `os_argv[0]`
  pub os_argv_last : ℕ

abbrev pub actor_proc_name : Bytes
actor_proc_name = codes "coro_actor"

-- `set_proctitle`.
pub set_proctitle : Title → Memory → Bytes → Title × Memory
unfolding cpystrn
set_proctitle t m title =
    let first = t.os_argv_first in
    let last = t.os_argv_last in
    let (m1, p1) = cpystrn m first actor_proc_name (last - first) in
    let (m2, p2) = cpystrn m1 p1 (codes ": ") (last - p1) in
    let (m3, p3) = cpystrn m2 p2 title (last - p2) in
    let argv : ℕ → Option ℕ = λ i. ite (ℕ_discrete 1 i) none (t.os_argv i) in
    (record t { os_argv = argv }, clear m3 p3 (last - p3))

-- An entry of `environ` or `os_argv`: its pointer, and the text there.
pub record Entry : Type 0 where
  pub address : ℕ
  pub text : Bytes

-- The size that `environ` needs.
abbrev pub size_of : List Entry → ℕ
size_of [] = 0
size_of (e ∷ l) = length e.text + 1 + size_of l

-- The loop over `os_argv`.
abbrev pub argv_last : ℕ → List Entry → ℕ
argv_last last [] = last
argv_last last (e ∷ l) =
    argv_last (ite (ℕ_discrete last e.address) (e.address + length e.text + 1) last) l

-- What the loop over `environ` keeps: `os_argv_last`, the memory, `p`, and the entries.
pub record Moved : Type 0 where
  pub last : ℕ
  pub memory : Memory
  pub p : ℕ
  pub environ : List Entry

-- The loop over `environ`.
abbrev pub move_environ : ℕ → Memory → ℕ → List Entry → Moved
move_environ last m p [] = record { last = last; memory = m; p = p; environ = [] }
move_environ last m p (e ∷ l) =
    let size = length e.text + 1 in
    let moved = move_environ (e.address + size) (cpystrn m p e.text size).0 (p + size) l in
    let stays = move_environ last m p l in
    ite (ℕ_discrete last e.address)
      (record moved { environ = record e { address = p } ∷ moved.environ })
      (record stays { environ = e ∷ stays.environ })

-- `init_setproctitle`, with the block of `size_of` bytes that is allocated.
pub init_setproctitle : ℕ → List Entry → ℕ → Memory → List Entry → Moved
init_setproctitle first argv block m environ =
    let moved = move_environ (argv_last first argv) m block environ in
    record moved { last = moved.last - 1 }
