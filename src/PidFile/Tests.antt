-- ===== src/PidFile/Tests.antt =====
-- A pid file of src/coro_actor.cpp where there was none.
use coro_actor.Prelude.{arith, refl, ℕ, true, some, none, [], ◌∷◌, Bytes, codes, Option}
use coro_actor.Prelude.Map.{empty, insert, bytes_key}
use coro_actor.PidFile.{Decimal, Files, create_pidfile}
use coro_actor.PidFile.Stop.{IsOwned, create_pidfile-IsOwned}

-- A number as one character, which is enough to read back what was written.
abbrev head : Bytes → Option ℕ
head [] = none
head (n ∷ l) = some n

abbrev one_code : Decimal
one_code = record { write = λ n. n ∷ []; read = head; round = λ n h. refl }

abbrev path : Bytes
path = codes "/run/coro_actor.pid"

abbrev nothing_there : Files
nothing_there = record { text = empty; writable = λ f. true; readable = λ f. true }

abbrev with_file : Files
with_file = record nothing_there { text = insert empty path (7 ∷ []) }

create_pidfile-IsOwned_example : IsOwned one_code nothing_there with_file path 7
unfolding create_pidfile
create_pidfile-IsOwned_example =
    create_pidfile-IsOwned one_code nothing_there with_file path 7 (omega arith) refl refl
