-- ===== src/Title/Tests.antt =====
-- A process of src/coro_actor.cpp with one argument and one text in its environment.
use coro_actor.Prelude.{
  ◌≡◌, refl, ℕ, suc, ◌+◌, ◌-◌, ℕ_discrete, none, some, [], ◌∷◌, ◌++◌, Bytes, codes, take, inl,
  arith, List,
}
use coro_actor.Title.{Title, Memory, Entry, write, size_of, set_proctitle, init_setproctitle}
use coro_actor.Title.Shows.{IsShown, shown, set_proctitle-IsShown}
use coro_actor.Title.Moves.{Lies, IsKept, init_setproctitle-IsKept}

-- A text of the memory with what lies behind it.
abbrev put : Memory → ℕ → Bytes → Memory
put m a [] = m
put m a (c ∷ l) = write (put m (suc a) l) a c

-- `./a` from 10 on, and `B=1` behind it.
abbrev memory : Memory
memory = put (λ a. 0) 10 (codes "./a" ++ (0 ∷ codes "B=1"))

abbrev argv : List Entry
argv = record { address = 10; text = codes "./a" } ∷ []

abbrev variable : Entry
variable = record { address = 14; text = codes "B=1" }

abbrev title : Title
title = record { os_argv = λ i. some 10; os_argv_first = 10; os_argv_last = 17 }

set_proctitle-IsShown_example :
    IsShown memory
      (set_proctitle title memory (codes "master")).1
      10
      17
      (take (17 - 10 - 1) (shown (codes "master")))
    × ((set_proctitle title memory (codes "master")).0.os_argv 1 ≡ none)
set_proctitle-IsShown_example = set_proctitle-IsShown title memory (codes "master") (omega arith)

variable-Lies : Lies memory variable
unfolding ℕ_discrete
variable-Lies = record { text = (refl, (refl, (refl, tt))); zero_ends = refl; whole = refl }

init_setproctitle-IsKept_example :
    IsKept memory 100
      (100 + size_of (variable ∷ []))
      (variable ∷ [])
      (init_setproctitle 10 argv 100 memory (variable ∷ []))
init_setproctitle-IsKept_example =
    init_setproctitle-IsKept 10 argv 100 memory (variable ∷ []) (variable-Lies, tt)
      (inl (omega arith), tt)

-- The area is the argument's and the variable's, but for the last zero.
last_test : (init_setproctitle 10 argv 100 memory (variable ∷ [])).last ≡ 17
unfolding init_setproctitle ℕ_discrete
last_test = refl

moved_test :
    (init_setproctitle 10 argv 100 memory (variable ∷ [])).environ
    ≡ record { address = 100; text = codes "B=1" } ∷ []
unfolding init_setproctitle ℕ_discrete
moved_test = refl
