-- ===== src/Examples/Threads.antt =====
-- example/use_thread/svc_use_thread.cpp: three threads count, and the last one that ends is to wake the
-- coroutine, which it sees from `use_count` of the pointer to the timer.
--
-- A thread holds its copy of the pointer until it has ended. The steps of the threads and of the
-- coroutine come in any order. The copies that std::thread makes for a moment while the coroutine starts
-- a thread are left out.
pub mod Lost
use coro_actor.Prelude.{
  ◌≡◌, ◌≢◌, refl, sym, ap, ◌∙◌, subst, ℕ, zero, suc, ◌+◌, ◌-◌, ◌*◌, ◌<◌, ◌≤◌, Bool, true, false,
  List, [], ◌∷◌, ◌++◌, length, All, if◌then◌else◌, ◌==◌, arith,
}

-- Where a thread is: in its loop with `left` rounds to go, between the test of `use_count` and
-- `cancel_one`, at its end with its copy of the pointer, or without it.
pub data Thread : Type 0 where
  counting : (left : ℕ) → Thread
  cancelling : Thread
  ending : Thread
  gone : Thread

-- Where the coroutine is: it has `left` threads to start, waits for the timer, has been woken; or it has
-- logged the counter, completed the service and returned, so that its variables, the counter and its pointer
-- to the timer, are gone, and a thread may then have counted where the counter was.
pub data Coroutine : Type 0 where
  starting : (left : ℕ) → Coroutine
  waiting : Coroutine
  woken : Coroutine
  returned : Coroutine
  overrun : Coroutine

pub record System : Type 0 where
  pub cnt : ℕ  -- std::atomic<int>, with its last value where it is gone
  pub threads : List Thread
  pub coroutine : Coroutine

-- The copies of the threads.
abbrev pub copies : List Thread → ℕ
copies [] = 0
copies (counting left ∷ l) = suc (copies l)
copies (cancelling ∷ l) = suc (copies l)
copies (ending ∷ l) = suc (copies l)
copies (gone ∷ l) = copies l

-- The coroutine's own pointer, until it has returned.
abbrev pub own : Coroutine → ℕ
own (starting left) = 1
own waiting = 1
own woken = 1
own returned = 0
own overrun = 0

-- `use_count`.
abbrev pub use_count : Coroutine → List Thread → ℕ
use_count c l = own c + copies l

-- `cancel_one`: it wakes the coroutine if this waits, and is without effect before.
abbrev pub cancel_one : Coroutine → Coroutine
cancel_one (starting left) = starting left
cancel_one waiting = woken
cancel_one woken = woken
cancel_one returned = returned
cancel_one overrun = overrun

-- `cnt++`, by a reference to the coroutine's variable: the counter, and where the coroutine is then.
abbrev pub add_one : ℕ → Coroutine → ℕ
add_one cnt (starting left) = suc cnt
add_one cnt waiting = suc cnt
add_one cnt woken = suc cnt
add_one cnt returned = cnt
add_one cnt overrun = cnt

abbrev pub counted_in : Coroutine → Coroutine
counted_in (starting left) = starting left
counted_in waiting = waiting
counted_in woken = woken
counted_in returned = overrun
counted_in overrun = overrun

-- A step, where each thread counts to `rounds`.
pub data Step (rounds : ℕ) : System → System → Type 0 where
  start :
      (cnt left : ℕ) (l : List Thread)
      → Step rounds
          (record { cnt = cnt; threads = l; coroutine = starting (suc left) })
          (record { cnt = cnt; threads = l ++ counting rounds ∷ []; coroutine = starting left })
  async_wait :
      (cnt : ℕ) (l : List Thread)
      → Step rounds
          (record { cnt = cnt; threads = l; coroutine = starting 0 })
          (record { cnt = cnt; threads = l; coroutine = waiting })
  count :
      (cnt left : ℕ) (l r : List Thread) (c : Coroutine)
      → Step rounds
          (record { cnt = cnt; threads = l ++ counting (suc left) ∷ r; coroutine = c })
          (record {
            cnt = add_one cnt c;
            threads = l ++ counting left ∷ r;
            coroutine = counted_in c;
          })
  test :
      (cnt : ℕ) (l r : List Thread) (c : Coroutine)
      → Step rounds
          (record { cnt = cnt; threads = l ++ counting 0 ∷ r; coroutine = c })
          (record {
            cnt = cnt;
            threads =
                l ++ (if use_count c (l ++ counting 0 ∷ r) == 2 then cancelling else ending) ∷ r;
            coroutine = c;
          })
  cancel :
      (cnt : ℕ) (l r : List Thread) (c : Coroutine)
      → Step rounds
          (record { cnt = cnt; threads = l ++ cancelling ∷ r; coroutine = c })
          (record { cnt = cnt; threads = l ++ ending ∷ r; coroutine = cancel_one c })
  returns :
      (cnt : ℕ) (l : List Thread)
      → Step rounds
          (record { cnt = cnt; threads = l; coroutine = woken })
          (record { cnt = cnt; threads = l; coroutine = returned })
  end :
      (cnt : ℕ) (l r : List Thread) (c : Coroutine)
      → Step rounds
          (record { cnt = cnt; threads = l ++ ending ∷ r; coroutine = c })
          (record { cnt = cnt; threads = l ++ gone ∷ r; coroutine = c })

-- `svc_use_thread_impl` at its loop.
abbrev pub begun : System
begun = record { cnt = 0; threads = []; coroutine = starting 3 }

pub data Reach (rounds : ℕ) : System → Type 0 where
  begins : Reach rounds begun
  steps : (s t : System) → Reach rounds s → Step rounds s t → Reach rounds t
