-- ===== src/Examples/Threads/Lost.antt =====
-- The orders of the threads of example/use_thread/svc_use_thread.cpp in which the coroutine is not woken, or
-- is woken, and returns, before they have counted.
use coro_actor.Prelude.{◌≡◌, refl, subst, ℕ, zero, suc, ◌+◌, ◌*◌, ◌<◌, List, [], ◌∷◌, ◌++◌, arith}
use coro_actor.Examples.Threads.{
  Thread, counting, cancelling, ending, gone, Coroutine, starting, waiting, woken, returned,
  overrun, System, copies, use_count, add_one, counted_in, returns, Step, start, async_wait, count,
  test, cancel, end, Reach, begins, steps,
}

abbrev awake : Coroutine → ℕ
awake (starting left) = 1
awake waiting = 0
awake woken = 1
awake returned = 0
awake overrun = 0

copies-append : (l r : List Thread) → copies (l ++ r) ≡ copies l + copies r
copies-append [] r = omega arith
copies-append (counting left ∷ l) r = omega (arith, copies-append l r)
copies-append (cancelling ∷ l) r = omega (arith, copies-append l r)
copies-append (ending ∷ l) r = omega (arith, copies-append l r)
copies-append (gone ∷ l) r = copies-append l r

step-copies :
    (rounds : ℕ) (s t : System) → Step rounds s t → 0 < copies s.threads + awake s.coroutine
step-copies rounds s t (start cnt left l) = omega arith
step-copies rounds s t (async_wait cnt l) = omega arith
step-copies rounds s t (count cnt left l r c) =
    omega (arith, copies-append l (counting (suc left) ∷ r))
step-copies rounds s t (test cnt l r c) = omega (arith, copies-append l (counting 0 ∷ r))
step-copies rounds s t (cancel cnt l r c) = omega (arith, copies-append l (cancelling ∷ r))
step-copies rounds s t (returns cnt l) = omega arith
step-copies rounds s t (end cnt l r c) = omega (arith, copies-append l (ending ∷ r))

module _ (rounds : ℕ) where
  -- A thread comes to the end of its loop.
  counts :
      (n cnt : ℕ) (l r : List Thread) (c : Coroutine)
      → ((k : ℕ) → add_one k c ≡ suc k)
      → counted_in c ≡ c
      → Reach rounds (record { cnt = cnt; threads = l ++ counting n ∷ r; coroutine = c })
      → Reach rounds (record { cnt = n + cnt; threads = l ++ counting 0 ∷ r; coroutine = c })
  counts zero cnt l r c up same h =
      subst (λ k. Reach rounds (record { cnt = k; threads = l ++ counting 0 ∷ r; coroutine = c }))
        (omega arith) h
  counts (suc n) cnt l r c up same h =
      let next : Reach rounds
          (record { cnt = suc cnt; threads = l ++ counting n ∷ r; coroutine = c }) =
        subst (λ k. Reach rounds (record { cnt = k; threads = l ++ counting n ∷ r; coroutine = c }))
          (up cnt)
          (subst
            (λ d.
              Reach rounds
                (record { cnt = add_one cnt c; threads = l ++ counting n ∷ r; coroutine = d }))
            same (steps _ _ h (count cnt n l r c))) in
      subst (λ k. Reach rounds (record { cnt = k; threads = l ++ counting 0 ∷ r; coroutine = c }))
        (omega arith) (counts n (suc cnt) l r c up same next)

  -- The state with a counter, three threads and a coroutine.
  abbrev three : ℕ → Thread → Thread → Thread → Coroutine → System
  three cnt t u v c = record { cnt = cnt; threads = t ∷ u ∷ v ∷ []; coroutine = c }

  all_wait : Reach rounds (three 0 (counting rounds) (counting rounds) (counting rounds) waiting)
  all_wait =
      steps _ _
        (steps _ _ (steps _ _ (steps _ _ begins (start 0 2 [])) (start 0 1 (counting rounds ∷ [])))
          (start 0 0 (counting rounds ∷ counting rounds ∷ [])))
        (async_wait 0 (counting rounds ∷ counting rounds ∷ counting rounds ∷ []))

  all_counted :
      Reach rounds
        (three (rounds + (rounds + (rounds + 0))) (counting 0) (counting 0) (counting 0) waiting)
  all_counted =
      let z = counting 0 in
      let n = counting rounds in
      counts rounds (rounds + (rounds + 0)) (z ∷ z ∷ []) [] waiting (λ k. refl) refl
        (counts rounds (rounds + 0) (z ∷ []) (n ∷ []) waiting (λ k. refl) refl
          (counts rounds 0 [] (n ∷ n ∷ []) waiting (λ k. refl) refl all_wait))

  -- The three threads test `use_count` before one of them ends.
  all_gone : Reach rounds (three (rounds + (rounds + (rounds + 0))) gone gone gone waiting)
  all_gone =
      let k = rounds + (rounds + (rounds + 0)) in
      let z = counting 0 in
      let e = ending in
      let tested : Reach rounds (three k e e e waiting) =
        steps _ _
          (steps _ _ (steps _ _ all_counted (test k [] (z ∷ z ∷ []) waiting))
            (test k (e ∷ []) (z ∷ []) waiting))
          (test k (e ∷ e ∷ []) [] waiting) in
      steps _ _
        (steps _ _ (steps _ _ tested (end k [] (e ∷ e ∷ []) waiting))
          (end k (gone ∷ []) (e ∷ []) waiting))
        (end k (gone ∷ gone ∷ []) [] waiting)

  -- Whatever the number of rounds, there is an order of the steps after which the coroutine waits, all three
  -- threads have counted and ended, and no further step is possible: the coroutine is never woken.
  pub never_woken :
      (s : System) × Reach rounds s
      × (s.coroutine ≡ waiting)
      × (s.cnt ≡ 3 * rounds)
      × (copies s.threads ≡ 0)
      × ((t : System) → Step rounds s t → ⊥)
  never_woken = (
    three (rounds + (rounds + (rounds + 0))) gone gone gone waiting,
    all_gone,
    refl,
    omega arith,
    refl,
    λ t step. omega (arith, step-copies rounds _ t step),
  )

  -- The first thread tests `use_count` while the second one has not been started.
  first_wakes : Reach rounds (three (rounds + 0) ending (counting rounds) (counting rounds) woken)
  first_wakes =
      let k = rounds + 0 in
      let n = counting rounds in
      let first =
        counts rounds 0 [] [] (starting 2) (λ k. refl) refl (steps _ _ begins (start 0 2 [])) in
      let tested : Reach rounds
          (record { cnt = k; threads = cancelling ∷ []; coroutine = starting 2 }) =
        steps _ _ first (test k [] [] (starting 2)) in
      let started : Reach rounds (three k cancelling n n waiting) =
        steps _ _
          (steps _ _ (steps _ _ tested (start k 1 (cancelling ∷ [])))
            (start k 0 (cancelling ∷ n ∷ [])))
          (async_wait k (cancelling ∷ n ∷ n ∷ [])) in
      steps _ _ started (cancel k [] (n ∷ n ∷ []) waiting)

  -- Whatever the number of rounds, there is an order of the steps in which the first thread tests
  -- `use_count` while the second one has not been started, and wakes the coroutine before the other two
  -- threads have counted.
  pub woken_early : (s : System) × Reach rounds s × (s.coroutine ≡ woken) × (s.cnt ≡ rounds)
  woken_early = (
    three (rounds + 0) ending (counting rounds) (counting rounds) woken,
    first_wakes,
    refl,
    omega arith,
  )

-- Whatever the number of rounds, if there is one at all, there is an order of the steps in which the
-- coroutine has returned, with only the first thread's rounds counted, and another thread has then counted
-- where the counter was, with two copies of the pointer to the timer still held.
pub counts_after_return :
    (n : ℕ)
    → (s : System) × Reach (suc n) s
      × (s.coroutine ≡ overrun)
      × (s.cnt ≡ suc n)
      × (use_count s.coroutine s.threads ≡ 2)
counts_after_return n =
    let k = suc n + 0 in
    let all = counting (suc n) in
    let back : Reach (suc n)
        (record { cnt = k; threads = gone ∷ all ∷ all ∷ []; coroutine = returned }) =
      steps _ _ (steps _ _ (first_wakes (suc n)) (returns k (ending ∷ all ∷ all ∷ [])))
        (end k [] (all ∷ all ∷ []) returned) in
    (
      record { cnt = k; threads = gone ∷ counting n ∷ all ∷ []; coroutine = overrun },
      steps _ _ back (count k n (gone ∷ []) (all ∷ []) returned),
      refl,
      omega arith,
      refl,
    )
