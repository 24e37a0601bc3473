-- ===== src/Examples/Tests.antt =====
-- The examples with concrete requests.
use coro_actor.Prelude.{
  ◌≡◌, refl, ℕ, ◌+◌, ◌-◌, ◌*◌, Bytes-discrete, ℕ_discrete, Option, some, none, [], ◌∷◌, Bytes,
  codes, ite, arith, if◌then◌else◌, ◌==◌,
}
use coro_actor.Packet.{Pack}
use coro_actor.Examples.{
  Coroutine, ℤ, pos, negsuc, Streams, Actors, run, svc_add, svc_calc, svc_step, svc_echo,
  svc_step_one, svc_step_two, already_supported,
}
use coro_actor.Examples.Answers.{IsAt, svc_calc-adds}
use coro_actor.Examples.Threads.{System, waiting, woken, overrun, use_count, Reach, Step, copies}
use coro_actor.Examples.Threads.Lost.{never_woken, woken_early, counts_after_return}
use coro_actor.Examples.Sqlite.{
  Rc, done, constraint, Counts, insert_rows, IsTallied, insert_rows-IsTallied,
}

-- Two numbers of one digit, and the text of a number up to 9.
abbrev digits : Bytes → Option (ℤ × ℤ)
digits [] = none
digits (a ∷ []) = none
digits (a ∷ b ∷ []) = none
digits (a ∷ b ∷ c ∷ l) = some (pos (a - 48), pos (c - 48))

abbrev digit : ℤ → Bytes
digit (pos a) = (a + 48) ∷ []
digit (negsuc a) = codes "-"

abbrev streams : Streams
streams = record { read_two = digits; to_string = digit }

-- Actor 0 calculates, 1 adds, 2 and 3 do the steps, and 4 echoes.
abbrev offers : ℕ → Bytes → Option (Pack → Pack → Coroutine)
offers a name =
    if a == 0
    then ite (Bytes-discrete name (codes "svc_calc")) (some svc_calc)
        (ite (Bytes-discrete name (codes "svc_step")) (some svc_step) none)
    else if a == 1
    then ite (Bytes-discrete name (codes "svc_add")) (some (svc_add streams)) none
    else if a == 2
    then ite (Bytes-discrete name (codes "svc_step_one")) (some svc_step_one) none
    else if a == 3
    then ite (Bytes-discrete name (codes "svc_step_two")) (some svc_step_two) none
    else ite (Bytes-discrete name (codes "svc_echo")) (some svc_echo) none

abbrev actor_of : Bytes → Option ℕ
actor_of name = ite (Bytes-discrete name (codes "svc_add")) (some 1) (
    ite (Bytes-discrete name (codes "svc_step_one")) (some 2) (
      ite (Bytes-discrete name (codes "svc_step_two")) (some 3)
        (ite (Bytes-discrete name (codes "svc_echo")) (some 4) none)))

abbrev actors : Actors
actors = record { offers = offers; actor_of = actor_of }

abbrev blank : Pack
blank = record { type = 0; value = [] }

add-IsAt : IsAt actors 0 1 (codes "svc_add") (svc_add streams)
unfolding Bytes-discrete ℕ_discrete
add-IsAt = record { not_own = refl; known = refl; offered = refl }

abbrev sum : Pack
sum = record { type = 1; value = codes "3 4" }

svc_calc-adds_example :
    run 2 actors blank 0 (svc_calc sum blank) ≡ some (record { type = 1; value = codes "7" })
svc_calc-adds_example =
    svc_calc-adds 0 actors streams blank 0 1 (pos 3) (pos 4) sum blank add-IsAt refl refl refl

-- An actor that calls its own service gets the error message.
own_test :
    run 3 (record actors { offers = λ a. offers 1 }) blank 0 (svc_calc sum blank)
    ≡ some (record { type = 0; value = already_supported })
unfolding run svc_calc Bytes-discrete ℕ_discrete
own_test = refl

never_woken_example :
    (s : System) × Reach 1000000 s
    × (s.coroutine ≡ waiting)
    × (s.cnt ≡ 3 * 1000000)
    × (copies s.threads ≡ 0)
    × ((t : System) → Step 1000000 s t → ⊥)
never_woken_example = never_woken 1000000

woken_early_example : (s : System) × Reach 1000000 s × (s.coroutine ≡ woken) × (s.cnt ≡ 1000000)
woken_early_example = woken_early 1000000

counts_after_return_example :
    (s : System) × Reach 1000000 s
    × (s.coroutine ≡ overrun)
    × (s.cnt ≡ 1000000)
    × (use_count s.coroutine s.threads ≡ 2)
counts_after_return_example = counts_after_return 999999

-- The second of three rows is there already.
abbrev results : ℕ → Rc
results i = if i == 1 then constraint else done

abbrev three_rows : Counts
three_rows = record { busy_cnt = 0; succ_cnt = 0; total_cnt = 3 }

insert_rows-IsTallied_example :
    IsTallied 3 0 results three_rows (insert_rows 3 0 results three_rows)
insert_rows-IsTallied_example = insert_rows-IsTallied 3 0 results three_rows (omega arith)

rows_test :
    insert_rows 3 0 results three_rows ≡ record { busy_cnt = 0; succ_cnt = 2; total_cnt = 2 }
unfolding insert_rows
rows_test = refl
