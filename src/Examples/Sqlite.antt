-- ===== src/Examples/Sqlite.antt =====
-- example/use_sqlite/svc_use_sqlite.cpp: a service that inserts a million rows. What the calls of sqlite
-- return is an argument.
use coro_actor.Prelude.{
  ◌≡◌, refl, ℕ, zero, suc, ◌+◌, ◌-◌, ◌≤◌, Bool, List, [], ◌∷◌, if◌then◌else◌, arith,
}

-- The results of `sqlite3_step` that the loop tells apart.
pub data Rc : Type 0 where
  done busy constraint error : Rc

-- The counters.
pub record Counts : Type 0 where
  pub busy_cnt : ℕ
  pub succ_cnt : ℕ
  pub total_cnt : ℕ

abbrev pub loop_cnt : ℕ
loop_cnt = 1000000

abbrev pub initial_counts : Counts
initial_counts = record { busy_cnt = 0; succ_cnt = 0; total_cnt = loop_cnt }

-- A round.
abbrev pub counted : Rc → Counts → Counts
counted done c = record c { succ_cnt = suc c.succ_cnt }
counted busy c = record c { busy_cnt = suc c.busy_cnt }
counted constraint c = record c { total_cnt = c.total_cnt - 1 }
counted error c = c

-- The loop from `i` on with `n` rounds to go.
unfoldable pub insert_rows : ℕ → ℕ → (ℕ → Rc) → Counts → Counts
insert_rows zero i step c = c
insert_rows (suc n) i step c = insert_rows n (suc i) step (counted (step i) c)

-- What the calls in front of the loop return: `sqlite3_open_v2`, `sqlite3_exec` of the table and
-- `sqlite3_prepare_v2`.
pub record Sqlite : Type 0 where
  pub opens : Bool
  pub creates : Bool
  pub prepares : Bool
  pub step : ℕ → Rc

-- What the service has called when it returns.
pub data Call : Type 0 where
  open_v2 busy_timeout exec_create prepare begin_transaction commit finalize close_v2
        notify_complete :
      Call
  inserts : Counts → Call

-- `svc_use_sqlite_impl`: its calls in their order, with the counters after the loop.
pub svc_use_sqlite : Sqlite → List Call
svc_use_sqlite db =
    if db.opens
    then open_v2
      ∷ busy_timeout
      ∷ exec_create
      ∷ (if db.creates
          then prepare
            ∷ (if db.prepares
                then begin_transaction
                  ∷ inserts (insert_rows loop_cnt 0 db.step initial_counts)
                  ∷ commit
                  ∷ finalize
                  ∷ over
                else over)
          else over)
    else open_v2 ∷ notify_complete ∷ []
  where
    over : List Call
    over = close_v2 ∷ notify_complete ∷ []

-- How often the results that `counts` counts come among those of `n` rounds from `i` on.
abbrev pub tally : (Rc → ℕ) → ℕ → ℕ → (ℕ → Rc) → ℕ
tally counts zero i step = 0
tally counts (suc n) i step = counts (step i) + tally counts n (suc i) step

abbrev pub is_done : Rc → ℕ
is_done done = 1
is_done busy = 0
is_done constraint = 0
is_done error = 0

abbrev pub is_busy : Rc → ℕ
is_busy done = 0
is_busy busy = 1
is_busy constraint = 0
is_busy error = 0

abbrev pub is_constraint : Rc → ℕ
is_constraint done = 0
is_constraint busy = 0
is_constraint constraint = 1
is_constraint error = 0

abbrev pub is_error : Rc → ℕ
is_error done = 0
is_error busy = 0
is_error constraint = 0
is_error error = 1

-- The counters `after` are those of `before` and `n` rounds.
pub record IsTallied (n i : ℕ) (step : ℕ → Rc) (before after : Counts) : Type 0 where
  pub succ : after.succ_cnt ≡ before.succ_cnt + tally is_done n i step
  pub busy_rows : after.busy_cnt ≡ before.busy_cnt + tally is_busy n i step
  pub total : after.total_cnt + tally is_constraint n i step ≡ before.total_cnt
  pub every :
      tally is_done n i step
        + tally is_busy n i step
        + tally is_constraint n i step
        + tally is_error n i step
      ≡ n

-- What a round does to each counter.
counted-succ : (rc : Rc) (c : Counts) → (counted rc c).succ_cnt ≡ c.succ_cnt + is_done rc
counted-succ done c = omega arith
counted-succ busy c = omega arith
counted-succ constraint c = omega arith
counted-succ error c = omega arith

counted-busy : (rc : Rc) (c : Counts) → (counted rc c).busy_cnt ≡ c.busy_cnt + is_busy rc
counted-busy done c = omega arith
counted-busy busy c = omega arith
counted-busy constraint c = omega arith
counted-busy error c = omega arith

counted-total :
    (rc : Rc) (c : Counts)
    → 1 ≤ c.total_cnt
    → (counted rc c).total_cnt + is_constraint rc ≡ c.total_cnt
counted-total done c h = omega arith
counted-total busy c h = omega arith
counted-total constraint c h = omega (arith, h)
counted-total error c h = omega arith

one_of : (rc : Rc) → is_done rc + is_busy rc + is_constraint rc + is_error rc ≡ 1
one_of done = refl
one_of busy = refl
one_of constraint = refl
one_of error = refl

-- Where there are no more rounds than `total_cnt`, the loop adds to `succ_cnt` the number of the rows that
-- were inserted and to `busy_cnt` that of those that found the file locked, and takes from `total_cnt` that
-- of those whose key was there already; the rest of the rounds has failed otherwise. So `total_cnt` does not
-- get below 0, and is the sum of both counters and of these failures where it began as the number of the
-- rounds.
pub insert_rows-IsTallied :
    (n i : ℕ) (step : ℕ → Rc) (c : Counts)
    → n ≤ c.total_cnt
    → IsTallied n i step c (insert_rows n i step c)
unfolding insert_rows
insert_rows-IsTallied zero i step c h = record {
  succ = omega arith;
  busy_rows = omega arith;
  total = omega arith;
  every = omega arith;
}
insert_rows-IsTallied (suc n) i step c h =
    let rc = step i in
    let total = counted-total rc c (omega (arith, h)) in
    let every = one_of rc in
    let rest =
      insert_rows-IsTallied n (suc i) step (counted rc c) (omega (arith, h, total, every)) in
    record {
      succ = omega (arith, rest.succ, counted-succ rc c);
      busy_rows = omega (arith, rest.busy_rows, counted-busy rc c);
      total = omega (arith, rest.total, total);
      every = omega (arith, rest.every, every);
    }
