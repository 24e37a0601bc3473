-- ===== src/Examples/Answers.antt =====
-- What clients of the examples' services get.
use coro_actor.Prelude.{◌≡◌, refl, ap, ◌∙◌, ℕ, suc, true, some, none, Bytes, codes}
use coro_actor.Packet.{Pack}
use coro_actor.Examples.{
  Coroutine, ℤ, ◌+ℤ◌, in_range, Streams, Actors, Sent, answered, calc_goes_on, completed, sends,
  run, svc_add, svc_calc,
}

-- The service `name` is offered by the actor `b` alone of `a` and `b`, with the function `f`.
pub record IsAt (actors : Actors) (a b : ℕ) (name : Bytes) (f : Pack → Pack → Coroutine)
    : Type 0 where
  pub not_own : actors.offers a name ≡ none
  pub known : actors.actor_of name ≡ some b
  pub offered : actors.offers b name ≡ some f

-- A call of a service that another actor offers.
run-sends :
    (n : ℕ) (actors : Actors) (blank : Pack) (a b : ℕ) (name : Bytes) (rqst resp : Pack)
    (f : Pack → Pack → Coroutine) (k : Sent → Coroutine)
    → IsAt actors a b name f
    → f rqst blank ≡ completed resp
    → run (suc n) actors blank a (sends name rqst k) ≡ run n actors blank a (k (answered resp))
unfolding run
run-sends n actors blank a b name rqst resp f k h e =
    rw (h.not_own, h.known, h.offered, e, run) refl

-- Where another actor offers `svc_add`, a client of `svc_calc` with a request of type 1, whose value has two
-- numbers with an `int` as their sum, gets the text of this sum, where no other call is
-- made meanwhile and `run` is given two rounds or more.
pub svc_calc-adds :
    (n : ℕ) (actors : Actors) (streams : Streams) (blank : Pack) (a b : ℕ) (x y : ℤ)
    (rqst resp : Pack)
    → IsAt actors a b (codes "svc_add") (svc_add streams)
    → rqst.type ≡ 1
    → streams.read_two rqst.value ≡ some (x, y)
    → in_range (x +ℤ y) ≡ true
    → run (suc (suc n)) actors blank a (svc_calc rqst resp)
      ≡ some (record { type = rqst.type; value = streams.to_string (x +ℤ y) })
unfolding run svc_calc svc_add
svc_calc-adds n actors streams blank a b x y rqst resp add is_one reads fits =
    let answer : Pack = record { type = rqst.type; value = streams.to_string (x +ℤ y) } in
    let started : svc_calc rqst resp ≡ sends (codes "svc_add") rqst (calc_goes_on resp) =
      rw (is_one, svc_calc) refl in
    let added : svc_add streams rqst blank ≡ completed answer = rw (reads, fits, svc_add) refl in
    ap (run (suc (suc n)) actors blank a) started
    ∙ run-sends (suc n) actors blank a b (codes "svc_add") rqst answer (svc_add streams)
        (calc_goes_on resp) add added
