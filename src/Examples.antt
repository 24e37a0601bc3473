-- ===== src/Examples.antt =====
-- The services of the examples: example/add/svc_add.cpp, example/calc/svc_calc.cpp,
-- example/echo/svc_echo.cpp, example/step_one/svc_step_one.cpp and example/step_two/svc_step_two.cpp, and
-- what they give each other. The other two examples are in the modules Threads and Sqlite.
pub mod Answers
pub mod Threads
pub mod Sqlite
mod Tests
use coro_actor.Prelude.{
  ◌≡◌, ℕ, zero, suc, ◌+◌, ◌-◌, ◌^◌, Bool, true, false, Option, some, none, List, [], ◌∷◌, ◌++◌,
  Bytes, codes, ltb, if◌then◌else◌, ◌==◌,
}
use coro_actor.Packet.{Pack}
use coro_actor.Net.{◌>>=◌}

-- What `send` gives a service: the response, or false with an error message in the context.
pub data Sent : Type 0 where
  answered : Pack → Sent
  refused : Bytes → Sent

-- A service's coroutine: it has called `notify_complete` with its response, or it is suspended in `send`
-- of a request to a service, and goes on with what this gives; or what it does is not defined.
pub data Coroutine : Type 0 where
  completed : Pack → Coroutine
  undefined : Coroutine
  sends : Bytes → Pack → (Sent → Coroutine) → Coroutine

-- `*resp` after `send(.., rqst, resp)`.
abbrev pub resp_after : Pack → Sent → Pack
resp_after resp (answered pack) = pack
resp_after resp (refused error_msg) = resp

-- An `int`.
pub data ℤ : Type 0 where
  pos negsuc : ℕ → ℤ

infixl 60 ◌+ℤ◌
abbrev pub ◌+ℤ◌ : ℤ → ℤ → ℤ
pos a +ℤ pos b = pos (a + b)
pos a +ℤ negsuc b = if ltb b a then pos (a - b - 1) else negsuc (b - a)
negsuc a +ℤ pos b = if ltb a b then pos (b - a - 1) else negsuc (a - b)
negsuc a +ℤ negsuc b = negsuc (a + b + 1)

-- The number is an `int`.
abbrev pub in_range : ℤ → Bool
in_range (pos a) = ltb a (2 ^ 31)
in_range (negsuc a) = ltb a (2 ^ 31)

-- What `svc_add` uses of the standard library: the two numbers that `in >> a >> b` reads, none where one
-- of them has no value then, and `std::to_string`.
pub record Streams : Type 0 where
  pub read_two : Bytes → Option (ℤ × ℤ)
  pub to_string : ℤ → Bytes

-- `svc_add_impl`. It is not defined for a number that has not been read, or a sum that is no `int`.
pub svc_add : Streams → Pack → Pack → Coroutine
svc_add streams rqst resp = elim (streams.read_two rqst.value) [
  | none ↦ undefined
  | some (a, b) ↦
      if in_range (a +ℤ b)
      then completed (record { type = rqst.type; value = streams.to_string (a +ℤ b) })
      else undefined
]

abbrev pub calc_goes_on : Pack → Sent → Coroutine
calc_goes_on resp (answered pack) = completed pack
calc_goes_on resp (refused error_msg) = completed (record resp { value = error_msg })

-- `svc_calc_impl`.
pub svc_calc : Pack → Pack → Coroutine
svc_calc rqst resp =
    if rqst.type == 1 then sends (codes "svc_add") rqst (calc_goes_on resp) else completed resp

abbrev pub completes : Pack → Sent → Coroutine
completes resp sent = completed (resp_after resp sent)

abbrev pub step_goes_on : Pack → Pack → Sent → Coroutine
step_goes_on rqst resp one =
    let resp1 = resp_after resp one in
    sends (codes "svc_step_two") (record rqst { value = resp1.value }) (completes resp1)

-- `svc_step_impl`.
pub svc_step : Pack → Pack → Coroutine
svc_step rqst resp = sends (codes "svc_step_one") rqst (step_goes_on rqst resp)

-- `svc_echo_impl`.
pub svc_echo : Pack → Pack → Coroutine
svc_echo rqst resp = completed (record { type = rqst.type; value = rqst.value })

-- `svc_step_one_impl`.
pub svc_step_one : Pack → Pack → Coroutine
svc_step_one rqst resp =
    completed (record { type = rqst.type; value = rqst.value ++ codes "step one over !!!" })

-- `svc_step_two_impl`.
pub svc_step_two : Pack → Pack → Coroutine
svc_step_two rqst resp =
    sends (codes "svc_echo")
      (record rqst { value = rqst.value ++ (10 ∷ codes "step two over !!!") })
      (completes (record resp { type = rqst.type }))

-- The actors by numbers: the services that each offers, and the actor that the configuration names for
-- a service.
pub record Actors : Type 0 where
  pub offers : ℕ → Bytes → Option (Pack → Pack → Coroutine)
  pub actor_of : Bytes → Option ℕ

abbrev pub already_supported : Bytes
already_supported = codes "This service is already supported by this process"

-- The response that a service has given without calling another one.
abbrev own_response : Coroutine → Option Pack
own_response (completed resp) = some resp
own_response undefined = none
own_response (sends name rqst k) = none

-- What the only client of a service gets: the response of a coroutine of the actor `a`, after less than `n`
-- calls, while no other call is made, so that the actor that is called is free. Each actor takes the pack
-- `blank` for a response that has not been written. None where a call is not answered, and where the
-- service that is called makes a call itself, which another client's call may come across.
pub run : ℕ → Actors → Pack → ℕ → Coroutine → Option Pack
run zero actors blank a c = none
run (suc n) actors blank a (completed resp) = some resp
run (suc n) actors blank a undefined = none
run (suc n) actors blank a (sends name rqst k) = elim (actors.offers a name) [
  | some own ↦ run n actors blank a (k (refused already_supported))
  | none ↦ do
    b ← actors.actor_of name
    service ← actors.offers b name
    resp ← own_response (service rqst blank)
    run n actors blank a (k (answered resp))
]
