-- ===== src/Worker/Wakeups.antt =====
-- The timers of src/coro_actor_ctx.cpp: whatever comes between, the coroutine of `handle_message` does not
-- sleep through what it waits for.
use coro_actor.Prelude.{
  ◌≡◌, refl, sym, subst, ◌∙◌, ℕ, Bool, true, false, Option, some, [], ◌∷◌, ◌++◌, Bytes, length, All,
  All-append, arith, if◌then◌else◌, ◌==◌,
}
use coro_actor.Packet.{Pack}
use coro_actor.Worker.{
  Msg, Ctx, Point, idle, serving, writing_pack, writing_response, returned, crashed, Served,
  set_call_id, push_msg, notify_complete, completed, cancel_msg_timer, cancel_service_timer,
}
use coro_actor.Worker.Send.{
  send, sending_ctx, set_response_pack, send_failed, send_waits, send_returns,
}
use coro_actor.Worker.Steps.{
  IsAwake, IsServed, outside, Step, pushed, completes, called, answered, unsent, sends, waits,
  returns, filled, goes_on, Reach, start, step, WorkerInv, resume-WorkerInv,
}

module _ (to_string : ℕ → Bytes) (service_map : Bytes → Option (Pack → Served)) where
  cancel-IsAwake :
      (c : Ctx) (m : Msg) (p : Point)
      → IsAwake c p
      → IsAwake
          (record c { msg_queue = c.msg_queue ++ m ∷ [] })
          (if length (c.msg_queue ++ m ∷ []) == 1 then cancel_msg_timer p else p)
  cancel-IsAwake c m (idle false) a = rw a tt
  cancel-IsAwake c m (idle true) a = ground arith
  cancel-IsAwake c m (serving true n resp) a = ground arith
  cancel-IsAwake c m (serving false n resp) a = ground arith
  cancel-IsAwake c m (writing_pack s resp) a = ground arith
  cancel-IsAwake c m (writing_response s resp) a = ground arith
  cancel-IsAwake c m returned a = ground arith
  cancel-IsAwake c m crashed a = absurd a

  completed-IsAwake :
      (c : Ctx) (p : Point) → IsAwake c p → IsAwake (completed c) (cancel_service_timer p)
  completed-IsAwake c (idle false) a = a
  completed-IsAwake c (idle true) a = tt
  completed-IsAwake c (serving expired n resp) a = refl
  completed-IsAwake c (writing_pack s resp) a = tt
  completed-IsAwake c (writing_response s resp) a = tt
  completed-IsAwake c returned a = tt
  completed-IsAwake c crashed a = a

  IsAwake-same :
      (c d : Ctx) (p : Point)
      → d.msg_queue ≡ c.msg_queue
      → d.is_waiting ≡ c.is_waiting
      → IsAwake c p
      → IsAwake d p
  IsAwake-same c d (idle false) q w a = q ∙ a
  IsAwake-same c d (idle true) q w a = tt
  IsAwake-same c d (serving false n resp) q w a = w ∙ a
  IsAwake-same c d (serving true n resp) q w a = w ∙ a
  IsAwake-same c d (writing_pack s resp) q w a = tt
  IsAwake-same c d (writing_response s resp) q w a = tt
  IsAwake-same c d returned q w a = tt
  IsAwake-same c d crashed q w a = a

  send-same :
      (is_open : ℕ → Bool) (stopped : Bool) (c : Ctx) (name : Bytes) (pack : Pack)
      → ((sending_ctx (
            send to_string ((outside to_string service_map) is_open stopped) c name pack)).msg_queue
          ≡ c.msg_queue)
        × ((sending_ctx (
              send to_string
                ((outside to_string service_map) is_open stopped)
                c
                name
                pack)).is_waiting
            ≡ c.is_waiting)
  unfolding send
  send-same is_open stopped c name pack = ground arith

  send_returns-same :
      (left : Bytes) (pack : Pack) (c d : Ctx)
      → send_returns left c ≡ some (pack, d)
      → (d.msg_queue ≡ c.msg_queue) × (d.is_waiting ≡ c.is_waiting)
  unfolding send_returns
  send_returns-same left pack c d e = ground (arith, e)

  filled-IsAwake :
      (c : Ctx) (expired : Bool) (m : Msg) (old new : Pack)
      → IsAwake c (serving expired m old)
      → IsAwake c (serving expired m new)
  filled-IsAwake c true m old new a = a
  filled-IsAwake c false m old new a = a

  Step-WorkerInv :
      {s t : Ctx × Point}
      → (Step to_string service_map) s t
      → (WorkerInv to_string service_map) s
      → (WorkerInv to_string service_map) t
  unfolding push_msg notify_complete set_call_id set_response_pack send_failed send_waits
  Step-WorkerInv (pushed {s = (c, p)} m h) i = record {
    served = All-append (IsServed to_string service_map) c.msg_queue (m ∷ []) i.served (h, tt);
    awake = cancel-IsAwake c m p i.awake;
  }
  Step-WorkerInv (completes {s = (c, p)}) i = record {
    served = i.served;
    awake = completed-IsAwake c p i.awake;
  }
  Step-WorkerInv (called {c = c} {p = p} id) i = record {
    served = i.served;
    awake = IsAwake-same c (set_call_id id c) p refl refl i.awake;
  }
  Step-WorkerInv (answered {c = c} {p = p} r) i = record {
    served = i.served;
    awake = IsAwake-same c (set_response_pack r c) p refl refl i.awake;
  }
  Step-WorkerInv (unsent {c = c} {p = p} ec) i = record {
    served = i.served;
    awake = IsAwake-same c (send_failed ec c) p refl refl i.awake;
  }
  Step-WorkerInv (sends {c = c} {p = p} is_open stopped name pack) i =
      let (q, w) = send-same is_open stopped c name pack in
      record {
        served = subst (All (IsServed to_string service_map)) (sym q) i.served;
        awake =
            IsAwake-same c
              (sending_ctx
                (send to_string ((outside to_string service_map) is_open stopped) c name pack))
              p q w i.awake;
      }
  Step-WorkerInv (waits {c = c} {p = p}) i = record {
    served = i.served;
    awake = IsAwake-same c (send_waits c) p refl refl i.awake;
  }
  Step-WorkerInv (returns {c = c} {d = d} {p = p} left pack e) i =
      let (q, w) = send_returns-same left pack c d e in
      record {
        served = subst (All (IsServed to_string service_map)) (sym q) i.served;
        awake = IsAwake-same c d p q w i.awake;
      }
  Step-WorkerInv (filled {c = c} {expired = expired} {m = m} {old = old} new) i = record {
    served = i.served;
    awake = filled-IsAwake c expired m old new i.awake;
  }
  Step-WorkerInv (goes_on {c = c} {p = p} is_open stopped due) i =
      (resume-WorkerInv to_string service_map) is_open stopped (c, p) i due

  -- In every reachable state of a context to which only clients' messages and messages for services that
  -- there are have been pushed, the coroutine that works on the queue has not crashed, its message timer is
  -- pending only while the queue is empty, and while it waits for a service its timer is pending exactly as
  -- long as `notify_complete` has not been called: no wakeup is lost.
  pub Reach-WorkerInv :
      {s : Ctx × Point} → (Reach to_string service_map) s → (WorkerInv to_string service_map) s
  Reach-WorkerInv (start c e) = record {
    served = subst (All (IsServed to_string service_map)) (sym e) tt;
    awake = tt;
  }
  Reach-WorkerInv (step r t) = Step-WorkerInv t (Reach-WorkerInv r)
