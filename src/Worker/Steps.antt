-- ===== src/Worker/Steps.antt =====
-- The coroutine of `handle_message` of src/coro_actor_ctx.cpp among what happens around it, as a step
-- relation, and its rounds.
use coro_actor.Prelude.{
  ◌≡◌, refl, sym, subst, ◌∙◌, ℕ, Bool, true, false, Option, some, none, List, [], ◌∷◌, Bytes, All,
  Option-cases, ◌⊎◌, inl, inr, if-both, arith, if◌then◌else◌,
}
use coro_actor.Packet.{Pack, Response}
use coro_actor.Worker.{
  Msg, Ctx, Point, idle, serving, writing_pack, writing_response, returned, crashed, Served,
  Outside, set_call_id, push_msg, notify_complete, completed, Round, again, suspended, close,
  respond, find_service, open_or_none, call_service, handle_one, handle_queue, handle_message,
  resume, go_on,
}
use coro_actor.Worker.Send.{
  send, sending_ctx, set_response_pack, send_failed, send_waits, send_returns,
}

-- Where the coroutine may be, given what it waits for.
abbrev pub IsAwake : Ctx → Point → Type 0
IsAwake c (idle true) = Unit
IsAwake c (idle false) = c.msg_queue ≡ []
IsAwake c (serving true m resp) = c.is_waiting ≡ false
IsAwake c (serving false m resp) = c.is_waiting ≡ true
IsAwake c (writing_pack s resp) = Unit
IsAwake c (writing_response s resp) = Unit
IsAwake c returned = Unit
IsAwake c crashed = ⊥

-- The coroutine goes on where its timer has been cancelled or its write is done.
abbrev pub IsDue : Point → Type 0
IsDue (idle expired) = expired ≡ true
IsDue (serving expired m resp) = expired ≡ true
IsDue (writing_pack s resp) = Unit
IsDue (writing_response s resp) = Unit
IsDue returned = ⊥
IsDue crashed = ⊥

module _ (to_string : ℕ → Bytes) (service_map : Bytes → Option (Pack → Served)) where
  -- A message of a client, or of a process that asks for a service that there is.
  abbrev pub IsServed : Msg → Type 0
  IsServed m =
      ((s : ℕ) × (m.socket ≡ some s))
      ⊎ ((f : Pack → Served) × (service_map m.service_name ≡ some f))

  abbrev pub outside : (ℕ → Bool) → Bool → Outside
  outside is_open stopped = record {
    service_map = service_map;
    is_open = is_open;
    stopped = stopped;
  }

  -- What may come next: a message, a response, the call id of an incoming request, the call of another
  -- service, the failure of its write or the wait after it and the return from this, a response that the
  -- service fills in, its end, or the coroutine going on.
  pub data Step : Ctx × Point → Ctx × Point → Type 0 where
    pushed : {s : Ctx × Point} → (m : Msg) → IsServed m → Step s (push_msg m s)
    completes : {s : Ctx × Point} → Step s (notify_complete s)
    called : {c : Ctx} {p : Point} → (id : Bytes) → Step (c, p) (set_call_id id c, p)
    answered : {c : Ctx} {p : Point} → (r : Response) → Step (c, p) (set_response_pack r c, p)
    unsent : {c : Ctx} {p : Point} → (ec : ℕ) → Step (c, p) (send_failed ec c, p)
    sends :
        {c : Ctx} {p : Point}
        → (is_open : ℕ → Bool) (stopped : Bool) (name : Bytes) (pack : Pack)
        → Step (c, p) (sending_ctx (send to_string (outside is_open stopped) c name pack), p)
    waits : {c : Ctx} {p : Point} → Step (c, p) (send_waits c, p)
    returns :
        {c d : Ctx} {p : Point}
        → (left : Bytes) (pack : Pack) → send_returns left c ≡ some (pack, d)
        → Step (c, p) (d, p)
    filled :
        {c : Ctx} {expired : Bool} {m : Msg} {old : Pack}
        → (new : Pack) → Step (c, serving expired m old) (c, serving expired m new)
    goes_on :
        {c : Ctx} {p : Point}
        → (is_open : ℕ → Bool) (stopped : Bool) → IsDue p
        → Step (c, p) (resume (outside is_open stopped) (c, p))

  pub data Reach : Ctx × Point → Type 0 where
    start : (c : Ctx) → c.msg_queue ≡ [] → Reach (c, idle true)
    step : {s t : Ctx × Point} → Reach s → Step s t → Reach t

  pub record WorkerInv (s : Ctx × Point) : Type 0 where
    pub served : All IsServed s.0.msg_queue
    pub awake : IsAwake s.0 s.1

  abbrev IsRound : List Msg → Round → Type 0
  IsRound queue (again c) = c.msg_queue ≡ queue
  IsRound queue (suspended c p) = (c.msg_queue ≡ queue) × IsAwake c p

  close-queue : (o : Option ℕ) (c : Ctx) → (close o c).msg_queue ≡ c.msg_queue
  close-queue none c = refl
  close-queue (some s) c = refl

  respond-IsRound : (c : Ctx) (m : Msg) (resp : Pack) → IsRound c.msg_queue (respond c m resp)
  respond-IsRound c m resp =
      let d = record c { error_msg = [] } in
      let q = close-queue m.unix_socket (close m.socket d) ∙ close-queue m.socket d in
      ground (arith, q)

  call_service-IsRound :
      (c : Ctx) (m : Msg) (served : Served) → IsRound c.msg_queue (call_service c m served)
  call_service-IsRound c m served =
      let d = record c { call_id = m.call_id; is_waiting = true; error_msg = served.error_msg } in
      elim served.completed
        as (λ b. IsRound c.msg_queue (
          if b
          then respond (completed d) m served.response_pack
          else suspended d (serving false m served.response_pack))) [
            | true ↦ respond-IsRound (completed d) m served.response_pack
            | false ↦ (refl, refl)
          ]

  module _ (is_open : ℕ → Bool) (stopped : Bool) where
    abbrev o : Outside
    o = outside is_open stopped

    find_service-IsRound :
        (c : Ctx) (m : Msg) → IsServed m → IsRound c.msg_queue (find_service o c m)
    find_service-IsRound c m h = elim (Option-cases (service_map m.service_name)) [
      | inr (f, e) ↦ rw e (call_service-IsRound c m (f m.pack))
      | inl e ↦ rw e (elim h [ inl (s, k) ↦ rw k refl | inr (f, k) ↦ absurd (cc) ])
    ]

    handle_one-IsRound : (c : Ctx) (m : Msg) → IsServed m → IsRound c.msg_queue (handle_one o c m)
    unfolding handle_one
    handle_one-IsRound c m h =
        if-both (IsRound c.msg_queue) (open_or_none o c m.socket)
          {x = if open_or_none o c m.unix_socket then find_service o c m else again c} {y = again c}
          (if-both (IsRound c.msg_queue) (open_or_none o c m.unix_socket) {x = find_service o c m}
            {y = again c} (find_service-IsRound c m h) refl)
          refl

    IsRound-go_on :
        (queue : List Msg) (r : Round) (loop : Ctx → Ctx × Point)
        → All IsServed queue
        → IsRound queue r
        → ((c : Ctx) → c.msg_queue ≡ queue → WorkerInv (loop c))
        → WorkerInv (go_on r loop)
    IsRound-go_on queue (again c) loop h k next = next c k
    IsRound-go_on queue (suspended c p) loop h k next = record {
      served = subst (All IsServed) (sym k.0) h;
      awake = k.1;
    }

    handle_queue-WorkerInv :
        (queue : List Msg) (c : Ctx) → All IsServed queue → WorkerInv (handle_queue o queue c)
    unfolding handle_queue
    handle_queue-WorkerInv [] c h =
        if-both (λ p. WorkerInv (record c { msg_queue = [] }, p)) stopped {x = returned}
          {y = idle false} (record { served = tt; awake = tt })
          (record { served = tt; awake = refl })
    handle_queue-WorkerInv (m ∷ left) c h =
        let d = record c { msg_queue = left } in
        if-both WorkerInv stopped {x = (record c { msg_queue = m ∷ left }, returned)}
          {y = go_on (handle_one o d m) (handle_queue o left)} (record { served = h; awake = tt })
          (IsRound-go_on left (handle_one o d m) (handle_queue o left) h.1
            (handle_one-IsRound d m h.0) (λ e k. handle_queue-WorkerInv left e h.1))

    pub resume-WorkerInv : (s : Ctx × Point) → WorkerInv s → IsDue s.1 → WorkerInv (resume o s)
    unfolding resume handle_message
    resume-WorkerInv (c, idle expired) i due = handle_queue-WorkerInv c.msg_queue c i.served
    resume-WorkerInv (c, serving expired m resp) i due =
        IsRound-go_on c.msg_queue (respond c m resp) (handle_message o) i.served
          (respond-IsRound c m resp)
          (λ d k. handle_queue-WorkerInv d.msg_queue d (subst (All IsServed) (sym k) i.served))
    resume-WorkerInv (c, writing_pack s resp) i due = handle_queue-WorkerInv c.msg_queue c i.served
    resume-WorkerInv (c, writing_response s resp) i due =
        handle_queue-WorkerInv c.msg_queue c i.served
    resume-WorkerInv (c, returned) i due = absurd due
    resume-WorkerInv (c, crashed) i due = absurd due
