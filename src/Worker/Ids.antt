-- ===== src/Worker/Ids.antt =====
-- The call ids of src/coro_actor_ctx.cpp: `send` counts the calls that start a chain, and nothing else changes
-- their number.
use coro_actor.Prelude.{
  ◌≡◌, ◌≢◌, refl, ◌∙◌, ℕ, ◌+◌, ◌^◌, ◌<◌, ◌≤◌, Bool, true, false, Option, some, none, List, [], ◌∷◌,
  Bytes, Option-cases, inl, inr, if-both, arith, if◌then◌else◌,
}
use coro_actor.Packet.{Pack, Request}
use coro_actor.Worker.{
  Msg, Ctx, Point, idle, serving, writing_pack, writing_response, returned, crashed, Served,
  Outside, set_call_id, push_msg, notify_complete, completed, Round, again, suspended, close,
  respond, find_service, open_or_none, call_service, handle_one, handle_queue, handle_message,
  resume, go_on,
}
use coro_actor.Worker.Send.{
  writes, send, sending_ctx, set_response_pack, send_failed, send_waits, send_returns,
}
use coro_actor.Worker.Steps.{
  outside, Step, pushed, completes, called, answered, unsent, sends, waits, returns, filled,
  goes_on,
}
use coro_actor.Worker.Calls.{call_id-distinct}

abbrev Keeps : Ctx → Ctx → Type 0
Keeps c d = (d.seq ≡ c.seq) × (d.pid ≡ c.pid)

Keeps-trans : (c d e : Ctx) → Keeps c d → Keeps d e → Keeps c e
Keeps-trans c d e h k = (k.0 ∙ h.0, k.1 ∙ h.1)

abbrev RoundKeeps : Ctx → Round → Type 0
RoundKeeps c (again d) = Keeps c d
RoundKeeps c (suspended d p) = Keeps c d

close-Keeps : (s : Option ℕ) (c : Ctx) → Keeps c (close s c)
close-Keeps none c = (refl, refl)
close-Keeps (some s) c = (refl, refl)

respond-Keeps : (c : Ctx) (m : Msg) (resp : Pack) → RoundKeeps c (respond c m resp)
respond-Keeps c m resp =
    let d = record c { error_msg = [] } in
    let q = close-Keeps m.socket d in
    let r = close-Keeps m.unix_socket (close m.socket d) in ground (arith, q, r)

call_service-Keeps : (c : Ctx) (m : Msg) (served : Served) → RoundKeeps c (call_service c m served)
call_service-Keeps c m served =
    let d = record c { call_id = m.call_id; is_waiting = true; error_msg = served.error_msg } in
    elim served.completed
      as (λ b. RoundKeeps c (
        if b
        then respond (completed d) m served.response_pack
        else suspended d (serving false m served.response_pack))) [
          | true ↦ respond-Keeps (completed d) m served.response_pack
          | false ↦ (refl, refl)
        ]

module _ (o : Outside) where
  find_service-Keeps : (c : Ctx) (m : Msg) → RoundKeeps c (find_service o c m)
  find_service-Keeps c m = elim (Option-cases (o.service_map m.service_name)) [
    | inr (f, e) ↦ rw (e, RoundKeeps, find_service) (call_service-Keeps c m (f m.pack))
    | inl e ↦
        rw (e, RoundKeeps, find_service)
          (elim (Option-cases m.socket) [
            | inr (s, k) ↦ rw k (refl, refl)
            | inl k ↦ rw k (refl, refl)
          ])
  ]

  handle_one-Keeps : (c : Ctx) (m : Msg) → RoundKeeps c (handle_one o c m)
  unfolding handle_one
  handle_one-Keeps c m =
      if-both (RoundKeeps c) (open_or_none o c m.socket)
        {x = if open_or_none o c m.unix_socket then find_service o c m else again c} {y = again c}
        (if-both (RoundKeeps c) (open_or_none o c m.unix_socket) {x = find_service o c m}
          {y = again c} (find_service-Keeps c m) (refl, refl))
        (refl, refl)

  go_on-Keeps :
      (c : Ctx) (r : Round) (loop : Ctx → Ctx × Point)
      → RoundKeeps c r
      → ((d : Ctx) → Keeps d (loop d).0)
      → Keeps c (go_on r loop).0
  go_on-Keeps c (again d) loop h next = Keeps-trans c d (loop d).0 h (next d)
  go_on-Keeps c (suspended d p) loop h next = h

  handle_queue-Keeps : (queue : List Msg) (c : Ctx) → Keeps c (handle_queue o queue c).0
  unfolding handle_queue
  handle_queue-Keeps [] c = (refl, refl)
  handle_queue-Keeps (m ∷ left) c =
      let d = record c { msg_queue = left } in
      if-both (λ (s : Ctx × Point). Keeps c s.0) o.stopped
        {x = (record c { msg_queue = m ∷ left }, returned)}
        {y = go_on (handle_one o d m) (handle_queue o left)} (refl, refl)
        (go_on-Keeps d (handle_one o d m) (handle_queue o left) (handle_one-Keeps d m)
          (handle_queue-Keeps left))

  resume-Keeps : (c : Ctx) (p : Point) → Keeps c (resume o (c, p)).0
  unfolding resume handle_message
  resume-Keeps c (idle expired) = handle_queue-Keeps c.msg_queue c
  resume-Keeps c (serving expired m resp) =
      go_on-Keeps c (respond c m resp) (handle_message o) (respond-Keeps c m resp)
        (λ d. handle_queue-Keeps d.msg_queue d)
  resume-Keeps c (writing_pack s resp) = handle_queue-Keeps c.msg_queue c
  resume-Keeps c (writing_response s resp) = handle_queue-Keeps c.msg_queue c
  resume-Keeps c returned = (refl, refl)
  resume-Keeps c crashed = (refl, refl)

module _ (to_string : ℕ → Bytes) (service_map : Bytes → Option (Pack → Served)) where
  -- The states that come after `s`, as long as the number of calls does not wrap around.
  pub data Follows (s : Ctx × Point) : Ctx × Point → Type 0 where
    now : Follows s s
    later :
        {t u : Ctx × Point}
        → Follows s t
        → t.0.seq + 1 < 2 ^ 32
        → (Step to_string service_map) t u
        → Follows s u

  -- The process is the same, and the number of its calls has not gone down.
  abbrev IsAfter : Ctx → Ctx → Type 0
  IsAfter c d = (c.seq ≤ d.seq) × (d.pid ≡ c.pid)

  Keeps-IsAfter : (c d : Ctx) → Keeps c d → IsAfter c d
  Keeps-IsAfter c d h = (omega (arith, h.0), h.1)

  send-IsAfter :
      (o : Outside) (c : Ctx) (name : Bytes) (pack : Pack)
      → c.seq + 1 < 2 ^ 32
      → IsAfter c (sending_ctx (send to_string o c name pack))
  unfolding send
  send-IsAfter o c name pack h = ground (arith, h)

  send_returns-Keeps :
      (left : Bytes) (pack : Pack) (c d : Ctx) → send_returns left c ≡ some (pack, d) → Keeps c d
  unfolding send_returns
  send_returns-Keeps left pack c d e = ground (arith, e)

  Step-IsAfter :
      {s t : Ctx × Point}
      → (Step to_string service_map) s t
      → s.0.seq + 1 < 2 ^ 32
      → IsAfter s.0 t.0
  unfolding push_msg notify_complete set_call_id set_response_pack send_failed send_waits
  Step-IsAfter (pushed {s = (c, p)} m h) b = (omega arith, refl)
  Step-IsAfter (completes {s = (c, p)}) b = (omega arith, refl)
  Step-IsAfter (called id) b = (omega arith, refl)
  Step-IsAfter (answered r) b = (omega arith, refl)
  Step-IsAfter (unsent ec) b = (omega arith, refl)
  Step-IsAfter (sends {c = c} is_open stopped name pack) b =
      send-IsAfter ((outside to_string service_map) is_open stopped) c name pack b
  Step-IsAfter waits b = (omega arith, refl)
  Step-IsAfter (returns {c = c} {d = d} left pack e) b =
      Keeps-IsAfter c d (send_returns-Keeps left pack c d e)
  Step-IsAfter (filled new) b = (omega arith, refl)
  Step-IsAfter (goes_on {c = c} {p = p} is_open stopped due) b =
      let o = (outside to_string service_map) is_open stopped in
      Keeps-IsAfter c (resume o (c, p)).0 (resume-Keeps o c p)

  Follows-IsAfter : {s t : Ctx × Point} → Follows s t → IsAfter s.0 t.0
  Follows-IsAfter now = (omega arith, refl)
  Follows-IsAfter {s = s} (later {t = t} {u = u} f bound step) =
      let (n, p) = Follows-IsAfter f in
      let (m, q) = Step-IsAfter step bound in (omega (arith, n, m), q ∙ p)

  -- Where a process makes a call that starts a chain, and after any steps of its context, as Worker.Steps has
  -- them for messages that can be served, makes another one that starts a chain, with fewer than 2^32 - 1
  -- calls counted before each of the steps and before the second call, the call ids of the two requests
  -- differ, the text of a number determining the number.
  pub send-distinct :
      (injective : (m n : ℕ) → to_string m ≡ to_string n → m ≡ n)
      → (is_open is_open_then : ℕ → Bool) (stopped stopped_then : Bool) (c c1 d d1 : Ctx)
        (p q : Point) (name other : Bytes) (pack more : Pack) (r s : Request)
      → c.call_id ≡ []
      → send to_string ((outside to_string service_map) is_open stopped) c name pack ≡ writes c1 r
      → Follows (c1, p) (d, q)
      → d.seq + 1 < 2 ^ 32
      → d.call_id ≡ []
      → send to_string ((outside to_string service_map) is_open_then stopped_then) d other more
        ≡ writes d1 s
      → r.call_id ≢ s.call_id
  send-distinct injective is_open is_open_then stopped stopped_then c c1 d d1 p q name other pack
        more r s starts sent follows bound starts_too sent_too =
      let (n, same) = Follows-IsAfter follows in
      (call_id-distinct to_string) injective
        ((outside to_string service_map) is_open_then stopped_then)
        ((outside to_string service_map) is_open stopped) c d name other pack more c1 d1 r s starts
        sent same n bound starts_too sent_too
