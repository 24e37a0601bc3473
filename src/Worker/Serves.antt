-- ===== src/Worker/Serves.antt =====
-- The coroutine of `handle_message` of src/coro_actor_ctx.cpp over several messages, against a server that
-- answers a list of them.
use coro_actor.Prelude.{
  ◌≡◌, refl, ap, sym, ◌∙◌, ℕ, zero, suc, true, false, some, none, List, [], ◌∷◌, ◌++◌, All, length,
  ◌⊎◌, inl, inr, arith,
}
use coro_actor.Packet.{Pack, Response}
use coro_actor.Worker.{
  Msg, Ctx, Point, idle, serving, writing_pack, writing_response, returned, crashed, Served,
  Outside, suspended, handle_one, handle_queue, handle_message, resume, is_due, resume_if_due,
  open_or_none, go_on,
}
use coro_actor.Worker.Calls.{answered_ctx}

-- What is written: a pack to a client, or a response to the proxy.
pub data Written : Type 0 where
  to_client : ℕ → Pack → Written
  to_proxy : ℕ → Response → Written

-- The server: the response of the message's service, to where the message has come from.
abbrev pub served : Outside → Msg → Pack
served o m = elim (o.service_map m.service_name) [
  | none ↦ m.pack
  | some f ↦ (f m.pack).response_pack
]

abbrev pub response_of : Outside → ℕ → Msg → Response
response_of o pid m = record {
  pid = pid;
  call_id = m.call_id;
  service_name = m.service_name;
  response_pack = served o m;
}

abbrev pub answer : Outside → ℕ → Msg → List Written
answer o pid m = elim m.socket [
  | some s ↦ to_client s (served o m) ∷ []
  | none ↦ elim m.unix_socket [ some u ↦ to_proxy u (response_of o pid m) ∷ [] | none ↦ [] ]
]

abbrev pub answers : Outside → ℕ → List Msg → List Written
answers o pid [] = []
answers o pid (m ∷ l) = answer o pid m ++ answers o pid l

-- What the coroutine writes while it goes on `n` times, and where it is then.
abbrev pub written : Point → List Written
written (idle expired) = []
written (serving expired m resp) = []
written (writing_pack s resp) = to_client s resp ∷ []
written (writing_response s resp) = to_proxy s resp ∷ []
written returned = []
written crashed = []

pub outputs : ℕ → Outside → Ctx × Point → List Written
outputs zero o s = []
outputs (suc n) o s = let t = resume o s in written t.1 ++ outputs n o t

-- What it writes when it is given `n` turns, of which it takes those for which it is due.
unfoldable pub outputs_due : ℕ → Outside → Ctx × Point → List Written
outputs_due zero o s = []
outputs_due (suc n) o s = let t = resume_if_due o s in written t.1 ++ outputs_due n o t

-- The state of the coroutine then.
pub after : ℕ → Outside → Ctx × Point → Ctx × Point
after zero o s = s
after (suc n) o s = after n o (resume o s)

-- The message's sockets are open, it has one, and its service completes at once and without an error.
pub record IsServable (o : Outside) (closed : List ℕ) (m : Msg) : Type 0 where
  pub f : Pack → Served
  pub known : o.service_map m.service_name ≡ some f
  pub completes : (f m.pack).completed ≡ true
  pub succeeds : (f m.pack).error_msg ≡ []
  pub from :
      ((s : ℕ) × (m.socket ≡ some s)) ⊎ ((m.socket ≡ none) × ((u : ℕ) × (m.unix_socket ≡ some u)))
  pub opens : (c : Ctx) → c.closed ≡ closed → open_or_none o c m.socket ≡ true
  pub opens_unix : (c : Ctx) → c.closed ≡ closed → open_or_none o c m.unix_socket ≡ true

-- The coroutine works on the queue when it goes on from here.
abbrev pub Works : Point → Type 0
Works (idle expired) = Unit
Works (serving expired m resp) = ⊥
Works (writing_pack s resp) = Unit
Works (writing_response s resp) = Unit
Works returned = ⊥
Works crashed = ⊥

resume-handles :
    (o : Outside) (c : Ctx) (p : Point) → Works p → resume o (c, p) ≡ handle_message o c
unfolding resume
resume-handles o c (idle expired) h = refl
resume-handles o c (serving expired m resp) h = absurd h
resume-handles o c (writing_pack s resp) h = refl
resume-handles o c (writing_response s resp) h = refl
resume-handles o c returned h = absurd h
resume-handles o c crashed h = absurd h

module _ (o : Outside) where
  -- The point at which the answer to a message is written.
  record IsWriting (c : Ctx) (m : Msg) (left : List Msg) : Type 0 where
    pub point : Point
    pub handled :
        handle_one o (record c { msg_queue = left }) m ≡ suspended (answered_ctx c left) point
    pub writes : written point ≡ answer o c.pid m
    pub works : Works point
    pub due : is_due point ≡ true

  handle_one-IsWriting :
      (c : Ctx) (m : Msg) (left : List Msg) → IsServable o c.closed m → IsWriting c m left
  unfolding handle_one
  handle_one-IsWriting c m left h =
      let d = record c { msg_queue = left } in
      let open1 = h.opens d refl in
      let open2 = h.opens_unix d refl in
      elim h.from [
        | inl (s, e) ↦ record {
          point = writing_pack s (served o m);
          handled = ground (arith, e, open1, open2, h.known, h.completes, h.succeeds);
          writes = rw (e, answer) refl;
          works = tt;
          due = refl;
        }
        | inr (e, (u, g)) ↦ record {
          point = writing_response u (response_of o c.pid m);
          handled = ground (arith, e, g, open1, open2, h.known, h.completes, h.succeeds);
          writes = rw (e, g, answer) refl;
          works = tt;
          due = refl;
        }
      ]

  next_message :
      (c : Ctx) (p : Point) (m : Msg) (left : List Msg)
      → o.stopped ≡ false
      → Works p
      → c.msg_queue ≡ m ∷ left
      → (w : IsWriting c m left) → resume o (c, p) ≡ (answered_ctx c left, w.point)
  unfolding handle_message handle_queue
  next_message c p m left runs h e w =
      resume-handles o c p h
      ∙ ap (λ q. handle_queue o q c) e
      ∙ rw runs (ap (λ r. go_on r (handle_queue o left)) w.handled)

  no_message :
      (c : Ctx) (p : Point)
      → o.stopped ≡ false
      → Works p
      → c.msg_queue ≡ []
      → resume o (c, p) ≡ (record c { msg_queue = [] }, idle false)
  unfolding handle_message handle_queue
  no_message c p runs h e = resume-handles o c p h ∙ ap (λ q. handle_queue o q c) e ∙ rw runs refl

  -- Let the coroutine go on from where it works on the queue, with the io_context not stopped, each message
  -- of the queue with a socket, with its sockets open, and with a service that completes at once and without
  -- an error. Then it writes, one each time it goes on, exactly what the server answers to these messages,
  -- in their order, and waits for messages with an empty queue when it goes on once more.
  pub outputs-answers :
      (ms : List Msg) (c : Ctx) (p : Point)
      → o.stopped ≡ false
      → Works p
      → All (IsServable o c.closed) ms
      → c.msg_queue ≡ ms
      → (outputs (length ms) o (c, p) ≡ answers o c.pid ms)
        × ((resume o (after (length ms) o (c, p))).1 ≡ idle false)
  unfolding outputs after
  outputs-answers [] c p runs h served_all e =
      (refl, ap (λ (s : Ctx × Point). s.1) (no_message c p runs h e))
  outputs-answers (m ∷ left) c p runs h served_all e =
      let w = handle_one-IsWriting c m left served_all.0 in
      let next = next_message c p m left runs h e w in
      let rest =
        outputs-answers left (answered_ctx c left) w.point runs w.works served_all.1 refl in
      (
        ap (λ (t : Ctx × Point). written t.1 ++ outputs (length left) o t) next
            ∙ ap (λ l. l ++ outputs (length left) o (answered_ctx c left, w.point)) w.writes
            ∙ ap (λ l. answer o c.pid m ++ l) rest.0,
        ap (λ t. (resume o (after (length left) o t)).1) next ∙ rest.1,
      )

  resume_if_due-resume :
      (c : Ctx) (p : Point) → is_due p ≡ true → resume_if_due o (c, p) ≡ resume o (c, p)
  resume_if_due-resume c p due = rw due refl

  -- The coroutine is due for each of its turns until the queue is empty.
  pub outputs_due-outputs :
      (ms : List Msg) (c : Ctx) (p : Point)
      → o.stopped ≡ false
      → Works p
      → is_due p ≡ true
      → All (IsServable o c.closed) ms
      → c.msg_queue ≡ ms
      → outputs_due (length ms) o (c, p) ≡ outputs (length ms) o (c, p)
  unfolding outputs outputs_due
  outputs_due-outputs [] c p runs h due served_all e = refl
  outputs_due-outputs (m ∷ left) c p runs h due served_all e =
      let w = handle_one-IsWriting c m left served_all.0 in
      let next = next_message c p m left runs h e w in
      let d = answered_ctx c left in
      let rest = outputs_due-outputs left d w.point runs w.works w.due served_all.1 refl in
      ap (λ (t : Ctx × Point). written t.1 ++ outputs_due (length left) o t)
        (resume_if_due-resume c p due ∙ next)
      ∙ ap (λ l. written w.point ++ l) rest
      ∙ sym (ap (λ (t : Ctx × Point). written t.1 ++ outputs (length left) o t) next)
