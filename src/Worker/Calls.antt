-- ===== src/Worker/Calls.antt =====
-- What the context of src/coro_actor_ctx.cpp sends: requests under their call ids, and the responses to
-- the requests of other processes.
use coro_actor.Prelude.{
  ◌≡◌, ◌≢◌, refl, ap, sym, subst, ◌∙◌, ℕ, ◌+◌, ◌^◌, ◌%◌, ◌<◌, ◌≤◌, true, false, some, none, List,
  [], ◌∷◌, ◌++◌, Bytes, All, ◌⊎◌, inl, inr, codes, arith,
}
use coro_actor.Packet.{response, request, Pack, Request, Response}
use coro_actor.Worker.{
  Point, idle, resume, resume_if_due, push_msg, set_call_id, Msg, Ctx, writing_response, Served,
  Outside, handle_one, handle_queue, handle_message, open_or_none, go_on, again, suspended,
}
use coro_actor.Worker.Send.{
  message_of, send_returns, send_waits, set_response_pack, deliver, writes, send,
}

-- The rest of a list without its first byte.
tail : Bytes → Bytes
tail [] = []
tail (x ∷ l) = l

append-cancel : (l a b : Bytes) → l ++ a ≡ l ++ b → a ≡ b
unfolding tail
append-cancel [] a b e = e
append-cancel (x ∷ l) a b e = append-cancel l a b (ap tail e)

module _ (to_string : ℕ → Bytes) where
  id_of : Ctx → Bytes
  id_of c = to_string c.pid ++ (codes "-" ++ to_string ((c.seq + 1) % 2 ^ 32))

  send-first :
      (o : Outside) (c : Ctx) (name : Bytes) (pack : Pack) (d : Ctx) (r : Request)
      → c.call_id ≡ []
      → send to_string o c name pack ≡ writes d r
      → r.call_id ≡ id_of c
  unfolding send id_of
  send-first o c name pack d r e s = ground arith

  send-seq :
      (o : Outside) (c : Ctx) (name : Bytes) (pack : Pack) (d : Ctx) (r : Request)
      → c.call_id ≡ []
      → send to_string o c name pack ≡ writes d r
      → (d.seq ≡ (c.seq + 1) % 2 ^ 32) × (d.pid ≡ c.pid)
  unfolding send
  send-seq o c name pack d r e s = ground (arith, e, s)

  -- The context keeps the call id that the request carries.
  pub send-call_id :
      (o : Outside) (c : Ctx) (name : Bytes) (pack : Pack) (d : Ctx) (r : Request)
      → send to_string o c name pack ≡ writes d r
      → d.call_id ≡ r.call_id
  unfolding send
  send-call_id o c name pack d r s = ground (arith, s)

  -- Two calls that start chains, the second with a number of calls not below what the first has left.
  pub call_id-distinct :
      (injective : (m n : ℕ) → to_string m ≡ to_string n → m ≡ n)
      → (o before : Outside) (c d : Ctx) (name other : Bytes) (pack more : Pack) (c1 d1 : Ctx)
        (r s : Request)
      → c.call_id ≡ []
      → send to_string before c name pack ≡ writes c1 r
      → d.pid ≡ c1.pid
      → c1.seq ≤ d.seq
      → d.seq + 1 < 2 ^ 32
      → d.call_id ≡ []
      → send to_string o d other more ≡ writes d1 s
      → r.call_id ≢ s.call_id
  unfolding id_of
  call_id-distinct injective o before c d name other pack more c1 d1 r s ec sc same later bound ed
        sd e =
      let (seq, pid) = send-seq before c name pack c1 r ec sc in
      let ids : id_of c ≡ id_of d =
        sym (send-first before c name pack c1 r ec sc) ∙ e ∙ send-first o d other more d1 s ed sd in
      let tails =
        append-cancel (to_string d.pid) (codes "-" ++ to_string ((c.seq + 1) % 2 ^ 32))
          (codes "-" ++ to_string ((d.seq + 1) % 2 ^ 32))
          (subst
            (λ p.
              to_string p ++ (codes "-" ++ to_string ((c.seq + 1) % 2 ^ 32))
              ≡ to_string d.pid ++ (codes "-" ++ to_string ((d.seq + 1) % 2 ^ 32)))
            (sym pid ∙ sym same) ids) in
      let seqs = injective _ _ (append-cancel (codes "-") _ _ tails) in
      omega (arith, seqs, seq, later, bound)

-- Messages that the loop drops, since their client or the proxy has gone.
abbrev pub IsGone : Outside → Ctx → Msg → Type 0
IsGone o c m =
    (open_or_none o c m.socket ≡ false)
    ⊎ ((open_or_none o c m.socket ≡ true) × (open_or_none o c m.unix_socket ≡ false))

handle_one-gone : (o : Outside) (c : Ctx) (m : Msg) → IsGone o c m → handle_one o c m ≡ again c
unfolding handle_one
handle_one-gone o c m (inl e) = rw e refl
handle_one-gone o c m (inr (e, f)) = rw (e, f) refl

-- The context and the response after a request of another process whose service completes at once.
abbrev pub answered_ctx : Ctx → List Msg → Ctx
answered_ctx c left = record c {
  msg_queue = left;
  call_id = [];
  error_msg = [];
  is_waiting = false;
}

abbrev pub response_to : Ctx → Msg → Pack → Response
response_to c m resp = record {
  pid = c.pid;
  call_id = m.call_id;
  service_name = m.service_name;
  response_pack = resp;
}

module _ (o : Outside) (m : Msg) (left : List Msg) (u : ℕ) (f : Pack → Served) where
  -- The request comes from the proxy alone, whose socket is open, for a service that completes without an
  -- error.
  pub record IsAnswerable (c : Ctx) : Type 0 where
    pub runs : o.stopped ≡ false
    pub no_client : m.socket ≡ none
    pub from_proxy : m.unix_socket ≡ some u
    pub is_open : open_or_none o c (some u) ≡ true
    pub known : o.service_map m.service_name ≡ some f
    pub completes : (f m.pack).completed ≡ true
    pub succeeds : (f m.pack).error_msg ≡ []

  handle_one-answers :
      (c : Ctx)
      → IsAnswerable c
      → handle_one o (record c { msg_queue = left }) m
        ≡ suspended
            (answered_ctx c left)
            (writing_response u (response_to c m (f m.pack).response_pack))
  unfolding handle_one
  handle_one-answers c h =
      ground (arith, h.no_client, h.from_proxy, h.is_open, h.known, h.completes, h.succeeds)

  handle_queue-answers :
      (gone : List Msg) (c : Ctx)
      → All (IsGone o c) gone
      → IsAnswerable c
      → handle_queue o (gone ++ m ∷ left) c
        ≡ (answered_ctx c left, writing_response u (response_to c m (f m.pack).response_pack))
  unfolding handle_queue
  handle_queue-answers [] c g h =
      rw h.runs (ap (λ r. go_on r (handle_queue o left)) (handle_one-answers c h))
  handle_queue-answers (x ∷ gone) c g h =
      let d = record c { msg_queue = gone ++ m ∷ left } in
      rw h.runs (
        ap (λ r. go_on r (handle_queue o (gone ++ m ∷ left))) (handle_one-gone o d x g.0)
        ∙ handle_queue-answers gone d g.1 (record {
          runs = h.runs;
          no_client = h.no_client;
          from_proxy = h.from_proxy;
          is_open = h.is_open;
          known = h.known;
          completes = h.completes;
          succeeds = h.succeeds;
        }))

  -- Where the first messages of the queue have lost their sockets, and the next one is a request that the
  -- proxy has forwarded, on an open socket, for a service that completes at once and without an error, the
  -- loop drops those messages and writes to the proxy the response of this service under the call id, the
  -- service name of the request and its own pid; the messages behind it stay in the queue in their order.
  pub handle_message-answers :
      (gone : List Msg) (c : Ctx)
      → All (IsGone o c) gone
      → IsAnswerable c
      → c.msg_queue ≡ gone ++ m ∷ left
      → handle_message o c
        ≡ (answered_ctx c left, writing_response u (response_to c m (f m.pack).response_pack))
  unfolding handle_message
  handle_message-answers gone c g h e =
      ap (λ q. handle_queue o q c) e ∙ handle_queue-answers gone c g h

module _ (o : Outside) (c : Ctx) (r : Request) (u : ℕ) (f : Pack → Served) where
  -- When a request arrives from the proxy, on an open socket, at a context whose coroutine waits for
  -- messages with an empty queue, and its service completes at once and without an error, the coroutine
  -- is due to go on, and writes the service's response to the proxy under the call id and the service name
  -- of the request, whatever is left of the call id that has been moved.
  pub deliver-answers :
      (moved : Bytes)
      → IsAnswerable o (message_of u r) [] u f c
      → resume_if_due o (deliver u moved (request r) (record c { msg_queue = [] }, idle false)) ≡ (
        answered_ctx c [],
        writing_response u (response_to c (message_of u r) (f r.request_pack).response_pack),
      )
  unfolding resume deliver push_msg set_call_id
  deliver-answers moved h =
      handle_message-answers o (message_of u r) [] u f []
        (record c { msg_queue = (message_of u r) ∷ []; call_id = moved }) tt
        (record {
          runs = h.runs;
          no_client = h.no_client;
          from_proxy = h.from_proxy;
          is_open = h.is_open;
          known = h.known;
          completes = h.completes;
          succeeds = h.succeeds;
        })
        refl

-- When the response is written and the queue is empty, the coroutine waits for messages.
pub resume_if_due-waits :
    (o : Outside) (c : Ctx) (u : ℕ) (resp : Response)
    → o.stopped ≡ false
    → resume_if_due o (answered_ctx c [], writing_response u resp) ≡ (answered_ctx c [], idle false)
unfolding resume handle_message handle_queue
resume_if_due-waits o c u resp e = rw e refl

-- A coroutine that alone waits in `send` goes on when the response arrives.
pub send_returns-deliver :
    (u : ℕ) (moved left : Bytes) (r : Response) (c : Ctx) (p : Point)
    → c.response_notify_timer ≡ record { waiting = 0; due = 0 }
    → (send_returns left (deliver u moved (response r) (send_waits c, p)).0
        ≡ some (
          r.response_pack,
          record c {
            curr_resp_pack = record r { response_pack = record r.response_pack { value = left } };
          },
        ))
      × ((deliver u moved (response r) (send_waits c, p)).1 ≡ p)
      × (send_returns left (send_waits c) ≡ none)
unfolding deliver set_response_pack send_waits send_returns
send_returns-deliver u moved left r c p e = rw e (refl, refl, refl)
