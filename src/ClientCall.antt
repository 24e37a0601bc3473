-- ===== src/ClientCall.antt =====
-- Clients that call services: the session of src/coro_actor_session.cpp reads their messages and pushes them
-- to the context of src/coro_actor_ctx.cpp, whose coroutine answers them.
mod Tests
use coro_actor.Prelude.{
  ◌≡◌, refl, ap, sym, subst, ◌∙◌, ℕ, zero, suc, ◌+◌, Bool, true, false, Option, some, none, List,
  [], ◌∷◌, ◌++◌, Bytes, All, map, length, if◌then◌else◌, ◌==◌, inl, inr, arith, append_assoc,
  append-nil,
}
use coro_actor.Packet.{Pack}
use coro_actor.Net.{Asio}
use coro_actor.Session as Client
use coro_actor.Session.{Handled, handle_remote_pack}
use coro_actor.Session.Stream.{IsSendable, encode_all, with_pushed, handle_remote_pack-encode_all}
use coro_actor.Worker.{Msg, Ctx, Point, idle, Served, Outside, push_msg, open_or_none}
use coro_actor.Worker.Serves.{
  Written, to_client, served, answers, outputs_due, IsServable, outputs-answers,
  outputs_due-outputs,
}

-- The message that a session with the socket `s` makes of what it has read.
abbrev pub client_msg : ℕ → Client.Msg → Msg
client_msg s m = record {
  service_name = m.service_name;
  call_id = [];
  pack = m.pack;
  socket = some s;
  unix_socket = none;
}

-- The messages are pushed, one after the other.
pub push_all : List Msg → Ctx × Point → Ctx × Point
push_all [] t = t
push_all (m ∷ ms) t = push_all ms (push_msg m t)

due-if : (b : Bool) → (if b then idle true else idle true) ≡ idle true
due-if true = refl
due-if false = refl

push_all-due :
    (ms : List Msg) (c : Ctx)
    → push_all ms (c, idle true) ≡ (record c { msg_queue = c.msg_queue ++ ms }, idle true)
unfolding push_all push_msg
push_all-due [] c = ap (λ q. (record c { msg_queue = q }, idle true)) (sym (append-nil c.msg_queue))
push_all-due (m ∷ ms) c =
    let queue = c.msg_queue ++ m ∷ [] in
    let d = record c { msg_queue = queue } in
    ap (λ p. push_all ms (d, p)) (due-if (length queue == 1))
    ∙ push_all-due ms d
    ∙ ap (λ q. (record c { msg_queue = q }, idle true)) (append_assoc c.msg_queue (m ∷ []) ms)

-- The first message that comes to an empty queue wakes the coroutine.
push_all-wakes :
    (m : Msg) (ms : List Msg) (c : Ctx) (expired : Bool)
    → c.msg_queue ≡ []
    → push_all (m ∷ ms) (c, idle expired) ≡ (record c { msg_queue = m ∷ ms }, idle true)
unfolding push_all push_msg
push_all-wakes m ms c expired e = rw e (push_all-due ms (record c { msg_queue = m ∷ [] }))

with_pushed-pushed :
    {S : Type 0} (asio : Asio S) (ms : List Client.Msg) (h : Handled)
    → (with_pushed asio ms h).pushed ≡ ms ++ h.pushed
with_pushed-pushed asio [] h = refl
with_pushed-pushed asio (m ∷ ms) h = ap (◌∷◌ m) (with_pushed-pushed asio ms h)

-- What the client of the socket `s` is to get.
abbrev pub replies : Outside → ℕ → List Client.Msg → List Written
replies o s [] = []
replies o s (m ∷ ms) = to_client s (served o (client_msg s m)) ∷ replies o s ms

answers-client_msg :
    (o : Outside) (pid s : ℕ) (ms : List Client.Msg)
    → answers o pid (map (client_msg s) ms) ≡ replies o s ms
answers-client_msg o pid s [] = refl
answers-client_msg o pid s (m ∷ ms) =
    ap (◌∷◌ (to_client s (served o (client_msg s m)))) (answers-client_msg o pid s ms)

length-map : (s : ℕ) (ms : List Client.Msg) → length (map (client_msg s) ms) ≡ length ms
length-map s [] = refl
length-map s (m ∷ ms) = ap suc (length-map s ms)

-- The service of the message completes at once and without an error.
pub record IsOffered (o : Outside) (m : Client.Msg) : Type 0 where
  pub f : Pack → Served
  pub known : o.service_map m.service_name ≡ some f
  pub completes : (f m.pack).completed ≡ true
  pub succeeds : (f m.pack).error_msg ≡ []

offered-IsServable :
    (o : Outside) (closed : List ℕ) (s : ℕ) (ms : List Client.Msg)
    → ((c : Ctx) → c.closed ≡ closed → open_or_none o c (some s) ≡ true)
    → All (IsOffered o) ms
    → All (IsServable o closed) (map (client_msg s) ms)
offered-IsServable o closed s [] opens h = tt
offered-IsServable o closed s (m ∷ ms) opens h = (
  record {
    f = h.0.f;
    known = h.0.known;
    completes = h.0.completes;
    succeeds = h.0.succeeds;
    from = inl (s, refl);
    opens = opens;
    opens_unix = λ c e. refl;
  },
  offered-IsServable o closed s ms opens h.1,
)

outputs_due-answers :
    (o : Outside) (ms : List Msg) (c : Ctx) (expired : Bool)
    → c.msg_queue ≡ []
    → o.stopped ≡ false
    → All (IsServable o c.closed) ms
    → outputs_due (length ms) o (push_all ms (c, idle expired)) ≡ answers o c.pid ms
unfolding outputs_due
outputs_due-answers o [] c expired e runs h = refl
outputs_due-answers o (m ∷ ms) c expired e runs h =
    let d = record c { msg_queue = m ∷ ms } in
    ap (outputs_due (length (m ∷ ms)) o) (push_all-wakes m ms c expired e)
    ∙ outputs_due-outputs o (m ∷ ms) d (idle true) runs tt refl h refl
    ∙ (outputs-answers o (m ∷ ms) d (idle true) runs tt h refl).0

-- When a client has written messages whose lengths fit in their fields to an open connection, each for a
-- service that completes at once and without an error, and they are read by its session and pushed to a
-- context that waits for messages with an empty queue, with the io_context not stopped and the client's
-- socket open, then the coroutine, which goes on only where it is due, is given as many turns as there are
-- messages, and writes to the client the response of each service, in the order of the messages.
pub outputs-replies :
    {S : Type 0} (asio : Asio S) (o : Outside) (c : Ctx) (expired : Bool) (s : ℕ)
    (ms : List Client.Msg) (rest : Bytes) (connection : S)
    → All IsSendable ms
    → asio.is_open connection ≡ true
    → asio.arriving connection ≡ encode_all asio ms ++ rest
    → c.msg_queue ≡ []
    → o.stopped ≡ false
    → ((d : Ctx) → d.closed ≡ c.closed → open_or_none o d (some s) ≡ true)
    → All (IsOffered o) ms
    → outputs_due (length ms) o (
        push_all
          (map (client_msg s) (handle_remote_pack asio (length ms) connection).pushed)
          (c, idle expired))
      ≡ replies o s ms
unfolding handle_remote_pack
outputs-replies asio o c expired s ms rest connection sendable is_open arrives empty_queue runs
      opens offered =
    let (t, _, _, k) =
      handle_remote_pack-encode_all asio 0 ms rest connection sendable is_open arrives in
    let zero_more : length ms + 0 ≡ length ms = omega arith in
    let pushed : (handle_remote_pack asio (length ms) connection).pushed ≡ ms =
      sym (ap (λ n. (handle_remote_pack asio n connection).pushed) zero_more)
      ∙ ap (λ (h : Handled). h.pushed) k
      ∙ with_pushed-pushed asio ms (handle_remote_pack asio 0 t)
      ∙ append-nil ms in
    let msgs = map (client_msg s) ms in
    ap (λ l. outputs_due (length ms) o (push_all (map (client_msg s) l) (c, idle expired))) pushed
    ∙ ap (λ n. outputs_due n o (push_all msgs (c, idle expired))) (sym (length-map s ms))
    ∙ outputs_due-answers o msgs c expired empty_queue runs
        (offered-IsServable o c.closed s ms opens offered)
    ∙ answers-client_msg o c.pid s ms
