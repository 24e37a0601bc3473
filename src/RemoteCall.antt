-- ===== src/RemoteCall.antt =====
-- A service that calls a service of another process: `coro_actor_ctx::send` of src/coro_actor_ctx.cpp in
-- the caller, the proxy of src/coro_actor.cpp between them, and the context of the callee.
mod Tests
use coro_actor.Prelude.{
  ◌≡◌, refl, sym, subst, ◌∙◌, ap, ℕ, Bool, true, false, some, none, Option, List, [], ◌∷◌, ◌++◌,
  Bytes, All, All-middle, arith,
}
use coro_actor.Packet.{Pack, Packet, request, response, Request, Response}
use coro_actor.Proxy.{Proxy, handle_request_sent}
use coro_actor.Proxy.Deal
use coro_actor.Proxy.Deal.{
  looped, writing, next_packet, request_written, response_written, start_chain, deal_request,
  deal_response,
}
use coro_actor.Proxy.Calls.{with_chain}
use coro_actor.Proxy.Exchange.{
  IsReady, Chosen, sent, ended, deal_request-sent, deal_response-sent, resume-ended,
}
use coro_actor.Worker
use coro_actor.Worker.{Msg, Ctx, Point, idle, writing_response, Served, Outside}
use coro_actor.Worker.Send.{send, writes, message_of, deliver, send_returns, send_waits}
use coro_actor.Worker.Calls.{
  IsAnswerable, answered_ctx, response_to, deliver-answers, send_returns-deliver,
  resume_if_due-waits, send-call_id,
}

-- The other processes: the context of each actor, what is outside of it, and its socket to the proxy.
pub record Peers : Type 0 where
  pub ctx : ℕ → Ctx
  pub outside : ℕ → Outside
  pub socket : ℕ → ℕ

module _ (p : Proxy) (r : Request) (k : ℕ) (name : Bytes) (a : ℕ) (l : List ℕ) (peers : Peers)
    (f : Pack → Served) where
  -- The state of the proxy with the call in it, with the request on its way to `c`, and after it.
  abbrev p0 : Proxy
  p0 = start_chain p r k

  abbrev p1 : ℕ → Proxy
  p1 c = sent p0 r k name a l c

  abbrev p2 : ℕ → Proxy
  p2 c = with_chain (p1 c) r.call_id (k ∷ [])

  abbrev answer_of : ℕ → Response
  answer_of c =
      response_to (peers.ctx c) (message_of (peers.socket c) r) (f r.request_pack).response_pack

  -- The actor `c` waits for messages, and its service `f` completes at once and without an error.
  abbrev pub Answers : ℕ → Type 0
  Answers c =
      IsAnswerable (peers.outside c) (message_of (peers.socket c) r) [] (peers.socket c) f
        (peers.ctx c)

  -- The whole way of the request to `c` and of its response, where the context of the caller is `d` when it
  -- has written the request.
  pub record IsCompleted (d : Ctx) (c : ℕ) : Type 0 where
    -- The proxy writes the request to `c` and goes on to the head of its loop.
    pub forwarded :
        deal_request p r
        ≡ writing (p1 c) (p0.actors c).socket (request r) (request_written r c next_packet)
    pub goes_on : Deal.resume (p1 c) (request_written r c next_packet) false ≡ looped (p1 c)
    -- The coroutine of `c` is woken, and writes the response of the service; then it waits for messages.
    pub served :
        (moved : Bytes)
        → Worker.resume_if_due (peers.outside c) (
            deliver
              (peers.socket c)
              moved
              (request r)
              (record (peers.ctx c) { msg_queue = [] }, idle false))
          ≡ (answered_ctx (peers.ctx c) [], writing_response (peers.socket c) (answer_of c))
    pub waits :
        Worker.resume_if_due
          (peers.outside c)
          (answered_ctx (peers.ctx c) [], writing_response (peers.socket c) (answer_of c))
        ≡ (answered_ctx (peers.ctx c) [], idle false)
    -- The proxy writes the response to the caller and goes on to the head of its loop.
    pub sent_back :
        deal_response (p1 c) (answer_of c)
        ≡ writing
            (p2 c)
            (p0.actors k).socket
            (response (answer_of c))
            (response_written (answer_of c) c)
    pub ends :
        Deal.resume (p2 c) (response_written (answer_of c) c) false
        ≡ looped (ended p0 r k name a l c)
    -- `send` waits until the response comes, and returns its pack then, in the same call.
    pub still_waits : (left : Bytes) → send_returns left (send_waits d) ≡ none
    pub received :
        (point : Point) (moved left : Bytes)
        → send_returns left
            (deliver (peers.socket k) moved (response (answer_of c)) (send_waits d, point)).0
          ≡ some (
            (f r.request_pack).response_pack,
            record d {
              curr_resp_pack = record (answer_of c) {
                response_pack = record (f r.request_pack).response_pack { value = left };
              };
            },
          )
    pub same_call : d.call_id ≡ r.call_id

  -- Let the request `r` be written by `send` in the actor `k`, where nothing else waits for a response.
  -- Let the proxy be ready for it: the call is started by `k` alone, and all actors of the group that
  -- offers the service are free. Let each of them wait for messages, with a service that completes at
  -- once and without an error. Then the proxy writes the request to one of the group, whose coroutine is
  -- woken, writes its service's response and waits for messages again; the proxy writes this response to
  -- the connection of `k`; and `send`, which waits until then, is woken and returns the pack of the
  -- service, its context still in the same call. The proxy's coroutines go on to the heads of their loops.
  pub deal_request-IsCompleted :
      (to_string : ℕ → Bytes) (service : Bytes) (pack : Pack) (d : Ctx)
      → send to_string (peers.outside k) (peers.ctx k) service pack ≡ writes d r
      → d.response_notify_timer ≡ record { waiting = 0; due = 0 }
      → IsReady p0 r k name a l
      → All Answers (a ∷ l)
      → (c : Chosen p0 r.call_id k a l) × IsCompleted d c.callee
  unfolding Deal.resume handle_request_sent
  deal_request-IsCompleted to_string service pack d asks alone h answers =
      let (c, e) = deal_request-sent p r k name a l h in
      let here = All-middle Answers c.before c.after (subst (All Answers) c.split answers) in
      (
        c,
        record {
          forwarded = e;
          goes_on = refl;
          served = λ moved.
              deliver-answers (peers.outside c.callee) (peers.ctx c.callee) r
                (peers.socket c.callee) f moved here;
          waits =
              resume_if_due-waits (peers.outside c.callee) (peers.ctx c.callee)
                (peers.socket c.callee) (answer_of c.callee) here.runs;
          sent_back = deal_response-sent p0 r k name a l c.callee (answer_of c.callee) h refl;
          ends = resume-ended p0 r k name a l c.callee (answer_of c.callee) c.free refl;
          still_waits = λ left.
              (send_returns-deliver (peers.socket k) [] left (answer_of c.callee) d (idle false)
                alone).2;
          received = λ point moved left.
              (send_returns-deliver (peers.socket k) moved left (answer_of c.callee) d point
                alone).0;
          same_call = send-call_id to_string (peers.outside k) (peers.ctx k) service pack d r asks;
        },
      )
