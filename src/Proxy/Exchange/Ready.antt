-- ===== src/Proxy/Exchange/Ready.antt =====
-- The proxy of src/coro_actor.cpp after a request and its response between two free actors.
use coro_actor.Prelude.{
  append-nil, ◌≡◌, ◌≢◌, refl, sym, subst, ◌∙◌, ℕ, false, some, List, [], ◌∷◌, ◌++◌, Bytes, All,
  All-map, arith,
}
use coro_actor.Prelude.Map.{insert, insert_self, bytes_key, nat_key}
use coro_actor.Proxy.Tables.{list_at-insert_self}
use coro_actor.Packet.{request, response, Request, Response}
use coro_actor.Proxy.{Proxy, chain, list_at, update_actor_info, handle_request_sent}
use coro_actor.Proxy.Deal.{
  looped, writing, next_packet, request_written, response_written, start_chain, deal_request,
  deal_response, resume,
}
use coro_actor.Proxy.Calls.{with_chain}
use coro_actor.Proxy.Exchange
use coro_actor.Proxy.Exchange.{
  IsFree, IsReady, Chosen, sent, ended, deal_request-sent, deal_response-sent, resume-ended,
}

module _ (p : Proxy) (r : Request) (k : ℕ) (name : Bytes) (a : ℕ) (l : List ℕ) (c : ℕ) where
  ended-free :
      (b : ℕ)
      → r.call_id ≢ []
      → IsFree p r.call_id k b
      → IsFree (ended p r k name a l c) r.call_id k b
  unfolding ended sent update_actor_info
  ended-free b ne f = record {
    is_open = ground (arith, f.is_open, f.other);
    is_waiting = ground (arith, f.is_waiting, f.other);
    msg_queue = ground (arith, f.msg_queue, f.other);
    in_call = λ e. ground (arith, f.in_call, f.other, ne, e);
    other = f.other;
  }

  ended-caller :
      (((ended p r k name a l c).actors k).is_waiting ≡ false)
      × (((ended p r k name a l c).actors k).msg_queue ≡ [])
  unfolding ended sent update_actor_info
  ended-caller = (ground arith, ground arith)

  ended-chain : (ended p r k name a l c).actor_call_chain_map r.call_id ≡ some (k ∷ [])
  unfolding ended sent update_actor_info
  ended-chain =
      insert_self (insert p.actor_call_chain_map r.call_id (chain p r.call_id ++ c ∷ [])) r.call_id
        (k ∷ [])

  ended-group : list_at (ended p r k name a l c).actor_info_map name ≡ a ∷ l
  unfolding ended sent update_actor_info
  ended-group = list_at-insert_self p.actor_info_map name ((a ∷ l) ++ []) ∙ append-nil (a ∷ l)

  ended-pids : (ended p r k name a l c).actor_pid_map ≡ p.actor_pid_map
  unfolding ended sent update_actor_info
  ended-pids = refl

  ended-services : (ended p r k name a l c).service_map ≡ p.service_map
  unfolding ended sent update_actor_info
  ended-services = refl

  -- Nobody waits, the chain is that of the caller alone, and the actor that has served the call is in it no
  -- more.
  ended-IsReady :
      (next : Request)
      → r.call_id ≢ []
      → next.pid ≡ r.pid
      → next.call_id ≡ r.call_id
      → p.service_map next.service_name ≡ some name
      → IsReady p r k name a l
      → IsReady (start_chain (ended p r k name a l c) next k) next k name a l
  ended-IsReady next ne same_pid same_call offered h =
      let q = ended p r k name a l c in
      let stays : start_chain q next k ≡ q = rw (same_call, ended-chain, start_chain) refl in
      let started_r : chain q r.call_id ≡ k ∷ [] = rw (ended-chain, list_at) refl in
      rw stays (record {
        known = rw (ended-pids, same_pid) h.known;
        is_waiting = ended-caller.0;
        msg_queue = ended-caller.1;
        started = rw same_call started_r;
        offered = rw ended-services offered;
        group = ended-group;
        free =
            subst (λ id. All (IsFree q id k) (a ∷ l)) (sym same_call)
              (All-map (λ b f. ended-free b ne f) (a ∷ l) h.free);
      })

start_chain-services :
    (p : Proxy) (r : Request) (k : ℕ) → (start_chain p r k).service_map ≡ p.service_map
start_chain-services p r k = ground arith

-- The request of `k` and its response `resp` pass through the proxy, from `p` to `last`, by way of the actor
-- `c`, in four steps: what comes in is written, and the coroutine goes on when the write is done.
pub record IsExchanged (p : Proxy) (r : Request) (resp : Response) (k c : ℕ) (last : Proxy)
    : Type 0 where
  pub sent : Proxy
  pub answered : Proxy
  pub forwarded :
      deal_request p r
      ≡ writing sent
          ((start_chain p r k).actors c).socket
          (request r)
          (request_written r c next_packet)
  pub goes_on : resume sent (request_written r c next_packet) false ≡ looped sent
  pub sent_back :
      deal_response sent resp
      ≡ writing answered
          ((start_chain p r k).actors k).socket
          (response resp)
          (response_written resp c)
  pub ends : resume answered (response_written resp c) false ≡ looped last

-- Let the proxy be ready for a request of the actor `k` with a call id that is not empty. Then the request is
-- written to an actor of the group, any response of the same call that comes next is written to `k`, and
-- when both writes are done and both coroutines have gone on, the proxy is ready for the next request of
-- the same process and call, for any service of the same group.
pub deal_response-IsReady :
    (p : Proxy) (r next : Request) (resp : Response) (k : ℕ) (name : Bytes) (a : ℕ) (l : List ℕ)
    → IsReady (start_chain p r k) r k name a l
    → r.call_id ≢ []
    → resp.call_id ≡ r.call_id
    → next.pid ≡ r.pid
    → next.call_id ≡ r.call_id
    → p.service_map next.service_name ≡ some name
    → (c : Chosen (start_chain p r k) r.call_id k a l) × (last : Proxy) × IsExchanged p r resp k
        c.callee last
      × IsReady (start_chain last next k) next k name a l
unfolding resume handle_request_sent
deal_response-IsReady p r next resp k name a l h ne same same_pid same_call offered =
    let p0 = start_chain p r k in
    let (c, e) = deal_request-sent p r k name a l h in
    let q1 = Exchange.sent p0 r k name a l c.callee in
    let known : p0.service_map next.service_name ≡ some name =
      subst (λ m. m next.service_name ≡ some name) (sym (start_chain-services p r k)) offered in
    (
      c,
      ended p0 r k name a l c.callee,
      record {
        sent = q1;
        answered = with_chain q1 r.call_id (k ∷ []);
        forwarded = e;
        goes_on = refl;
        sent_back = deal_response-sent p0 r k name a l c.callee resp h same;
        ends = resume-ended p0 r k name a l c.callee resp c.free same;
      },
      ended-IsReady p0 r k name a l c.callee next ne same_pid same_call known h,
    )
