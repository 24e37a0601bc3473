-- ===== src/Proxy/Exchange.antt =====
-- A call between two free actors in the proxy of src/coro_actor.cpp: the request, the response, and the
-- state that it leaves.
pub mod Ready
use coro_actor.Prelude.{
  append-nil, ◌≡◌, ◌≢◌, refl, ap, sym, subst, ◌∙◌, ℕ, Bool, true, false, some, List, [], ◌∷◌, ◌++◌,
  Bytes, All, All-map, All-middle, arith,
}
use coro_actor.Prelude.Map.{insert, insert_self, bytes_key, nat_key}
use coro_actor.Proxy.Tables.{list_at-insert_self}
use coro_actor.Packet.{request, response, Request, Response}
use coro_actor.Proxy.{
  Proxy, sends, returned, chain, list_at, pointer_at, forward, handle_request, select, route,
  enqueue, extend_chain, with_queue, scanned, update_actor_info,
}
use coro_actor.Proxy.Choice.{IsOpen, walking, select-Least}
use coro_actor.Proxy.Deal.{
  looped, writing, next_packet, then_caller, request_written, response_written, start_chain,
  deal_request, deal_response, continue_with, resume, wake_callee, wake_caller,
}
use coro_actor.Proxy.Calls.{with_chain, deal_response-chain}

-- Where the queue is empty there is nothing to do.
handle_request-empty :
    (p : Proxy) (af : ℕ) → (p.actors af).msg_queue ≡ [] → handle_request p af ≡ returned p
unfolding handle_request route
handle_request-empty p af e = ground (arith, e)

update_actor_info-queue :
    (p : Proxy) (a : ℕ) (id : Bytes) (w : Bool) (b : ℕ)
    → ((update_actor_info p a id w).actors b).msg_queue ≡ (p.actors b).msg_queue
unfolding update_actor_info
update_actor_info-queue p a id w b = ground arith

wake_caller-empty :
    (p : Proxy) (resp : Response) (k : ℕ)
    → chain p resp.call_id ≡ k ∷ []
    → (p.actors k).msg_queue ≡ []
    → wake_caller p resp ≡ looped (update_actor_info p k resp.call_id false)
unfolding wake_caller
wake_caller-empty p resp k e queue =
    let q = update_actor_info p k resp.call_id false in
    rw (e, wake_caller)
      (ap (λ d. continue_with next_packet d looped)
        (handle_request-empty q k (update_actor_info-queue p k resp.call_id false k ∙ queue)))

wake_callee-empty :
    (p : Proxy) (resp : Response) (k c : ℕ)
    → (p.actors c).msg_queue ≡ []
    → chain p resp.call_id ≡ k ∷ []
    → (p.actors k).msg_queue ≡ []
    → wake_callee p resp c
      ≡ looped (update_actor_info (update_actor_info p c [] false) k resp.call_id false)
unfolding wake_callee update_actor_info
wake_callee-empty p resp k c empty e queue =
    let q = update_actor_info p c [] false in
    ap (λ d. continue_with (then_caller resp) d (λ t. wake_caller t resp))
      (handle_request-empty q c (update_actor_info-queue p c [] false c ∙ empty))
    ∙ wake_caller-empty q resp k e (update_actor_info-queue p c [] false k ∙ queue)

-- An actor that can take a request of the call `id` at once, and that is not the actor `k`.
pub record IsFree (p : Proxy) (id : Bytes) (k c : ℕ) : Type 0 where
  pub is_open : p.is_open (p.actors c).socket ≡ true
  pub is_waiting : (p.actors c).is_waiting ≡ false
  pub msg_queue : (p.actors c).msg_queue ≡ []
  pub in_call : (p.actors c).call_id ≢ id
  pub other : k ≢ c

-- An actor of the group of `a` and `l`, free to take the request.
pub record Chosen (p : Proxy) (id : Bytes) (k a : ℕ) (l : List ℕ) : Type 0 where
  pub callee : ℕ
  pub before : List ℕ
  pub after : List ℕ
  pub split : a ∷ l ≡ before ++ callee ∷ after
  pub free : IsFree p id k callee

-- The actor `k` has started the call of `r` and is in no call of another actor's, has nothing else to ask
-- and does not wait; and the group that offers the service has the actor `a` and those of `l`, all of
-- them free.
pub record IsReady (p : Proxy) (r : Request) (k : ℕ) (name : Bytes) (a : ℕ) (l : List ℕ)
    : Type 0 where
  pub known : pointer_at p.actor_pid_map r.pid ≡ some k
  pub is_waiting : (p.actors k).is_waiting ≡ false
  pub msg_queue : (p.actors k).msg_queue ≡ []
  pub started : chain p r.call_id ≡ k ∷ []
  pub offered : p.service_map r.service_name ≡ some name
  pub group : list_at p.actor_info_map name ≡ a ∷ l
  pub free : All (IsFree p r.call_id k) (a ∷ l)

module _ (p : Proxy) (r : Request) (k : ℕ) (name : Bytes) (a : ℕ) (l : List ℕ) where
  -- The state in which the group is searched.
  abbrev pub searched : Proxy
  searched = with_queue (enqueue p k r) k []

  -- The state in which the request is on its way to `c`.
  pub sent : ℕ → Proxy
  unfolding update_actor_info
  sent c =
      let q = scanned searched name (walking searched searched.actor_pid_map (a ∷ l) c) [] in
      update_actor_info (extend_chain (update_actor_info q k r.call_id true) r.call_id c) c
        r.call_id false

  forward-sent :
      (c : ℕ)
      → IsReady p r k name a l
      → IsFree p r.call_id k c
      → forward
          (scanned searched name (walking searched searched.actor_pid_map (a ∷ l) c) [])
          r
          (some c)
        ≡ sends (sent c) c r
  unfolding forward update_actor_info sent
  forward-sent c h f = ground (arith, h.known, f.is_waiting, f.other)

  searched-IsOpen : (b : ℕ) → IsFree p r.call_id k b → IsOpen searched b
  searched-IsOpen b f = ground (arith, f.is_open, f.other)

  searched-Other : (b : ℕ) → IsFree p r.call_id k b → (searched.actors b).call_id ≢ r.call_id
  searched-Other b f = λ e. f.in_call (ground (arith, f.other, e))

  select-sent :
      IsReady p r k name a l
      → (c : Chosen p r.call_id k a l) × (select searched r name (a ∷ l)
          ≡ sends (sent c.callee) c.callee r)
  select-sent h =
      let (c, m, e) =
        select-Least searched r name a l (All-map searched-IsOpen (a ∷ l) h.free)
          (All-map searched-Other (a ∷ l) h.free) in
      let f =
        All-middle (IsFree p r.call_id k) m.before m.after
          (subst (All (IsFree p r.call_id k)) m.split h.free) in
      (
        record { callee = c; before = m.before; after = m.after; split = m.split; free = f },
        e ∙ forward-sent c h f,
      )

  handle_request-select :
      IsReady p r k name a l → handle_request (enqueue p k r) k ≡ select searched r name (a ∷ l)
  unfolding handle_request route
  handle_request-select h = ground (arith, h.is_waiting, h.msg_queue, h.offered, h.group)

  sent-socket : (c b : ℕ) → ((sent c).actors b).socket ≡ (p.actors b).socket
  unfolding sent update_actor_info
  sent-socket c b = ground arith

  -- On a free group the request is written to one of its actors at once.
  pub handle_request-sent :
      IsReady p r k name a l
      → (c : Chosen p r.call_id k a l) × (handle_request (enqueue p k r) k
          ≡ sends (sent c.callee) c.callee r)
  handle_request-sent h = let (c, e) = select-sent h in (c, handle_request-select h ∙ e)

  sent-chain : (c : ℕ) → IsReady p r k name a l → chain (sent c) r.call_id ≡ k ∷ c ∷ []
  unfolding sent update_actor_info
  sent-chain c h =
      list_at-insert_self p.actor_call_chain_map r.call_id (chain p r.call_id ++ c ∷ [])
      ∙ ap (λ (ks : List ℕ). ks ++ c ∷ []) h.started

  sent-queue_callee : (c : ℕ) → IsFree p r.call_id k c → ((sent c).actors c).msg_queue ≡ []
  unfolding sent update_actor_info
  sent-queue_callee c f = ground (arith, f.msg_queue, f.other)

  sent-queue_caller : (c : ℕ) → k ≢ c → ((sent c).actors k).msg_queue ≡ []
  unfolding sent update_actor_info
  sent-queue_caller c other = ground (arith, other)

  -- A response of the call goes back to the connection of `k`.
  pub deal_response-sent :
      (c : ℕ) (resp : Response)
      → IsReady p r k name a l
      → resp.call_id ≡ r.call_id
      → deal_response (sent c) resp
        ≡ writing
            (with_chain (sent c) r.call_id (k ∷ []))
            (p.actors k).socket
            (response resp)
            (response_written resp c)
  deal_response-sent c resp h same =
      deal_response-chain (sent c) resp r.call_id (k ∷ []) k c same (sent-chain c h) refl
      ∙ ap
          (λ s.
            writing (with_chain (sent c) r.call_id (k ∷ [])) s (response resp)
              (response_written resp c))
          (sent-socket c k)

  -- The state when the response has been written.
  pub ended : ℕ → Proxy
  unfolding update_actor_info
  ended c =
      update_actor_info (update_actor_info (with_chain (sent c) r.call_id (k ∷ [])) c [] false) k
        r.call_id false

  -- Both actors go on: neither has anything left to do.
  pub resume-ended :
      (c : ℕ) (resp : Response)
      → IsFree p r.call_id k c
      → resp.call_id ≡ r.call_id
      → resume (with_chain (sent c) r.call_id (k ∷ [])) (response_written resp c) false
        ≡ looped (ended c)
  unfolding resume ended
  resume-ended c resp f same =
      wake_callee-empty (with_chain (sent c) r.call_id (k ∷ [])) resp k c (sent-queue_callee c f)
        (rw same (list_at-insert_self (sent c).actor_call_chain_map r.call_id (k ∷ [])))
        (sent-queue_caller c f.other)
      ∙ rw same refl

start_chain-pids :
    (p : Proxy) (r : Request) (k : ℕ) → (start_chain p r k).actor_pid_map ≡ p.actor_pid_map
start_chain-pids p r k = ground arith

-- Where the state with the call in it is ready, a request is written to an actor of the group at once.
pub deal_request-sent :
    (p : Proxy) (r : Request) (k : ℕ) (name : Bytes) (a : ℕ) (l : List ℕ)
    → IsReady (start_chain p r k) r k name a l
    → (c : Chosen (start_chain p r k) r.call_id k a l) × (deal_request p r
        ≡ writing
            (sent (start_chain p r k) r k name a l c.callee)
            ((start_chain p r k).actors c.callee).socket
            (request r)
            (request_written r c.callee next_packet))
unfolding deal_request
deal_request-sent p r k name a l h =
    let p0 = start_chain p r k in
    let (c, e) = handle_request-sent p0 r k name a l h in
    let known : pointer_at p.actor_pid_map r.pid ≡ some k =
      subst (λ m. pointer_at m r.pid ≡ some k) (start_chain-pids p r k) h.known in
    let q = sent p0 r k name a l c.callee in
    (
      c,
      rw (known, deal_request)
          (rw e (
            ap (λ s. writing q s (request r) (request_written r c.callee next_packet))
              (sent-socket p0 r k name a l c.callee c.callee))),
    )
