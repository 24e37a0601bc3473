-- ===== src/Proxy/Calls.antt =====
-- A call and its response through the chain of its call id.
use coro_actor.Prelude.{
  ℕ, ◌≡◌, ap, ◌∙◌, some, List, [], ◌∷◌, ◌++◌, Bytes, back, back-append, pop_back-append, arith,
  Option-cases, inl, inr,
}
use coro_actor.Prelude.Map.{insert, bytes_key}
use coro_actor.Packet.{Packet, request, response, Request, Response}
use coro_actor.Proxy.{
  Proxy, chain, pointer_at, returned, sends, fault, Dispatch, forward, enqueue, update_actor_info,
  handle_request,
}
use coro_actor.Proxy.Deal.{
  looped, writing, next_packet, request_written, response_written, start_chain, deal_request,
  deal_response, continue_with,
}
use coro_actor.Proxy.Delivery.{handle_request-Delivery}

abbrev pub with_chain : Proxy → Bytes → List ℕ → Proxy
with_chain p id l = record p { actor_call_chain_map = insert p.actor_call_chain_map id l }

-- A response goes to the last but one of the chain, and the last one leaves the chain.
pub deal_response-chain :
    (p : Proxy) (r : Response) (id : Bytes) (l : List ℕ) (caller callee : ℕ)
    → r.call_id ≡ id
    → chain p id ≡ l ++ callee ∷ []
    → back l ≡ some caller
    → deal_response p r
      ≡ writing
          (with_chain p id l)
          (p.actors caller).socket
          (response r)
          (response_written r callee)
unfolding deal_response
deal_response-chain p r id l caller callee same e last =
    rw same (ground (arith, back-append l callee, pop_back-append l callee))

-- The state in which a request of `k` is handled.
abbrev received : Proxy → Request → ℕ → Proxy
received p r k = enqueue (start_chain p r k) k r

-- A write of a request comes from a dispatch that sends it.
continue_with-writing :
    (d : Dispatch) (q : Proxy) (s c : ℕ) (r : Request) (pk : Packet)
    → continue_with next_packet d looped ≡ writing q s pk (request_written r c next_packet)
    → (d ≡ sends q c r) × (s ≡ (q.actors c).socket) × (pk ≡ request r)
continue_with-writing (returned p) q s c r pk e = cc
continue_with-writing (sends p d t) q s c r pk e = (ground arith, ground arith, ground arith)
continue_with-writing fault q s c r pk e = cc

received-socket :
    (p : Proxy) (r : Request) (k a : ℕ) → ((received p r k).actors a).socket ≡ (p.actors a).socket
received-socket p r k a = ground arith

received-chain :
    (p : Proxy) (r : Request) (k : ℕ)
    → chain (received p r k) r.call_id ≡ chain (start_chain p r k) r.call_id
received-chain p r k = ground arith

-- Let the actor `k` send the request `r` when it stands at the end of the chain of its call, as it
-- does where the call is new. If the proxy then writes `r` to an actor `c`,
-- it writes to the connection of `c`; and a response of the same call that comes next goes to the
-- connection of `k`, with the chain as it was before `c` joined it.
pub call_returns :
    (p q : Proxy) (r : Request) (resp : Response) (k c s : ℕ) (pk : Packet)
    → pointer_at p.actor_pid_map r.pid ≡ some k
    → back (chain (start_chain p r k) r.call_id) ≡ some k
    → deal_request p r ≡ writing q s pk (request_written r c next_packet)
    → resp.call_id ≡ r.call_id
    → (s ≡ (p.actors c).socket)
      × (pk ≡ request r)
      × (deal_response q resp
          ≡ writing
              (with_chain q r.call_id (chain (start_chain p r k) r.call_id))
              (p.actors k).socket
              (response resp)
              (response_written resp c))
unfolding deal_request
call_returns p q r resp k c s pk known last e same =
    let (d, f, g) =
      continue_with-writing (handle_request (received p r k) k) q s c r pk
        (rw (known, deal_request) at e) in
    let v = handle_request-Delivery (received p r k) q k c r d in
    (
      f ∙ v.socket c ∙ received-socket p r k c,
      g,
      deal_response-chain q resp r.call_id (chain (start_chain p r k) r.call_id) k c same
            (v.grows ∙ ap (λ l. l ++ c ∷ []) (received-chain p r k)) last
          ∙ ap
              (λ t.
                writing (with_chain q r.call_id (chain (start_chain p r k) r.call_id)) t
                  (response resp) (response_written resp c))
              (v.socket k ∙ received-socket p r k k),
    )

deferred-chain :
    (p p1 : Proxy) (r : Request) (c : ℕ)
    → forward p r (some c) ≡ returned p1
    → chain p1 r.call_id ≡ chain p r.call_id ++ c ∷ []
unfolding forward update_actor_info
deferred-chain p p1 r c e = elim (Option-cases (pointer_at p.actor_pid_map r.pid)) [
  | inl unknown ↦ absurd (ground arith)
  | inr (k, known) ↦ ground arith
]

-- A request that was kept in the queue of a waiting actor `c` joins the chain a second time when it
-- is sent at last, to `d`. A response of the same call that comes next is then written to the
-- connection of `c`, whoever made the call, and `c` stays in the chain.
pub deferred_misroutes :
    (p p1 p2 q : Proxy) (r : Request) (resp : Response) (c d : ℕ)
    → forward p r (some c) ≡ returned p1
    → chain p2 r.call_id ≡ chain p1 r.call_id
    → handle_request p2 c ≡ sends q d r
    → resp.call_id ≡ r.call_id
    → deal_response q resp
      ≡ writing
          (with_chain q r.call_id (chain p r.call_id ++ c ∷ []))
          (q.actors c).socket
          (response resp)
          (response_written resp d)
deferred_misroutes p p1 p2 q r resp c d kept kept_chain sent same =
    let v = handle_request-Delivery p2 q c d r sent in
    deal_response-chain q resp r.call_id (chain p r.call_id ++ c ∷ []) c d same
      (v.grows ∙ ap (λ l. l ++ d ∷ []) (kept_chain ∙ deferred-chain p p1 r c kept))
      (back-append (chain p r.call_id) c)
