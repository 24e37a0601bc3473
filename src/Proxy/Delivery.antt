-- ===== src/Proxy/Delivery.antt =====
-- To whom `handle_proxy_handle_request` sends a packet.
use coro_actor.Prelude.{
  ℕ, ◌≡◌, refl, ◌∙◌, true, false, some, none, List, [], ◌∷◌, ◌++◌, Bytes, back, back-append, arith,
  Option, Option-cases, Bool-cases, inl, inr,
}
use coro_actor.Packet.{Request}
use coro_actor.Proxy.{
  Proxy, Found, chain, cyclic, ended, list_at, pointer_at, sends, forward, select, after_scan,
  scan_start, scan, scanned, route, handle_request, with_queue, update_actor_info,
}

-- The request `r` is on its way to `c`, in state `q`.
pub record OnItsWay (q : Proxy) (c : ℕ) (r : Request) : Type 0 where
  pub caller : ℕ
  pub known : pointer_at q.actor_pid_map r.pid ≡ some caller
  pub caller_waits : (q.actors caller).is_waiting ≡ true
  pub callee_free : (q.actors c).is_waiting ≡ false
  pub callee_in_call : (q.actors c).call_id ≡ r.call_id
  pub caller_in_call : (q.actors caller).call_id ≡ r.call_id
  pub last : back (chain q r.call_id) ≡ some c

-- What is said of `forward` and carries over to the functions around it.
pub record Goes (p : Proxy) (pack : Request) (q : Proxy) (c : ℕ) (r : Request) : Type 0 where
  pub way : OnItsWay q c r
  pub was_free : (p.actors c).is_waiting ≡ false
  pub same : r ≡ pack
  pub grows : chain q r.call_id ≡ chain p r.call_id ++ c ∷ []
  pub socket : (a : ℕ) → (q.actors a).socket ≡ (p.actors a).socket

forward-Goes :
    (p q : Proxy) (pack r : Request) (chosen : Option ℕ) (c : ℕ)
    → forward p pack chosen ≡ sends q c r
    → Goes p pack q c r
unfolding forward update_actor_info
forward-Goes p q pack r none c e = cc
forward-Goes p q pack r (some d) c e = elim (Option-cases (pointer_at p.actor_pid_map pack.pid)) [
  | inl unknown ↦ absurd (ground arith)
  | inr (k, known) ↦ record {
    way = record {
      caller = k;
      known = ground arith;
      caller_waits = ground arith;
      callee_free = ground arith;
      callee_in_call = ground arith;
      caller_in_call = ground arith;
      last = ground (arith, back-append (chain p pack.call_id) d);
    };
    was_free = ground arith;
    same = ground arith;
    grows = ground arith;
    socket = λ a. ground arith;
  }
]

after_scan-Goes :
    (p q : Proxy) (name : Bytes) (pack r : Request) (f : Found) (c : ℕ)
    → after_scan p name pack f ≡ sends q c r
    → Goes p pack q c r
after_scan-Goes p q name pack r (cyclic s rest) c e = cc
after_scan-Goes p q name pack r (ended s) c e =
    let g = forward-Goes (scanned p name s []) q pack r s.chosen c e in
    record { way = g.way; was_free = g.was_free; same = g.same; grows = g.grows; socket = g.socket }

select-Goes :
    (p q : Proxy) (pack r : Request) (name : Bytes) (l : List ℕ) (c : ℕ)
    → select p pack name l ≡ sends q c r
    → Goes p pack q c r
unfolding select
select-Goes p q pack r name [] c e = cc
select-Goes p q pack r name (a ∷ l) c e =
    after_scan-Goes p q name pack r (scan p pack.call_id (scan_start p a) (a ∷ l)) c e

-- How a packet gets from the queue of `af` to `c`.
pub record Delivery (p : Proxy) (af : ℕ) (q : Proxy) (c : ℕ) (r : Request) : Type 0 where
  pub on_its_way : OnItsWay q c r
  pub af_free : (p.actors af).is_waiting ≡ false
  pub callee_was_free : (p.actors c).is_waiting ≡ false
  pub rest : List Request
  pub front : (p.actors af).msg_queue ≡ r ∷ rest
  pub node : Bytes
  pub offered : p.service_map r.service_name ≡ some node
  pub grows : chain q r.call_id ≡ chain p r.call_id ++ c ∷ []
  pub socket : (a : ℕ) → (q.actors a).socket ≡ (p.actors a).socket

with_queue-free :
    (p : Proxy) (af c : ℕ) (rest : List Request)
    → ((with_queue p af rest).actors c).is_waiting ≡ false
    → (p.actors c).is_waiting ≡ false
with_queue-free p af c rest h = ground arith

with_queue-socket :
    (p : Proxy) (af a : ℕ) (rest : List Request)
    → ((with_queue p af rest).actors a).socket ≡ (p.actors a).socket
with_queue-socket p af a rest = ground arith

route-Delivery :
    (p q : Proxy) (af : ℕ) (l : List Request) (r : Request) (c : ℕ)
    → (p.actors af).is_waiting ≡ false
    → (p.actors af).msg_queue ≡ l
    → route p af l ≡ sends q c r
    → Delivery p af q c r
unfolding route
route-Delivery p q af [] r c free queue e = absurd (cc)
route-Delivery p q af (pack ∷ rest) r c free queue e =
    elim (Option-cases (p.service_map pack.service_name)) [
      | inl none_offers ↦ absurd (ground arith)
      | inr (name, offers) ↦
          let g =
            select-Goes (with_queue p af rest) q pack r name (list_at p.actor_info_map name) c
              (ground arith) in
          record {
            on_its_way = g.way;
            af_free = free;
            callee_was_free = with_queue-free p af c rest g.was_free;
            rest = rest;
            front = rw g.same queue;
            node = name;
            offered = rw g.same offers;
            grows = g.grows;
            socket = λ a. g.socket a ∙ with_queue-socket p af a rest;
          }
    ]

-- A request is sent only where neither the actor from whose queue it comes nor the one to which it
-- goes is waiting for a response. It is the front of that queue, its service is known, and once it
-- is on its way its caller waits, in the same call as the callee, who stands last in the chain.
pub handle_request-Delivery :
    (p q : Proxy) (af c : ℕ) (r : Request) → handle_request p af ≡ sends q c r → Delivery p af q c r
unfolding handle_request
handle_request-Delivery p q af c r e = elim (Bool-cases (p.actors af).is_waiting) [
  | inl waits ↦ absurd (ground arith)
  | inr free ↦ route-Delivery p q af (p.actors af).msg_queue r c free refl (ground arith)
]
