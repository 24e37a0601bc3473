-- ===== src/Proxy/Rounds.antt =====
-- A round of `handle_proxy_deal_actor` keeps the tables sound: from a write that has ended here, and
-- from a packet that is read in the child module.
pub mod Packets
use coro_actor.Prelude.{
  ℕ, suc, ◌+◌, ◌≤◌, ◌<◌, ◌≡◌, ◌≢◌, refl, Bool, true, false, Option, some, none, List, [], ◌∷◌, ◌++◌,
  Bytes, All, All-append, All-map, All-back, All-pop_back, arith, inl, inr, Option-cases, length,
  back, pop_back,
}
use coro_actor.Prelude.Map.{Map, insert, bytes_key, nat_key}
use coro_actor.Packet.{
  Packet, connect, connack, request, response, other, Connect, Request, Response,
}
use coro_actor.Proxy.{
  Proxy, chain, extend_chain, list_at, pointer_at, update_actor_info, enqueue, Dispatch, returned,
  sends, fault, handle_request, handle_request_sent,
}
use coro_actor.Proxy.Deal.{
  Next, next_packet, then_caller, Point, connack_written, request_written, response_written,
  Outcome, looped, writing, crashed, continue_with, wake_caller, wake_callee, deal_connect,
  start_chain, deal_request, deal_response, deal, go_on, resume,
}
use coro_actor.Proxy.Tables.{at-update, list_at-insert, pointer_at-insert}
use coro_actor.Proxy.Sound.{
  Known, IsSound, Grows, From, From-refl, From-trans, append-ne-nil, update_actor_info-From,
  enqueue-From, extend_chain-From, set_chain-From,
}
use coro_actor.Proxy.Safety.{IsSafe, IsSafe-trans, handle_request-IsSafe}

abbrev pub IsNext : Proxy → Next → Type 0
IsNext p next_packet = Unit
IsNext p (then_caller r) = chain p r.call_id ≢ []

-- What the local variables of a suspended coroutine name is there.
abbrev pub IsPoint : Proxy → Point → Type 0
IsPoint p connack_written = Unit
IsPoint p (request_written r c next) = Known p r.pid × (c < p.next_actor) × IsNext p next
IsPoint p (response_written r c) = (c < p.next_actor) × (chain p r.call_id ≢ [])

-- A round that does not crash and keeps the tables sound.
abbrev pub IsFine : Proxy → Outcome → Type 0
IsFine p (looped q) = From p q
IsFine p (writing q w packet point) = From p q × IsPoint q point
IsFine p crashed = ⊥

IsFine-trans : {p q : Proxy} (o : Outcome) → From p q → IsFine q o → IsFine p o
IsFine-trans (looped r) g h = From-trans g h
IsFine-trans (writing r w packet point) g h = (From-trans g h.0, h.1)
IsFine-trans crashed g h = h

IsNext-Grows : {p q : Proxy} (n : Next) → Grows p q → IsNext p n → IsNext q n
IsNext-Grows next_packet g h = tt
IsNext-Grows (then_caller r) g h = g.chains r.call_id h

pub IsPoint-Grows : {p q : Proxy} (t : Point) → Grows p q → IsPoint p t → IsPoint q t
IsPoint-Grows connack_written g h = tt
IsPoint-Grows (request_written r c n) g h = (g.known r.pid h.0, omega arith, IsNext-Grows n g h.2)
IsPoint-Grows (response_written r c) g h = (omega arith, g.chains r.call_id h.1)

pub continue_with-IsFine :
    (p : Proxy) (n : Next) (d : Dispatch) (rest : Proxy → Outcome)
    → IsSafe p d
    → IsNext p n
    → ((q : Proxy) → From p q → IsFine p (rest q))
    → IsFine p (continue_with n d rest)
continue_with-IsFine p n (returned q) rest s h k = k q s
continue_with-IsFine p n (sends q c r) rest s h k = (s.0, (s.2, s.1, IsNext-Grows n s.0.grows h))
continue_with-IsFine p n fault rest s h k = s

back-some : (l : List ℕ) → l ≢ [] → (x : ℕ) × (back l ≡ some x)
back-some [] h = absurd (h refl)
back-some (x ∷ []) h = (x, refl)
back-some (x ∷ y ∷ r) h = back-some (y ∷ r) (λ e. cc)

-- `handle_request` for an actor after its status has been set, with what follows it.
awake :
    (p : Proxy) (a : ℕ) (id : Bytes) (n : Next) (rest : Proxy → Outcome)
    → IsSound p
    → a < p.next_actor
    → IsNext p n
    → ((q : Proxy) → From p q → IsFine p (rest q))
    → IsFine p (continue_with n (handle_request (update_actor_info p a id false) a) rest)
awake p a id n rest s lt h k =
    let f = update_actor_info-From s a id false in
    continue_with-IsFine p n _ rest
      (IsSafe-trans _ f (handle_request-IsSafe _ a f.sound (omega arith))) h k

wake_caller-IsFine :
    (p : Proxy) (r : Response) → IsSound p → chain p r.call_id ≢ [] → IsFine p (wake_caller p r)
unfolding wake_caller
wake_caller-IsFine p r s h =
    let (a, e) = back-some (chain p r.call_id) h in
    rw (e, wake_caller)
      (awake p a r.call_id next_packet looped s
        (All-back _ (chain p r.call_id) (s.chains r.call_id) e) tt (λ q f. f))

wake_callee-IsFine :
    (p : Proxy) (r : Response) (c : ℕ)
    → IsSound p
    → c < p.next_actor
    → chain p r.call_id ≢ []
    → IsFine p (wake_callee p r c)
unfolding wake_callee
wake_callee-IsFine p r c s lt h =
    awake p c [] (then_caller r) (λ q. wake_caller q r) s lt h
      (λ q f. IsFine-trans _ f (wake_caller-IsFine q r f.sound (f.grows.chains r.call_id h)))

go_on-IsFine : (p : Proxy) (n : Next) → IsSound p → IsNext p n → IsFine p (go_on p n)
go_on-IsFine p next_packet s h = From-refl s
go_on-IsFine p (then_caller r) s h = wake_caller-IsFine p r s h

-- A round that goes on from a write never crashes.
pub resume-IsFine :
    (p : Proxy) (t : Point) (failed : Bool) → IsSound p → IsPoint p t → IsFine p (resume p t failed)
unfolding resume handle_request_sent
resume-IsFine p connack_written failed s h = From-refl s
resume-IsFine p (request_written r c n) false s h = go_on-IsFine p n s h.2
resume-IsFine p (request_written r c n) true s (k, lt, h) =
    let f = update_actor_info-From s k.0 [] false in
    let g = From-trans f (update_actor_info-From f.sound c [] false) in
    rw (k.1, resume, handle_request_sent)
      (IsFine-trans _ g (go_on-IsFine _ n g.sound (IsNext-Grows n g.grows h)))
resume-IsFine p (response_written r c) failed s h = wake_callee-IsFine p r c s h.0 h.1
