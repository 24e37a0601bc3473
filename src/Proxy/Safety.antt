-- ===== src/Proxy/Safety.antt =====
-- The proxy's handlers keep its tables sound, and where they can fault.
use coro_actor.Prelude.{
  ℕ, ◌<◌, true, false, some, none, List, [], ◌∷◌, ◌++◌, Bytes, All, All-middle, All-map, if-both,
  append-nil,
}
use coro_actor.Packet.{Request}
use coro_actor.Proxy.{
  Proxy, list_at, update_actor_info, extend_chain, with_queue, Dispatch, returned, sends, fault,
  forward, select, route, handle_request,
}
use coro_actor.Proxy.Selection.{select-Selected, Selected, dropped, passed}
use coro_actor.Proxy.Sound.{
  Known, IsSound, From, From-refl, From-trans, update_actor_info-From, with_queue-From,
  enqueue-From, extend_chain-From, with_group-From,
}

-- A dispatch that does not fault, keeps the tables sound, and sends to an actor a request of a
-- process that has connected.
abbrev pub IsSafe : Proxy → Dispatch → Type 0
IsSafe p (returned q) = From p q
IsSafe p (sends q c r) = From p q × (c < q.next_actor) × Known q r.pid
IsSafe p fault = ⊥

pub IsSafe-trans : {p q : Proxy} (d : Dispatch) → From p q → IsSafe q d → IsSafe p d
IsSafe-trans (returned r) g h = From-trans g h
IsSafe-trans (sends r c t) g h = (From-trans g h.0, h.1, h.2)
IsSafe-trans fault g h = h

forward-IsSafe :
    (p : Proxy) (pack : Request) (c : ℕ)
    → IsSound p
    → Known p pack.pid
    → c < p.next_actor
    → IsSafe p (forward p pack (some c))
unfolding forward
forward-IsSafe p pack c s k lt =
    let q1 = update_actor_info p k.0 pack.call_id true in
    let f1 = update_actor_info-From s k.0 pack.call_id true in
    let q = extend_chain q1 pack.call_id c in
    let f2 = From-trans f1 (extend_chain-From f1.sound pack.call_id c lt) in
    let k2 = f2.grows.known pack.pid k in
    rw (k.1, forward)
      (if-both (IsSafe p) (q.actors c).is_waiting
        (From-trans f2 (enqueue-From f2.sound c pack lt k2))
        (From-trans f2 (update_actor_info-From f2.sound c pack.call_id false), lt, k2))

select-IsSafe :
    (p : Proxy) (pack : Request) (name : Bytes) (l : List ℕ)
    → IsSound p
    → Known p pack.pid
    → All (λ a. a < p.next_actor) l
    → IsSafe p (select p pack name l)
select-IsSafe p pack name l s k lt = go (select-Selected p pack name l (All-map s.opened l lt))
  where
    go : Selected p pack name l (select p pack name l) → IsSafe p (select p pack name l)
    go (dropped why e) = rw e (with_group-From s name l lt)
    go (passed c others m e) =
        let f = with_group-From s name (l ++ []) (rw append-nil lt) in
        rw e (
          IsSafe-trans (forward _ pack (some c)) f
            (forward-IsSafe _ pack c f.sound k (All-middle _ m.before m.after (rw m.split at lt))))

route-IsSafe :
    (p : Proxy) (af : ℕ) (l : List Request)
    → IsSound p
    → All (λ r. Known p r.pid) l
    → IsSafe p (route p af l)
unfolding route
route-IsSafe p af [] s k = From-refl s
route-IsSafe p af (pack ∷ queue) s k =
    let f = with_queue-From s af queue k.1 in
    elim (p.service_map pack.service_name)
      as (λ o. IsSafe p (elim o [
        | none ↦ returned (with_queue p af queue)
        | some name ↦ select (with_queue p af queue) pack name (list_at p.actor_info_map name)
      ])) [
        | none ↦ f
        | some name ↦
            IsSafe-trans _ f
              (select-IsSafe (with_queue p af queue) pack name _ f.sound k.0 (s.groups name))
      ]

-- Where the tables are sound, `handle_proxy_handle_request` never reads through a null pointer or an
-- iterator to an erased element, on any branch. The tables stay sound, every process that has
-- connected stays known, no chain becomes empty and no connection is closed; and where a request is
-- sent, it is to an actor and from a process that has connected.
pub handle_request-IsSafe :
    (p : Proxy) (af : ℕ) → IsSound p → af < p.next_actor → IsSafe p (handle_request p af)
unfolding handle_request
handle_request-IsSafe p af s lt =
    if-both (IsSafe p) (p.actors af).is_waiting (From-refl s)
      (route-IsSafe p af (p.actors af).msg_queue s (s.queues af lt))
