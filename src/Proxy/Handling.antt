-- ===== src/Proxy/Handling.antt =====
-- The whole of `handle_proxy_handle_request` of src/coro_actor.cpp up to its write, by its cases.
use coro_actor.Prelude.{
  subst, ◌≡◌, refl, ℕ, ◌<◌, true, false, some, none, List, [], ◌∷◌, Bytes, All, All-map, ◌⊎◌, inl,
  inr, Option-cases, Bool-cases,
}
use coro_actor.Packet.{Request}
use coro_actor.Proxy.{Proxy, Dispatch, returned, list_at, with_queue, select, route, handle_request}
use coro_actor.Proxy.Selection.{Selected, select-Selected}
use coro_actor.Proxy.Sound.{IsSound, Known, with_queue-From}

-- What becomes of the front of the queue of `af`.
pub data Handled (p : Proxy) (af : ℕ) (d : Dispatch) : Type 0 where
  nothing_to_do :
      ((p.actors af).is_waiting ≡ true) ⊎ ((p.actors af).msg_queue ≡ [])
      → d ≡ returned p
      → Handled p af d
  unknown :
      (pack : Request) (queue : List Request)
      → (p.actors af).is_waiting ≡ false
      → (p.actors af).msg_queue ≡ pack ∷ queue
      → p.service_map pack.service_name ≡ none
      → d ≡ returned (with_queue p af queue)
      → Handled p af d
  offered :
      (pack : Request) (queue : List Request) (name : Bytes)
      → (p.actors af).is_waiting ≡ false
      → (p.actors af).msg_queue ≡ pack ∷ queue
      → p.service_map pack.service_name ≡ some name
      → Selected (with_queue p af queue) pack name (list_at p.actor_info_map name) d
      → Handled p af d

-- In sound tables every group has open connections only.
select_sound :
    (p : Proxy) (pack : Request) (name : Bytes)
    → IsSound p
    → Selected p pack name
        (list_at p.actor_info_map name)
        (select p pack name (list_at p.actor_info_map name))
select_sound p pack name s =
    select-Selected p pack name (list_at p.actor_info_map name)
      (All-map s.opened (list_at p.actor_info_map name) (s.groups name))

rest-Known :
    (p : Proxy) (af : ℕ) (pack : Request) (queue : List Request)
    → IsSound p
    → af < p.next_actor
    → (p.actors af).msg_queue ≡ pack ∷ queue
    → All (λ r. Known p r.pid) queue
rest-Known p af pack queue s h e = (subst (All (λ r. Known p r.pid)) e (s.queues af h)).1

route-Handled :
    (p : Proxy) (af : ℕ) (l : List Request)
    → IsSound p
    → af < p.next_actor
    → (p.actors af).is_waiting ≡ false
    → (p.actors af).msg_queue ≡ l
    → Handled p af (route p af l)
unfolding route
route-Handled p af [] s h free e = nothing_to_do (inr e) refl
route-Handled p af (pack ∷ queue) s h free e =
    elim (Option-cases (p.service_map pack.service_name)) [
      | inl k ↦ unknown pack queue free e k (rw (k, route) refl)
      | inr (name, k) ↦ offered pack queue name free e k (
          rw (k, route)
            (select_sound (with_queue p af queue) pack name
              (with_queue-From s af queue (rest-Known p af pack queue s h e)).sound))
    ]

-- Where the tables are sound, `handle_proxy_handle_request` does one of these and nothing else: it
-- returns at once if the actor waits or has an empty queue; it drops the front of the queue, and answers
-- nobody, if its service is unknown; and otherwise it takes the front off the queue and drops it if the
-- group of its service is empty or has an actor in the same call, and goes on with the first of the group's
-- actors with the shortest queue if not.
pub handle_request-Handled :
    (p : Proxy) (af : ℕ) → IsSound p → af < p.next_actor → Handled p af (handle_request p af)
unfolding handle_request
handle_request-Handled p af s h = elim (Bool-cases (p.actors af).is_waiting) [
  | inl waits ↦ nothing_to_do (inl waits) (rw waits refl)
  | inr free ↦ rw free (route-Handled p af (p.actors af).msg_queue s h free refl)
]
