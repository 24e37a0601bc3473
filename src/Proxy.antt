-- ===== src/Proxy.antt =====
-- The proxy process of src/coro_actor.cpp: `handle_proxy_deal_actor`, `handle_proxy_handle_request`
-- and the tables of include/coro_actor.h that they use.
--
-- An `actor_info` is held through `std::shared_ptr` by three tables, so it lives in a store, `actors`,
-- and the tables hold its number. A coroutine runs without interruption up to its next
-- `async_write`: a handler returns there with the packet and the `Point` at which it goes on once
-- the write has ended.
pub mod Deal
pub mod Choice
pub mod Selection
pub mod Delivery
pub mod Calls
pub mod Tables
pub mod Sound
pub mod Safety
pub mod Handling
pub mod Rounds
pub mod Exchange
pub mod System
mod Tests
use coro_actor.Prelude.{
  ℕ, Bool, true, false, Option, none, some, List, [], ◌∷◌, ◌++◌, Bytes, length, ltb, ite,
  if◌then◌else◌, Bytes-discrete, ℕ_discrete,
}
use coro_actor.Prelude.Map.{Map, insert, erase, nat_key, bytes_key}
use coro_actor.Packet.{Request}

-- `struct actor_info`. The socket is the number of its connection.
pub record ActorInfo : Type 0 where
  pub name : Bytes
  pub pid : ℕ
  pub is_waiting : Bool
  pub call_id : Bytes
  pub msg_queue : List Request
  pub socket : ℕ

pub record Proxy : Type 0 where
  pub service_map : Map Bytes Bytes
  pub actor_info_map : Map Bytes (List ℕ)
  pub actor_pid_map : Map ℕ (Option ℕ)  -- a null pointer is `none`
  pub actor_call_chain_map : Map Bytes (List ℕ)
  pub actors : ℕ → ActorInfo
  pub next_actor : ℕ
  pub is_open : ℕ → Bool

-- `map[key]` on a map of lists: an entry that is not there is made first, and is empty.
abbrev pub list_at : Map Bytes (List ℕ) → Bytes → List ℕ
list_at m k = elim (m k) [ none ↦ [] | some l ↦ l ]

-- `map[key]` on a map of pointers: an entry that is not there is made first, and is null.
abbrev pub pointer_at : Map ℕ (Option ℕ) → ℕ → Option ℕ
pointer_at m k = elim (m k) [ none ↦ none | some p ↦ p ]

abbrev pub update : (ℕ → ActorInfo) → ℕ → ActorInfo → ℕ → ActorInfo
update f a v b = ite (ℕ_discrete a b) v (f b)

abbrev pub set_actor : Proxy → ℕ → ActorInfo → Proxy
set_actor p a v = record p { actors = update p.actors a v }

-- `update_actor_info`.
pub update_actor_info : Proxy → ℕ → Bytes → Bool → Proxy
update_actor_info p a call_id is_waiting =
    set_actor p a (record (p.actors a) { call_id = call_id; is_waiting = is_waiting })

-- `af->msg_queue.emplace(pack)`.
abbrev pub enqueue : Proxy → ℕ → Request → Proxy
enqueue p a r = set_actor p a (record (p.actors a) { msg_queue = (p.actors a).msg_queue ++ r ∷ [] })

-- `actor_call_chain_map[call_id].emplace_back(a)`.
abbrev pub extend_chain : Proxy → Bytes → ℕ → Proxy
extend_chain p id a = record p {
  actor_call_chain_map =
      insert p.actor_call_chain_map id (list_at p.actor_call_chain_map id ++ a ∷ []);
}

-- The chain of the call `id`.
abbrev pub chain : Proxy → Bytes → List ℕ
chain p id = list_at p.actor_call_chain_map id

-- Where the loop over the group of actors stands. `chosen` is `select_iter`, and `none` where the
-- element that it names has been erased.
pub record Scan : Type 0 where
  pub kept : List ℕ
  pub pids : Map ℕ (Option ℕ)
  pub chosen : Option ℕ
  pub min_que_size : ℕ

-- Why the loop ended.
pub data Found : Type 0 where
  cyclic : Scan → List ℕ → Found  -- the early `co_return`, with what is left of the list
  ended : Scan → Found

abbrev pub queue_size : Proxy → ℕ → ℕ
queue_size p a = length (p.actors a).msg_queue

-- `actor_info_list.erase(info_iter)`, with the entry of `actor_pid_map`.
abbrev pub erase_info : Proxy → Scan → ℕ → Scan
erase_info p s a = record s {
  pids = erase s.pids (p.actors a).pid;
  chosen = elim s.chosen [ none ↦ none | some c ↦ ite (ℕ_discrete c a) none (some c) ];
}

-- The choice of the shortest queue; the element stays in the list.
abbrev pub keep_info : Proxy → Scan → ℕ → Scan
keep_info p s a =
    if ltb (queue_size p a) s.min_que_size
    then record s { kept = s.kept ++ a ∷ []; chosen = some a; min_que_size = queue_size p a }
    else record s { kept = s.kept ++ a ∷ [] }

-- The loop over `actor_info_list`. No actor is in a list twice, so an iterator is known by what it
-- points to.
pub scan : Proxy → Bytes → Scan → List ℕ → Found
scan p id s [] = ended s
scan p id s (a ∷ rest) =
    let erased = scan p id (erase_info p s a) rest in
    let more = scan p id (keep_info p s a) rest in
    if p.is_open (p.actors a).socket
    then ite (Bytes-discrete (p.actors a).call_id id) (cyclic s (a ∷ rest)) more
    else erased

-- What `handle_proxy_handle_request` does up to its `async_write`.
pub data Dispatch : Type 0 where
  returned : Proxy → Dispatch
  sends : Proxy → ℕ → Request → Dispatch  -- to the chosen actor
  fault : Dispatch  -- a null pointer or an iterator to an erased element is read

-- From the chosen actor on: the caller waits, the callee joins the chain, and gets the packet or
-- keeps it in its queue.
pub forward : Proxy → Request → Option ℕ → Dispatch
unfolding update_actor_info
forward p pack none = fault
forward p pack (some callee) = elim (pointer_at p.actor_pid_map pack.pid) [
  | none ↦ fault
  | some caller ↦
      let q = extend_chain (update_actor_info p caller pack.call_id true) pack.call_id callee in
      if (q.actors callee).is_waiting
      then returned (enqueue q callee pack)
      else sends (update_actor_info q callee pack.call_id false) callee pack
]

-- The state after the loop over the group `name`.
abbrev pub scanned : Proxy → Bytes → Scan → List ℕ → Proxy
scanned p name s rest = record p {
  actor_info_map = insert p.actor_info_map name (s.kept ++ rest);
  actor_pid_map = s.pids;
}

abbrev pub after_scan : Proxy → Bytes → Request → Found → Dispatch
after_scan p name pack (cyclic s rest) = returned (scanned p name s rest)
after_scan p name pack (ended s) = forward (scanned p name s []) pack s.chosen

-- `select_iter = actor_info_list.begin()`.
abbrev pub scan_start : Proxy → ℕ → Scan
scan_start p first = record {
  kept = [];
  pids = p.actor_pid_map;
  chosen = some first;
  min_que_size = queue_size p first;
}

-- The actors that serve the packet, with the choice among them.
pub select : Proxy → Request → Bytes → List ℕ → Dispatch
unfolding scan forward
select p pack name [] = returned (record p { actor_info_map = insert p.actor_info_map name [] })
select p pack name (first ∷ rest) =
    after_scan p name pack (scan p pack.call_id (scan_start p first) (first ∷ rest))

-- `af->msg_queue.pop()`, where the front is known.
abbrev pub with_queue : Proxy → ℕ → List Request → Proxy
with_queue p af queue = set_actor p af (record (p.actors af) { msg_queue = queue })

-- From the packet at the front of the queue of `af` on.
pub route : Proxy → ℕ → List Request → Dispatch
unfolding select
route p af [] = returned p
route p af (pack ∷ queue) =
    let q = with_queue p af queue in
    elim (q.service_map pack.service_name) [
      | none ↦ returned q
      | some name ↦ select q pack name (list_at q.actor_info_map name)
    ]

-- `handle_proxy_handle_request`, up to its write.
pub handle_request : Proxy → ℕ → Dispatch
unfolding route
handle_request p af =
    if (p.actors af).is_waiting then returned p else route p af (p.actors af).msg_queue

-- ... and from there on: `failed` is whether the write set `ec`.
unfoldable pub handle_request_sent : Proxy → Request → ℕ → Bool → Option Proxy
unfolding update_actor_info
handle_request_sent p pack callee false = some p
handle_request_sent p pack callee true = elim (pointer_at p.actor_pid_map pack.pid) [
  | none ↦ none
  | some caller ↦ some (update_actor_info (update_actor_info p caller [] false) callee [] false)
]
