-- ===== src/Proxy/Sound.antt =====
-- What holds of the proxy's tables in every state, and the parts of its handlers that keep it.
use coro_actor.Prelude.{
  ℕ, ◌≤◌, ◌<◌, ◌≡◌, ◌≢◌, refl, Bool, true, some, List, [], ◌∷◌, ◌++◌, Bytes, All, All-append, arith,
}
use coro_actor.Prelude.Map.{Map, insert, bytes_key, nat_key}
use coro_actor.Packet.{Request}
use coro_actor.Proxy.{
  Proxy, ActorInfo, chain, list_at, pointer_at, update_actor_info, enqueue, extend_chain,
  with_queue, set_actor,
}
use coro_actor.Proxy.Tables.{at-update, list_at-insert}

-- The process `i` has connected.
abbrev pub Known : Proxy → ℕ → Type 0
Known p i = (a : ℕ) × (pointer_at p.actor_pid_map i ≡ some a)

-- Every number in a table is that of an actor, every actor's connection is open, and every request
-- in a queue comes from a process that has connected.
pub record IsSound (p : Proxy) : Type 0 where
  pub opened : (a : ℕ) → a < p.next_actor → p.is_open (p.actors a).socket ≡ true
  pub groups : (name : Bytes) → All (λ a. a < p.next_actor) (list_at p.actor_info_map name)
  pub pids : (i a : ℕ) → pointer_at p.actor_pid_map i ≡ some a → a < p.next_actor
  pub chains : (id : Bytes) → All (λ a. a < p.next_actor) (chain p id)
  pub queues : (a : ℕ) → a < p.next_actor → All (λ r. Known p r.pid) (p.actors a).msg_queue

-- What a handler never takes back.
pub record Grows (p q : Proxy) : Type 0 where
  pub actors : p.next_actor ≤ q.next_actor
  pub known : (i : ℕ) → Known p i → Known q i
  pub chains : (id : Bytes) → chain p id ≢ [] → chain q id ≢ []
  pub is_open : (k : ℕ) → p.is_open k ≡ true → q.is_open k ≡ true

pub Grows-refl : (p : Proxy) → Grows p p
Grows-refl p = record {
  actors = omega arith;
  known = λ i k. k;
  chains = λ id h. h;
  is_open = λ k h. h;
}

-- Other actors or other groups change nothing of it.
pub Grows-actors :
    (p : Proxy) (actors : ℕ → ActorInfo) (groups : Map Bytes (List ℕ))
    → Grows p (record p { actors = actors; actor_info_map = groups })
Grows-actors p actors groups = record {
  actors = omega arith;
  known = λ i k. k;
  chains = λ id h. h;
  is_open = λ k h. h;
}

pub Grows-trans : {p q r : Proxy} → Grows p q → Grows q r → Grows p r
Grows-trans g h = record {
  actors = omega arith;
  known = λ i k. h.known i (g.known i k);
  chains = λ id k. h.chains id (g.chains id k);
  is_open = λ k e. h.is_open k (g.is_open k e);
}

-- Sound, and grown from `p`.
pub record From (p q : Proxy) : Type 0 where
  pub sound : IsSound q
  pub grows : Grows p q

pub From-trans : {p q r : Proxy} → From p q → From q r → From p r
From-trans g h = record { sound = h.sound; grows = Grows-trans g.grows h.grows }

pub append-ne-nil {ℓ} : {A : Type ℓ} (l : List A) (x : A) → l ++ x ∷ [] ≢ []
append-ne-nil [] x = λ e. cc
append-ne-nil (y ∷ l) x = λ e. cc

module _ {p : Proxy} (s : IsSound p) where
  pub From-refl : From p p
  From-refl = record { sound = s; grows = Grows-refl p }

  set_actor-From :
      (a : ℕ) (v : ActorInfo)
      → v.socket ≡ (p.actors a).socket
      → (a < p.next_actor → All (λ r. Known p r.pid) v.msg_queue)
      → From p (set_actor p a v)
  set_actor-From a v same known = record {
    sound = record {
      opened = λ b h.
          at-update (λ w. p.is_open w.socket ≡ true) p.actors a v b
            (λ e. rw same (s.opened a (rw e h))) (λ e. s.opened b h);
      groups = s.groups;
      pids = s.pids;
      chains = s.chains;
      queues = λ b h.
          at-update (λ w. All (λ r. Known p r.pid) w.msg_queue) p.actors a v b (λ e. known (rw e h))
            (λ e. s.queues b h);
    };
    grows = Grows-actors p _ _;
  }

  pub update_actor_info-From : (a : ℕ) (id : Bytes) (w : Bool) → From p (update_actor_info p a id w)
  unfolding update_actor_info
  update_actor_info-From a id w = set_actor-From a _ refl (s.queues a)

  pub with_queue-From :
      (a : ℕ) (l : List Request) → All (λ r. Known p r.pid) l → From p (with_queue p a l)
  with_queue-From a l k = set_actor-From a _ refl (λ h. k)

  pub enqueue-From :
      (a : ℕ) (r : Request) → a < p.next_actor → Known p r.pid → From p (enqueue p a r)
  enqueue-From a r lt k =
      with_queue-From a ((p.actors a).msg_queue ++ r ∷ [])
        (All-append _ (p.actors a).msg_queue (r ∷ []) (s.queues a lt) (k, tt))

  pub set_chain-From :
      (id : Bytes) (l : List ℕ)
      → All (λ a. a < p.next_actor) l
      → l ≢ []
      → From p (record p { actor_call_chain_map = insert p.actor_call_chain_map id l })
  set_chain-From id l h ne = record {
    sound = record {
      opened = s.opened;
      groups = s.groups;
      pids = s.pids;
      chains = λ j.
          list_at-insert (All (λ b. b < p.next_actor)) p.actor_call_chain_map id l j (λ e. h)
            (s.chains j);
      queues = s.queues;
    };
    grows = record {
      actors = omega arith;
      known = λ i k. k;
      chains = λ j g. list_at-insert (λ l. l ≢ []) p.actor_call_chain_map id l j (λ e. ne) g;
      is_open = λ k e. e;
    };
  }

  pub extend_chain-From : (id : Bytes) (a : ℕ) → a < p.next_actor → From p (extend_chain p id a)
  extend_chain-From id a lt =
      set_chain-From id _ (All-append _ (chain p id) (a ∷ []) (s.chains id) (lt, tt))
        (append-ne-nil (chain p id) a)

  pub with_group-From :
      (name : Bytes) (l : List ℕ)
      → All (λ a. a < p.next_actor) l
      → From p (record p { actor_info_map = insert p.actor_info_map name l })
  with_group-From name l h = record {
    sound = record {
      opened = s.opened;
      groups = λ j.
          list_at-insert (All (λ a. a < p.next_actor)) p.actor_info_map name l j (λ e. h)
            (s.groups j);
      pids = s.pids;
      chains = s.chains;
      queues = s.queues;
    };
    grows = Grows-actors p _ _;
  }
