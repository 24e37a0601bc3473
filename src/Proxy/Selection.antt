-- ===== src/Proxy/Selection.antt =====
-- The packet whose service a group offers, in `handle_proxy_handle_request` of src/coro_actor.cpp.
use coro_actor.Prelude.{
  ℕ, ◌≡◌, ◌⊎◌, inl, inr, refl, ap, some, List, [], ◌∷◌, ◌++◌, Bytes, All, inl, inr, Bytes-discrete,
}
use coro_actor.Prelude.Map.{insert, bytes_key}
use coro_actor.Packet.{Request}
use coro_actor.Proxy.{Proxy, scanned, select, forward, Dispatch, returned}
use coro_actor.Proxy.Choice.{IsOpen, Others, Least, walking, select_cyclic, select-Least}

module _ (p : Proxy) where
  -- An actor of `l` that is in the call `id`.
  pub record Member (id : Bytes) (l : List ℕ) : Type 0 where
    pub before : List ℕ
    pub at : ℕ
    pub after : List ℕ
    pub split : l ≡ before ++ at ∷ after
    pub in_call : (p.actors at).call_id ≡ id

  Member-cons : (id : Bytes) (b : ℕ) (l : List ℕ) → Member id l → Member id (b ∷ l)
  Member-cons id b l m = record {
    before = b ∷ m.before;
    at = m.at;
    after = m.after;
    split = ap (◌∷◌ b) m.split;
    in_call = m.in_call;
  }

  pub Member-cases : (id : Bytes) (l : List ℕ) → Member id l ⊎ Others p id l
  Member-cases id [] = inr tt
  Member-cases id (b ∷ l) = elim (Bytes-discrete (p.actors b).call_id id) [
    | yes e ↦ inl (record { before = []; at = b; after = l; split = refl; in_call = e })
    | no ne ↦ elim (Member-cases id l) [ inl m ↦ inl (Member-cons id b l m) | inr o ↦ inr (ne, o) ]
  ]

  -- What becomes of a packet whose service the actors of `l` offer.
  pub data Selected (pack : Request) (name : Bytes) (l : List ℕ) (d : Dispatch) : Type 0 where
    dropped :
        l ≡ [] ⊎ Member pack.call_id l
        → d ≡ returned (record p { actor_info_map = insert p.actor_info_map name l })
        → Selected pack name l d
    passed :
        (c : ℕ)
        → Others p pack.call_id l
        → Least p l c
        → d ≡ forward (scanned p name (walking p p.actor_pid_map l c) []) pack (some c)
        → Selected pack name l d

  select-Member :
      (pack : Request) (name : Bytes) (l : List ℕ)
      → All (IsOpen p) l
      → Member pack.call_id l
      → select p pack name l
        ≡ returned (record p { actor_info_map = insert p.actor_info_map name l })
  select-Member pack name l op m =
      rw m.split (select_cyclic p pack name m.before m.at m.after (rw m.split at op) m.in_call)

  -- Where all connections of a group are open, a packet is dropped if the group is empty or one of its
  -- actors is in the call, with the tables as they were; and otherwise it goes to the first of the
  -- actors with the shortest queue.
  pub select-Selected :
      (pack : Request) (name : Bytes) (l : List ℕ)
      → All (IsOpen p) l
      → Selected pack name l (select p pack name l)
  unfolding select
  select-Selected pack name [] op = dropped (inl refl) refl
  select-Selected pack name (a ∷ l) op = elim (Member-cases pack.call_id (a ∷ l)) [
    | inl m ↦ dropped (inr m) (select-Member pack name (a ∷ l) op m)
    | inr o ↦ let (c, m, e) = select-Least p pack name a l op o in passed c o m e
  ]
