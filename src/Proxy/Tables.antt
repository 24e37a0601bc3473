-- ===== src/Proxy/Tables.antt =====
-- Reading the proxy's tables after a write.
use coro_actor.Prelude.{
  ℕ, ◌≡◌, refl, ◌≢◌, Option, some, none, List, [], Bytes, Bytes-discrete, ℕ_discrete, ite,
}
use coro_actor.Prelude.Map.{Map, insert, insert_self, bytes_key, nat_key}
use coro_actor.Proxy.{ActorInfo, list_at, pointer_at, update}

module _ {ℓ} (P : ActorInfo → Type ℓ) (f : ℕ → ActorInfo) (a : ℕ) (v : ActorInfo) where
  pub at-update : (b : ℕ) → (a ≡ b → P v) → (a ≢ b → P (f b)) → P (update f a v b)
  at-update b h g = elim (ℕ_discrete a b) as (λ d. P (ite d v (f b))) [ yes e ↦ h e | no e ↦ g e ]

module _ {ℓ} (P : List ℕ → Type ℓ) (m : Map Bytes (List ℕ)) (k : Bytes) (l : List ℕ) where
  pub list_at-insert : (j : Bytes) → (k ≡ j → P l) → P (list_at m j) → P (list_at (insert m k l) j)
  list_at-insert j h g =
      elim (Bytes-discrete k j)
        as (λ d. P (elim (ite d (some l) (m j)) [ none ↦ [] | some x ↦ x ])) [
          | yes e ↦ h e
          | no e ↦ g
        ]

module _ {ℓ} (P : Option ℕ → Type ℓ) (m : Map ℕ (Option ℕ)) (k : ℕ) (v : Option ℕ) where
  pub pointer_at-insert :
      (j : ℕ) → (k ≡ j → P v) → P (pointer_at m j) → P (pointer_at (insert m k v) j)
  pointer_at-insert j h g =
      elim (ℕ_discrete k j) as (λ d. P (elim (ite d (some v) (m j)) [ none ↦ none | some x ↦ x ])) [
        | yes e ↦ h e
        | no e ↦ g
      ]

pub list_at-insert_self :
    (m : Map Bytes (List ℕ)) (id : Bytes) (l : List ℕ) → list_at (insert m id l) id ≡ l
list_at-insert_self m id l = rw (insert_self m id l, list_at) refl

pub pointer_at-insert_self :
    (m : Map ℕ (Option ℕ)) (pid : ℕ) (a : Option ℕ) → pointer_at (insert m pid a) pid ≡ a
pointer_at-insert_self m pid a = rw (insert_self m pid a, pointer_at) refl
