-- ===== src/Prelude/Map.antt =====
-- `std::unordered_map`, seen through its lookups: a function from keys to what is stored. Nothing
-- in the program depends on the order in which such a map is walked.
use Prim.Native.Nat.{ℕ}
use mathlib.Core.Path.{◌≡◌, refl}
use mathlib.Core.Logic.{ite}
use mathlib.Core.Option.{Option, none, some}
use native.Mathlib.Decide.{ℕ_discrete}
use coro_actor.Prelude.Lists.{Bytes, Bytes-discrete}

-- Keys that can be compared.
pub record Key {ℓ} (K : Type ℓ) : Type ℓ where
  pub same : Discrete K

instance abbrev pub nat_key : Key ℕ
nat_key = record { same = ℕ_discrete }

instance abbrev pub bytes_key : Key Bytes
bytes_key = record { same = Bytes-discrete }

abbrev pub Map {ℓ κ} : Type ℓ → Type κ → Type (ℓ ⊔ κ)
Map K V = K → Option V

module _ {ℓ κ} {K : Type ℓ} {V : Type κ} where
  abbrev pub empty : Map K V
  empty k = none

  abbrev pub insert : ⦃q : Key K⦄ → Map K V → K → V → Map K V
  insert ⦃q⦄ m k v j = ite (q.same k j) (some v) (m j)

  abbrev pub erase : ⦃q : Key K⦄ → Map K V → K → Map K V
  erase ⦃q⦄ m k j = ite (q.same k j) none (m j)

  pub insert_self : ⦃q : Key K⦄ (m : Map K V) (k : K) (v : V) → insert m k v k ≡ some v
  insert_self ⦃q⦄ m k v = elim (q.same k k) as (λ d. ite d (some v) (m k) ≡ some v) [
    | yes e ↦ refl
    | no different ↦ absurd (different refl)
  ]
