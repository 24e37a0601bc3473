-- ===== src/Prelude/Lists.antt =====
-- Lists measured by native numbers, under the library's names; `std::string` as its bytes.
use Prim.Native.Nat.{ℕ, zero, suc, ◌+◌}
use Prim.Native.Char.{code}
use Prim.Native.String.{String}
use mathlib.Core.Path.{◌≡◌, refl, ap, subst}
use mathlib.Core.List.{List, [], ◌∷◌, ◌++◌}
use mathlib.Core.Option.{Option, none, some, some-injective}
use native.Mathlib.Omega.{arith}
use native.Mathlib.Decide.{ℕ_discrete}

-- The bytes of a `std::string`.
abbrev pub Bytes : Type 0
Bytes = List ℕ

unfoldable pub Bytes-discrete : Discrete Bytes
unfolding ℕ_discrete
Bytes-discrete [] [] = yes refl
Bytes-discrete [] (y ∷ ys) = no λ e. cc
Bytes-discrete (x ∷ xs) [] = no λ e. cc
Bytes-discrete (x ∷ xs) (y ∷ ys) = elim (ℕ_discrete x y) [
  | no different ↦ no λ e. different (cc)
  | yes e ↦ elim (Bytes-discrete xs ys) [ no different ↦ no λ f. different (cc) | yes f ↦ yes (cc) ]
]

-- The code points of a text: its bytes, if it is ASCII.
abbrev pub codes : String → Bytes
codes String.[] = []
codes (String.◌∷◌ c s) = code c ∷ codes s

module _ {ℓ} {A : Type ℓ} where
  abbrev pub length : List A → ℕ
  length [] = 0
  length (x ∷ xs) = suc (length xs)

  abbrev pub take : ℕ → List A → List A
  take zero xs = []
  take (suc n) [] = []
  take (suc n) (x ∷ xs) = x ∷ take n xs

  abbrev pub drop : ℕ → List A → List A
  drop zero xs = xs
  drop (suc n) [] = []
  drop (suc n) (x ∷ xs) = drop n xs

  pub length-append : (xs ys : List A) → length (xs ++ ys) ≡ length xs + length ys
  length-append [] ys = omega arith
  length-append (x ∷ xs) ys = omega (arith, length-append xs ys)

  -- `xs.back()`: none on the empty list, where the call is undefined.
  abbrev pub back : List A → Option A
  back [] = none
  back (x ∷ []) = some x
  back (x ∷ y ∷ r) = back (y ∷ r)

  -- `xs.pop_back()`.
  abbrev pub pop_back : List A → List A
  pop_back [] = []
  pop_back (x ∷ []) = []
  pop_back (x ∷ y ∷ r) = x ∷ pop_back (y ∷ r)

  pub back-append : (xs : List A) (x : A) → back (xs ++ x ∷ []) ≡ some x
  back-append [] x = refl
  back-append (y ∷ []) x = refl
  back-append (y ∷ z ∷ r) x = back-append (z ∷ r) x

  pub pop_back-append : (xs : List A) (x : A) → pop_back (xs ++ x ∷ []) ≡ xs
  pop_back-append [] x = refl
  pop_back-append (y ∷ []) x = refl
  pop_back-append (y ∷ z ∷ r) x = ap (◌∷◌ y) (pop_back-append (z ∷ r) x)

module _ {ℓ κ} {A : Type ℓ} (P : A → Type κ) where
  abbrev pub All : List A → Type κ
  All [] = Unit
  All (x ∷ xs) = P x × All xs

  pub All-append : (xs ys : List A) → All xs → All ys → All (xs ++ ys)
  All-append [] ys hx hy = hy
  All-append (x ∷ xs) ys hx hy = (hx.0, All-append xs ys hx.1 hy)

  pub All-middle : (xs : List A) {x : A} (ys : List A) → All (xs ++ x ∷ ys) → P x
  All-middle [] ys h = h.0
  All-middle (z ∷ xs) ys h = All-middle xs ys h.1

  pub All-back : (xs : List A) {x : A} → All xs → back xs ≡ some x → P x
  All-back [] h e = absurd (cc)
  All-back (x ∷ []) h e = subst P (some-injective _ _ e) h.0
  All-back (x ∷ y ∷ r) h e = All-back (y ∷ r) h.1 e

  pub All-pop_back : (xs : List A) → All xs → All (pop_back xs)
  All-pop_back [] h = tt
  All-pop_back (x ∷ []) h = tt
  All-pop_back (x ∷ y ∷ r) h = (h.0, All-pop_back (y ∷ r) h.1)

module _ {ℓ κ μ} {A : Type ℓ} {P : A → Type κ} {Q : A → Type μ} where
  pub All-map : ((a : A) → P a → Q a) → (xs : List A) → All P xs → All Q xs
  All-map f [] h = tt
  All-map f (x ∷ xs) h = (f x h.0, All-map f xs h.1)
