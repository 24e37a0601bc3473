-- ===== src/Net/Reads.antt =====
-- What a read takes of the bytes that arrive.
use coro_actor.Prelude.{
  ◌≡◌, refl, ap, sym, subst, ◌∙◌, ℕ, zero, suc, ◌≤◌, ◌+◌, some, none, [], ◌∷◌, ◌++◌, Bytes, length,
  take, drop, arith, length-append,
}
use native.Mathlib.Decide.{dec_lt}
use coro_actor.Net.{Asio}

take-drop : (n : ℕ) (l : Bytes) → take n l ++ drop n l ≡ l
take-drop zero l = refl
take-drop (suc n) [] = refl
take-drop (suc n) (x ∷ l) = ap (◌∷◌ x) (take-drop n l)

length-take : (n : ℕ) (l : Bytes) → n ≤ length l → length (take n l) ≡ n
length-take zero l h = refl
length-take (suc n) [] h = absurd (omega (arith, h))
length-take (suc n) (x ∷ l) h = ap suc (length-take n l (omega (arith, h)))

module _ {S : Type 0} (asio : Asio S) where
  -- A read whose bytes arrive, in a chain of reads.
  pub read-arriving :
      (n : ℕ) (l rest : Bytes) (s : S)
      → length l ≡ n
      → asio.arriving s ≡ l ++ rest
      → (t : S) × (asio.async_read n s ≡ some (l, t))
        × (asio.arriving t ≡ rest)
        × (asio.is_open t ≡ asio.is_open s)
  read-arriving n l rest s e h =
      subst
        (λ k.
          (t : S) × (asio.async_read k s ≡ some (l, t))
          × (asio.arriving t ≡ rest)
          × (asio.is_open t ≡ asio.is_open s))
        e (asio.read_all l rest s h)

  -- A read fails, or takes as many bytes as it was to read off those that arrive.
  pub data Takes (n : ℕ) (s : S) : Type 0 where
    fails : asio.async_read n s ≡ none → Takes n s
    takes :
        (l : Bytes) (t : S)
        → asio.async_read n s ≡ some (l, t)
        → length l ≡ n
        → asio.arriving s ≡ l ++ asio.arriving t
        → Takes n s

  pub read-Takes : (n : ℕ) (s : S) → Takes n s
  read-Takes n s = elim (dec_lt (length (asio.arriving s)) n) [
    | yes h ↦ fails (asio.read_fails n s h)
    | no not_less ↦
        let h : n ≤ length (asio.arriving s) = omega (arith, not_less) in
        let l = take n (asio.arriving s) in
        let split = sym (take-drop n (asio.arriving s)) in
        let (t, e, f, o) = asio.read_all l (drop n (asio.arriving s)) s split in
        let size = length-take n (asio.arriving s) h in
        takes l t (ap (λ k. asio.async_read k s) (sym size) ∙ e) size
          (split ∙ ap (λ r. l ++ r) (sym f))
  ]

  pub length-takes :
      (l : Bytes) (n : ℕ) (s t : S)
      → length l ≡ n
      → asio.arriving s ≡ l ++ asio.arriving t
      → length (asio.arriving s) ≡ n + length (asio.arriving t)
  length-takes l n s t e f = omega (arith, e, ap length f, length-append l (asio.arriving t))
