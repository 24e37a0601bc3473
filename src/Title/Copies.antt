-- ===== src/Title/Copies.antt =====
-- `cpystrn` of src/coro_actor.cpp: what it writes, and what it leaves.
use coro_actor.Prelude.{
  ◌≡◌, ◌≢◌, refl, sym, ap, ◌∙◌, subst, ℕ, zero, suc, ◌+◌, ◌-◌, ◌<◌, ◌≤◌, true, [], ◌∷◌, ◌++◌, Bytes,
  length, length-append, take, ℕ_discrete, if_pos, if_neg, if◌then◌else◌, ◌==◌, Bool-cases, ◌⊎◌,
  inl, inr, arith,
}
use coro_actor.Title.{Memory, write, copy, cpystrn, clear}

-- The text of a string in C.
abbrev pub c_str : Bytes → Bytes
c_str [] = []
c_str (c ∷ src) = if c == 0 then [] else c ∷ c_str src

-- The text `t` lies at `a`.
abbrev pub IsText : Memory → ℕ → Bytes → Type 0
IsText m a [] = Unit
IsText m a (c ∷ t) = (m a ≡ c) × IsText m (suc a) t

-- The memory `after` has the text `t` from `dst` to `end`, where a zero follows, and is as `before`
-- elsewhere.
pub record IsCopied (before after : Memory) (dst end : ℕ) (t : Bytes) : Type 0 where
  pub ends : end ≡ dst + length t
  pub text : IsText after dst t
  pub zero_ends : after end ≡ 0
  pub frame : (a : ℕ) → (a < dst) ⊎ (end < a) → after a ≡ before a

pub write-here : (m : Memory) (a c : ℕ) → write m a c a ≡ c
write-here m a c = if_pos (ℕ_discrete a a) refl c (m a)

pub write-there : (m : Memory) (a c b : ℕ) → a ≢ b → write m a c b ≡ m b
write-there m a c b h = if_neg (ℕ_discrete a b) h c (m b)

ended-IsCopied : (m : Memory) (dst : ℕ) → IsCopied m (write m dst 0) dst dst []
ended-IsCopied m dst = record {
  ends = omega arith;
  text = tt;
  zero_ends = write-here m dst 0;
  frame = λ a h. write-there m dst 0 a (outside-ne a h);
}
  where
    outside-ne : (a : ℕ) → (a < dst) ⊎ (dst < a) → dst ≢ a
    outside-ne a (inl h) e = omega (arith, h, e)
    outside-ne a (inr h) e = omega (arith, h, e)

-- A copy from the second byte on is a copy.
next-IsCopied :
    (m after : Memory) (dst end c : ℕ) (t : Bytes)
    → IsCopied (write m dst c) after (suc dst) end t
    → IsCopied m after dst end (c ∷ t)
next-IsCopied m after dst end c t h = record {
  ends = omega (arith, h.ends);
  text = (h.frame dst (inl (omega arith)) ∙ write-here m dst c, h.text);
  zero_ends = h.zero_ends;
  frame = frame;
}
  where
    frame : (a : ℕ) → (a < dst) ⊎ (end < a) → after a ≡ m a
    frame a (inl l) =
        h.frame a (inl (omega (arith, l))) ∙ write-there m dst c a (λ e. omega (arith, l, e))
    frame a (inr l) = h.frame a (inr l) ∙ write-there m dst c a (λ e. omega (arith, l, e, h.ends))

zero_byte : (c : ℕ) → (c == 0) ≡ true → c ≡ 0
zero_byte c e = ground (arith, e)

copy-IsCopied :
    (n : ℕ) (m : Memory) (dst : ℕ) (src : Bytes)
    → IsCopied m (copy n m dst src).0 dst (copy n m dst src).1 (take n (c_str src))
copy-IsCopied zero m dst src = ended-IsCopied m dst
copy-IsCopied (suc n) m dst [] = ended-IsCopied m dst
copy-IsCopied (suc n) m dst (c ∷ src) = elim (Bool-cases (c == 0)) [
  | inl e ↦ rw e (
      subst (λ z. IsCopied m (write m dst z) dst dst []) (sym (zero_byte c e))
        (ended-IsCopied m dst))
  | inr e ↦ rw e (
      next-IsCopied m _ dst _ c (take n (c_str src))
        (copy-IsCopied n (write m dst c) (suc dst) src))
]

-- With `n` bytes from `dst` on, `cpystrn` writes the text of `src`, or as many bytes of it as leave one for
-- the zero that it writes behind them, and nothing else; the pointer that it returns is at this zero.
pub cpystrn-IsCopied :
    (n : ℕ) (m : Memory) (dst : ℕ) (src : Bytes)
    → 0 < n
    → IsCopied m (cpystrn m dst src n).0 dst (cpystrn m dst src n).1 (take (n - 1) (c_str src))
unfolding cpystrn
cpystrn-IsCopied zero m dst src h = absurd (omega (arith, h))
cpystrn-IsCopied (suc n) m dst src h =
    subst (λ k. IsCopied m (copy n m dst src).0 dst (copy n m dst src).1 (take k (c_str src)))
      (omega arith) (copy-IsCopied n m dst src)

pub length-take : (n : ℕ) (l : Bytes) → length (take n l) ≤ n
length-take zero l = omega arith
length-take (suc n) [] = omega arith
length-take (suc n) (x ∷ l) = omega (arith, length-take n l)

pub take-append :
    (n : ℕ) (a b : Bytes) → take n a ++ take (n - length (take n a)) b ≡ take n (a ++ b)
take-append zero a b = refl
take-append (suc n) [] b = let e : suc n - 0 ≡ suc n = omega arith in ap (λ k. take k b) e
take-append (suc n) (x ∷ a) b =
    let e : suc n - suc (length (take n a)) ≡ n - length (take n a) = omega arith in
    ap (λ k. x ∷ (take n a ++ take k b)) e ∙ ap (◌∷◌ x) (take-append n a b)

pub take-all : (l : Bytes) → take (length l) l ≡ l
take-all [] = refl
take-all (x ∷ l) = ap (◌∷◌ x) (take-all l)

pub kept-IsText :
    (m after : Memory) (a : ℕ) (t : Bytes)
    → ((b : ℕ) → a ≤ b → b < a + length t → after b ≡ m b)
    → IsText m a t
    → IsText after a t
kept-IsText m after a [] h g = tt
kept-IsText m after a (c ∷ t) h g = (
  h a (omega arith) (omega arith) ∙ g.0,
  kept-IsText m after (suc a) t (λ b i l. h b (omega (arith, i)) (omega (arith, l))) g.1,
)

append-IsText :
    (m : Memory) (a : ℕ) (t u : Bytes)
    → IsText m a t
    → IsText m (a + length t) u
    → IsText m a (t ++ u)
append-IsText m a [] u h g = subst (λ b. IsText m b u) (omega arith) g
append-IsText m a (c ∷ t) u h g =
    (h.0, append-IsText m (suc a) t u h.1 (subst (λ b. IsText m b u) (omega arith) g))

-- A copy behind a copy.
pub append-IsCopied :
    (m m1 m2 : Memory) (dst p q : ℕ) (t u : Bytes)
    → IsCopied m m1 dst p t
    → IsCopied m1 m2 p q u
    → IsCopied m m2 dst q (t ++ u)
append-IsCopied m m1 m2 dst p q t u h g = record {
  ends = omega (arith, h.ends, g.ends, length-append t u);
  text =
      append-IsText m2 dst t u
        (kept-IsText m1 m2 dst t (λ b i l. g.frame b (inl (omega (arith, l, h.ends)))) h.text)
        (subst (λ b. IsText m2 b u) h.ends g.text);
  zero_ends = g.zero_ends;
  frame = frame;
}
  where
    frame : (a : ℕ) → (a < dst) ⊎ (q < a) → m2 a ≡ m a
    frame a (inl l) = g.frame a (inl (omega (arith, l, h.ends))) ∙ h.frame a (inl l)
    frame a (inr l) = g.frame a (inr l) ∙ h.frame a (inr (omega (arith, l, g.ends)))

pub clear-frame : (n : ℕ) (m : Memory) (p a : ℕ) → (a < p) ⊎ (p + n ≤ a) → clear m p n a ≡ m a
clear-frame zero m p a h = refl
clear-frame (suc n) m p a (inl l) =
    clear-frame n (write m p 0) (suc p) a (inl (omega (arith, l)))
    ∙ write-there m p 0 a (λ e. omega (arith, l, e))
clear-frame (suc n) m p a (inr l) =
    clear-frame n (write m p 0) (suc p) a (inr (omega (arith, l)))
    ∙ write-there m p 0 a (λ e. omega (arith, l, e))

pub clear-zero : (n : ℕ) (m : Memory) (p a : ℕ) → p ≤ a → a < p + n → clear m p n a ≡ 0
clear-zero zero m p a h l = absurd (omega (arith, h, l))
clear-zero (suc n) m p a h l = elim (ℕ_discrete p a) [
  | yes e ↦
      clear-frame n (write m p 0) (suc p) a (inl (omega (arith, e)))
      ∙ ap (write m p 0) (sym e)
      ∙ write-here m p 0
  | no different ↦
      clear-zero n (write m p 0) (suc p) a (omega (arith, h, different)) (omega (arith, l))
]
