-- ===== src/Title/Shows.antt =====
-- `set_proctitle` of src/coro_actor.cpp: the area of the arguments shows the title.
use coro_actor.Prelude.{
  ◌≡◌, refl, ap, ◌∙◌, subst, ℕ, ◌+◌, ◌-◌, ◌<◌, ◌≤◌, none, ◌++◌, Bytes, codes, length, take, ◌⊎◌,
  inl, inr, arith, ℕ_discrete,
}
use coro_actor.Title.{Title, Memory, cpystrn, clear, actor_proc_name, set_proctitle}
use coro_actor.Title.Copies.{
  IsText, IsCopied, c_str, cpystrn-IsCopied, append-IsCopied, kept-IsText, take-append, length-take,
  clear-frame, clear-zero,
}

-- The whole title.
abbrev pub shown : Bytes → Bytes
shown title = actor_proc_name ++ (codes ": " ++ c_str title)

-- The area from `first` to `last` has the text `t`, and zeros behind it; all else is as before.
pub record IsShown (before after : Memory) (first last : ℕ) (t : Bytes) : Type 0 where
  pub text : IsText after first t
  pub fits : first + length t < last
  pub zeros : (a : ℕ) → first + length t ≤ a → a < last → after a ≡ 0
  pub frame : (a : ℕ) → (a < first) ⊎ (last ≤ a) → after a ≡ before a

cleared-IsShown :
    (m m1 : Memory) (first p last : ℕ) (t : Bytes)
    → p < last
    → IsCopied m m1 first p t
    → IsShown m (clear m1 p (last - p)) first last t
cleared-IsShown m m1 first p last t h c = record {
  text =
      kept-IsText m1 (clear m1 p (last - p)) first t
        (λ b i l. clear-frame (last - p) m1 p b (inl (omega (arith, l, c.ends)))) c.text;
  fits = omega (arith, h, c.ends);
  zeros = λ a l g. clear-zero (last - p) m1 p a (omega (arith, l, c.ends)) (omega (arith, g, h));
  frame = frame;
}
  where
    frame : (a : ℕ) → (a < first) ⊎ (last ≤ a) → clear m1 p (last - p) a ≡ m a
    frame a (inl l) =
        clear-frame (last - p) m1 p a (inl (omega (arith, l, c.ends))) ∙ c.frame a (inl l)
    frame a (inr l) =
        clear-frame (last - p) m1 p a (inr (omega (arith, l, h)))
        ∙ c.frame a (inr (omega (arith, l, h)))

end-in_area :
    (m m1 : Memory) (first p last : ℕ) (a : Bytes)
    → first < last
    → IsCopied m m1 first p (take (last - first - 1) a)
    → p < last
end-in_area m m1 first p last a h k = omega (arith, h, k.ends, length-take (last - first - 1) a)

-- A copy into what is left behind a copy of the text `a`.
behind-IsCopied :
    (m m1 : Memory) (first p last : ℕ) (a src : Bytes)
    → first < last
    → IsCopied m m1 first p (take (last - first - 1) a)
    → let c = cpystrn m1 p src (last - p) in
      IsCopied m c.0 first c.1 (take (last - first - 1) (a ++ c_str src))
behind-IsCopied m m1 first p last a src h k =
    let n = last - first - 1 in
    let room = end-in_area m m1 first p last a h k in
    let c = cpystrn-IsCopied (last - p) m1 p src (omega (arith, room)) in
    let rest : last - p - 1 ≡ n - length (take n a) = omega (arith, h, k.ends, length-take n a) in
    subst (IsCopied m (cpystrn m1 p src (last - p)).0 first (cpystrn m1 p src (last - p)).1)
      (ap (λ j. take n a ++ take j (c_str src)) rest ∙ take-append n a (c_str src))
      (append-IsCopied m m1 _ first p _ (take n a) (take (last - p - 1) (c_str src)) k c)

-- In an area of at least one byte, `set_proctitle` writes "coro_actor: " and the title, or the first bytes
-- of this that leave one byte, and fills the rest of the area with zeros; no other byte of the memory
-- changes, and the arguments end behind the first one.
pub set_proctitle-IsShown :
    (t : Title) (m : Memory) (title : Bytes)
    → t.os_argv_first < t.os_argv_last
    → IsShown m
        (set_proctitle t m title).1
        t.os_argv_first
        t.os_argv_last
        (take (t.os_argv_last - t.os_argv_first - 1) (shown title))
      × ((set_proctitle t m title).0.os_argv 1 ≡ none)
unfolding set_proctitle ℕ_discrete
set_proctitle-IsShown t m title h =
    let first = t.os_argv_first in
    let last = t.os_argv_last in
    let k1 = cpystrn-IsCopied (last - first) m first actor_proc_name (omega (arith, h)) in
    let k2 = behind-IsCopied m _ first _ last actor_proc_name (codes ": ") h k1 in
    let k3 = behind-IsCopied m _ first _ last (actor_proc_name ++ codes ": ") title h k2 in
    let room = end-in_area m _ first _ last (shown title) h k3 in
    (cleared-IsShown m _ first _ last _ room k3, refl)
