-- ===== src/Title/Moves.antt =====
-- `init_setproctitle` of src/coro_actor.cpp: the environment is kept, in a block of its own.
use coro_actor.Prelude.{
  ◌≡◌, refl, sym, ap, ◌∙◌, subst, ℕ, ◌+◌, ◌-◌, ◌<◌, ◌≤◌, List, [], ◌∷◌, Bytes, length, take, map,
  ite, ℕ_discrete, All, ◌⊎◌, inl, inr, arith,
}
use coro_actor.Title.{
  Memory, Entry, Moved, cpystrn, size_of, argv_last, move_environ, init_setproctitle,
}
use coro_actor.Title.Copies.{IsText, IsCopied, c_str, cpystrn-IsCopied, kept-IsText, take-all}

-- The text of an entry lies at its address, with a zero behind it.
pub record Lies (m : Memory) (e : Entry) : Type 0 where
  pub text : IsText m e.address e.text
  pub zero_ends : m (e.address + length e.text) ≡ 0
  pub whole : c_str e.text ≡ e.text

-- The entry lies in front of `p` or behind `q`.
abbrev pub IsOutside : ℕ → ℕ → Entry → Type 0
IsOutside p q e = (e.address + length e.text < p) ⊎ (q ≤ e.address)

abbrev pub texts : List Entry → List Bytes
texts = map λ e. e.text

-- What becomes of the entries `l`: each lies somewhere with its text, and only the bytes from `p` to `q`
-- change.
pub record IsKept (m : Memory) (p q : ℕ) (l : List Entry) (moved : Moved) : Type 0 where
  pub lie : All (Lies moved.memory) moved.environ
  pub same : texts moved.environ ≡ texts l
  pub frame : (a : ℕ) → (a < p) ⊎ (q ≤ a) → moved.memory a ≡ m a

kept-Lies :
    (m after : Memory) (e : Entry)
    → ((a : ℕ) → e.address ≤ a → a < e.address + length e.text + 1 → after a ≡ m a)
    → Lies m e
    → Lies after e
kept-Lies m after e h l = record {
  text = kept-IsText m after e.address e.text (λ a i j. h a i (omega (arith, j))) l.text;
  zero_ends = h _ (omega arith) (omega arith) ∙ l.zero_ends;
  whole = l.whole;
}

-- A copy of a whole text.
written :
    (m : Memory) (p : ℕ) (t : Bytes)
    → c_str t ≡ t
    → let c = cpystrn m p t (length t + 1) in IsCopied m c.0 p c.1 t
written m p t whole =
    let n : length t + 1 - 1 ≡ length t = omega arith in
    let c = cpystrn m p t (length t + 1) in
    subst (IsCopied m c.0 p c.1)
      (ap (λ k. take k (c_str t)) n ∙ ap (take (length t)) whole ∙ take-all t)
      (cpystrn-IsCopied (length t + 1) m p t (omega arith))

copied-Lies :
    (m after : Memory) (p end : ℕ) (e : Entry)
    → c_str e.text ≡ e.text
    → IsCopied m after p end e.text
    → Lies after (record e { address = p })
copied-Lies m after p end e whole c = record {
  text = c.text;
  zero_ends = ap after (sym c.ends) ∙ c.zero_ends;
  whole = whole;
}

kept_outside :
    (m after : Memory) (start q : ℕ) (l : List Entry)
    → ((a : ℕ) → (a < start) ⊎ (q ≤ a) → after a ≡ m a)
    → All (Lies m) l
    → All (IsOutside start q) l
    → All (Lies after) l
kept_outside m after start q [] h lie out = tt
kept_outside m after start q (e ∷ l) h lie out = (
  kept-Lies m after e (λ a i j. h a (beside a i j)) lie.0,
  kept_outside m after start q l h lie.1 out.1,
)
  where
    beside : (a : ℕ) → e.address ≤ a → a < e.address + length e.text + 1 → (a < start) ⊎ (q ≤ a)
    beside a i j = elim out.0 [
      | inl o ↦ inl (omega (arith, o, j))
      | inr o ↦ inr (omega (arith, o, i))
    ]

move_environ-IsKept :
    (l : List Entry) (last : ℕ) (m : Memory) (start p q : ℕ)
    → start ≤ p
    → p + size_of l ≤ q
    → All (Lies m) l
    → All (IsOutside start q) l
    → IsKept m p q l (move_environ last m p l)
move_environ-IsKept [] last m start p q h g lie out = record {
  lie = tt;
  same = refl;
  frame = λ a o. refl;
}
move_environ-IsKept (e ∷ l) last m start p q h g lie out =
    let size = length e.text + 1 in
    let m1 = (cpystrn m p e.text size).0 in
    let moved = move_environ (e.address + size) m1 (p + size) l in
    let stays = move_environ last m p l in
    elim (ℕ_discrete last e.address)
      as (λ d. IsKept m p q (e ∷ l) (
        ite d (record moved { environ = record e { address = p } ∷ moved.environ })
          (record stays { environ = e ∷ stays.environ }))) [
            | yes here ↦
                let c = written m p e.text lie.0.whole in
                let r =
                  move_environ-IsKept l (e.address + size) m1 start (p + size) q (omega (arith, h))
                    (omega (arith, g))
                    (kept_outside m m1 start q l (λ a o. c.frame a (away a o c.ends)) lie.1 out.1)
                    out.1 in
                record {
                  lie = (
                    kept-Lies m1 moved.memory (record e { address = p })
                        (λ a i j. r.frame a (inl (omega (arith, j))))
                        (copied-Lies m m1 p _ e lie.0.whole c),
                    r.lie,
                  );
                  same = ap (◌∷◌ e.text) r.same;
                  frame = λ a o. elim o [
                    | inl l ↦ r.frame a (inl (omega (arith, l))) ∙ c.frame a (inl l)
                    | inr l ↦ r.frame a (inr l) ∙ c.frame a (inr (omega (arith, l, g, c.ends)))
                  ];
                }
            | no elsewhere ↦
                let r = move_environ-IsKept l last m start p q h (omega (arith, g)) lie.1 out.1 in
                record {
                  lie =
                      (kept-Lies m stays.memory e (λ a i j. r.frame a (beside a i j)) lie.0, r.lie);
                  same = ap (◌∷◌ e.text) r.same;
                  frame = r.frame;
                }
          ]
  where
    beside : (a : ℕ) → e.address ≤ a → a < e.address + length e.text + 1 → (a < p) ⊎ (q ≤ a)
    beside a i j = elim out.0 [
      | inl o ↦ inl (omega (arith, o, h, j))
      | inr o ↦ inr (omega (arith, o, i))
    ]

    away :
        (a : ℕ) → (a < start) ⊎ (q ≤ a) → {end : ℕ} → end ≡ p + length e.text → (a < p) ⊎ (end < a)
    away a (inl o) f = inl (omega (arith, o, h))
    away a (inr o) f = inr (omega (arith, o, f, g))

-- Where the texts of the environment lie outside of the block that is allocated, `init_setproctitle` gives
-- each of them an entry again, in their order, at whose address it lies with its zero; and it changes no
-- byte outside of the block, whose size is the sum of the texts' sizes with their zeros.
pub init_setproctitle-IsKept :
    (first : ℕ) (argv : List Entry) (block : ℕ) (m : Memory) (environ : List Entry)
    → All (Lies m) environ
    → All (IsOutside block (block + size_of environ)) environ
    → IsKept m block
        (block + size_of environ)
        environ
        (init_setproctitle first argv block m environ)
unfolding init_setproctitle
init_setproctitle-IsKept first argv block m environ lie out =
    let k =
      move_environ-IsKept environ (argv_last first argv) m block block (block + size_of environ)
        (omega arith) (omega arith) lie out in
    record { lie = k.lie; same = k.same; frame = k.frame }
