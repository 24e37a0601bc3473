-- ===== src/Proxy/Choice.antt =====
-- The choice of an actor in `handle_proxy_handle_request`: the loop over `actor_info_list`.
use coro_actor.Prelude.{
  ℕ, Option, All-map, ◌≤◌, ◌<◌, ◌≡◌, ◌≢◌, inl, inr, refl, ap, ◌∙◌, true, false, some, List, [], ◌∷◌,
  ◌++◌, append_assoc, append-nil, Bytes, All, All-append, arith, inl, inr, Bytes-discrete, if_pos,
  if_neg, ltb, Bool-cases,
}
use coro_actor.Prelude.Map.{Map, insert, bytes_key}
use coro_actor.Packet.{Request}
use coro_actor.Proxy.{
  Proxy, Scan, Found, cyclic, ended, scan, scan_start, scanned, queue_size, select, forward,
  keep_info, returned,
}

ltb_self : (n : ℕ) → ltb n n ≡ false
ltb_self n = ground arith

module _ (p : Proxy) where
  abbrev pub IsOpen : ℕ → Type 0
  IsOpen a = p.is_open (p.actors a).socket ≡ true

  -- `c` is the first of the actors with the shortest queue.
  pub record Least (l : List ℕ) (c : ℕ) : Type 0 where
    pub before : List ℕ
    pub after : List ℕ
    pub split : l ≡ before ++ c ∷ after
    pub longer : All (λ a. queue_size p c < queue_size p a) before
    pub as_long : All (λ a. queue_size p c ≤ queue_size p a) after

  Least-keep :
      (l : List ℕ) (c a : ℕ) → Least l c → queue_size p c ≤ queue_size p a → Least (l ++ a ∷ []) c
  Least-keep l c a m h = record {
    before = m.before;
    after = m.after ++ a ∷ [];
    split = rw m.split (append_assoc m.before (c ∷ m.after) (a ∷ []));
    longer = m.longer;
    as_long = All-append _ m.after (a ∷ []) m.as_long (h, tt);
  }

  All-shorter :
      (l : List ℕ) (c a : ℕ)
      → queue_size p a < queue_size p c
      → All (λ b. queue_size p c ≤ queue_size p b) l
      → All (λ b. queue_size p a < queue_size p b) l
  All-shorter l c a h = All-map (λ b k. omega arith) l

  Least-all : (l : List ℕ) (c : ℕ) → Least l c → All (λ b. queue_size p c ≤ queue_size p b) l
  Least-all l c m = rw m.split (
      All-append _ m.before (c ∷ m.after) (All-map (λ b k. omega arith) m.before m.longer)
        (omega arith, m.as_long))

  Least-replace :
      (l : List ℕ) (c a : ℕ) → Least l c → queue_size p a < queue_size p c → Least (l ++ a ∷ []) a
  Least-replace l c a m h = record {
    before = l;
    after = [];
    split = refl;
    longer = All-shorter l c a h (Least-all l c m);
    as_long = tt;
  }

  abbrev pub walking : Map ℕ (Option ℕ) → List ℕ → ℕ → Scan
  walking pids kept c = record {
    kept = kept;
    pids = pids;
    chosen = some c;
    min_que_size = queue_size p c;
  }

  abbrev pub Others : Bytes → List ℕ → Type 0
  Others id l = All (λ a. (p.actors a).call_id ≢ id) l

  -- The loop over `l` ends with a least element of all that it has seen.
  abbrev Ends : Bytes → Map ℕ (Option ℕ) → List ℕ → ℕ → List ℕ → Type 0
  Ends id pids kept c l =
      (d : ℕ) × (scan p id (walking pids kept c) l ≡ ended (walking pids (kept ++ l) d))
      × Least (kept ++ l) d

  Ends-cons :
      (id : Bytes) (pids : Map ℕ (Option ℕ)) (kept : List ℕ) (c d a : ℕ) (l : List ℕ)
      → scan p id (walking pids kept c) (a ∷ l) ≡ scan p id (walking pids (kept ++ a ∷ []) d) l
      → Ends id pids (kept ++ a ∷ []) d l
      → Ends id pids kept c (a ∷ l)
  Ends-cons id pids kept c d a l e (best, f, m) = (
    best,
    e ∙ f ∙ ap (λ k. ended (walking pids k best)) (append_assoc kept (a ∷ []) l),
    rw append_assoc at m,
  )

  scan_kept :
      (id : Bytes) (s : Scan) (a : ℕ) (l : List ℕ)
      → IsOpen a
      → (p.actors a).call_id ≢ id
      → scan p id s (a ∷ l) ≡ scan p id (keep_info p s a) l
  unfolding scan
  scan_kept id s a l op ne = rw (op, if_neg _ ne)

  scan-Ends :
      (id : Bytes) (pids : Map ℕ (Option ℕ)) (kept : List ℕ) (c : ℕ) (l : List ℕ)
      → All IsOpen l
      → Others id l
      → Least kept c
      → Ends id pids kept c l
  unfolding scan
  scan-Ends id pids kept c [] op ne m = (c, rw append-nil refl, rw append-nil m)
  scan-Ends id pids kept c (a ∷ l) op ne m =
      elim (Bool-cases (ltb (queue_size p a) (queue_size p c))) [
        | inl less ↦ Ends-cons id pids kept c a a l (scan_kept id _ a l op.0 ne.0 ∙ rw less refl) (
            scan-Ends id pids (kept ++ a ∷ []) a l op.1 ne.1
              (Least-replace kept c a m (ground arith)))
        | inr more ↦ Ends-cons id pids kept c c a l (scan_kept id _ a l op.0 ne.0 ∙ rw more refl) (
            scan-Ends id pids (kept ++ a ∷ []) c l op.1 ne.1 (Least-keep kept c a m (ground arith)))
      ]

  -- The first element of a group, as a group of its own.
  Least-one : (a : ℕ) → Least (a ∷ []) a
  Least-one a = record { before = []; after = []; split = refl; longer = tt; as_long = tt }

  scan_first-Ends :
      (id : Bytes) (a : ℕ) (l : List ℕ)
      → All IsOpen (a ∷ l)
      → Others id (a ∷ l)
      → (d : ℕ) × (scan p id (scan_start p a) (a ∷ l) ≡ ended (walking p.actor_pid_map (a ∷ l) d))
        × Least (a ∷ l) d
  scan_first-Ends id a l op ne =
      Ends-cons id p.actor_pid_map [] a a a l
        (scan_kept id _ a l op.0 ne.0 ∙ rw (ltb_self (queue_size p a)) refl)
        (scan-Ends id p.actor_pid_map (a ∷ []) a l op.1 ne.1 (Least-one a))

  -- Where all connections of a group are open and none of its actors is in the call, the packet goes
  -- to the first of those with the shortest queue, and no connection is dropped from the tables.
  pub select-Least :
      (pack : Request) (name : Bytes) (a : ℕ) (l : List ℕ)
      → All IsOpen (a ∷ l)
      → Others pack.call_id (a ∷ l)
      → (c : ℕ) × Least (a ∷ l) c
        × (select p pack name (a ∷ l)
            ≡ forward (scanned p name (walking p.actor_pid_map (a ∷ l) c) []) pack (some c))
  unfolding select
  select-Least pack name a l op ne =
      let (c, e, m) = scan_first-Ends pack.call_id a l op ne in (c, m, rw e refl)

  -- What the loop leaves where it stops at an actor of the same call: the list as it was.
  Stops : Map ℕ (Option ℕ) → List ℕ → Found → Type 0
  Stops pids l r =
      (s : Scan) × (rest : List ℕ) × (r ≡ cyclic s rest) × (s.kept ++ rest ≡ l) × (s.pids ≡ pids)

  keep_info-kept : (s : Scan) (b : ℕ) (l : List ℕ) → (keep_info p s b).kept ++ l ≡ s.kept ++ b ∷ l
  keep_info-kept s b l = ground (arith, append_assoc s.kept (b ∷ []) l)

  keep_info-pids : (s : Scan) (b : ℕ) → (keep_info p s b).pids ≡ s.pids
  keep_info-pids s b = ground arith

  scan-Stops :
      (id : Bytes) (s : Scan) (before : List ℕ) (a : ℕ) (after : List ℕ)
      → All IsOpen (before ++ a ∷ after)
      → (p.actors a).call_id ≡ id
      → Stops s.pids (s.kept ++ (before ++ a ∷ after)) (scan p id s (before ++ a ∷ after))
  unfolding scan Stops
  scan-Stops id s [] a after op e = (s, a ∷ after, rw (op.0, if_pos _ e) refl, refl, refl)
  scan-Stops id s (b ∷ before) a after op e = elim (Bytes-discrete (p.actors b).call_id id) [
    | yes same ↦ (s, b ∷ (before ++ a ∷ after), rw (op.0, if_pos _ same) refl, refl, refl)
    | no other ↦
        let (t, rest, f, k, m) = scan-Stops id (keep_info p s b) before a after op.1 e in
        (
          t,
          rest,
          scan_kept id s b _ op.0 other ∙ f,
          k ∙ keep_info-kept s b (before ++ a ∷ after),
          m ∙ keep_info-pids s b,
        )
  ]

  select-Stops :
      (pack : Request) (name : Bytes) (b : ℕ) (l : List ℕ)
      → Stops p.actor_pid_map (b ∷ l) (scan p pack.call_id (scan_start p b) (b ∷ l))
      → select p pack name (b ∷ l)
        ≡ returned (record p { actor_info_map = insert p.actor_info_map name (b ∷ l) })
  unfolding select Stops
  select-Stops pack name b l (s, rest, f, k, m) = rw f (rw (k, m) refl)

  -- Where all connections of a group are open and one of its actors is in the call, the packet is
  -- dropped: nobody is sent anything, nobody waits, and the chain of the call stays as it was.
  pub select_cyclic :
      (pack : Request) (name : Bytes) (before : List ℕ) (a : ℕ) (after : List ℕ)
      → All IsOpen (before ++ a ∷ after)
      → (p.actors a).call_id ≡ pack.call_id
      → select p pack name (before ++ a ∷ after)
        ≡ returned
            (record p { actor_info_map = insert p.actor_info_map name (before ++ a ∷ after) })
  select_cyclic pack name [] a after op e =
      select-Stops pack name a after (scan-Stops pack.call_id (scan_start p a) [] a after op e)
  select_cyclic pack name (b ∷ before) a after op e =
      select-Stops pack name b (before ++ a ∷ after)
        (scan-Stops pack.call_id (scan_start p b) (b ∷ before) a after op e)
