-- ===== src/Proxy/System/Invariant.antt =====
-- What holds in every state that the proxy can reach.
use coro_actor.Prelude.{
  ℕ, suc, ◌≡◌, ◌≢◌, refl, subst, some-injective, Bool, true, some, Bytes, arith, ◌↔◌, ◌⊎◌, inl, inr,
  ite, ℕ_discrete,
}
use coro_actor.Prelude.Map.{Map}
use coro_actor.Packet.{Packet}
use coro_actor.Proxy.{Proxy}
use coro_actor.Proxy.Deal.{Point, Outcome, looped, writing, crashed, deal, resume}
use coro_actor.Proxy.Sound.{IsSound, From, From-refl, Grows}
use coro_actor.Proxy.Rounds.{IsPoint, IsFine, IsPoint-Grows, resume-IsFine}
use coro_actor.Proxy.Rounds.Packets.{Accepts, not_both, deal-IsFine, deal-cases, deal-crashed_iff}
use coro_actor.Proxy.System.{
  Task, unused, reading, suspended, finished, System, set_task, after, accepted, Step, accept,
  hang_up, receive, complete, fresh, Reach, start, later,
}

-- The connection of a live coroutine is open.
abbrev pub IsTask : Proxy → ℕ → Task → Type 0
IsTask p k unused = Unit
IsTask p k reading = p.is_open k ≡ true
IsTask p k (suspended t) = (p.is_open k ≡ true) × IsPoint p t
IsTask p k finished = Unit

pub record Inv (s : System) : Type 0 where
  pub sound : IsSound s.proxy
  pub tasks : (k : ℕ) → IsTask s.proxy k (s.tasks k)

IsTask-Grows : {p q : Proxy} (k : ℕ) (t : Task) → Grows p q → IsTask p k t → IsTask q k t
IsTask-Grows k unused g h = tt
IsTask-Grows k reading g h = g.is_open k h
IsTask-Grows k (suspended t) g h = (g.is_open k h.0, IsPoint-Grows t g h.1)
IsTask-Grows k finished g h = tt

-- One coroutine has moved, and the tables have grown.
moved :
    (s : System) (q : Proxy) (k n : ℕ) (t : Task)
    → Inv s
    → From s.proxy q
    → IsTask q k t
    → Inv (record { proxy = q; tasks = set_task s.tasks k t; next_socket = n })
moved s q k n t v f h = record {
  sound = f.sound;
  tasks = λ j. elim (ℕ_discrete k j) as (λ d. IsTask q j (ite d t (s.tasks j))) [
    | yes e ↦ rw (← e) h
    | no e ↦ IsTask-Grows j (s.tasks j) f.grows (v.tasks j)
  ];
}

round-Inv :
    (s t : System) (k : ℕ) (o : Outcome)
    → Inv s
    → s.proxy.is_open k ≡ true
    → IsFine s.proxy o
    → after s k o ≡ some t
    → Inv t
round-Inv s t k (looped q) v op f e =
    subst Inv (some-injective _ _ e) (moved s q k s.next_socket reading v f (f.grows.is_open k op))
round-Inv s t k (writing q w packet point) v op f e =
    subst Inv (some-injective _ _ e)
      (moved s q k s.next_socket (suspended point) v f.0 (f.0.grows.is_open k op, f.1))
round-Inv s t k crashed v op f e = absurd f

accepted-Inv : (s : System) → Inv s → Inv (accepted s)
accepted-Inv s v =
    moved s (accepted s).proxy s.next_socket (suc s.next_socket) reading v f
      (opens s.next_socket (inl refl))
  where
    opens :
        (k : ℕ)
        → (s.next_socket ≡ k) ⊎ (s.proxy.is_open k ≡ true)
        → (accepted s).proxy.is_open k ≡ true
    opens k (inl e) = ground arith
    opens k (inr e) = ground arith

    f : From s.proxy (accepted s).proxy
    f = record {
      sound = record {
        opened = λ a h. opens _ (inr (v.sound.opened a h));
        groups = v.sound.groups;
        pids = v.sound.pids;
        chains = v.sound.chains;
        queues = v.sound.queues;
      };
      grows = record {
        actors = omega arith;
        known = λ i k. k;
        chains = λ id h. h;
        is_open = λ k e. opens k (inr e);
      };
    }

-- The coroutine of a connection that reads, or that is suspended, finds it open.
reading-open : (s : System) (k : ℕ) → Inv s → s.tasks k ≡ reading → s.proxy.is_open k ≡ true
reading-open s k v e = subst (IsTask s.proxy k) e (v.tasks k)

suspended-IsPoint :
    (s : System) (k : ℕ) (t : Point)
    → Inv s
    → s.tasks k ≡ suspended t
    → (s.proxy.is_open k ≡ true) × IsPoint s.proxy t
suspended-IsPoint s k t v e = subst (IsTask s.proxy k) e (v.tasks k)

after-crashed : (s t : System) (k : ℕ) (o : Outcome) → after s k o ≡ some t → o ≢ crashed
after-crashed s t k (looped q) e = λ f. cc
after-crashed s t k (writing q w packet point) e = λ f. cc
after-crashed s t k crashed e = absurd (cc)

Step-Inv : {s t : System} → Step s t → Inv s → Inv t
Step-Inv {s} accept v = accepted-Inv s v
Step-Inv {s} (hang_up k e) v = moved s s.proxy k s.next_socket finished v (From-refl v.sound) tt
Step-Inv {s} {t} (receive k packet e f) v =
    let op = reading-open s k v e in
    elim (deal-cases s.proxy k packet) [
      | inl a ↦ round-Inv s t k _ v op (deal-IsFine s.proxy k packet v.sound op a) f
      | inr c ↦ absurd (after-crashed s t k _ f c)
    ]
Step-Inv {s} {t} (complete k failed point e f) v =
    let (op, h) = suspended-IsPoint s k point v e in
    round-Inv s t k _ v op (resume-IsFine s.proxy point failed v.sound h) f

fresh-Inv : (services : Map Bytes Bytes) → Inv (fresh services)
fresh-Inv services = record {
  sound = record {
    opened = λ a h. absurd (omega arith);
    groups = λ name. tt;
    pids = λ i a e. cc;
    chains = λ id. tt;
    queues = λ a h. tt;
  };
  tasks = λ k. tt;
}

-- In every state that the proxy reaches, through any packets, failed reads and writes and orders of
-- its coroutines, the tables are sound and what a suspended coroutine goes on with is there.
pub Reach-Inv : {services : Map Bytes Bytes} {s : System} → Reach services s → Inv s
Reach-Inv {services} start = fresh-Inv services
Reach-Inv (later r st) = Step-Inv st (Reach-Inv r)

-- A coroutine that goes on from a write, failed or not, never crashes the proxy.
pub resume-ne-crashed :
    {services : Map Bytes Bytes} {s : System}
    → Reach services s
    → (k : ℕ) (point : Point) (failed : Bool) → s.tasks k ≡ suspended point
    → resume s.proxy point failed ≢ crashed
resume-ne-crashed {s = s} r k point failed e =
    let v = Reach-Inv r in
    λ c.
      not_both s.proxy _ c
        (resume-IsFine s.proxy point failed v.sound (suspended-IsPoint s k point v e).1)

-- Whatever the proxy reaches, a packet that comes in crashes it exactly if it is a request of a
-- process that has not connected, or a response to a call whose chain has fewer than two actors.
pub receive-crashed_iff :
    {services : Map Bytes Bytes} {s : System}
    → Reach services s
    → (k : ℕ) (packet : Packet) → s.tasks k ≡ reading
    → (deal s.proxy k packet ≡ crashed) ↔ (¬ Accepts s.proxy packet)
receive-crashed_iff {s = s} r k packet e =
    let v = Reach-Inv r in deal-crashed_iff s.proxy k packet v.sound (reading-open s k v e)
