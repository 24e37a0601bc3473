-- ===== src/Proxy/Rounds/Packets.antt =====
-- The rounds of `handle_proxy_deal_actor` that begin with a packet, and the packets that crash it.
use coro_actor.Prelude.{
  ℕ, ◌↔◌, ◌⊎◌, suc, ◌≤◌, ◌<◌, ◌≡◌, ◌≢◌, refl, true, some, none, List, [], ◌∷◌, All, All-append,
  All-map, All-back, All-pop_back, arith, inl, inr, Option-cases, length, back, pop_back,
}
use coro_actor.Prelude.Map.{insert, bytes_key, nat_key}
use coro_actor.Packet.{
  Packet, connect, connack, request, response, other, Connect, Request, Response,
}
use coro_actor.Proxy.{Proxy, chain, extend_chain, list_at, pointer_at}
use coro_actor.Proxy.Deal.{
  next_packet, Outcome, looped, writing, crashed, deal_connect, start_chain, deal_request,
  deal_response, deal,
}
use coro_actor.Proxy.Tables.{at-update, list_at-insert, pointer_at-insert}
use coro_actor.Proxy.Sound.{
  Known, IsSound, From, From-refl, From-trans, enqueue-From, extend_chain-From, set_chain-From,
}
use coro_actor.Proxy.Safety.{IsSafe-trans, handle_request-IsSafe}
use coro_actor.Proxy.Rounds.{IsFine, continue_with-IsFine}

deal_connect-IsFine :
    (p : Proxy) (socket : ℕ) (c : Connect)
    → IsSound p
    → p.is_open socket ≡ true
    → IsFine p (deal_connect p socket c)
unfolding deal_connect
deal_connect-IsFine p socket c s op = (
  record {
    sound = record {
      opened = λ b h.
          at-update (λ v. p.is_open v.socket ≡ true) p.actors p.next_actor _ b (λ e. op)
            (λ ne. s.opened b (omega arith));
      groups = λ name.
          list_at-insert (All (λ a. a < suc p.next_actor)) p.actor_info_map c.name _ name
            (λ e.
              All-append _ (list_at p.actor_info_map c.name) (p.next_actor ∷ [])
                (later _ (s.groups c.name)) (omega arith))
            (later _ (s.groups name));
      pids = λ i.
          pointer_at-insert (λ o. (a : ℕ) → o ≡ some a → a < suc p.next_actor) p.actor_pid_map c.pid
            _ i (λ e a f. ground arith) (λ a f. omega (arith, s.pids i a f));
      chains = λ id. later _ (s.chains id);
      queues = λ b h.
          at-update (λ v. All (λ r. Knows r.pid) v.msg_queue) p.actors p.next_actor _ b (λ e. tt)
            (λ ne. All-map (λ r. knows r.pid) (p.actors b).msg_queue (s.queues b (omega arith)));
    };
    grows = record { actors = omega arith; known = knows; chains = λ id h. h; is_open = λ k h. h };
  },
  tt,
)
  where
    later : (l : List ℕ) → All (λ a. a < p.next_actor) l → All (λ a. a < suc p.next_actor) l
    later l h = All-map (λ a k. omega arith) l h

    Knows : ℕ → Type 0
    Knows i = (a : ℕ) × (pointer_at (insert p.actor_pid_map c.pid (some p.next_actor)) i ≡ some a)

    knows : (i : ℕ) → Known p i → Knows i
    knows i k =
        pointer_at-insert (λ o. (a : ℕ) × (o ≡ some a)) p.actor_pid_map c.pid (some p.next_actor) i
          (λ e. (p.next_actor, refl)) k

start_chain-From :
    (p : Proxy) (r : Request) (a : ℕ) → IsSound p → a < p.next_actor → From p (start_chain p r a)
start_chain-From p r a s lt =
    elim (p.actor_call_chain_map r.call_id)
      as (λ o. From p (elim o [ none ↦ extend_chain p r.call_id a | some l ↦ p ])) [
        | none ↦ extend_chain-From s r.call_id a lt
        | some l ↦ From-refl s
      ]

deal_request-IsFine :
    (p : Proxy) (r : Request) → IsSound p → Known p r.pid → IsFine p (deal_request p r)
unfolding deal_request
deal_request-IsFine p r s (a, known) =
    let lt = s.pids r.pid a known in
    let f = start_chain-From p r a s lt in
    let g =
      From-trans f (enqueue-From f.sound a r (omega arith) (f.grows.known r.pid (a, known))) in
    rw (known, deal_request)
      (continue_with-IsFine p next_packet _ looped
        (IsSafe-trans _ g (handle_request-IsSafe _ a g.sound (omega arith))) tt (λ q h. h))

-- A chain with a last but one element.
back-two :
    (l : List ℕ)
    → 2 ≤ length l
    → (a : ℕ) × (b : ℕ) × (back l ≡ some a) × (back (pop_back l) ≡ some b)
back-two [] h = absurd (omega arith)
back-two (x ∷ []) h = absurd (omega arith)
back-two (x ∷ y ∷ []) h = (y, x, refl, refl)
back-two (x ∷ y ∷ z ∷ r) h = let (a, b, e, f) = back-two (y ∷ z ∷ r) (omega arith) in (a, b, e, f)

back-ne-nil : (l : List ℕ) {x : ℕ} → back l ≡ some x → l ≢ []
back-ne-nil [] e = cc
back-ne-nil (y ∷ l) e = λ f. cc

deal_response-IsFine :
    (p : Proxy) (r : Response)
    → IsSound p
    → 2 ≤ length (chain p r.call_id)
    → IsFine p (deal_response p r)
unfolding deal_response
deal_response-IsFine p r s h =
    let (a, b, e, f) = back-two (chain p r.call_id) h in
    let ne : pop_back (chain p r.call_id) ≢ [] = back-ne-nil _ f in
    rw (e, f, deal_response)
      (
        set_chain-From s r.call_id _ (All-pop_back _ (chain p r.call_id) (s.chains r.call_id)) ne,
        (
          All-back _ (chain p r.call_id) (s.chains r.call_id) e,
          list_at-insert (λ l. l ≢ []) p.actor_call_chain_map r.call_id _ r.call_id (λ e. ne)
              (back-ne-nil _ e),
        ),
      )

-- The packets for which a round has all that it reads through.
abbrev pub Accepts : Proxy → Packet → Type 0
Accepts p (connect c) = Unit
Accepts p (request r) = Known p r.pid
Accepts p (response r) = 2 ≤ length (chain p r.call_id)
Accepts p (connack c) = Unit
Accepts p (other b) = Unit

pub deal-IsFine :
    (p : Proxy) (socket : ℕ) (packet : Packet)
    → IsSound p
    → p.is_open socket ≡ true
    → Accepts p packet
    → IsFine p (deal p socket packet)
unfolding deal
deal-IsFine p socket (connect c) s op h = deal_connect-IsFine p socket c s op
deal-IsFine p socket (request r) s op h = deal_request-IsFine p r s h
deal-IsFine p socket (response r) s op h = deal_response-IsFine p r s h
deal-IsFine p socket (connack c) s op h = From-refl s
deal-IsFine p socket (other b) s op h = From-refl s

pub not_both : (p : Proxy) (o : Outcome) → o ≡ crashed → ¬ IsFine p o
not_both p (looped q) e h = cc
not_both p (writing q w packet t) e h = cc
not_both p crashed e h = h

deal_response-short :
    (p : Proxy) (r : Response) (l : List ℕ)
    → chain p r.call_id ≡ l
    → ¬ (2 ≤ length l)
    → deal_response p r ≡ crashed
unfolding deal_response
deal_response-short p r [] e h = ground arith
deal_response-short p r (x ∷ []) e h = ground arith
deal_response-short p r (x ∷ y ∷ l) e h = absurd (h (omega arith))

two_or_short : (l : List ℕ) → (2 ≤ length l) ⊎ (¬ (2 ≤ length l))
two_or_short [] = inr (λ h. omega arith)
two_or_short (x ∷ []) = inr (λ h. omega arith)
two_or_short (x ∷ y ∷ l) = inl (omega arith)

pub deal-cases :
    (p : Proxy) (socket : ℕ) (packet : Packet) → Accepts p packet ⊎ (deal p socket packet ≡ crashed)
unfolding deal deal_request
deal-cases p socket (connect c) = inl tt
deal-cases p socket (request r) = elim (Option-cases (pointer_at p.actor_pid_map r.pid)) [
  | inl e ↦ inr (rw (e, deal, deal_request) refl)
  | inr k ↦ inl k
]
deal-cases p socket (response r) = elim (two_or_short (chain p r.call_id)) [
  | inl h ↦ inl h
  | inr h ↦ inr (deal_response-short p r (chain p r.call_id) refl h)
]
deal-cases p socket (connack c) = inl tt
deal-cases p socket (other b) = inl tt

-- Where the tables are sound, a packet on an open connection crashes the proxy exactly if it is a
-- request of a process that has not connected, whose entry of `actor_pid_map` is null, or a response
-- to a call whose chain has fewer than two actors.
pub deal-crashed_iff :
    (p : Proxy) (socket : ℕ) (packet : Packet)
    → IsSound p
    → p.is_open socket ≡ true
    → (deal p socket packet ≡ crashed) ↔ (¬ Accepts p packet)
deal-crashed_iff p socket packet s op = (
  λ e h. not_both p (deal p socket packet) e (deal-IsFine p socket packet s op h),
  λ h. elim (deal-cases p socket packet) [ inl a ↦ absurd (h a) | inr e ↦ e ],
)
