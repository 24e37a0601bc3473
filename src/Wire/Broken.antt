-- ===== src/Wire/Broken.antt =====
-- What the processes read of a packet when the connection ends within it.
use coro_actor.Prelude.{
  ◌≡◌, refl, ap, sym, ◌∙◌, ℕ, suc, ◌^◌, ◌%◌, ◌<◌, ◌+◌, none, [], ◌∷◌, ◌++◌, Bytes, length,
  append_assoc, arith, length-append,
}
use coro_actor.Net.{Asio}
use coro_actor.Net.Reads.{fails, takes, read-Takes}
use coro_actor.Wire.{StructPack, Parsed, write_buf, read_frame, read_packet}

tail : Bytes → Bytes
tail [] = []
tail (x ∷ l) = l

head : Bytes → ℕ
head [] = 0
head (x ∷ l) = x

-- Where two texts begin with parts of the same length, these are the same, and so are the rests.
append-parts : (a c b d : Bytes) → length a ≡ length c → a ++ b ≡ c ++ d → (a ≡ c) × (b ≡ d)
unfolding tail head
append-parts [] [] b d h e = (refl, e)
append-parts [] (y ∷ c) b d h e = absurd (omega (arith, h))
append-parts (x ∷ a) [] b d h e = absurd (omega (arith, h))
append-parts (x ∷ a) (y ∷ c) b d h e =
    let (f, g) = append-parts a c b d (omega (arith, h)) (ap tail e) in (rw (f, ap head e) refl, g)

module _ {S : Type 0} (asio : Asio S) (struct_pack : StructPack) (proto : ℕ) (data_bytes : Bytes)
    (x : ℕ) (after : Bytes) where
  -- All of `proto`, of the length and of the data cannot have been read.
  no_room :
      (fits : length data_bytes < 2 ^ 32) (l1 l2 l3 rest : Bytes)
      → length l1 ≡ 1
      → length l2 ≡ 4
      → length l3 ≡ asio.network_to_host_long l2
      → (l1 ++ (l2 ++ (l3 ++ rest))) ++ x ∷ after ≡ write_buf asio struct_pack proto data_bytes
      → ⊥
  no_room fits l1 l2 l3 rest e1 e2 e3 e =
      let n = length data_bytes % 2 ^ 32 in
      let same : n ≡ length data_bytes = omega (arith, fits) in
      let size = asio.host_to_network_long n in
      let more = rest ++ x ∷ after in
      let whole : l1 ++ (l2 ++ (l3 ++ more)) ≡ proto ∷ [] ++ (size ++ data_bytes) =
        sym (
          append_assoc l1 (l2 ++ (l3 ++ rest)) (x ∷ after)
          ∙ ap (λ y. l1 ++ y)
              (append_assoc l2 (l3 ++ rest) (x ∷ after)
                ∙ ap (λ y. l2 ++ y) (append_assoc l3 rest (x ∷ after))))
        ∙ e in
      let (_, tail1) =
        append-parts l1 (proto ∷ []) (l2 ++ (l3 ++ more)) (size ++ data_bytes) e1 whole in
      let (is_size, tail2) =
        append-parts l2 size (l3 ++ more) data_bytes (e2 ∙ sym (asio.length_long n)) tail1 in
      let count : length l3 ≡ n =
        e3 ∙ ap asio.network_to_host_long is_size ∙ asio.long n (omega (arith, fits)) in
      let lengths : length l3 + (length rest + suc (length after)) ≡ length data_bytes =
        sym (length-append l3 more ∙ ap (λ y. length l3 + y) (length-append rest (x ∷ after)))
        ∙ ap length tail2 in
      omega (arith, count, same, lengths)

  -- Where the connection ends within a packet, with data of less than 2^32 bytes, so that at least its
  -- last byte is missing, a read fails: the reader gets no packet, whichever cases it has.
  pub read_packet-broken :
      (packet : ℕ → Bytes → Parsed) (s : S)
      → length data_bytes < 2 ^ 32
      → asio.arriving s ++ x ∷ after ≡ write_buf asio struct_pack proto data_bytes
      → read_packet asio struct_pack packet s ≡ none
  unfolding read_packet read_frame
  read_packet-broken packet s fits e = elim (read-Takes asio 1 s) [
    | fails f1 ↦ rw f1 refl
    | takes l1 s1 r1 e1 a1 ↦ rw r1 (elim (read-Takes asio 4 s1) [
      | fails f2 ↦ rw f2 refl
      | takes l2 s2 r2 e2 a2 ↦ rw r2 (elim (read-Takes asio (asio.network_to_host_long l2) s2) [
        | fails f3 ↦ rw f3 refl
        | takes l3 s3 r3 e3 a3 ↦ absurd (
            no_room fits l1 l2 l3 (asio.arriving s3) e1 e2 e3 (
              ap (λ y. y ++ x ∷ after) (sym (a1 ∙ ap (λ y. l1 ++ y) (a2 ∙ ap (λ y. l2 ++ y) a3)))
              ∙ e))
      ])
    ])
  ]
