-- ===== src/Net/Lists.antt =====
-- A connection whose bytes are a list, with numbers in network order, as an example of the interface.
use coro_actor.Prelude.{
  arith, ◌≡◌, refl, ap, ◌∙◌, ℕ, ◌+◌, ◌*◌, ◌/◌, ◌%◌, ◌<◌, true, false, Option, some, none, [], ◌∷◌,
  ◌++◌, Bytes, length, take, drop, ltb, if◌then◌else◌,
}
use coro_actor.Net.{Asio}

abbrev pub read_list : ℕ → Bytes → Option (Bytes × Bytes)
read_list n s = if ltb (length s) n then none else some (take n s, drop n s)

abbrev pub big_endian : ℕ → Bytes → ℕ
big_endian n [] = n
big_endian n (b ∷ l) = big_endian (n * 256 + b) l

abbrev pub short_bytes : ℕ → Bytes
short_bytes n = n / 256 ∷ n % 256 ∷ []

abbrev pub long_bytes : ℕ → Bytes
long_bytes n = n / 256 / 256 / 256 ∷ n / 256 / 256 % 256 ∷ n / 256 % 256 ∷ n % 256 ∷ []

pub take-append : (l rest : Bytes) → take (length l) (l ++ rest) ≡ l
take-append [] rest = refl
take-append (x ∷ l) rest = ap (◌∷◌ x) (take-append l rest)

pub drop-append : (l rest : Bytes) → drop (length l) (l ++ rest) ≡ rest
drop-append [] rest = refl
drop-append (x ∷ l) rest = drop-append l rest

ltb-append : (l rest : Bytes) → ltb (length (l ++ rest)) (length l) ≡ false
ltb-append [] rest = ground arith
ltb-append (x ∷ l) rest = ground (arith, ltb-append l rest)

pub read_list-append : (l rest : Bytes) → read_list (length l) (l ++ rest) ≡ some (l, rest)
read_list-append l rest = rw (ltb-append l rest, take-append l rest, drop-append l rest) refl

pub read_list-fails : (n : ℕ) (s : Bytes) → length s < n → read_list n s ≡ none
read_list-fails n s h = ground arith

abbrev pub list_asio : Asio Bytes
list_asio = record {
  is_open = λ s. true;
  async_read = read_list;
  network_to_host_short = big_endian 0;
  network_to_host_long = big_endian 0;
  host_to_network_short = short_bytes;
  host_to_network_long = long_bytes;
  arriving = λ s. s;
  read_fails = read_list-fails;
  read_all =
      λ l rest s e. (rest, ap (read_list (length l)) e ∙ read_list-append l rest, refl, refl);
  length_short = λ n. refl;
  length_long = λ n. refl;
  short = λ n h. omega arith;
  long = λ n h. omega arith;
}
