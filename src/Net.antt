-- ===== src/Net.antt =====
-- The parts of asio that the processes read and write with.
pub mod Reads
pub mod Lists
use coro_actor.Prelude.{
  ◌≡◌, ℕ, ◌^◌, ◌<◌, Bool, Option, some, none, List, [], ◌∷◌, ◌++◌, Bytes, length,
}

-- What the program uses of asio: a socket `S` with `is_open`, `async_read` of a number of bytes into a
-- buffer of that size (none where `ec` is set), and the byte orders, which read a number as it lies
-- in the buffer. The laws are what asio documents for a connection that nobody else closes: a read
-- completes with the next bytes where as many still arrive before the end of the stream, and fails
-- where they do not.
pub record Asio (S : Type 0) : Type 0 where
  pub is_open : S → Bool
  pub async_read : ℕ → S → Option (Bytes × S)
  pub network_to_host_short : Bytes → ℕ
  pub network_to_host_long : Bytes → ℕ
  pub host_to_network_short : ℕ → Bytes
  pub host_to_network_long : ℕ → Bytes
  pub arriving : S → Bytes
  pub read_fails : (n : ℕ) (s : S) → length (arriving s) < n → async_read n s ≡ none
  pub read_all :
      (l rest : Bytes) (s : S)
      → arriving s ≡ l ++ rest
      → (t : S) × (async_read (length l) s ≡ some (l, t))
        × (arriving t ≡ rest)
        × (is_open t ≡ is_open s)
  pub length_short : (n : ℕ) → length (host_to_network_short n) ≡ 2
  pub length_long : (n : ℕ) → length (host_to_network_long n) ≡ 4
  pub short : (n : ℕ) → n < 2 ^ 16 → network_to_host_short (host_to_network_short n) ≡ n
  pub long : (n : ℕ) → n < 2 ^ 32 → network_to_host_long (host_to_network_long n) ≡ n

infixl 5 ◌>>=◌
abbrev pub ◌>>=◌ {ℓ κ} : {A : Type ℓ} {B : Type κ} → Option A → (A → Option B) → Option B
none >>= f = none
some a >>= f = f a

-- The byte that is read into a buffer of size 1.
abbrev pub byte : Bytes → ℕ
byte [] = 0
byte (b ∷ l) = b
