-- ===== src/PidFile/Stop.antt =====
-- From `create_pidfile` to `handle_stop_command` and `delete_pidfile` of src/coro_actor.cpp.
use coro_actor.Prelude.{
  subst, sym, arith, ◌≡◌, ◌≢◌, refl, ℕ, ◌^◌, ◌<◌, true, some, none, [], ◌∷◌, Bytes, Option-cases,
  Bool-cases, inl, inr,
}
use coro_actor.Prelude.Map.{insert, bytes_key}
use coro_actor.PidFile.{
  Decimal, Files, created, create_pidfile, delete_pidfile, handle_stop_command, read_pid,
}

module _ (decimal : Decimal) where
  -- What the other processes find after a pid file has been created.
  pub record IsOwned (old fs : Files) (file : Bytes) (pid : ℕ) : Type 0 where
    pub was_absent : old.text file ≡ none
    pub stops : handle_stop_command decimal fs file ≡ pid ∷ []
    pub once : (q : ℕ) (again : Files) → create_pidfile decimal fs file q ≢ created again
    pub kept : (q : ℕ) → q ≢ pid → delete_pidfile decimal fs file q ≡ fs
    pub deleted : (delete_pidfile decimal fs file pid).text file ≡ none
    pub others : (f : Bytes) → f ≢ file → fs.text f ≡ old.text f

  create_pidfile-text :
      (old fs : Files) (file : Bytes) (pid : ℕ)
      → create_pidfile decimal old file pid ≡ created fs
      → (old.text file ≡ none)
        × (fs ≡ record old { text = insert old.text file (decimal.write pid) })
  unfolding create_pidfile
  create_pidfile-text old fs file pid e = elim (Option-cases (old.text file)) [
    | inr (t, k) ↦ absurd (ground arith)
    | inl k ↦ elim (Bool-cases (old.writable file)) [
      | inl w ↦ (k, ground arith)
      | inr w ↦ absurd (ground arith)
    ]
  ]

  abbrev with_pid : Files → Bytes → ℕ → Files
  with_pid old file pid = record old { text = insert old.text file (decimal.write pid) }

  read_pid-with_pid :
      (old : Files) (file : Bytes) (pid : ℕ)
      → old.readable file ≡ true
      → pid < 2 ^ 31
      → read_pid decimal (with_pid old file pid) file ≡ some pid
  read_pid-with_pid old file pid r h = ground (arith, decimal.round pid h)

  create_again :
      (old : Files) (file : Bytes) (pid q : ℕ) (again : Files)
      → create_pidfile decimal (with_pid old file pid) file q ≢ created again
  unfolding create_pidfile
  create_again old file pid q again = λ e. absurd (ground arith)

  with_pid-IsOwned :
      (old : Files) (file : Bytes) (pid : ℕ)
      → old.text file ≡ none
      → old.readable file ≡ true
      → pid < 2 ^ 31
      → IsOwned old (with_pid old file pid) file pid
  unfolding handle_stop_command delete_pidfile
  with_pid-IsOwned old file pid absent r h =
      let e = read_pid-with_pid old file pid r h in
      record {
        was_absent = absent;
        stops = rw (e, handle_stop_command) refl;
        once = create_again old file pid;
        kept = λ q ne. ground (arith, e);
        deleted = ground (arith, e);
        others = λ f ne. ground arith;
      }

  -- When `create_pidfile` has written the pid of a process, below 2^31, to a file that may be read, the
  -- file was not there before, and the stop command sends SIGTERM to this process and no other. Until
  -- it is deleted no process can create it again; a process with another pid, as a child of the
  -- master or a second master, does not delete it, and the process itself does. No other file changes.
  pub create_pidfile-IsOwned :
      (old fs : Files) (file : Bytes) (pid : ℕ)
      → pid < 2 ^ 31
      → old.readable file ≡ true
      → create_pidfile decimal old file pid ≡ created fs
      → IsOwned old fs file pid
  create_pidfile-IsOwned old fs file pid h r e =
      let (absent, k) = create_pidfile-text old fs file pid e in
      subst (λ t. IsOwned old t file pid) (sym k) (with_pid-IsOwned old file pid absent r h)
