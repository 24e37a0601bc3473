-- ===== src/StartUp/Twice.antt =====
-- A process that has been started, and what a second process does with the same configuration.
use coro_actor.Prelude.{
  ◌≡◌, ◌≢◌, refl, sym, ap, ◌∙◌, subst, ℕ, ◌<◌, ◌^◌, Bool, true, false, Option, some, none, List, [],
  ◌∷◌, Bytes, codes, if◌then◌else◌, Bool-cases, inl, inr, if-both,
}
use coro_actor.Prelude.Map.{Map, empty}
use coro_actor.Config.{Config, initial}
use coro_actor.Config.Yaml.{Yaml}
use coro_actor.Config.Loader.{load}
use coro_actor.Logger.{Logger, set_logger}
use coro_actor.Supervisor.{master, ActorProcess}
use coro_actor.PidFile.{Decimal, Files, Created, created, thrown, create_pidfile}
use coro_actor.PidFile.Stop.{IsOwned, create_pidfile-IsOwned}
use coro_actor.StartUp.{
  Options, Choice, shows_help, usage_error, uses, choose, System, Daemon, exits, refuses, goes_on,
  set_daemon, Master, Init, exited, throws, initialised, listen_all, listened, logged,
  after_created, create, daemonised, serve, use_config, use_choice, init, after_init,
}

-- The master of an `init` that has returned.
abbrev or_else : Master → Init → Master
or_else other (exited status killed) = other
or_else other (throws fs file pid) = other
or_else other (initialised m) = m

module _ (y : Yaml) (decimal : Decimal) (sys : System) (files : Files) where
  -- What has been done where the pid file has been created, by the process `pid`.
  record IsCreated (c : Config) (pid : ℕ) (m : Master) : Type 0 where
    pub config : m.config ≡ c
    pub pid_is : m.pid ≡ pid
    pub creates : create_pidfile decimal files c.pid_file pid ≡ created m.files
    pub listens : listen_all sys c.actor_configs [] empty ≡ some (m.actor_processes, m.ac_map)

  listened-IsCreated :
      (fs : Files) (c : Config) (pid : ℕ) (logger : Logger)
      (r : Option (List ActorProcess × Map Bytes ℕ)) (m : Master)
      → create_pidfile decimal files c.pid_file pid ≡ created fs
      → listen_all sys c.actor_configs [] empty ≡ r
      → listened y decimal sys files fs c pid logger r ≡ initialised m
      → IsCreated c pid m
  listened-IsCreated fs c pid logger none m made heard e = absurd (cc)
  listened-IsCreated fs c pid logger (some (ps, acs)) m made heard e =
      let begun : Master = record {
        pid = pid;
        config = c;
        logger = logger;
        actor_processes = ps;
        ac_map = acs;
        files = fs;
      } in
      subst (IsCreated c pid) (ap (or_else begun) e)
        (record { config = refl; pid_is = refl; creates = made; listens = heard })

  logged-IsCreated :
      (fs : Files) (c : Config) (pid : ℕ) (r : Option Logger) (m : Master)
      → create_pidfile decimal files c.pid_file pid ≡ created fs
      → logged y decimal sys files fs c pid r ≡ initialised m
      → IsCreated c pid m
  logged-IsCreated fs c pid none m made e = absurd (cc)
  logged-IsCreated fs c pid (some logger) m made e =
      listened-IsCreated fs c pid logger (listen_all sys c.actor_configs [] empty) m made refl e

  created-IsCreated :
      (c : Config) (pid : ℕ) (k : Created) (m : Master)
      → create_pidfile decimal files c.pid_file pid ≡ k
      → after_created y decimal sys files c pid k ≡ initialised m
      → IsCreated c pid m
  created-IsCreated c pid (thrown what) m made e = absurd (cc)
  created-IsCreated c pid (created fs) m made e =
      logged-IsCreated fs c pid
        (set_logger sys.logging master sys.log_dir pid (codes "actor_master")) m made e

  -- What has been done where `init` returns.
  pub record IsStarted (o : Options) (m : Master) : Type 0 where
    pub file : Bytes
    pub chosen : choose o ≡ uses file false
    pub loaded : load y file initial ≡ (true, m.config)
    pub creates : create_pidfile decimal files m.config.pid_file m.pid ≡ created m.files
    pub listens :
        listen_all sys m.config.actor_configs [] empty ≡ some (m.actor_processes, m.ac_map)

  daemonised-IsCreated :
      (c : Config) (d : Daemon) (m : Master)
      → daemonised y decimal sys files c d ≡ initialised m
      → (pid : ℕ) × IsCreated c pid m
  daemonised-IsCreated c exits m e = absurd (cc)
  daemonised-IsCreated c refuses m e = absurd (cc)
  daemonised-IsCreated c (goes_on pid) m e =
      (pid, created-IsCreated c pid (create_pidfile decimal files c.pid_file pid) m refl e)

  serve-IsCreated :
      (c : Config) (p : ℕ) (m : Master)
      → serve y decimal sys files c p ≡ initialised m
      → (pid : ℕ) × IsCreated c pid m
  serve-IsCreated c p m e = elim (Bool-cases c.daemon) [
    | inl d ↦ daemonised-IsCreated c (set_daemon sys) m (
        sym (
          ap
            (λ b.
              if b
              then daemonised y decimal sys files c (set_daemon sys)
              else create y decimal sys files c p)
            d)
        ∙ e)
    | inr d ↦ (
      p,
      created-IsCreated c p (create_pidfile decimal files c.pid_file p) m refl (
          sym (
            ap
              (λ b.
                if b
                then daemonised y decimal sys files c (set_daemon sys)
                else create y decimal sys files c p)
              d)
          ∙ e),
    )
  ]

  use_config-IsCreated :
      (r : Bool × Config) (stop : Bool) (p : ℕ) (m : Master)
      → use_config y decimal sys files r stop p ≡ initialised m
      → (stop ≡ false) × (r ≡ (true, m.config)) × ((pid : ℕ) × IsCreated m.config pid m)
  use_config-IsCreated (false, c) stop p m e = absurd (cc)
  use_config-IsCreated (true, c) true p m e = absurd (cc)
  use_config-IsCreated (true, c) false p m e =
      let (pid, k) = serve-IsCreated c p m e in
      (
        refl,
        ap (λ d. (true, d)) (sym k.config),
        (pid, subst (λ d. IsCreated d pid m) (sym k.config) k),
      )

  use_choice-IsStarted :
      (o : Options) (ch : Choice) (p : ℕ) (m : Master)
      → choose o ≡ ch
      → use_choice y decimal sys files ch p ≡ initialised m
      → IsStarted o m
  use_choice-IsStarted o shows_help p m c e = absurd (cc)
  use_choice-IsStarted o usage_error p m c e = absurd (cc)
  use_choice-IsStarted o (uses file stop) p m c e =
      let (is_start, loaded, (pid, k)) = use_config-IsCreated (load y file initial) stop p m e in
      record {
        file = file;
        chosen = c ∙ ap (uses file) is_start;
        loaded = loaded;
        creates =
            subst (λ q. create_pidfile decimal files m.config.pid_file q ≡ created m.files)
              (sym k.pid_is) k.creates;
        listens = k.listens;
      }

  pub init-IsStarted :
      (o : Options) (p : ℕ) (m : Master)
      → init y decimal sys files (some o) p ≡ initialised m
      → IsStarted o m
  unfolding init
  init-IsStarted o p m e = use_choice-IsStarted o (choose o) p m refl e

-- A second process, whose pid is not that of the first one, finds the pid file.
module _ (y : Yaml) (decimal : Decimal) (sys : System) (fs old : Files) (c : Config) (pid : ℕ)
    (owned : IsOwned decimal old fs c.pid_file pid) where
  -- It does not come to return, and its destructor changes no file.
  pub record IsRefused (r : Init) : Type 0 where
    pub not_started : (m : Master) → r ≢ initialised m
    pub keeps : after_init y decimal sys fs r ≡ fs

  found-IsRefused :
      (q : ℕ) (k : Created)
      → q ≢ pid
      → create_pidfile decimal fs c.pid_file q ≡ k
      → IsRefused (after_created y decimal sys fs c q k)
  unfolding after_init
  found-IsRefused q (created again) ne e = absurd (owned.once q again e)
  found-IsRefused q (thrown what) ne e = record {
    not_started = λ m f. cc f;
    keeps = owned.kept q ne;
  }

  daemonised-IsRefused :
      (d : Daemon)
      → ((q : ℕ) → d ≡ goes_on q → q ≢ pid)
      → IsRefused (daemonised y decimal sys fs c d)
  unfolding after_init
  daemonised-IsRefused exits h = record { not_started = λ m f. cc f; keeps = refl }
  daemonised-IsRefused refuses h = record { not_started = λ m f. cc f; keeps = refl }
  daemonised-IsRefused (goes_on q) h =
      found-IsRefused q (create_pidfile decimal fs c.pid_file q) (h q refl) refl

  pub serve-IsRefused :
      (q : ℕ)
      → q ≢ pid
      → ((r : ℕ) → set_daemon sys ≡ goes_on r → r ≢ pid)
      → IsRefused (serve y decimal sys fs c q)
  serve-IsRefused q ne h =
      if-both IsRefused c.daemon (daemonised-IsRefused (set_daemon sys) h)
        (found-IsRefused q (create_pidfile decimal fs c.pid_file q) ne refl)

-- Once `init` of a process has returned with a pid below 2^31 and a pid file that may be read, a second
-- process with the same configuration file and another pid, as a daemon too, is refused: its `init` does not
-- return, and no file is changed, the pid file least of all; and a process with the option to stop exits with
-- the status 0 after SIGTERM to the first one alone.
pub init-once :
    (y : Yaml) (decimal : Decimal) (sys other : System) (files : Files) (o again stop : Options)
    (p q : ℕ) (m : Master)
    → (started : init y decimal sys files (some o) p ≡ initialised m) → m.pid < 2 ^ 31
    → files.readable m.config.pid_file ≡ true
    → choose again ≡ choose o
    → ((file : Bytes) → choose o ≡ uses file false → choose stop ≡ uses file true)
    → q ≢ m.pid
    → ((r : ℕ) → set_daemon other ≡ goes_on r → r ≢ m.pid)
    → ((n : Master) → init y decimal other m.files (some again) q ≢ initialised n)
      × (after_init y decimal other m.files (init y decimal other m.files (some again) q) ≡ m.files)
      × (init y decimal other m.files (some stop) q ≡ exited 0 (m.pid ∷ []))
unfolding init
init-once y decimal sys other files o again stop p q m started fits readable same stops ne fresh =
    let h = init-IsStarted y decimal sys files o p m started in
    let owned =
      create_pidfile-IsOwned decimal files m.files m.config.pid_file m.pid fits readable
        h.creates in
    let r = serve-IsRefused y decimal other m.files files m.config m.pid owned q ne fresh in
    let path : init y decimal other m.files (some again) q
        ≡ serve y decimal other m.files m.config q =
      ap (λ k. use_choice y decimal other m.files k q) (same ∙ h.chosen)
      ∙ ap (λ k. use_config y decimal other m.files k false q) h.loaded in
    (
      λ n e. r.not_started n (sym path ∙ e),
      ap (after_init y decimal other m.files) path ∙ r.keeps,
      ap (λ k. use_choice y decimal other m.files k q) (stops h.file h.chosen)
          ∙ ap (λ k. use_config y decimal other m.files k true q) h.loaded
          ∙ ap (exited 0) owned.stops,
    )
