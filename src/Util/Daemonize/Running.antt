-- ===== src/Util/Daemonize/Running.antt =====
-- What a process that runs `daemonize` has done where it goes on, and where it ends.
use Prim.Native.String.{◌++◌}
use text.Mathlib.TextPositions.{eq_refl}
use pxp_agent.Base.{
  ◌≡◌, refl, ◌∙◌, ◌⊎◌, inl, inr, ℕ, String, Bool, true, false, Bool-cases, arith, Option, none,
  some, ◌∷◌, nat_eq, if◌then◌else◌,
}
use pxp_agent.Exception.{Result, ok, err, aborted, pid_file_error}
use pxp_agent.Libraries.{Libraries}
use pxp_agent.Configuration.{Configuration, HorseWhisperer, as_string}
use pxp_agent.Configuration.Settings
use pxp_agent.Util.Stoi.{to_string}
use pxp_agent.Util.PidFile.{
  PidFile, new, read_lock, write_lock, write, is_executing, cleanup_when_done,
}
use pxp_agent.Util.PidFile.Locking.{lock_read, lock_write, can_lock_write}
use pxp_agent.Util.Daemonize.{
  System, State, after, Fork, fork_failed, in_child, in_parent, called, lift, Outcome, goes_on,
  exits, throws, aborts, Run, take_lock, forked, remove_lock_and_exit, Call, Process, started,
  first_child, second_child, waited, suspended, created_session, blocked_sigusr1, signalled_parent,
  restored_mask, changed_directory, disposed, locked, sigint, sigterm, sigquit, sigusr1,
  sig_handler, dumb_sig_handler,
}
use pxp_agent.Util.Daemonize.Phases.{
  unless_executing, lock_in, open_pid_file, daemonize, lock_and_signal, start, in_first_child,
  take_over, write_pid, settle, become_daemon,
}
use pxp_agent.Util.Daemonize.Rules.{
  Post, after-Post, attempt-Post, lift-Post, check_lock-Post, take_lock-Post,
}
use pxp_agent.Util.Daemonize.States.{
  initial, Exited, begun, in_first, in_second, owning, daemon_calls,
}

module _ ⦃L : Libraries⦄ where
  open L use {Disk, exists, read-write, atomic_write_to_file}

  module _ (y : System) (p : PidFile) (d : Disk) where
    forked-Post :
        (E : Type 0) (child : Process) (wait : Call) (s t : State) (f : Fork)
        → (s.process ≡ started) ⊎ (s.process ≡ first_child)
        → s.disk ≡ d
        → record s { process = child; lock = none } ≡ t
        → E
        → Post (λ u v. E × (v ≡ t)) (Exited y p d) (forked child wait f s)
    forked-Post E child wait s t fork_failed b h k e = inr (refl, inl h)
    forked-Post E child wait s t in_child b h k e = (e, k)
    forked-Post E child wait s t in_parent b h k e = inl (refl, b, h)

    -- A phase that ends in the state t, if E holds.
    abbrev Reaches : Type 0 → State → Outcome (Unit {0}) × State → Type 0
    Reaches E t = Post (λ u v. E × (v ≡ t)) (Exited y p d)

    abbrev Idle : Type 0
    Idle = is_executing y.kill p d ≡ ok false

    answered :
        (running : Bool)
        → is_executing y.kill p d ≡ ok running
        → Reaches Idle
            (begun d)
            ((if running then remove_lock_and_exit else λ e. (goes_on tt, e)) (begun d))
    answered true e = inr (refl, inl refl)
    answered false e = (e, refl)

    unless_executing-Reaches : Reaches Idle (begun d) (unless_executing y p (begun d))
    unfolding unless_executing
    unless_executing-Reaches =
        lift-Post (λ u v. Idle × (v ≡ begun d)) (Exited y p d) (is_executing y.kill p d) (begun d) _
          answered

    start-Reaches : Reaches Idle (in_first d) (start y p (begun d))
    unfolding start lock_in
    start-Reaches =
        let Q = λ (u : Unit {0}) (v : State). Idle × (v ≡ in_first d) in
        let X = Exited y p d in
        after-Post Q X Idle (begun d) _ _ unless_executing-Reaches (λ e.
          take_lock-Post Q X read_lock (lock_read (y.set_lock started) false p) _ _
            (inr (refl, inl refl))
            (check_lock-Post Q X (can_lock_write y.test_lock p) _ _ (inr (refl, inl refl)) (
              forked-Post Idle first_child waited _ (in_first d) (y.fork started) (inl refl) refl
                refl e)))

    in_first_child-Reaches : Reaches (Unit {0}) (in_second d) (in_first_child y p (in_first d))
    unfolding in_first_child lock_in
    in_first_child-Reaches =
        let Q = λ (u : Unit {0}) (v : State). Unit {0} × (v ≡ in_second d) in
        let X = Exited y p d in
        take_lock-Post Q X read_lock (lock_read (y.set_lock first_child) false p) _ _
          (inr (refl, inl refl))
          (attempt-Post Q X y.setsid created_session _ _ (inr (refl, inl refl)) (
            attempt-Post Q X y.block_mask blocked_sigusr1 _ _ (inr (refl, inl refl)) (
              attempt-Post Q X y.sigaction (disposed sigusr1 dumb_sig_handler) _ _
                (inr (refl, inl refl))
                (forked-Post (Unit {0}) second_child suspended _ (in_second d) (y.fork first_child)
                  (inr refl) refl refl tt))))

    abbrev signalled : State
    signalled = record (in_second d) {
      lock = some read_lock;
      calls = signalled_parent ∷ locked read_lock ∷ (in_second d).calls;
    }

    lock_and_signal-Reaches :
        (r : Result (Unit {0})) → Reaches (Unit {0}) signalled (lock_and_signal y r (in_second d))
    unfolding lock_and_signal
    lock_and_signal-Reaches (ok u) = (tt, refl)
    lock_and_signal-Reaches (err (pid_file_error w)) = inr (refl, inl refl)
    lock_and_signal-Reaches (err _) = tt
    lock_and_signal-Reaches aborted = tt

    owned :
        (r : Result (Unit {0}))
        → Reaches (Unit {0}) (owning d) (take_lock write_lock r (called restored_mask signalled))
    owned (ok u) = (tt, refl)
    owned (err (pid_file_error w)) = inr (refl, inl refl)
    owned (err _) = tt
    owned aborted = tt

    take_over-Reaches : Reaches (Unit {0}) (owning d) (take_over y p (in_second d))
    unfolding take_over
    take_over-Reaches =
        let Q = λ (u : Unit {0}) (v : State). Unit {0} × (v ≡ owning d) in
        let X = Exited y p d in
        after-Post Q X (Unit {0}) signalled _ _
          (lock_and_signal-Reaches (lock_read (y.set_lock second_child) false p))
          (λ u.
            attempt-Post Q X y.reset_mask restored_mask _ _ (inr (refl, inl refl))
              (owned (lock_write y.wait_lock true p)))

    -- A daemon that has written its PID.
    abbrev pub Daemon : State → Type 0
    Daemon s =
        (s.process ≡ second_child)
        × (s.lock ≡ some write_lock)
        × (s.calls ≡ daemon_calls)
        × (L.read s.disk p.file_path ≡ some (to_string y.agent_pid ++ "\n"))

    abbrev Written : Disk → Type 0
    Written e = L.read e p.file_path ≡ some (to_string y.agent_pid ++ "\n")

    settle-Daemon :
        (e : Disk)
        → Written e
        → Post
            (λ u. Daemon)
            (Exited y p d)
            (settle y (called changed_directory (record (owning d) { disk = e })))
    unfolding settle
    settle-Daemon e w =
        let Q = λ (u : Unit {0}) (v : State). Daemon v in
        let X = Exited y p d in
        attempt-Post Q X (y.signal sigint) (disposed sigint sig_handler) _ _
          (inr (refl, inr (refl, w)))
          (attempt-Post Q X (y.signal sigterm) (disposed sigterm sig_handler) _ _
            (inr (refl, inr (refl, w)))
            (attempt-Post Q X (y.signal sigquit) (disposed sigquit sig_handler) _ _
              (inr (refl, inr (refl, w))) (refl, refl, refl, w)))

    write-Written : (e : Disk) → write y.agent_pid p d ≡ ok e → Written e
    unfolding write
    write-Written e w =
        let w' : atomic_write_to_file d (to_string y.agent_pid ++ "\n") p.file_path ≡ ok e =
          ground arith in
        read-write d e _ p.file_path p.file_path w' ∙ rw (eq_refl p.file_path)

    abbrev pub Began : Option PidFile → State → Type 0
    Began o s = (o ≡ some (cleanup_when_done p)) × Idle × Daemon s

    settled :
        Idle
        → (r : Outcome (Unit {0}) × State) → Post (λ u. Daemon) (Exited y p d) r
        → Post Began (Exited y p d) (after r (λ u s. (goes_on (some (cleanup_when_done p)), s)))
    settled i (goes_on u, s) h = (refl, i, h)
    settled i (exits code, s) h = h
    settled i (throws e, s) h = tt
    settled i (aborts, s) h = tt

    recorded :
        (r : Result Disk) (f : Unit {0} → Run (Option PidFile))
        → ((e : Disk)
            → r ≡ ok e
            → Post Began (Exited y p d) (f tt (record (owning d) { disk = e })))
        → Post Began
            (Exited y p d)
            (after (after (lift r (owning d)) (λ e s. (goes_on tt, record s { disk = e }))) f)
    recorded (ok e) f k = k e refl
    recorded (err x) f k = tt
    recorded aborted f k = tt

    become_daemon-Began : Post Began (Exited y p d) (become_daemon y p (begun d))
    unfolding become_daemon write_pid
    become_daemon-Began =
        let X = Exited y p d in
        after-Post Began X Idle (in_first d) _ _ start-Reaches (λ i.
          after-Post Began X (Unit {0}) (in_second d) _ _ in_first_child-Reaches (λ u.
            after-Post Began X (Unit {0}) (owning d) _ _ take_over-Reaches (λ v.
              recorded (write y.agent_pid p d) _ (λ e w.
                attempt-Post Began X y.chdir changed_directory _ _
                  (inr (refl, inr (refl, write-Written e w)))
                  (settled i _ (settle-Daemon e (write-Written e w)))))))

  module _ ⦃H : HorseWhisperer⦄ (y : System) (c : Configuration) (d : Disk) where
    -- The PID file that `daemonize` has opened, and the disk that the opening left.
    abbrev pub Opened : PidFile → Disk → Type 0
    Opened p e =
        (path : String) × (Settings.get as_string "pidfile" c ≡ ok path)
        × (new path (y.open_file d path) ≡ ok (p, e))

    abbrev pub Left : ℕ → State → Type 0
    Left code s = (p : PidFile) × (e : Disk) × Opened p e × Exited y p e code s

    abbrev pub Became : Option PidFile → State → Type 0
    Became none s = (nat_eq y.getppid 1 ≡ true) × (s ≡ initial d)
    Became (some q) s = (p : PidFile) × (e : Disk) × Opened p e × Began y p e (some q) s

    opened :
        (p : PidFile) (e : Disk) (r : Outcome (Option PidFile) × State)
        → Opened p e
        → Post (Began y p e) (Exited y p e) r
        → Post Became Left r
    opened p e (goes_on none, s) o h = cc
    opened p e (goes_on (some q), s) o h = (p, e, o, h)
    opened p e (exits code, s) o h = (p, e, o, h)
    opened p e (throws x, s) o h = tt
    opened p e (aborts, s) o h = tt

    started_with :
        (path : String) (r : Result (PidFile × Disk))
        → Settings.get as_string "pidfile" c ≡ ok path
        → new path (y.open_file d path) ≡ r
        → Post Became Left (
            after
              (after (lift r (begun d)) (λ x s. (goes_on x.0, record s { disk = x.1 })))
              (become_daemon y))
    started_with path (ok (p, e)) g o = opened p e _ (path, g, o) (become_daemon-Began y p e)
    started_with path (err x) g o = tt
    started_with path aborted g o = tt

    pub daemonize-Became : Post Became Left (daemonize y c (initial d))
    unfolding daemonize open_pid_file
    daemonize-Became = elim (Bool-cases (nat_eq y.getppid 1)) [
      | inl e ↦ rw e (e, refl)
      | inr e ↦ rw e (
          lift-Post Became Left (Settings.get as_string "pidfile" c) (begun d) _
            (λ path g. started_with path _ g refl))
    ]
