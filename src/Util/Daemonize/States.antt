-- ===== src/Util/Daemonize/States.antt =====
-- The states between the phases of `daemonize`, and what holds of a process that exits.
use Prim.Native.String.{◌++◌}
use pxp_agent.Base.{◌≡◌, ◌⊎◌, ℕ, none, some, List, [], ◌∷◌}
use pxp_agent.Libraries.{Libraries}
use pxp_agent.Util.Stoi.{to_string}
use pxp_agent.Util.PidFile.{PidFile, read_lock, write_lock}
use pxp_agent.Util.Daemonize.{
  System, State, called, Call, exit_success, exit_failure, started, first_child, second_child,
  set_umask, created_session, blocked_sigusr1, signalled_parent, restored_mask, changed_directory,
  disposed, locked, redirected, sigint, sigterm, sigquit, sigchld, sigtstp, sigttou, sigttin,
  sighup, sigusr1, sig_handler, dumb_sig_handler, default_action, ignored, stdin, stdout, stderr,
}

module _ ⦃L : Libraries⦄ where
  open L use {Disk, exists, read-write, atomic_write_to_file}

  -- The process that is started, on this disk.
  abbrev pub initial : Disk → State
  initial d = record { process = started; lock = none; calls = []; disk = d }

  -- Where a process exits: a parent, with 0, or after a failure. The PID file is not removed: the
  -- disk is as the opening of the PID file left it, or holds the PID of the daemon.
  abbrev pub Exited : System → PidFile → Disk → ℕ → State → Type 0
  Exited y p d code s =
      ((code ≡ exit_success) × ((s.process ≡ started) ⊎ (s.process ≡ first_child)) × (s.disk ≡ d))
      ⊎ ((code ≡ exit_failure)
          × ((s.disk ≡ d)
              ⊎ ((s.process ≡ second_child)
                  × (L.read s.disk p.file_path ≡ some (to_string y.agent_pid ++ "\n")))))

  -- The states between the phases.
  abbrev pub begun : Disk → State
  begun d = called set_umask (initial d)

  abbrev pub in_first : Disk → State
  in_first d = record {
    process = first_child;
    lock = none;
    calls = locked read_lock ∷ (begun d).calls;
    disk = d;
  }

  abbrev pub in_second : Disk → State
  in_second d = record {
    process = second_child;
    lock = none;
    calls =
        disposed sigusr1 dumb_sig_handler
        ∷ blocked_sigusr1
        ∷ created_session
        ∷ locked read_lock
        ∷ (in_first d).calls;
    disk = d;
  }

  abbrev pub owning : Disk → State
  owning d = record {
    process = second_child;
    lock = some write_lock;
    calls =
        locked write_lock
        ∷ restored_mask
        ∷ signalled_parent
        ∷ locked read_lock
        ∷ (in_second d).calls;
    disk = d;
  }

  -- The calls of a daemon and of the processes it descends from, the last one first.
  abbrev pub daemon_calls : List Call
  daemon_calls =
      redirected stderr
      ∷ redirected stdout
      ∷ redirected stdin
      ∷ disposed sighup ignored
      ∷ disposed sigttin ignored
      ∷ disposed sigttou ignored
      ∷ disposed sigtstp ignored
      ∷ disposed sigchld default_action
      ∷ disposed sigquit sig_handler
      ∷ disposed sigterm sig_handler
      ∷ disposed sigint sig_handler
      ∷ changed_directory
      ∷ locked write_lock
      ∷ restored_mask
      ∷ signalled_parent
      ∷ locked read_lock
      ∷ disposed sigusr1 dumb_sig_handler
      ∷ blocked_sigusr1
      ∷ created_session
      ∷ locked read_lock
      ∷ locked read_lock
      ∷ set_umask
      ∷ []
