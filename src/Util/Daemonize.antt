-- ===== src/Util/Daemonize.antt =====
-- util/posix/daemonize.cc. The system calls are a parameter; `fork` tells which side of it is run, so
-- a run is that of one process, from the one that is started down to the one that goes on.
pub mod Phases
pub mod Rules
pub mod States
pub mod Running
use pxp_agent.Base.{ℕ, String, Bool, true, false, if◌then◌else◌, Option, none, some, List, ◌∷◌, ℤ}
use pxp_agent.Exception.{Exception, Result, ok, err, aborted, pid_file_error}
use pxp_agent.Libraries.{Libraries}
use pxp_agent.Util.Process.{Signalled}
use pxp_agent.Util.PidFile.{SysResult, LockType}

pub data Process : Type 0 where
  started first_child second_child : Process

pub data Signal : Type 0 where
  sigint sigterm sigquit sigchld sigtstp sigttou sigttin sighup sigusr1 : Signal

pub data Disposition : Type 0 where
  sig_handler dumb_sig_handler default_action ignored : Disposition

pub data StandardFile : Type 0 where
  stdin stdout stderr : StandardFile

-- What a process does to its surroundings.
pub data Call : Type 0 where
  set_umask waited suspended created_session blocked_sigusr1 : Call
  signalled_parent restored_mask changed_directory : Call
  locked : LockType → Call
  disposed : Signal → Disposition → Call
  redirected : StandardFile → Call

pub data Fork : Type 0 where
  fork_failed in_child in_parent : Fork

-- The answers of the system calls; a Boolean says whether the call succeeds.
pub record System ⦃L : Libraries⦄ : Type 0 where
  pub getppid : ℕ
  pub agent_pid : ℤ
  -- open with O_CREAT: the descriptor, and the disk with the file
  pub open_file : L.Disk → String → SysResult (ℕ × L.Disk)
  pub kill : ℤ → Signalled
  pub set_lock : Process → ℕ → LockType → SysResult (Unit {0})
  pub wait_lock : ℕ → LockType → SysResult (Unit {0})
  pub test_lock : ℕ → LockType → SysResult Bool
  pub fork : Process → Fork
  pub setsid : Bool
  pub block_mask : Bool
  pub sigaction : Bool
  pub reset_mask : Bool
  pub chdir : Bool
  pub signal : Signal → Bool

-- The calls stand with the last one first.
pub record State ⦃L : Libraries⦄ : Type 0 where
  pub process : Process
  pub lock : Option LockType
  pub calls : List Call
  pub disk : L.Disk

pub data Outcome (A : Type 0) : Type 0 where
  goes_on : A → Outcome A
  exits : ℕ → Outcome A
  throws : Exception → Outcome A
  aborts : Outcome A

abbrev pub exit_success : ℕ
exit_success = 0

abbrev pub exit_failure : ℕ
exit_failure = 1

module _ ⦃L : Libraries⦄ where
  open L use {Disk}

  abbrev pub Run : Type 0 → Type 0
  Run A = State → Outcome A × State

  abbrev pub after : {A B : Type 0} → Outcome A × State → (A → Run B) → Outcome B × State
  after (goes_on a, s) f = f a s
  after (exits code, s) f = (exits code, s)
  after (throws e, s) f = (throws e, s)
  after (aborts, s) f = (aborts, s)

  infixl 5 ◌>>=◌ ◌>>◌
  abbrev pub ◌>>=◌ : {A B : Type 0} → Run A → (A → Run B) → Run B
  ◌>>=◌ m f s = after (m s) f

  abbrev pub ◌>>◌ : {B : Type 0} → Run (Unit {0}) → Run B → Run B
  m >> k = m >>= λ _. k

  abbrev pub called : Call → State → State
  called call s = record s { calls = call ∷ s.calls }

  abbrev pub call : Call → Run (Unit {0})
  call c s = (goes_on tt, called c s)

  abbrev pub lift : {A : Type 0} → Result A → Run A
  lift (ok a) s = (goes_on a, s)
  lift (err e) s = (throws e, s)
  lift aborted s = (aborts, s)

  -- `removeLockAndExit`: `exit` does not destroy the local pointer, so the PID file is not cleaned up.
  abbrev pub remove_lock_and_exit : {A : Type 0} → Run A
  remove_lock_and_exit s = (exits exit_failure, s)

  -- A call whose failure ends the process.
  abbrev pub attempt : Bool → Call → Run (Unit {0})
  attempt succeeds c = if succeeds then call c else remove_lock_and_exit

  -- lockRead or lockWrite in its try block, by the result.
  abbrev pub take_lock : LockType → Result (Unit {0}) → Run (Unit {0})
  take_lock t (ok u) s = (goes_on tt, record s { lock = some t; calls = locked t ∷ s.calls })
  take_lock t (err (pid_file_error w)) s = (exits exit_failure, s)
  take_lock t (err e) s = (throws e, s)
  take_lock t aborted s = (aborts, s)

  abbrev pub check_lock : Result Bool → Run (Unit {0})
  check_lock (ok true) s = (goes_on tt, s)
  check_lock (ok false) s = (exits exit_failure, s)
  check_lock (err (pid_file_error w)) s = (exits exit_failure, s)
  check_lock (err e) s = (throws e, s)
  check_lock aborted s = (aborts, s)

  -- The child of a fork holds none of the locks of its parent, which waits and ends.
  abbrev pub forked : Process → Call → Fork → Run (Unit {0})
  forked child wait fork_failed s = (exits exit_failure, s)
  forked child wait in_child s = (goes_on tt, record s { process = child; lock = none })
  forked child wait in_parent s = (exits exit_success, called wait s)
