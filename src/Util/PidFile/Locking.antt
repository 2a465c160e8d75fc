-- ===== src/Util/PidFile/Locking.antt =====
-- The lock methods of PIDFile, its cleanup and its destructor. `fcntl` is the call with F_SETLK or
-- F_SETLKW, `remove` is std::remove, `none` where it fails.
use pxp_agent.Base.{ℕ, String, Bool, ◌&&◌, Option, none, some, if◌then◌else◌}
use pxp_agent.Exception.{Result, ok, err, aborted}
use pxp_agent.Libraries.{Libraries}
use pxp_agent.Util.PidFile.{
  PidFile, SysResult, LockType, read_lock, write_lock, lock_file, lock_file_blocking, can_lock_file,
  unlock_file,
}

unfoldable pub lock_read :
    (ℕ → LockType → SysResult (Unit {0})) → Bool → PidFile → Result (Unit {0})
unfolding lock_file lock_file_blocking
lock_read fcntl blocking p =
    if blocking
    then lock_file_blocking fcntl p.pidfile_fd read_lock
    else lock_file fcntl p.pidfile_fd read_lock

unfoldable pub lock_write :
    (ℕ → LockType → SysResult (Unit {0})) → Bool → PidFile → Result (Unit {0})
unfolding lock_file lock_file_blocking
lock_write fcntl blocking p =
    if blocking
    then lock_file_blocking fcntl p.pidfile_fd write_lock
    else lock_file fcntl p.pidfile_fd write_lock

unfoldable pub can_lock_read : (ℕ → LockType → SysResult Bool) → PidFile → Result Bool
unfolding can_lock_file
can_lock_read fcntl p = can_lock_file fcntl p.pidfile_fd read_lock

unfoldable pub can_lock_write : (ℕ → LockType → SysResult Bool) → PidFile → Result Bool
unfolding can_lock_file
can_lock_write fcntl p = can_lock_file fcntl p.pidfile_fd write_lock

module _ ⦃L : Libraries⦄ where
  open L use {Disk, exists, is_regular_file, file_readable}

  abbrev or_unchanged : Disk → Option Disk → Disk
  or_unchanged d none = d
  or_unchanged d (some e) = e

  unlinked : (Disk → String → Option Disk) → PidFile → Disk → Disk
  unlinked remove p d =
      if exists d p.file_path && is_regular_file d p.file_path && file_readable d p.file_path
      then or_unchanged d (remove d p.file_path)
      else d

  after_unlock :
      (Disk → String → Option Disk) → PidFile → Disk → Result (Unit {0}) → Result (Unit {0}) × Disk
  unfolding unlinked
  after_unlock remove p d (ok u) = (ok tt, unlinked remove p d)
  after_unlock remove p d (err e) = (err e, d)
  after_unlock remove p d aborted = (aborted, d)

  unfoldable pub cleanup :
      (ℕ → SysResult (Unit {0}))
      → (Disk → String → Option Disk)
      → PidFile
      → Disk
      → Result (Unit {0}) × Disk
  unfolding unlock_file after_unlock
  cleanup fcntl remove p d = after_unlock remove p d (unlock_file fcntl p.pidfile_fd)

  -- The destructor, which lets no exception of `cleanup` pass.
  unfoldable pub destruct :
      (ℕ → SysResult (Unit {0})) → (Disk → String → Option Disk) → PidFile → Disk → Disk
  unfolding cleanup
  destruct fcntl remove p d = if p.cleanup_when_done then (cleanup fcntl remove p d).1 else d
