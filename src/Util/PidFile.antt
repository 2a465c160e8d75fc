-- ===== src/Util/PidFile.antt =====
-- util/posix/pid_file.cc. The file system and fcntl(2) are parameters: a call of fcntl gives back
-- its result, or `errno` where it is -1.
pub mod Reading
pub mod Locking
use Prim.Native.String.{◌++◌}
use pxp_agent.Base.{
  ℕ, String, Bool, true, false, not, Option, none, some, if◌then◌else◌, nat_eq, is_blank, ◌||◌, ℤ,
  pos, ◌&&◌,
}
use pxp_agent.Exception.{
  Exception, Result, ok, err, aborted, ◌>>◌, pid_file_error, invalid_argument, what,
}
use pxp_agent.Libraries.{Libraries}
use pxp_agent.Util.Stoi.{stoi, to_string}
use pxp_agent.Util.Process.{Signalled, process_exists}

pub record PidFile : Type 0 where
  pub file_path : String
  pub pidfile_fd : ℕ
  pub cleanup_when_done : Bool

-- The result of a system call: a value, or -1 with `errno`.
pub data SysResult {ℓ} (A : Type ℓ) : Type ℓ where
  returned : A → SysResult A
  failed : ℕ → SysResult A

unfoldable pub cleanup_when_done : PidFile → PidFile
cleanup_when_done p = record p { cleanup_when_done = true }

pub data LockType : Type 0 where
  read_lock write_lock : LockType

abbrev pub eagain : ℕ
eagain = 11

abbrev pub eacces : ℕ
eacces = 13

abbrev pub edeadlk : ℕ
edeadlk = 35

abbrev pub eintr : ℕ
eintr = 4

-- The callers below pass the descriptor and the lock type to fcntl; `fcntl` gives its result.
module _ (fcntl : ℕ → LockType → SysResult (Unit {0})) where
  -- F_SETLK
  unfoldable pub lock_file : ℕ → LockType → Result (Unit {0})
  unfolding to_string
  lock_file fd lock_type = elim (fcntl fd lock_type) [
    | returned u ↦ ok tt
    | failed errno ↦ err (
        pid_file_error (
          if nat_eq errno eagain || nat_eq errno eacces
          then "incompatible with an existent lock"
          else if nat_eq errno edeadlk
          then "deadlock"
          else "unexpected error with errno=" ++ to_string (pos errno)))
  ]

  -- F_SETLKW
  unfoldable pub lock_file_blocking : ℕ → LockType → Result (Unit {0})
  unfolding to_string
  lock_file_blocking fd lock_type = elim (fcntl fd lock_type) [
    | returned u ↦ ok tt
    | failed errno ↦ err (
        pid_file_error (
          if nat_eq errno eintr
          then "caught an interrupt signal"
          else "unexpected error with errno=" ++ to_string (pos errno)))
  ]

-- F_GETLK writes back whether the lock type is F_UNLCK.
unfoldable pub can_lock_file : (ℕ → LockType → SysResult Bool) → ℕ → LockType → Result Bool
unfolding to_string
can_lock_file fcntl fd lock_type = elim (fcntl fd lock_type) [
  | returned unlocked ↦ ok unlocked
  | failed errno ↦ err (pid_file_error ("errno=" ++ to_string (pos errno)))
]

unfoldable pub unlock_file : (ℕ → SysResult (Unit {0})) → ℕ → Result (Unit {0})
unfolding to_string
unlock_file fcntl fd = elim (fcntl fd) [
  | returned u ↦ ok tt
  | failed errno ↦ err (pid_file_error ("errno=" ++ to_string (pos errno)))
]

module _ ⦃L : Libraries⦄ where
  open L use {Disk, status, exists, is_regular_file, file_readable, atomic_write_to_file}

  -- The constructor: `open` with O_CREAT gives the file descriptor, and the disk with the file.
  unfoldable pub new : String → SysResult (ℕ × Disk) → Result (PidFile × Disk)
  unfolding to_string
  new path (returned (fd, d)) =
      ok (record { file_path = path; pidfile_fd = fd; cleanup_when_done = false }, d)
  new path (failed errno) =
      err (
        pid_file_error
          ("failed to open PID file '" ++ path ++ "'; errno=" ++ to_string (pos errno)))

  unfoldable pub write : ℤ → PidFile → Disk → Result Disk
  unfolding to_string
  write pid p d = elim (atomic_write_to_file d (to_string pid ++ "\n") p.file_path) [
    | ok d' ↦ ok d'
    | err e ↦ err (pid_file_error ("failed to write " ++ p.file_path ++ ": " ++ what e))
    | aborted ↦ aborted
  ]

  -- lth_file::read(path) gives an empty text if the file cannot be read.
  text_of : Option String → String
  text_of none = ""
  text_of (some t) = t

  -- `catch (const std::invalid_argument&)`, around std::stoi
  convert : Result ℤ → Result ℤ
  convert (err (invalid_argument w)) = err (pid_file_error "invalid value stored in PID file")
  convert (ok n) = ok n
  convert r = r

  -- `read`, once the status of the path is known.
  unfoldable pub read_known : PidFile → Disk → Result ℤ
  unfolding text_of convert stoi
  read_known p d =
      let pid_txt = text_of (L.read d p.file_path) in
      if not (exists d p.file_path)
      then err (pid_file_error "PID file does not exist")
      else if not (is_regular_file d p.file_path)
      then err (pid_file_error "PID file is not a regular file")
      else if not (file_readable d p.file_path)
      then err (pid_file_error "cannot read PID file")
      else if is_blank pid_txt
      then err (pid_file_error "PID file is empty")
      else convert (stoi pid_txt)

  unfoldable pub read : PidFile → Disk → Result ℤ
  unfolding read_known
  read p d = status d p.file_path >> read_known p d

  -- `catch (const PIDFile::Error&)`: any other exception passes through.
  executing : (ℤ → Signalled) → Result ℤ → Result Bool
  executing kill (ok pid) = ok (process_exists kill pid)
  executing kill (err (pid_file_error w)) = ok false
  executing kill (err e) = err e
  executing kill aborted = aborted

  unfoldable pub is_executing : (ℤ → Signalled) → PidFile → Disk → Result Bool
  unfolding executing read process_exists
  is_executing kill p d = executing kill (read p d)
