-- ===== src/Util/Process.antt =====
-- util/posix/process.cc.
use pxp_agent.Base.{Bool, true, false, ℤ}

-- errno after a failed kill(2).
pub data KillError : Type 0 where
  esrch eperm einval : KillError

-- kill(pid, 0): none is the result 0.
pub data Signalled : Type 0 where
  delivered : Signalled
  failed : KillError → Signalled

unfoldable pub process_exists : (ℤ → Signalled) → ℤ → Bool
process_exists kill pid = elim (kill pid) [
  | delivered ↦ true
  | failed esrch ↦ false
  | failed eperm ↦ true
  | failed einval ↦ false
]
