-- ===== src/Util/Daemonize/Rules.antt =====
-- Rules for the steps of `daemonize`: what must hold where a process goes on, and where it exits.
use pxp_agent.Base.{◌≡◌, subst, sym, refl, ℕ, Bool, true, false, some, ◌∷◌}
use pxp_agent.Exception.{Result, ok, err, aborted, pid_file_error}
use pxp_agent.Libraries.{Libraries}
use pxp_agent.Util.PidFile.{LockType}
use pxp_agent.Util.Daemonize.{
  State, Call, Outcome, goes_on, exits, throws, aborts, Run, after, called, lift, attempt,
  take_lock, check_lock, exit_failure, locked,
}

module _ ⦃L : Libraries⦄ where
  -- What holds where a process goes on and where it exits.
  abbrev pub Post :
      {A : Type 0} → (A → State → Type 0) → (ℕ → State → Type 0) → Outcome A × State → Type 0
  Post Q X (goes_on a, s) = Q a s
  Post Q X (exits code, s) = X code s
  Post Q X (throws e, s) = Unit {0}
  Post Q X (aborts, s) = Unit {0}

  module _ {B : Type 0} (Q : B → State → Type 0) (X : ℕ → State → Type 0) where
    -- A phase that ends in a known state, with a fact about what it found.
    pub after-Post :
        (E : Type 0) (t : State) (r : Outcome (Unit {0}) × State) (f : Unit {0} → Run B)
        → Post (λ u v. E × (v ≡ t)) X r
        → (E → Post Q X (f tt t))
        → Post Q X (after r f)
    after-Post E t (goes_on u, s) f (e, h) k = subst (λ v. Post Q X (f tt v)) (sym h) (k e)
    after-Post E t (exits code, s) f h k = h
    after-Post E t (throws e, s) f h k = tt
    after-Post E t (aborts, s) f h k = tt

    pub attempt-Post :
        (b : Bool) (c : Call) (s : State) (f : Unit {0} → Run B)
        → X exit_failure s
        → Post Q X (f tt (called c s))
        → Post Q X (after (attempt b c s) f)
    attempt-Post true c s f x k = k
    attempt-Post false c s f x k = x

    pub lift-Post :
        {A : Type 0} (r : Result A) (s : State) (f : A → Run B)
        → ((a : A) → r ≡ ok a → Post Q X (f a s))
        → Post Q X (after (lift r s) f)
    lift-Post (ok a) s f k = k a refl
    lift-Post (err e) s f k = tt
    lift-Post aborted s f k = tt

    pub check_lock-Post :
        (r : Result Bool) (s : State) (f : Unit {0} → Run B)
        → X exit_failure s
        → Post Q X (f tt s)
        → Post Q X (after (check_lock r s) f)
    check_lock-Post (ok true) s f x k = k
    check_lock-Post (ok false) s f x k = x
    check_lock-Post (err (pid_file_error w)) s f x k = x
    check_lock-Post (err _) s f x k = tt
    check_lock-Post aborted s f x k = tt

    pub take_lock-Post :
        (t : LockType) (r : Result (Unit {0})) (s : State) (f : Unit {0} → Run B)
        → X exit_failure s
        → Post Q X (f tt (record s { lock = some t; calls = locked t ∷ s.calls }))
        → Post Q X (after (take_lock t r s) f)
    take_lock-Post t (ok u) s f x k = k
    take_lock-Post t (err (pid_file_error w)) s f x k = x
    take_lock-Post t (err _) s f x k = tt
    take_lock-Post t aborted s f x k = tt
