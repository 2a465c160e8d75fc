-- ===== src/Util/Daemonize/Phases.antt =====
-- util/posix/daemonize.cc: `daemonize`, in the order of its body. The PID file is opened by the
-- process that is started; the two forks follow, and the daemon is what the second one makes.
use pxp_agent.Base.{String, true, false, if◌then◌else◌, Option, none, some, nat_eq}
use pxp_agent.Exception.{Result, ok, err, pid_file_error}
use pxp_agent.Libraries.{Libraries}
use pxp_agent.Configuration.{Configuration, HorseWhisperer, as_string}
use pxp_agent.Configuration.Settings
use pxp_agent.Util.PidFile.{
  PidFile, read_lock, write_lock, new, cleanup_when_done, write, is_executing,
}
use pxp_agent.Util.PidFile.Locking.{lock_read, lock_write, can_lock_write}
use pxp_agent.Util.Daemonize.{
  System, Run, ◌>>=◌, ◌>>◌, goes_on, lift, call, attempt, take_lock, check_lock, forked,
  remove_lock_and_exit, Process, started, first_child, second_child, set_umask, waited, suspended,
  created_session, blocked_sigusr1, signalled_parent, restored_mask, changed_directory, disposed,
  redirected, sigint, sigterm, sigquit, sigchld, sigtstp, sigttou, sigttin, sighup, sigusr1,
  sig_handler, dumb_sig_handler, default_action, ignored, stdin, stdout, stderr,
}

module _ ⦃L : Libraries⦄ (y : System) where
  -- isExecuting, on the disk as it is
  unfoldable pub unless_executing : PidFile → Run (Unit {0})
  unfolding is_executing
  unless_executing p s =
      (lift (is_executing y.kill p s.disk) >>= λ running.
      if running then remove_lock_and_exit else λ e. (goes_on tt, e))
        s

  -- The read lock of the process that runs.
  unfoldable pub lock_in : Process → PidFile → Run (Unit {0})
  unfolding lock_read
  lock_in process p = take_lock read_lock (lock_read (y.set_lock process) false p)

  -- The part up to the first fork.
  unfoldable pub start : PidFile → Run (Unit {0})
  unfolding unless_executing lock_in can_lock_write
  start p = do
    unless_executing p
    lock_in started p
    check_lock (can_lock_write y.test_lock p)
    forked first_child waited (y.fork started)

  -- The first child, up to the second fork.
  unfoldable pub in_first_child : PidFile → Run (Unit {0})
  unfolding lock_in
  in_first_child p = do
    lock_in first_child p
    attempt y.setsid created_session
    attempt y.block_mask blocked_sigusr1
    attempt y.sigaction (disposed sigusr1 dumb_sig_handler)
    forked second_child suspended (y.fork first_child)

  -- The read lock after the second fork: the parent is signalled whether or not it was obtained.
  unfoldable pub lock_and_signal : Result (Unit {0}) → Run (Unit {0})
  lock_and_signal (ok u) = take_lock read_lock (ok u) >> call signalled_parent
  lock_and_signal (err (pid_file_error w)) = call signalled_parent >> remove_lock_and_exit
  lock_and_signal r = lift r

  -- The locks of the daemon.
  unfoldable pub take_over : PidFile → Run (Unit {0})
  unfolding lock_and_signal lock_read lock_write
  take_over p = do
    lock_and_signal (lock_read (y.set_lock second_child) false p)
    attempt y.reset_mask restored_mask
    take_lock write_lock (lock_write y.wait_lock true p)

  -- `pidf_ptr->write(agent_pid)`
  unfoldable pub write_pid : PidFile → Run (Unit {0})
  unfolding write
  write_pid p s =
      (lift (write y.agent_pid p s.disk) >>= λ d e. (goes_on tt, record e { disk = d })) s

  -- The signal dispositions and the standard files, whose redirection may fail.
  unfoldable pub settle : Run (Unit {0})
  settle = do
    attempt (y.signal sigint) (disposed sigint sig_handler)
    attempt (y.signal sigterm) (disposed sigterm sig_handler)
    attempt (y.signal sigquit) (disposed sigquit sig_handler)
    call (disposed sigchld default_action)
    call (disposed sigtstp ignored)
    call (disposed sigttou ignored)
    call (disposed sigttin ignored)
    call (disposed sighup ignored)
    call (redirected stdin)
    call (redirected stdout)
    call (redirected stderr)

  unfoldable pub become_daemon : PidFile → Run (Option PidFile)
  unfolding start in_first_child take_over write_pid settle cleanup_when_done
  become_daemon p = do
    start p
    in_first_child p
    take_over p
    write_pid p
    attempt y.chdir changed_directory
    settle
    (λ s. (goes_on (some (cleanup_when_done p)), s))

  -- The constructor of PIDFile, which creates the file if it is not there.
  unfoldable pub open_pid_file : String → Run PidFile
  unfolding new
  open_pid_file pidfile s =
      (lift (new pidfile (y.open_file s.disk pidfile)) >>= λ r e.
      (goes_on r.0, record e { disk = r.1 }))
        s

  unfoldable pub daemonize : ⦃H : HorseWhisperer⦄ → Configuration → Run (Option PidFile)
  unfolding become_daemon open_pid_file Settings.get
  daemonize c =
      if nat_eq y.getppid 1
      then (λ s. (goes_on none, s))
      else (call set_umask
          >> (lift (Settings.get as_string "pidfile" c) >>= λ pidfile.
              open_pid_file pidfile >>= become_daemon))
