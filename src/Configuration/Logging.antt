-- ===== src/Configuration/Logging.antt =====
-- setupLogging, validateLogDirPath, reopenLogfile, and configure_platform_file_logging of
-- posix/configuration.cc. Arguments: whether a file can be opened for appending, and whether
-- signal(2) sets the handler of SIGUSR2.
pub mod Levels
pub mod Kept
use Prim.Native.String.{◌++◌}
use pxp_agent.Base.{
  String, Bool, true, false, not, ◌&&◌, Option, none, some, List, [], ◌∷◌, ◌==◌, if◌then◌else◌,
  is_blank, is_some, Dict, lookup,
}
use pxp_agent.Exception.{Result, ok, err, aborted, guarded, configuration_error, out_of_range}
use pxp_agent.Exception.Stateful.{Stateful, pure, raise, gets, ◌>>=◌, ◌>>◌}
use pxp_agent.Libraries.{Libraries}
use pxp_agent.Configuration.{
  LogLevel, none_level, trace, debug, info, warning, error, fatal, Loggers, Configuration,
  HorseWhisperer, as_string, as_bool, get_flag,
}

abbrev pub option_to_log_level : Dict LogLevel
option_to_log_level =
    ("none", none_level)
    ∷ ("trace", trace)
    ∷ ("debug", debug)
    ∷ ("info", info)
    ∷ ("warning", warning)
    ∷ ("error", error)
    ∷ ("fatal", fatal)
    ∷ []

-- `option_to_log_level.at(loglevel)`, in its try block.
abbrev pub level_of : String → Option LogLevel → Result LogLevel
level_of loglevel none = err (configuration_error ("invalid log level: '" ++ (loglevel ++ "'")))
level_of loglevel (some lvl) = ok lvl

-- A daemon has no standard output.
abbrev pub effective_level : Bool → Bool → String → String
effective_level foreground log_on_stdout loglevel =
    if not foreground && log_on_stdout then "none" else loglevel

module _ ⦃L : Libraries⦄ ⦃H : HorseWhisperer⦄ where
  open L use {Disk, status, exists, is_directory, parent_path, tilde_expand}

  -- `logfile_fstream_.open(path)`: a stream that is open stays as it is.
  open_logfile : (String → Bool) → String → Option String → Option String
  open_logfile can_append path (some file) = some file
  open_logfile can_append path none = if can_append path then some path else none

  unfoldable pub validate_log_dir_path : Disk → String → Result (Unit {0})
  validate_log_dir_path d logfile =
      let logdir_path = parent_path logfile in
      guarded (status d logdir_path) (
        if exists d logdir_path
        then (if is_directory d logdir_path
            then ok tt
            else err (
                configuration_error (
                  "cannot write to the specified logfile; '"
                  ++ (logdir_path ++ "' is not a directory"))))
        else err (
            configuration_error
              ("cannot write to '" ++ (logfile ++ "'; its parent directory does not exist"))))

  set_logfile : String → Stateful Configuration (Unit {0})
  set_logfile logfile c = (ok tt, record c { logfile = logfile })

  open_stream : (String → Bool) → String → Stateful Configuration (Unit {0})
  unfolding open_logfile
  open_stream can_append logfile c =
      (ok tt, record c { logfile_fstream = open_logfile can_append logfile c.logfile_fstream })

  pub open_file : (String → Bool) → Disk → String → Stateful Configuration (Option String)
  unfolding set_logfile open_stream validate_log_dir_path
  open_file can_append d logfile = do
    set_logfile logfile
    gets (λ c. validate_log_dir_path d logfile)
    open_stream can_append logfile
    pure (some logfile)

  -- The stream that the loggers get: that of the file, or the standard output.
  select_stream : (String → Bool) → Disk → String → Stateful Configuration (Option String)
  unfolding open_file
  select_stream can_append d logfile =
      if logfile == "-" then pure none else open_file can_append d (tilde_expand logfile)

  set_loggers : Option String → LogLevel → String → Stateful Configuration (Unit {0})
  set_loggers stream lvl loglevel c = (
    ok tt,
    record c {
      logging =
          some (record { stream = stream; level = lvl; pcp_level = loglevel; reopens = false });
    },
  )

  reopening : Option Loggers → Option Loggers
  reopening none = none
  reopening (some l) = some (record l { reopens = true })

  unfoldable pub configure_platform_file_logging : Bool → Stateful Configuration (Unit {0})
  unfolding reopening
  configure_platform_file_logging signalled c =
      if signalled
      then (ok tt, record c { logging = reopening c.logging })
      else (err (configuration_error "failed to set the SIGUSR2 handler"), c)

  -- The part of setupLogging that follows the choice of the stream.
  start_loggers : Bool → Bool → String → Option String → Stateful Configuration (Unit {0})
  unfolding set_loggers configure_platform_file_logging
  start_loggers signalled log_on_stdout loglevel stream = do
    lvl ← gets (λ c. level_of loglevel (lookup loglevel option_to_log_level))
    set_loggers stream lvl loglevel
    if log_on_stdout then pure tt else configure_platform_file_logging signalled

  unfoldable pub setup_logging : (String → Bool) → Bool → Disk → Stateful Configuration (Unit {0})
  unfolding set_logfile select_stream start_loggers
  setup_logging can_append signalled d = do
    logfile ← gets (get_flag as_string "logfile")
    set_logfile logfile
    loglevel ← gets (get_flag as_string "loglevel")
    stream ← select_stream can_append d logfile
    foreground ← gets (get_flag as_bool "foreground")
    start_loggers signalled (logfile == "-") (effective_level foreground (logfile == "-") loglevel)
        stream

  -- No exception of the stream's close and open passes.
  unfoldable pub reopen_logfile : (String → Bool) → Configuration → Configuration
  unfolding open_logfile
  reopen_logfile can_append c =
      if not (is_blank c.logfile) && not (c.logfile == "-")
      then record c { logfile_fstream = open_logfile can_append c.logfile none }
      else c
