-- ===== src/Configuration/Logging/Kept.antt =====
-- setupLogging changes neither the options nor their flags.
use pxp_agent.Base.{String, Bool, true, false, Option, none, if◌then◌else◌, ◌==◌, lookup}
use pxp_agent.Exception.Stateful.{after-keeps, pure}
use pxp_agent.Libraries.{Libraries}
use pxp_agent.Configuration.{Configuration, HorseWhisperer, get_flag, as_string, as_bool}
use pxp_agent.Configuration.Ready.{Ready}
use pxp_agent.Configuration.Logging.{
  setup_logging, start_loggers, set_loggers, configure_platform_file_logging, select_stream,
  open_file, set_logfile, open_stream, validate_log_dir_path, level_of, option_to_log_level,
}

module _ ⦃L : Libraries⦄ ⦃H : HorseWhisperer⦄ where
  open L use {Disk, tilde_expand}

  configure-keeps :
      (signalled : Bool) (c : Configuration)
      → Ready c
      → Ready (configure_platform_file_logging signalled c).1
  unfolding configure_platform_file_logging
  configure-keeps true c r = r
  configure-keeps false c r = r

  platform-keeps :
      (out signalled : Bool) (c : Configuration)
      → Ready c
      → Ready ((if out then pure tt else configure_platform_file_logging signalled) c).1
  platform-keeps true signalled c r = r
  platform-keeps false signalled c r = configure-keeps signalled c r

  start_loggers-keeps :
      (signalled out : Bool) (l : String) (s : Option String) (c : Configuration)
      → Ready c
      → Ready (start_loggers signalled out l s c).1
  unfolding start_loggers set_loggers
  start_loggers-keeps signalled out l s c r =
      after-keeps Ready (level_of l (lookup l option_to_log_level), c) _ r
        (λ lvl d k. platform-keeps out signalled _ k)

  open_file-keeps :
      (can_append : String → Bool) (d : Disk) (path : String) (c : Configuration)
      → Ready c
      → Ready (open_file can_append d path c).1
  unfolding open_file set_logfile open_stream
  open_file-keeps can_append d path c r =
      after-keeps Ready (validate_log_dir_path d path, record c { logfile = path }) _ r (λ u e k. k)

  select-keeps :
      (out : Bool) (can_append : String → Bool) (d : Disk) (path : String) (c : Configuration)
      → Ready c
      → Ready ((if out then pure none else open_file can_append d path) c).1
  select-keeps true can_append d path c r = r
  select-keeps false can_append d path c r = open_file-keeps can_append d path c r

  pub setup_logging-keeps :
      (can_append : String → Bool) (signalled : Bool) (d : Disk) (c : Configuration)
      → Ready c
      → Ready (setup_logging can_append signalled d c).1
  unfolding setup_logging set_logfile select_stream
  setup_logging-keeps can_append signalled d c r =
      after-keeps Ready (get_flag as_string "logfile" c, c) _ r
        (λ logfile c1 r1.
          let c2 : Configuration = record c1 { logfile = logfile } in
          after-keeps Ready (get_flag as_string "loglevel" c2, c2) _ r1
            (λ loglevel c3 r3.
              after-keeps Ready (select_stream can_append d logfile c3) _
                (select-keeps (logfile == "-") can_append d (tilde_expand logfile) c3 r3)
                (λ stream c4 r4.
                  after-keeps Ready (get_flag as_bool "foreground" c4, c4) _ r4
                    (λ foreground c5 r5.
                      start_loggers-keeps signalled (logfile == "-") _ stream c5 r5))))
