-- ===== src/Main.antt =====
-- exe/main.cc: startAgent, tryLogError and main. HW::Start runs the action `start`, whose callback is
-- startAgent, and gives its exit code, or gives a code of its own if the parser took no action; what daemonize does in the process that goes on is a result.
pub mod Exits
use Prim.Native.String.{◌++◌}
use pxp_agent.Base.{ℕ, String, Bool, true, false, List, none, some, if◌then◌else◌, is_blank}
use pxp_agent.Exception.{
  Exception, Result, ok, err, aborted, ◌>>=◌, configuration_error, web_socket_configuration_error,
  horsewhisperer_error, undefined_flag_error, flag_validation_error, what,
}
use pxp_agent.Exception.Stateful.{Stateful, pure, after}
use pxp_agent.Libraries.{Libraries}
use pxp_agent.Configuration.{
  AgentConfiguration, Configuration, HorseWhisperer, ParseResult, parse_ok, help, version, failure,
  invalid_flag, as_bool,
}
use pxp_agent.Configuration.Defaults.{initialize}
use pxp_agent.Configuration.Parsing.{parse_options, with_start}
use pxp_agent.Configuration.Logging.{setup_logging}
use pxp_agent.Configuration.Validation.{PcpClient, validate}
use pxp_agent.Configuration.Settings.{get, get_agent_configuration}
use pxp_agent.Agent
use pxp_agent.Agent.{Agent, Broker, new, start}
use pxp_agent.RequestProcessor.Startup.{Installation}

abbrev pub success : ℕ
success = 0

abbrev pub general_failure : ℕ
general_failure = 1

abbrev pub parsing_failure : ℕ
parsing_failure = 2

abbrev pub configuration_failure : ℕ
configuration_failure = 3

abbrev pub daemonization_failure : ℕ
daemonization_failure = 4

-- The world around the process.
pub record Host ⦃L : Libraries⦄ : Type 0 where
  pub argv : List String
  pub can_append : String → Bool
  pub signalled : Bool
  pub pcp_client : PcpClient
  pub uuids : List String
  pub daemonize : Result (Unit {0})
  pub broker : Broker
  pub installation : Installation

-- The catch clauses of startAgent around the agent.
abbrev pub exit_of : Result (Unit {0}) → Result ℕ
exit_of (ok u) = ok success
exit_of (err (web_socket_configuration_error w)) = ok configuration_failure
exit_of (err e) = ok general_failure
exit_of aborted = aborted

-- The exceptions that `main` catches around parseOptions.
abbrev pub is_caught : Exception → Bool
is_caught (horsewhisperer_error w) = true
is_caught (undefined_flag_error w) = true
is_caught (flag_validation_error w) = true
is_caught (configuration_error w) = true
is_caught _ = false

-- An exception that no clause catches ends the program.
abbrev pub uncaught : {S : Type 0} → Result ℕ × S → Result ℕ × S
uncaught (err e, s) = (aborted, s)
uncaught (r, s) = (r, s)

module _ ⦃L : Libraries⦄ ⦃H : HorseWhisperer⦄ where
  open L use {Disk}
  open H use {start_code}

  -- The agent, from its settings on.
  pub agent_result : Host → Disk → Result AgentConfiguration → Result (Unit {0})
  unfolding new start
  agent_result x d (ok agent) = new x.broker x.installation agent d >>= λ a. (start x.broker a).0
  agent_result x d (err e) = err e
  agent_result x d aborted = aborted

  run_agent : Host → Disk → Configuration → Result ℕ × Configuration
  unfolding agent_result get_agent_configuration
  run_agent x d c = let (r, c') = get_agent_configuration c in (exit_of (agent_result x d r), c')

  daemonized : Host → Disk → Result (Unit {0}) → Stateful Configuration ℕ
  unfolding run_agent
  daemonized x d (ok u) c = run_agent x d c
  daemonized x d (err e) c = (ok daemonization_failure, c)
  daemonized x d aborted c = (aborted, c)

  in_background : Host → Disk → Result Bool → Stateful Configuration ℕ
  unfolding daemonized
  in_background x d (ok foreground) =
      if foreground then daemonized x d (ok tt) else daemonized x d x.daemonize
  in_background x d (err e) = daemonized x d (err e)
  in_background x d aborted = daemonized x d aborted

  unfoldable pub start_agent : Host → Disk → Stateful Configuration ℕ
  unfolding in_background get
  start_agent x d c = in_background x d (get as_bool "foreground" c) c

  swallowed : Result (Unit {0}) × Configuration → Result (Unit {0}) × Configuration
  swallowed (err (configuration_error w), c) = (ok tt, c)
  swallowed (r, c) = (r, c)

  unfoldable pub try_log_error : Host → Disk → Stateful Configuration (Unit {0})
  unfolding swallowed setup_logging
  try_log_error x d c = swallowed (setup_logging x.can_append x.signalled d c)

  -- The message is printed, and logged if it can be.
  parsing_failed : Host → Disk → Stateful Configuration ℕ
  unfolding try_log_error
  parsing_failed x d c = after (try_log_error x d c) (λ u. pure parsing_failure)

  -- HW::Start: the callback of the action, if it is run.
  started : Host → Disk → Stateful Configuration ℕ
  unfolding start_agent with_start
  started x d c = elim (start_code (with_start x.argv)) [
    | none ↦ start_agent x d c
    | some code ↦ (ok code, c)
  ]

  -- The result of validate, and what follows it.
  validated : Host → Result Disk × Configuration → Result ℕ × Configuration
  unfolding started
  validated x (ok d, c) = started x d c
  validated x (err (configuration_error w), c) = (ok configuration_failure, c)
  validated x (err e, c) = (err e, c)
  validated x (aborted, c) = (aborted, c)

  logged : Host → Disk → Result (Unit {0}) × Configuration → Result ℕ × Configuration
  unfolding validated validate
  logged x d (ok u, c) = validated x (validate x.pcp_client x.uuids d c)
  logged x d (err (configuration_error w), c) = (ok configuration_failure, c)
  logged x d (err e, c) = (err e, c)
  logged x d (aborted, c) = (aborted, c)

  -- The switch on the parse result, and what follows it.
  switch : Host → Disk → ParseResult → Stateful Configuration ℕ
  unfolding logged setup_logging parsing_failed
  switch x d parse_ok c = logged x d (setup_logging x.can_append x.signalled d c)
  switch x d help c = (ok success, c)
  switch x d version c = (ok success, c)
  switch x d failure c = parsing_failed x d c
  switch x d invalid_flag c = parsing_failed x d c

  -- With an empty message the parse result is still OK.
  parsed : Host → Disk → Result ParseResult × Configuration → Result ℕ × Configuration
  unfolding switch parsing_failed
  parsed x d (ok r, c) = switch x d r c
  parsed x d (err e, c) =
      if is_caught e
      then (if is_blank (what e) then switch x d parse_ok c else parsing_failed x d c)
      else (err e, c)
  parsed x d (aborted, c) = (aborted, c)

  unfoldable pub main : Host → Disk → Stateful Configuration ℕ
  unfolding initialize parsed parse_options
  main x d c = uncaught (after (initialize c) (λ u e. parsed x d (parse_options d x.argv e)))
