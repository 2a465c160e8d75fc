-- ===== src/Configuration/Defaults.antt =====
-- The constructor of Configuration, defineDefaultValues, setDefaultValues and initialize, on POSIX.
-- The paths that the build fixes are the constants of configuration.cc.
pub mod Table
pub mod Initial
use Prim.Native.String.{◌++◌}
use pxp_agent.Base.{
  String, false, Option, none, some, List, [], ◌∷◌, if◌then◌else◌, is_blank, is_some, pos,
}
use pxp_agent.Exception.{Result, ok, err, aborted}
use pxp_agent.Exception.Stateful.{Stateful}
use pxp_agent.Libraries.{Libraries}
use pxp_agent.Configuration.{
  Types, integer, string, bool, double, Value, integer_value, string_value, bool_value,
  double_value, Entry, AgentConfiguration, HorseWhisperer, Configuration, find,
}

abbrev pub default_conf_dir : String
default_conf_dir = "/etc/puppetlabs/pxp-agent"

abbrev pub default_spool_dir : String
default_spool_dir = "/opt/puppetlabs/pxp-agent/spool"

abbrev pub default_pid_file : String
default_pid_file = "/var/run/puppetlabs/pxp-agent.pid"

abbrev pub default_log_file : String
default_log_file = "/var/log/puppetlabs/pxp-agent/pxp-agent.log"

abbrev pub default_modules_dir : String
default_modules_dir = "/opt/puppetlabs/pxp-agent/modules"

-- The cast of an entry to the type that its tag names; a mismatch is undefined behaviour.
unfoldable pub cast : {D : Type 0} → Types → Value D → Option (Value D)
cast integer (integer_value n) = some (integer_value n)
cast string (string_value s) = some (string_value s)
cast bool (bool_value b) = some (bool_value b)
cast double (double_value x) = some (double_value x)
cast _ _ = none

-- All options are created without an alias.
abbrev entry : {D : Type 0} → String → String → Types → Value D → Entry D
entry name help type value = record {
  name = name;
  aliases = "";
  help = help;
  type = type;
  configured = false;
  value = value;
}

-- The names that DefineGlobalFlag gets, separated by spaces.
unfoldable pub flag_names : {D : Type 0} → Entry D → String
flag_names e = if is_blank e.aliases then e.name else e.name ++ (" " ++ e.aliases)

abbrev no_agent : AgentConfiguration
no_agent = record {
  modules_dir = "";
  broker_ws_uri = "";
  ca = "";
  crt = "";
  key = "";
  spool_dir = "";
  modules_config_dir = "";
  client_type = "";
  connection_timeout = pos 0;
}

module _ ⦃L : Libraries⦄ ⦃H : HorseWhisperer⦄ where
  open L use {Double, slash}
  open H use {Flags, reset, define}

  abbrev pub default_modules_conf_dir : String
  default_modules_conf_dir = slash default_conf_dir "modules"

  abbrev pub default_config_file : String
  default_config_file = slash default_conf_dir "pxp-agent.conf"

  append_entry : List (Entry Double) → Entry Double → List (Entry Double)
  append_entry [] e = e ∷ []
  append_entry (x ∷ xs) e = x ∷ append_entry xs e

  -- `defaults_.insert(...)`: the index by name is unique.
  unfoldable pub insert_option : List (Entry Double) → Entry Double → List (Entry Double)
  unfolding find append_entry
  insert_option es e = if is_some (find e.name es) then es else append_entry es e

  insert_options : List (Entry Double) → List (Entry Double) → List (Entry Double)
  unfolding insert_option
  insert_options es [] = es
  insert_options es (e ∷ rest) = insert_options (insert_option es e) rest

  unfoldable pub define_default_values : List (Entry Double) → List (Entry Double)
  unfolding insert_options
  define_default_values defaults = insert_options defaults (
      entry "config-file" ("Config file, default: " ++ default_config_file) string
        (string_value default_config_file)
      ∷ entry "broker-ws-uri" "WebSocket URI of the PCP broker" string (string_value "")
      ∷ entry "connection-timeout"
          "Timeout (in seconds) for establishing a WebSocket connection, default: 5" integer
          (integer_value (pos 5))
      ∷ entry "ssl-ca-cert" "SSL CA certificate" string (string_value "")
      ∷ entry "ssl-cert" "pxp-agent SSL certificate" string (string_value "")
      ∷ entry "ssl-key" "pxp-agent private SSL key" string (string_value "")
      ∷ entry "logfile" ("Log file, default: " ++ default_log_file) string
          (string_value default_log_file)
      ∷ entry "loglevel"
          "Valid options are 'none', 'trace', 'debug', 'info','warning', 'error' and 'fatal'. Defaults to 'info'"
          string (string_value "info")
      ∷ entry "modules-dir" ("Modules directory, default: " ++ default_modules_dir) string
          (string_value default_modules_dir)
      ∷ entry "modules-config-dir"
          ("Module config files directory, default: " ++ default_modules_conf_dir) string
          (string_value default_modules_conf_dir)
      ∷ entry "spool-dir" ("Spool action results directory, default: " ++ default_spool_dir) string
          (string_value default_spool_dir)
      ∷ entry "foreground" "Don't daemonize, default: false" bool (bool_value false)
      ∷ entry "pidfile" ("PID file path, default: " ++ default_pid_file) string
          (string_value default_pid_file)
      ∷ [])

  define_cast : Entry Double → Flags → Option (Value Double) → Result Flags
  unfolding flag_names
  define_cast e f none = aborted
  define_cast e f (some v) = ok (define f (flag_names e) e.help v)

  define_flag : Entry Double → Flags → Result Flags
  unfolding cast define_cast
  define_flag e f = define_cast e f (cast e.type e.value)

  -- By insertion order; the callback that is passed along is `mark`.
  define_flags : List (Entry Double) → Result Flags → Result Flags
  unfolding define_flag
  define_flags [] r = r
  define_flags (e ∷ es) (ok f) = define_flags es (define_flag e f)
  define_flags (e ∷ es) r = r

  with_flags : Configuration → Result Flags → Result (Unit {0}) × Configuration
  with_flags c (ok f) = (ok tt, record c { flags = f })
  with_flags c (err e) = (err e, c)
  with_flags c aborted = (aborted, c)

  unfoldable pub set_default_values : Stateful Configuration (Unit {0})
  unfolding define_flags with_flags
  set_default_values c = with_flags c (define_flags c.defaults (ok c.flags))

  unfoldable pub initialize : Stateful Configuration (Unit {0})
  unfolding set_default_values
  initialize c = set_default_values (record c { valid = false; flags = reset })

  -- The constructor.
  unfoldable pub new : Flags → Configuration
  unfolding define_default_values
  new flags = record {
    valid = false;
    defaults = define_default_values [];
    config_file = "";
    agent_configuration = no_agent;
    logfile = "";
    logfile_fstream = none;
    logging = none;
    flags = flags;
  }
