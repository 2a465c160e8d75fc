-- ===== src/Tests/Options.antt =====
-- Flags of HorseWhisperer for the tests, and a configuration.
use pxp_agent.Base.{
  String, Bool, true, false, List, [], ◌∷◌, none, ◌≡◌, refl, if◌then◌else◌, if_elim, All, Dict,
  lookup, insert, lookup-insert, contains, pos, some,
}
use Prim.Native.String.{◌++◌}
use pxp_agent.Exception.{ok}
use pxp_agent.Configuration.{
  Value, string_value, bool_value, integer_value, type_of, option_types, HorseWhisperer,
  Configuration, parse_ok, help, AgentConfiguration,
}
use pxp_agent.Configuration.Defaults.{define_default_values}
use pxp_agent.Configuration.Defaults.Initial.{unmarked-define_default_values}
use pxp_agent.Configuration.Ready.{Ready}
use pxp_agent.Tests.Sample.{sample}

-- The command line has one flag.
abbrev settings : List String → List (String × Value Unit)
settings argv = if contains "--foreground" argv then ("foreground", bool_value true) ∷ [] else []

abbrev Typed : List (String × Value Unit) → Type 0
Typed s = All (λ p. lookup p.0 option_types ≡ some (type_of p.1)) s

pub settings-Typed : (argv : List String) → Typed (settings argv)
unfolding lookup
settings-Typed argv = if_elim Typed (contains "--foreground" argv) (refl, tt) tt

instance abbrev pub whisperer : HorseWhisperer
whisperer = record {
  Flags = Dict (Value Unit);
  reset = [];
  define = λ f n help v. insert n v f;
  get = λ f q. lookup q f;
  undefined = λ n. "undefined flag: " ++ n;
  set = λ f n v. insert n v f;
  settings = settings;
  outcome = λ argv. ok (if contains "--help" argv then help else parse_ok);
  start_code = λ argv. if contains "start" argv then none else some 0;
  get-define = λ f n q h v o p. lookup-insert n q v f;
  get-set = λ f n q v o p. lookup-insert n q v f;
  settings-typed = settings-Typed;
}

abbrev pub flags : Dict (Value Unit)
flags =
    ("config-file", string_value "/etc/agent.conf")
    ∷ ("broker-ws-uri", string_value "wss://broker:8142/pcp")
    ∷ ("connection-timeout", integer_value (pos 5))
    ∷ ("ssl-ca-cert", string_value "/ca.pem")
    ∷ ("ssl-cert", string_value "/cert.pem")
    ∷ ("ssl-key", string_value "/key.pem")
    ∷ ("logfile", string_value "/agent.log")
    ∷ ("loglevel", string_value "info")
    ∷ ("modules-dir", string_value "")
    ∷ ("modules-config-dir", string_value "")
    ∷ ("spool-dir", string_value "/spool")
    ∷ ("foreground", bool_value false)
    ∷ ("pidfile", string_value "/agent.pid")
    ∷ []

abbrev pub no_agent : AgentConfiguration
no_agent = record {
  modules_dir = "";
  broker_ws_uri = "";
  ca = "";
  crt = "";
  key = "";
  spool_dir = "";
  modules_config_dir = "";
  client_type = "";
  connection_timeout = pos 0;
}

abbrev pub configuration : Bool → Configuration
configuration valid = record {
  valid = valid;
  defaults = define_default_values [];
  config_file = "/etc/agent.conf";
  agent_configuration = no_agent;
  logfile = "";
  logfile_fstream = none;
  logging = none;
  flags = flags;
}

pub configuration-Ready : (valid : Bool) → Ready (configuration valid)
unfolding lookup
configuration-Ready valid = (
  unmarked-define_default_values,
  (
    (string_value "/etc/agent.conf", refl, refl),
    (
      (string_value "wss://broker:8142/pcp", refl, refl),
      (
        (integer_value (pos 5), refl, refl),
        (
          (string_value "/ca.pem", refl, refl),
          (
            (string_value "/cert.pem", refl, refl),
            (
              (string_value "/key.pem", refl, refl),
              (
                (string_value "/agent.log", refl, refl),
                (
                  (string_value "info", refl, refl),
                  (
                    (string_value "", refl, refl),
                    (
                      (string_value "", refl, refl),
                      (
                        (string_value "/spool", refl, refl),
                        (
                          (bool_value false, refl, refl),
                          ((string_value "/agent.pid", refl, refl), tt),
                        ),
                      ),
                    ),
                  ),
                ),
              ),
            ),
          ),
        ),
      ),
    ),
  ),
)
