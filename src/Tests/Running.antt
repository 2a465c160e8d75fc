-- ===== src/Tests/Running.antt =====
-- The program, at a concrete input.
use pxp_agent.Base.{String, true, false, List, [], ◌∷◌, ◌≡◌, ◌⊎◌, refl, lookup, contains, pos}
use pxp_agent.Exception.{ok}
use pxp_agent.Configuration.Defaults.{define_default_values}
use pxp_agent.Configuration.Defaults.Initial.{unmarked-define_default_values}
use pxp_agent.Agent.{Agent, Broker}
use pxp_agent.Agent.Start.{Dispatches, start-Dispatches}
use pxp_agent.Configuration.Validation.Directories.{Free}
use pxp_agent.Main.{Host, main, success}
use pxp_agent.Main.Exits.{Nothing, Completed, validation_of, parse_result_of, main-success}
use pxp_agent.Tests.Inputs.{chunks, content, environment, processor}
use pxp_agent.Tests.JsonValue.{Value, text, member, no_members, to_string, parse}
use pxp_agent.Tests.Sample.{sample, Folder}
use pxp_agent.Tests.Options.{whisperer, configuration}
use pxp_agent.Tests.Configuring.{disk, pcp_client, uuids, directory-cases}

abbrev broker : Broker
broker = record {
  construct = λ agent. ok tt;
  connect = ok tt;
  monitor_connection = ok tt;
  ttl_expired_type = "http://puppetlabs.com/ttl_expired";
}

abbrev agent : Agent
agent = record { callbacks = []; request_processor = processor }

start-Dispatches_example : Dispatches environment broker (chunks (content "ping" "ping")) agent
start-Dispatches_example =
    start-Dispatches environment broker (chunks (content "ping" "ping")) agent refl refl

abbrev host : Host
host = record {
  argv = "pxp-agent" ∷ [];
  can_append = λ path. true;
  signalled = true;
  pcp_client = pcp_client;
  uuids = uuids;
  daemonize = ok tt;
  broker = broker;
  installation = record {
    validator = [];
    config_files = [];
    module_files = [];
    run = λ path. record { exit_code = pos 0; output = ""; error = "" };
  };
}

abbrev settings : List (String × String)
settings =
    ("broker-ws-uri", "wss://broker:8142/pcp")
    ∷ ("ssl-ca-cert", "/ca.pem")
    ∷ ("ssl-cert", "/cert.pem")
    ∷ ("ssl-key", "/key.pem")
    ∷ ("logfile", "/agent.log")
    ∷ ("modules-dir", "")
    ∷ ("modules-config-dir", "")
    ∷ ("spool-dir", "/spool")
    ∷ ("pidfile", "/agent.pid")
    ∷ []

abbrev members : List (String × String) → Value
members [] = no_members
members ((k, s) ∷ r) = member k (text s) (members r)

-- The default config file.
abbrev pub host_disk : Folder
unfolding to_string
host_disk = record disk {
  texts =
      ("/etc/puppetlabs/pxp-agent/pxp-agent.conf", to_string (members settings))
      ∷ ("/ca.pem", "")
      ∷ ("/cert.pem", "")
      ∷ ("/key.pem", "")
      ∷ [];
}

host-Free : (dir : String) → contains dir ("/" ∷ "/spool" ∷ []) ≡ true → Free host_disk dir uuids
unfolding lookup host_disk
host-Free dir h =
    directory-cases (λ s. Free host_disk s uuids) dir h ("uuid", refl, refl) ("uuid", refl, refl)

main_lem : (main host host_disk (configuration false)).0 ≡ ok success
unfolding main host_disk define_default_values parse
main_lem = refl

main-success_example :
    Nothing (parse_result_of host host_disk (configuration false)) host
    ⊎ Completed (validation_of host host_disk (configuration false)) host host_disk
unfolding host_disk
main-success_example =
    main-success host host_disk (configuration false) (((λ c. tt), (λ k c. tt)), host-Free)
      unmarked-define_default_values main_lem
