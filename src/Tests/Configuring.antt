-- ===== src/Tests/Configuring.antt =====
-- The configuration, at a concrete input.
use pxp_agent.Base.{
  String, true, false, List, [], ◌∷◌, some, ◌≡◌, refl, ◌==◌, if◌then◌else◌, lookup, contains, pos,
  eq_iff, Bool-cases, inl, inr, arith, subst,
}
use pxp_agent.Exception.{ok}
use pxp_agent.Exception.Stateful.{Post}
use pxp_agent.Configuration.{Configuration, string_value, as_string}
use pxp_agent.Configuration.Ready.{Ready}
use pxp_agent.Configuration.Parsing.{parse_config_file, parse_options}
use pxp_agent.Configuration.Parsing.ConfigFile.{FileFailed}
use pxp_agent.Configuration.Parsing.Merging.{ConfigRead, parse_config_file-ConfigRead}
use pxp_agent.Configuration.Parsing.Typed.{parse_options-keeps}
use pxp_agent.Configuration.Logging.{setup_logging}
use pxp_agent.Configuration.Logging.Levels.{SetUp, setup_logging-SetUp}
use pxp_agent.Configuration.Validation.{PcpClient, validate, unused_path}
use pxp_agent.Configuration.Validation.Frame.{Failed}
use pxp_agent.Configuration.Validation.Directories.{Free, unused_path-Free}
use pxp_agent.Configuration.Validation.Valid.{Validated, validate-Validated}
use pxp_agent.Configuration.Settings.{set, get, get_agent_configuration}
use pxp_agent.Configuration.Settings.Access.{set-get}
use pxp_agent.Configuration.Settings.Timeout.{Given, get_agent_configuration-Given}
use pxp_agent.Tests.JsonValue.{Value, text, member, no_members, to_string}
use pxp_agent.Tests.Sample.{sample, Folder, is_there, join}
use pxp_agent.Tests.Options.{whisperer, configuration, configuration-Ready}

abbrev file : Value
file = member "loglevel" (text "debug") no_members

abbrev pub disk : Folder
unfolding to_string
disk = record {
  texts =
      ("/etc/agent.conf", to_string file)
      ∷ ("/ca.pem", "")
      ∷ ("/cert.pem", "")
      ∷ ("/key.pem", "")
      ∷ [];
  directories = "/" ∷ "/spool" ∷ [];
}

parse_config_file-ConfigRead_example :
    Post
      (ConfigRead disk (configuration false))
      FileFailed
      (parse_config_file disk (configuration false))
parse_config_file-ConfigRead_example =
    parse_config_file-ConfigRead disk (configuration false) (configuration-Ready false)

parse_options-keeps_example :
    Ready (parse_options disk ("pxp-agent" ∷ "--foreground" ∷ []) (configuration false)).1
parse_options-keeps_example =
    parse_options-keeps disk ("pxp-agent" ∷ "--foreground" ∷ []) (configuration false)
      (configuration-Ready false)

setup_logging-SetUp_example :
    Post
      (SetUp false true disk "/agent.log" "info" false (configuration false))
      (λ e c. pxp_agent.Exception.IsSettingsError e)
      (setup_logging (λ path. true) true disk (configuration false))
unfolding lookup
setup_logging-SetUp_example =
    setup_logging-SetUp (λ path. true) true disk "/agent.log" "info" false (configuration false)
      (refl, refl, refl)

abbrev pub pcp_client : PcpClient
pcp_client = record { common_name = λ cert. ok "agent"; key_cert_pair = λ key cert. ok tt }

abbrev pub uuids : List String
uuids = "uuid" ∷ []

-- The directories of the disk.
pub directory-cases :
    (P : String → Type 0) (dir : String)
    → contains dir ("/" ∷ "/spool" ∷ []) ≡ true
    → P "/"
    → P "/spool"
    → P dir
directory-cases P dir h a b = elim (Bool-cases ("/" == dir)) [
  | inl e ↦ subst P ((eq_iff "/" dir).0 e) a
  | inr e ↦ elim (Bool-cases ("/spool" == dir)) [
    | inl k ↦ subst P ((eq_iff "/spool" dir).0 k) b
    | inr k ↦ absurd (ground (arith, e, k, h))
  ]
]

disk-Free : (dir : String) → contains dir ("/" ∷ "/spool" ∷ []) ≡ true → Free disk dir uuids
unfolding lookup disk
disk-Free dir h =
    directory-cases (λ s. Free disk s uuids) dir h ("uuid", refl, refl) ("uuid", refl, refl)

validate-Validated_example :
    Post
      (Validated pcp_client uuids disk)
      (Failed false)
      (validate pcp_client uuids disk (configuration false))
unfolding disk
validate-Validated_example =
    validate-Validated pcp_client uuids disk (configuration false) ((λ c. tt), (λ k c. tt))
      disk-Free (configuration-Ready false)

unused_path-Free_example :
    (p : String) × (unused_path disk "/spool" uuids ≡ some p)
    × (is_there disk p ≡ false)
    × ((uuid : String) × (contains uuid uuids ≡ true) × (p ≡ join "/spool" uuid))
unfolding lookup disk
unused_path-Free_example = unused_path-Free disk "/spool" uuids ("uuid", refl, refl)

get_agent_configuration-Given_example :
    Given (pos 5) (configuration true) (get_agent_configuration (configuration true))
unfolding lookup
get_agent_configuration-Given_example =
    get_agent_configuration-Given (configuration true) (pos 5) (configuration-Ready true) refl refl

set-get_example :
    (d : Configuration) × (set "spool-dir" (string_value "/tmp") (configuration true) ≡ (ok tt, d))
    × (get as_string "spool-dir" d ≡ (
        if "spool-dir" == "spool-dir"
        then ok "/tmp"
        else get as_string "spool-dir" (configuration true)))
unfolding lookup
set-get_example =
    set-get as_string "spool-dir" "spool-dir" (string_value "/tmp") "/tmp" (configuration true)
      (configuration-Ready true) refl refl refl refl
