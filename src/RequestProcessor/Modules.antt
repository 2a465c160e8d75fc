-- ===== src/RequestProcessor/Modules.antt =====
-- loadModulesConfiguration, loadInternalModules and loadExternalModulesFrom. What the directory
-- iterators give is an argument: the paths of the configuration files, and the entries of the modules
-- directory, each a path or what the iterator's constructor or its step throws; `run` gives what an
-- executable prints for its metadata.
pub mod Sound
use Prim.Native.String.{◌++◌}
use text.Mathlib.Text.{starts_with}
use pxp_agent.Base.{
  String, Bool, true, false, not, ◌&&◌, List, [], ◌∷◌, Option, none, some, if◌then◌else◌, is_blank,
  is_some, Dict, lookup, insert,
}
use pxp_agent.Exception.{
  Exception, Result, ok, err, aborted, ◌>>=◌, ◌>>◌, data_parse_error, processor_error,
}
use pxp_agent.Libraries.{Libraries}
use pxp_agent.Modules.Echo
use pxp_agent.Modules.Ping
use pxp_agent.Modules.Status
use pxp_agent.ExternalModule.{ExternalModule, Execution}
use pxp_agent.ExternalModule.Registration.{load, load_with, validate_configuration}
use pxp_agent.RequestProcessor.Content.{Loaded, echo, ping, status, external_module}

-- `substr(0, find(".conf"))`
before_conf : String → String
before_conf String.[] = ""
before_conf (String.◌∷◌ c s) =
    let rest = before_conf s in
    if starts_with (String.◌∷◌ c s) ".conf" then "" else String.◌∷◌ c rest

module _ ⦃L : Libraries⦄ where
  open L use {
    Json, Disk, Validator, parse, parse_failure, to_string, read, canonical, is_directory, stem,
    extension,
  }

  parsed : String → Result Json
  parsed txt = elim (parse txt) [
    | none ↦ err (data_parse_error (parse_failure txt))
    | some j ↦ ok j
  ]

  abbrev text_of : Option String → String
  text_of none = ""
  text_of (some t) = t

  -- A file that is not valid JSON is stored as the value null.
  config_of : Option Json → Result Json
  unfolding parsed
  config_of none = parsed "null"
  config_of (some j) = ok j

  load_configs : Disk → List String → Dict Json → Result (Dict Json)
  unfolding config_of before_conf insert
  load_configs d [] configs = ok configs
  load_configs d (s ∷ files) configs = do
    j ← config_of (parse (text_of (read d s)))
    load_configs d files (insert (before_conf (stem s)) j configs)

  unfoldable pub load_modules_configuration :
      Disk → String → List String → Dict Json → Result (Dict Json)
  unfolding load_configs
  load_modules_configuration d dir files configs =
      if is_directory d dir then load_configs d files configs else ok configs

  unfoldable pub has_module_config : Dict Json → String → Bool
  unfolding lookup
  has_module_config configs name = is_some (lookup name configs)

  unfoldable pub get_module_config : Dict Json → String → Result String
  unfolding lookup
  get_module_config configs name = elim (lookup name configs) [
    | none ↦ err (processor_error ("no configuration loaded for " ++ name))
    | some j ↦ ok (to_string j)
  ]

  unfoldable pub load_internal_modules : Dict Loaded → Result (Dict Loaded)
  unfolding Echo.new Ping.new Status.new insert
  load_internal_modules modules = do
    e ← Echo.new
    p ← Ping.new
    s ← Status.new
    ok (insert "status" (status s) (insert "ping" (ping p) (insert "echo" (echo e) modules)))

  load_configured : Validator → (String → Execution) → String → Option Json → Result ExternalModule
  unfolding load load_with validate_configuration
  load_configured v run path (some config) = do
    m ← load_with v (run path) path config
    u ← validate_configuration m
    ok m
  load_configured v run path none = load v (run path) path

  -- The try block and its catch clauses, which let no exception pass.
  keep_module : Dict Loaded → Result ExternalModule → Result (Dict Loaded)
  unfolding insert
  keep_module modules (ok m) = ok (insert m.module_name (external_module m) modules)
  keep_module modules (err e) = ok modules
  keep_module modules aborted = aborted

  unfoldable pub load_external_module :
      Validator → (String → Execution) → Dict Json → String → Dict Loaded → Result (Dict Loaded)
  unfolding load_configured keep_module lookup
  load_external_module v run configs path modules =
      keep_module modules (load_configured v run path (lookup (stem path) configs))

  -- A path without its symbolic links.
  load_canonical :
      Validator → (String → Execution) → Dict Json → String → Dict Loaded → Result (Dict Loaded)
  unfolding load_external_module
  load_canonical v run configs path modules =
      if is_blank (extension path)
      then load_external_module v run configs path modules
      else ok modules

  load_entry :
      Validator
      → (String → Execution)
      → Dict Json
      → Disk
      → String
      → Dict Loaded
      → Result (Dict Loaded)
  unfolding load_canonical
  load_entry v run configs d path modules =
      L.status d path
      >> (if is_directory d path
          then ok modules
          else (canonical d path >>= λ f_p. load_canonical v run configs f_p modules))

  load_entries :
      Validator
      → (String → Execution)
      → Dict Json
      → Disk
      → List (Result String)
      → Dict Loaded
      → Result (Dict Loaded)
  unfolding load_entry
  load_entries v run configs d [] modules = ok modules
  load_entries v run configs d (entry ∷ entries) modules = do
    path ← entry
    modules' ← load_entry v run configs d path modules
    load_entries v run configs d entries modules'

  unfoldable pub load_external_modules_from :
      Validator
      → (String → Execution)
      → Dict Json
      → Disk
      → String
      → List (Result String)
      → Dict Loaded
      → Result (Dict Loaded)
  unfolding load_entries
  load_external_modules_from v run configs d dir entries modules =
      L.status d dir
      >> (if is_directory d dir then load_entries v run configs d entries modules else ok modules)
