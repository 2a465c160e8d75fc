-- ===== src/Configuration/Parsing.antt =====
-- parseOptions, parseArguments and parseConfigFile.
pub mod ConfigFile
pub mod Merging
pub mod Typed
use Prim.Native.String.{◌++◌}
use pxp_agent.Base.{
  String, Bool, true, false, Option, none, some, List, [], ◌∷◌, if◌then◌else◌, is_blank,
}
use pxp_agent.Exception.{Result, ok, err, aborted, configuration_error, data_error}
use pxp_agent.Exception.Stateful.{Stateful, pure, raise, gets, ◌>>=◌, ◌>>◌}
use pxp_agent.Libraries.{Libraries}
use pxp_agent.Json.{or_data_error}
use pxp_agent.Configuration.{
  Types, integer, string, bool, double, Value, integer_value, string_value, bool_value,
  double_value, Entry, Configuration, HorseWhisperer, ParseResult, parse_ok, help, version, failure,
  invalid_flag, as_string, find, set_flag, get_flag,
}

must_be : String → String → String
must_be key type = "field '" ++ (key ++ ("' must be of type " ++ type))

-- A typed read of a field, or the error that its type is another.
abbrev pub field : {A B : Type 0} → Bool → Result A → (A → B) → String → Result B
field false read value message = err (configuration_error message)
field true (ok a) value message = ok (value a)
field true (err e) value message = err e
field true aborted value message = aborted

-- `modified_argv`: `start` is made the default action.
unfoldable pub with_start : List String → List String
with_start [] = "start" ∷ []
with_start (arg ∷ argv) = arg ∷ with_start argv

module _ ⦃L : Libraries⦄ ⦃H : HorseWhisperer⦄ where
  open L use {
    Double, Json, Disk, parse, entry, keys, is_object, is_integer, is_flag, is_double, is_text,
    as_number, as_flag, as_double, as_text, file_readable, read, tilde_expand,
  }
  open H use {settings, outcome}

  -- The cases of the switch, for the value of the key.
  unfoldable pub typed_value : Types → String → Json → Result (Value Double)
  unfolding must_be
  typed_value integer key x =
      field (is_integer x) (or_data_error (as_number x) key) integer_value (must_be key "Integer")
  typed_value bool key x =
      field (is_flag x) (or_data_error (as_flag x) key) bool_value (must_be key "Bool")
  typed_value double key x =
      field (is_double x) (or_data_error (as_double x) key) double_value (must_be key "Double")
  typed_value string key x =
      field (is_text x) (or_data_error (as_text x) key) string_value (must_be key "String")

  -- `type(key)` and `get<T>(key)`, for the type of the option.
  read_field : String → Types → Option Json → Result (Value Double)
  unfolding typed_value
  read_field key type none = err (data_error key)
  read_field key type (some x) = typed_value type key x

  pub set_option : Json → String → Option (Entry Double) → Stateful Configuration (Unit {0})
  unfolding read_field set_flag
  set_option config_json key none =
      raise (configuration_error ("field '" ++ (key ++ "' is not a valid configuration variable")))
  set_option config_json key (some e) =
      if e.configured
      then pure tt
      else (gets (λ c. read_field key e.type (entry config_json key)) >>= set_flag key)

  -- The loop over the keys.
  unfoldable pub set_options : Json → List String → Stateful Configuration (Unit {0})
  unfolding set_option find
  set_options config_json [] = pure tt
  set_options config_json (key ∷ rest) =
      (λ c. set_option config_json key (find key c.defaults) c) >> set_options config_json rest

  parse_content : Option Json → Stateful Configuration (Unit {0})
  unfolding set_options
  parse_content none = raise (configuration_error "cannot parse config file; invalid JSON")
  parse_content (some config_json) =
      if is_object config_json
      then set_options config_json (keys config_json)
      else raise (configuration_error "invalid config file content; not a JSON object")

  -- lth_file::read gives an empty text if the file cannot be read.
  abbrev pub contents : Option String → String
  contents none = ""
  contents (some txt) = txt

  unfoldable pub parse_config_file : Disk → Stateful Configuration (Unit {0})
  unfolding parse_content
  parse_config_file d c =
      if file_readable d c.config_file
      then parse_content (parse (contents (read d c.config_file))) c
      else (ok tt, c)

  set_flags : List (String × Value Double) → Stateful Configuration (Unit {0})
  unfolding set_flag
  set_flags [] = pure tt
  set_flags ((name, v) ∷ rest) = set_flag name v >> set_flags rest

  unfoldable pub parse_arguments : List String → Stateful Configuration ParseResult
  unfolding set_flags with_start
  parse_arguments argv =
      set_flags (settings (with_start argv)) >> gets (λ c. outcome (with_start argv))

  parse_file_at : Disk → String → Stateful Configuration (Unit {0})
  unfolding parse_config_file
  parse_file_at d path c =
      let c' = record c { config_file = path } in
      if is_blank path then (ok tt, c') else parse_config_file d c'

  after_arguments : Disk → ParseResult → Stateful Configuration ParseResult
  unfolding parse_file_at
  after_arguments d parse_ok = do
    path ← gets (get_flag as_string "config-file")
    parse_file_at d (tilde_expand path)
    pure parse_ok
  after_arguments d failure =
      raise (configuration_error "An error occurred while parsing cli options")
  after_arguments d invalid_flag =
      raise (configuration_error "An error occurred while parsing cli options")
  after_arguments d help = pure help
  after_arguments d version = pure version

  unfoldable pub parse_options : Disk → List String → Stateful Configuration ParseResult
  unfolding parse_arguments after_arguments
  parse_options d argv = parse_arguments argv >>= after_arguments d
