-- ===== src/ExternalModule/Registration.antt =====
-- The loading of an external module: its metadata, its configuration schema and its actions. A
-- module that is being made is lost when its constructor throws.
pub mod Loading
pub mod Actions
use Prim.Native.String.{◌++◌}
use pxp_agent.Base.{
  String, Bool, true, false, not, List, [], ◌∷◌, Option, none, some, if◌then◌else◌, is_blank,
}
use pxp_agent.Exception.{
  Exception, Result, ok, err, aborted, ◌>>=◌, loading_error, data_error, data_parse_error,
  schema_error, validation_error,
}
use pxp_agent.Libraries.{Libraries, TypeConstraint}
use pxp_agent.Json.{includes, get_text, get_json, get_items}
use pxp_agent.Module.{Module}
use pxp_agent.ExternalModule.{ExternalModule, Execution}

abbrev pub metadata_schema_name : String
metadata_schema_name = "external_module_metadata"

abbrev pub action_schema_name : String
action_schema_name = "action_metadata"

abbrev pub metadata_configuration_entry : String
metadata_configuration_entry = "configuration"

abbrev pub metadata_actions_entry : String
metadata_actions_entry = "actions"

abbrev pub append : List String → String → List String
append [] a = a ∷ []
append (x ∷ xs) a = x ∷ append xs a

-- The two kinds of catch clauses; `data_error` is the base of `data_parse_error`.
abbrev pub on_schema_error {ℓ} : {A : Type ℓ} → String → Result A → Result A
on_schema_error text (err (schema_error w)) = err (loading_error text)
on_schema_error text r = r

abbrev pub on_data_error {ℓ} : {A : Type ℓ} → String → Result A → Result A
on_data_error text (err (data_error w)) = err (loading_error text)
on_data_error text (err (data_parse_error w)) = err (loading_error text)
on_data_error text r = r

module _ ⦃L : Libraries⦄ where
  open L use {
    Json, parse, parse_failure, empty, Schema, Validator, new_schema, schema_of, add_constraint,
    add_sub_schema, no_schemas, register_schema, includes_schema, validates, violation, stem,
  }

  action_schema : Schema
  action_schema =
      add_constraint
        (add_constraint
          (add_constraint
            (add_constraint (new_schema action_schema_name) "description" TypeConstraint.string
              false)
            "name" TypeConstraint.string true)
          "input" TypeConstraint.object true)
        "results" TypeConstraint.object true

  metadata_schema : Schema
  unfolding action_schema
  metadata_schema =
      add_sub_schema
        (add_constraint
          (add_constraint
            (add_constraint (new_schema metadata_schema_name) "description" TypeConstraint.string
              true)
            metadata_configuration_entry TypeConstraint.object false)
          metadata_actions_entry TypeConstraint.array true)
        metadata_actions_entry action_schema false

  unfoldable pub get_metadata_validator : Result Validator
  unfolding metadata_schema
  get_metadata_validator = register_schema no_schemas metadata_schema

  checked_metadata : Validator → Execution → Option Json → Result Json
  checked_metadata v exec none =
      err (loading_error ("metadata is not in a valid JSON format: " ++ parse_failure exec.output))
  checked_metadata v exec (some j) =
      if validates v j metadata_schema_name
      then ok j
      else err
          (loading_error ("metadata validation failure: " ++ violation v j metadata_schema_name))

  -- What the executable printed for `metadata`, with the validator of the metadata.
  unfoldable pub get_metadata : Validator → Execution → Result Json
  unfolding checked_metadata
  get_metadata v exec =
      if not (is_blank exec.error)
      then err (loading_error "failed to load external module metadata")
      else checked_metadata v exec (parse exec.output)

  unfoldable pub register_configuration : Json → Module → Result Module
  register_configuration config_metadata m =
      on_schema_error ("invalid configuration schema of module " ++ m.module_name) (do
        s ← schema_of m.module_name config_metadata
        v ← register_schema m.config_validator s
        ok (record m { config_validator = v }))

  -- The try block of registerAction.
  register_schemas : String → Json → Module → Result Module
  register_schemas action_name action m = do
    input_json ← get_json action "input"
    input_schema ← schema_of action_name input_json
    results_json ← get_json action "results"
    results_schema ← schema_of action_name results_json
    input ← register_schema m.input_validator input_schema
    results ← register_schema m.results_validator results_schema
    ok (record m {
      actions = append m.actions action_name;
      input_validator = input;
      results_validator = results;
    })

  unfoldable pub register_action : Json → Module → Result Module
  unfolding register_schemas
  register_action action m = do
    action_name ← get_text action "name"
    on_data_error ("invalid metadata of '" ++ m.module_name ++ " " ++ action_name ++ "'") (
        on_schema_error ("invalid schemas of '" ++ m.module_name ++ " " ++ action_name ++ "'")
          (register_schemas action_name action m))

  register_each : List Json → Module → Result Module
  unfolding register_action
  register_each [] m = ok m
  register_each (a ∷ l) m = do m' ← register_action a m; register_each l m'

  unfoldable pub register_actions : Json → Module → Result Module
  unfolding register_each
  register_actions metadata m = do l ← get_items metadata metadata_actions_entry; register_each l m

  abbrev pub unregistered : String → Module
  unregistered module_name = record {
    module_name = module_name;
    actions = [];
    config_validator = no_schemas;
    input_validator = no_schemas;
    results_validator = no_schemas;
  }

  configured : Json → Module → Result Module
  unfolding register_configuration
  configured metadata m =
      if includes metadata metadata_configuration_entry
      then (do j ← get_json metadata metadata_configuration_entry; register_configuration j m)
      else ok m

  abbrev pub as_module : String → Json → Module → ExternalModule
  as_module path config m = record { base = m; path = path; config = config }

  -- The constructor with a configuration.
  unfoldable pub load_with : Validator → Execution → String → Json → Result ExternalModule
  unfolding get_metadata configured register_actions
  load_with v exec path config = do
    metadata ← get_metadata v exec
    m ←
        on_data_error ("invalid metadata of module " ++ stem path)
          (do m ← configured metadata (unregistered (stem path)); register_actions metadata m)
    ok (as_module path config m)

  -- `config_ { "{}" }`
  braces_config : Result Json
  braces_config = elim (parse "{}") [
    | none ↦ err (data_parse_error (parse_failure "{}"))
    | some j ↦ ok j
  ]

  -- The constructor without a configuration, which registers no configuration schema.
  unfoldable pub load : Validator → Execution → String → Result ExternalModule
  unfolding braces_config get_metadata register_actions
  load v exec path = do
    config ← braces_config
    metadata ← get_metadata v exec
    m ←
        on_data_error ("invalid metadata of module " ++ stem path)
          (register_actions metadata (unregistered (stem path)))
    ok (as_module path config m)

  unfoldable pub validate_configuration : ExternalModule → Result (Unit {0})
  validate_configuration m =
      if includes_schema m.config_validator m.module_name
      then (if validates m.config_validator m.config m.module_name
          then ok tt
          else err (validation_error (violation m.config_validator m.config m.module_name)))
      else ok tt
