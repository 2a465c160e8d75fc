-- ===== src/Tests/Loading.antt =====
-- The loading of an external module, at a concrete input.
use pxp_agent.Base.{List, [], ◌∷◌, ◌≡◌, refl, pos, true}
use pxp_agent.Exception.{ok}
use pxp_agent.Json.{get_items}
use pxp_agent.ExternalModule.{ExternalModule, Execution}
use pxp_agent.ExternalModule.Registration.{
  metadata_schema_name, get_metadata, load_with, unregistered,
}
use pxp_agent.ExternalModule.Registration.Loading.{Loads, load_with-Loads}
use pxp_agent.ExternalModule.Registration.Actions.{Named, load_with-Named}
use pxp_agent.RequestProcessor.Modules.{load_external_modules_from}
use pxp_agent.RequestProcessor.Modules.Sound.{Gives, load_external_modules_from-Gives}
use pxp_agent.Tests.JsonValue.{Value, text, member, item, no_items, no_members, to_string, parse}
use pxp_agent.Tests.Sample.{sample, KeySchema}

abbrev action : Value
action =
    member "name" (text "string")
      (member "input" no_members (member "results" no_members no_members))

abbrev metadata : Value
metadata = member "actions" (item action no_items) no_members

abbrev printed : Execution
unfolding to_string
printed = record { exit_code = pos 0; output = to_string metadata; error = "" }

abbrev validator : List KeySchema
validator = record { schema_name = metadata_schema_name; keys = ("actions", true) ∷ [] } ∷ []

load_with-Loads_example : Loads (load_with validator printed "reverse" no_members)
load_with-Loads_example = load_with-Loads validator printed "reverse" no_members

abbrev string_schemas : List KeySchema
string_schemas = record { schema_name = "string"; keys = [] } ∷ []

abbrev loaded : ExternalModule
loaded = record {
  base = record (unregistered "reverse") {
    actions = "string" ∷ [];
    input_validator = string_schemas;
    results_validator = string_schemas;
  };
  path = "reverse";
  config = no_members;
}

loaded_lem : load_with validator printed "reverse" no_members ≡ ok loaded
unfolding load_with printed parse
loaded_lem = refl

load_with-Named_example :
    (j : Value) × (l : List Value) × (get_metadata validator printed ≡ ok j)
    × (get_items j "actions" ≡ ok l)
    × Named l loaded.actions
    × (loaded.module_name ≡ "reverse")
load_with-Named_example = load_with-Named validator printed "reverse" no_members loaded loaded_lem

load_external_modules_from-Gives_example : Gives [] (
    load_external_modules_from validator
      (λ path. printed)
      []
      (record { texts = []; directories = "/opt/modules" ∷ [] })
      "/opt/modules"
      (ok "reverse" ∷ ok "/opt/modules" ∷ [])
      [])
load_external_modules_from-Gives_example =
    load_external_modules_from-Gives validator (λ path. printed) []
      (record { texts = []; directories = "/opt/modules" ∷ [] }) "/opt/modules"
      (ok "reverse" ∷ ok "/opt/modules" ∷ []) [] (tt, (tt, tt)) tt
