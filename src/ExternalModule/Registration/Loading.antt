-- ===== src/ExternalModule/Registration/Loading.antt =====
-- What the constructors of an external module end in.
use pxp_agent.Base.{
  ◌≡◌, refl, sym, subst, String, List, [], ◌∷◌, Option, none, some, if_elim, is_blank, not,
}
use pxp_agent.Exception.{
  Exception, Result, ok, err, aborted, ◌>>=◌, loading_error, data_error, data_parse_error,
  schema_error,
}
use pxp_agent.Libraries.{Libraries, SchemaChecked}
use pxp_agent.Json.{includes, get_text, get_json, get_items, or_data_error}
use pxp_agent.Module.{Module}
use pxp_agent.ExternalModule.{Execution}
use pxp_agent.ExternalModule.Registration.{
  metadata_schema_name, checked_metadata, metadata_actions_entry, metadata_configuration_entry,
  get_metadata, on_schema_error, on_data_error, register_configuration, register_schemas,
  register_action, register_each, register_actions, unregistered, configured, load_with, load,
  braces_config,
}

-- What may be thrown inside the constructor's try block.
abbrev Expected : Exception → Type 0
Expected (data_error w) = Unit {0}
Expected (data_parse_error w) = Unit {0}
Expected (loading_error w) = Unit {0}
Expected _ = ⊥

abbrev Only : {A : Type 0} → Result A → Type 0
Only (ok a) = Unit {0}
Only (err e) = Expected e
Only aborted = ⊥

-- A normal return, or a Module::LoadingError.
abbrev pub Loads : {A : Type 0} → Result A → Type 0
Loads (ok a) = Unit {0}
Loads (err (loading_error w)) = Unit {0}
Loads (err _) = ⊥
Loads aborted = ⊥

-- The same with the schema_error that registration may throw in addition.
abbrev Registers : {A : Type 0} → Result A → Type 0
Registers (ok a) = Unit {0}
Registers (err (data_error w)) = Unit {0}
Registers (err (schema_error w)) = Unit {0}
Registers (err _) = ⊥
Registers aborted = ⊥

bind-Only :
    {A B : Type 0} (r : Result A) (f : A → Result B)
    → Only r
    → ((a : A) → Only (f a))
    → Only (r >>= f)
bind-Only (ok a) f h g = g a
bind-Only (err e) f h g = h
bind-Only aborted f h g = absurd h

bind-Registers :
    {A B : Type 0} (r : Result A) (f : A → Result B)
    → Registers r
    → ((a : A) → Registers (f a))
    → Registers (r >>= f)
bind-Registers (ok a) f h g = g a
bind-Registers (err (data_error w)) f h g = tt
bind-Registers (err (schema_error w)) f h g = tt
bind-Registers (err _) f h g = absurd h
bind-Registers aborted f h g = absurd h

bind-Loads :
    {A B : Type 0} (r : Result A) (f : A → Result B)
    → Loads r
    → ((a : A) → Loads (f a))
    → Loads (r >>= f)
bind-Loads (ok a) f h g = g a
bind-Loads (err (loading_error w)) f h g = tt
bind-Loads (err _) f h g = absurd h
bind-Loads aborted f h g = absurd h

bind-SchemaChecked :
    {A B : Type 0} (r : Result A) (f : A → Result B)
    → SchemaChecked r
    → ((a : A) → SchemaChecked (f a))
    → SchemaChecked (r >>= f)
bind-SchemaChecked (ok a) f h g = g a
bind-SchemaChecked (err (schema_error w)) f h g = tt
bind-SchemaChecked (err _) f h g = absurd h
bind-SchemaChecked aborted f h g = absurd h

checked-Registers : {A : Type 0} (r : Result A) → SchemaChecked r → Registers r
checked-Registers (ok a) h = tt
checked-Registers (err (schema_error w)) h = tt
checked-Registers (err _) h = absurd h
checked-Registers aborted h = absurd h

got-Registers : {A : Type 0} (o : Option A) (k : String) → Registers (or_data_error o k)
got-Registers none k = tt
got-Registers (some a) k = tt

got-Only : {A : Type 0} (o : Option A) (k : String) → Only (or_data_error o k)
got-Only none k = tt
got-Only (some a) k = tt

schema_caught-Only :
    {A : Type 0} (t : String) (r : Result A) → SchemaChecked r → Only (on_schema_error t r)
schema_caught-Only t (ok a) h = tt
schema_caught-Only t (err (schema_error w)) h = tt
schema_caught-Only t (err _) h = absurd h
schema_caught-Only t aborted h = absurd h

both_caught-Only :
    {A : Type 0} (t u : String) (r : Result A)
    → Registers r
    → Only (on_data_error t (on_schema_error u r))
both_caught-Only t u (ok a) h = tt
both_caught-Only t u (err (data_error w)) h = tt
both_caught-Only t u (err (schema_error w)) h = tt
both_caught-Only t u (err _) h = absurd h
both_caught-Only t u aborted h = absurd h

data_caught-Loads : {A : Type 0} (t : String) (r : Result A) → Only r → Loads (on_data_error t r)
data_caught-Loads t (ok a) h = tt
data_caught-Loads t (err (data_error w)) h = tt
data_caught-Loads t (err (data_parse_error w)) h = tt
data_caught-Loads t (err (loading_error w)) h = tt
data_caught-Loads t (err _) h = absurd h
data_caught-Loads t aborted h = absurd h

module _ ⦃L : Libraries⦄ where
  open L use {
    parse-braces, empty, Json, Validator, parse, validates, entry, stem, schema_of, register_schema,
    schema_of-SchemaChecked, register_schema-SchemaChecked,
  }

  bound-SchemaChecked :
      (n : String) (j : Json) (v : Validator) (f : Validator → Module)
      → SchemaChecked (schema_of n j >>= λ s. register_schema v s >>= λ w. ok (f w))
  bound-SchemaChecked n j v f =
      bind-SchemaChecked (schema_of n j) _ (schema_of-SchemaChecked n j)
        λ s. bind-SchemaChecked (register_schema v s) _ (register_schema-SchemaChecked v s) λ w. tt

  schema-Registers : (n : String) (j : Json) → Registers (schema_of n j)
  schema-Registers n j = checked-Registers (schema_of n j) (schema_of-SchemaChecked n j)

  registration-Registers : (v : Validator) (s : L.Schema) → Registers (register_schema v s)
  registration-Registers v s =
      checked-Registers (register_schema v s) (register_schema-SchemaChecked v s)

  register_schemas-Registers :
      (n : String) (a : Json) (m : Module) → Registers (register_schemas n a m)
  unfolding register_schemas
  register_schemas-Registers n a m =
      bind-Registers (get_json a "input") _ (got-Registers (entry a "input") "input") λ i.
        bind-Registers (schema_of n i) _ (schema-Registers n i) λ s.
          bind-Registers (get_json a "results") _ (got-Registers (entry a "results") "results") λ j.
            bind-Registers (schema_of n j) _ (schema-Registers n j) λ t.
              bind-Registers (register_schema m.input_validator s) _
                (registration-Registers m.input_validator s)
                λ v.
                  bind-Registers (register_schema m.results_validator t) _
                    (registration-Registers m.results_validator t) λ w. tt

  register_action-Only : (a : Json) (m : Module) → Only (register_action a m)
  unfolding register_action
  register_action-Only a m =
      bind-Only (get_text a "name") _ (got-Only _ "name")
        λ n. both_caught-Only _ _ (register_schemas n a m) (register_schemas-Registers n a m)

  register_each-Only : (l : List Json) (m : Module) → Only (register_each l m)
  unfolding register_each
  register_each-Only [] m = tt
  register_each-Only (a ∷ l) m =
      bind-Only (register_action a m) _ (register_action-Only a m) λ m'. register_each-Only l m'

  register_actions-Only : (j : Json) (m : Module) → Only (register_actions j m)
  unfolding register_actions
  register_actions-Only j m =
      bind-Only (get_items j metadata_actions_entry) _ (got-Only _ metadata_actions_entry)
        λ l. register_each-Only l m

  configured-Only : (j : Json) (m : Module) → Only (configured j m)
  unfolding configured register_configuration
  configured-Only j m =
      if_elim Only (includes j metadata_configuration_entry)
        (bind-Only (get_json j metadata_configuration_entry) _
          (got-Only _ metadata_configuration_entry)
          λ k. schema_caught-Only _ _ (bound-SchemaChecked m.module_name k m.config_validator _))
        tt

  checked_metadata-Loads :
      (v : Validator) (exec : Execution) (o : Option Json) → Loads (checked_metadata v exec o)
  unfolding checked_metadata
  checked_metadata-Loads v exec none = tt
  checked_metadata-Loads v exec (some j) = if_elim Loads (validates v j metadata_schema_name) tt tt

  get_metadata-Loads : (v : Validator) (exec : Execution) → Loads (get_metadata v exec)
  unfolding get_metadata
  get_metadata-Loads v exec =
      if_elim Loads (not (is_blank exec.error)) tt
        (checked_metadata-Loads v exec (parse exec.output))

  braces_config-Loads : Loads braces_config
  unfolding braces_config
  braces_config-Loads =
      let e : braces_config ≡ ok empty = rw (parse-braces, braces_config) refl in
      subst Loads (sym e) tt

  -- The constructor of an external module with a configuration ends normally or with a
  -- Module::LoadingError, whatever its executable prints as metadata.
  pub load_with-Loads :
      (v : Validator) (exec : Execution) (path : String) (config : Json)
      → Loads (load_with v exec path config)
  unfolding load_with
  load_with-Loads v exec path config =
      bind-Loads (get_metadata v exec) _ (get_metadata-Loads v exec) λ j.
        bind-Loads
          (on_data_error _ (configured j (unregistered (stem path)) >>= register_actions j)) _
          (data_caught-Loads _ _ (
            bind-Only (configured j (unregistered (stem path))) (register_actions j)
              (configured-Only j (unregistered (stem path))) (register_actions-Only j)))
          λ m. tt

  -- The constructor without a configuration ends in the same two ways.
  pub load-Loads : (v : Validator) (exec : Execution) (path : String) → Loads (load v exec path)
  unfolding load
  load-Loads v exec path = bind-Loads braces_config _ braces_config-Loads λ c.
      bind-Loads (get_metadata v exec) _ (get_metadata-Loads v exec) λ j.
        bind-Loads (on_data_error _ (register_actions j (unregistered (stem path)))) _
          (data_caught-Loads _ _ (register_actions-Only j (unregistered (stem path)))) λ m. tt
