-- ===== src/Module.antt =====
-- module.hpp, module.cc and action_outcome.hpp: what the modules have in common. `callAction` is
-- the argument `called`, the result that the class of the module gives for the request.
pub mod Execution
use Prim.Native.String.{◌++◌}
use pxp_agent.Base.{String, Bool, true, false, List, [], ◌∷◌, if◌then◌else◌, is_blank, ℤ, contains}
use pxp_agent.Exception.{Result, ok, err, aborted, processing_error}
use pxp_agent.Libraries.{Libraries}
use pxp_agent.ActionRequest.{ActionRequest, pretty_label}

pub data ModuleType : Type 0 where
  internal external : ModuleType

pub record ActionOutcome ⦃L : Libraries⦄ : Type 0 where
  pub outcome_type : ModuleType
  pub exitcode : ℤ
  pub std_err : String
  pub std_out : String
  pub results : L.Json

pub record Module ⦃L : Libraries⦄ : Type 0 where
  pub module_name : String
  pub actions : List String
  pub config_validator : L.Validator
  pub input_validator : L.Validator
  pub results_validator : L.Validator

module _ ⦃L : Libraries⦄ where
  open L use {Json, validates, no_schemas}

  -- The two constructors of ActionOutcome.
  abbrev pub external_outcome : ℤ → String → String → Json → ActionOutcome
  external_outcome exitcode std_err std_out results = record {
    outcome_type = external;
    exitcode = exitcode;
    std_err = std_err;
    std_out = std_out;
    results = results;
  }

  abbrev pub internal_outcome : ℤ → Json → ActionOutcome
  internal_outcome exitcode results = record {
    outcome_type = internal;
    exitcode = exitcode;
    std_err = "";
    std_out = "";
    results = results;
  }

  unfoldable pub has_action : Module → String → Bool
  has_action m action_name = contains action_name m.actions

  -- The text of the ProcessingError for results that the schema of the action refuses.
  invalid_results : String → ActionOutcome → String
  invalid_results label outcome =
      "The task executed for the "
      ++ label
      ++ " returned "
      ++ (if is_blank outcome.std_out then "no" else "invalid")
      ++ " results on stdout"
      ++ (if is_blank outcome.std_out then "" else ": " ++ outcome.std_out)
      ++ " - stderr:"
      ++ (if is_blank outcome.std_err then " (empty)" else "\n" ++ outcome.std_err)

  unfoldable pub execute_action :
      Module → ActionRequest → Result ActionOutcome → Result ActionOutcome
  unfolding invalid_results
  execute_action m r (ok outcome) =
      if validates m.results_validator outcome.results r.action
      then ok outcome
      else err (processing_error (invalid_results (pretty_label r).0 outcome))
  execute_action m r (err (processing_error w)) = err (processing_error w)
  execute_action m r (err e) = err (processing_error ("failed to execute " ++ (pretty_label r).0))
  execute_action m r aborted = aborted
