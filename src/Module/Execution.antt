-- ===== src/Module/Execution.antt =====
-- What `execute_action` lets through.
use pxp_agent.Base.{◌≡◌, refl, true, Bool-cases, inl, inr}
use pxp_agent.Exception.{Result, ok, err, aborted, processing_error}
use pxp_agent.Libraries.{Libraries}
use pxp_agent.ActionRequest.{ActionRequest}
use pxp_agent.Module.{Module, ActionOutcome, execute_action}

module _ ⦃L : Libraries⦄ where
  open L use {validates}

  -- What a caller can expect: an outcome is the one of the action and its results fit the schema of
  -- the action, an exception is a ProcessingError, and the program aborts only in the action.
  abbrev pub Executed :
      Module → ActionRequest → Result ActionOutcome → Result ActionOutcome → Type 0
  Executed m r called (ok outcome) =
      (called ≡ ok outcome) × (validates m.results_validator outcome.results r.action ≡ true)
  Executed m r called (err (processing_error w)) = Unit {0}
  Executed m r called (err _) = ⊥
  Executed m r called aborted = called ≡ aborted

  -- Whatever the action does, `execute_action` gives its outcome with results that fit the schema
  -- registered for the action, or throws a Module::ProcessingError, or the action aborts.
  pub execute_action-Executed :
      (m : Module) (r : ActionRequest) (called : Result ActionOutcome)
      → Executed m r called (execute_action m r called)
  unfolding execute_action
  execute_action-Executed m r (ok outcome) =
      elim (Bool-cases (validates m.results_validator outcome.results r.action)) [
        | inl e ↦ rw e (refl, e)
        | inr e ↦ rw e tt
      ]
  execute_action-Executed m r (err (processing_error w)) = tt
  execute_action-Executed m r (err _) = tt
  execute_action-Executed m r aborted = refl
