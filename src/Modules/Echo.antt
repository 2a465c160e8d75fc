-- ===== src/Modules/Echo.antt =====
-- modules/echo.cc.
use pxp_agent.Base.{String, ◌≡◌, refl, none, some, [], ◌∷◌, true, arith, pos}
use pxp_agent.Exception.{Result, ok, aborted, ◌>>=◌}
use pxp_agent.Libraries.{Libraries, TypeConstraint}
use pxp_agent.Json.{typed, get_text}
use pxp_agent.ActionRequest.{ActionRequest, params}
use pxp_agent.Module.{Module, ActionOutcome, internal_outcome}

module _ ⦃L : Libraries⦄ where
  open L use {
    Json, entry, set, empty, as_text, of_text, entry-set, as_text-of_text, new_schema,
    add_constraint, no_schemas, register_schema,
  }

  -- The constructor.
  unfoldable pub new : Result Module
  new = do
    input ←
        register_schema no_schemas
          (add_constraint (new_schema "echo") "argument" TypeConstraint.string true)
    results ← register_schema no_schemas (new_schema "echo")
    ok (record {
      module_name = "echo";
      actions = "echo" ∷ [];
      config_validator = no_schemas;
      input_validator = input;
      results_validator = results;
    })

  -- The assert that the argument is there and is a text.
  unfoldable pub call_action : ActionRequest → Result ActionOutcome
  call_action r = elim (typed as_text (entry (params r).0 "argument")) [
    | none ↦ aborted
    | some argument ↦ ok (internal_outcome (pos 0) (set empty "outcome" (of_text argument)))
  ]

  -- For a request that has a text as its `argument`, the echo action succeeds with exit code 0 and
  -- with results that hold this text as `outcome`.
  pub call_action-outcome :
      (r : ActionRequest) (argument : String)
      → get_text (params r).0 "argument" ≡ ok argument
      → (o : ActionOutcome) × (call_action r ≡ ok o)
        × (get_text o.results "outcome" ≡ ok argument)
        × (o.exitcode ≡ pos 0)
  unfolding call_action
  call_action-outcome r argument h = (
    internal_outcome (pos 0) (set empty "outcome" (of_text argument)),
    ground arith,
    simp (entry-set, as_text-of_text),
    refl,
  )
