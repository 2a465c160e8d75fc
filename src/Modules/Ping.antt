-- ===== src/Modules/Ping.antt =====
-- modules/ping.cc.
use pxp_agent.Base.{List, [], ◌∷◌, false, pos}
use pxp_agent.Exception.{Result, ok, err, aborted, ◌>>=◌, processing_error, data_parse_error}
use pxp_agent.Libraries.{Libraries, TypeConstraint}
use pxp_agent.Json.{get_items}
use pxp_agent.ActionRequest.{ActionRequest}
use pxp_agent.Module.{Module, ActionOutcome, internal_outcome}

module _ ⦃L : Libraries⦄ where
  open L use {Json, set, empty, of_items, new_schema, add_constraint, no_schemas, register_schema}

  -- The constructor. A constraint without a third argument is not required.
  unfoldable pub new : Result Module
  new = do
    input ←
        register_schema no_schemas
          (add_constraint (new_schema "ping") "sender_timestamp" TypeConstraint.string false)
    results ← register_schema no_schemas (new_schema "ping")
    ok (record {
      module_name = "ping";
      actions = "ping" ∷ [];
      config_validator = no_schemas;
      input_validator = input;
      results_validator = results;
    })

  hops : Result (List Json) → Result Json
  hops (ok items) = ok (set empty "request_hops" (of_items items))
  hops (err (data_parse_error w)) = err (processing_error "debug entry is not valid JSON")
  hops (err e) = err e
  hops aborted = aborted

  ping_entries : List Json → Result Json
  unfolding hops
  ping_entries [] = err (processing_error "no debug entry")
  ping_entries (debug_entry ∷ rest) = hops (get_items debug_entry "hops")

  unfoldable pub ping : ActionRequest → Result Json
  unfolding ping_entries
  ping r = ping_entries r.parsed_chunks.debug

  unfoldable pub call_action : ActionRequest → Result ActionOutcome
  unfolding ping
  call_action r = do data_found ← ping r; ok (internal_outcome (pos 0) data_found)
