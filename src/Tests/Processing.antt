-- ===== src/Tests/Processing.antt =====
-- The handling of requests, at concrete inputs.
use pxp_agent.Base.{◌≡◌, refl, false, [], ◌∷◌, String, is_blank, lookup}
use pxp_agent.Exception.{ok}
use pxp_agent.ActionRequest
use pxp_agent.ActionRequest.{
  ActionRequest, blocking, non_blocking, params, params_txt, pretty_label,
}
use pxp_agent.ActionRequest.Caching.{with_chunks, accessors-stable}
use pxp_agent.Module.{execute_action, has_action}
use pxp_agent.Module.Execution.{Executed, execute_action-Executed}
use pxp_agent.Connector.{pcp_error_message, pxp_error_message}
use pxp_agent.RequestProcessor.Content.{
  accepted, Validation, validate_request_content, validate_request_content-Validation,
}
use pxp_agent.RequestProcessor.Requests.{process_request}
use pxp_agent.RequestProcessor.Requests.Handling.{Answered}
use pxp_agent.RequestProcessor.Requests.Replies.{
  process_request-malformed, process_request-refused, process_request-Answered,
}
use pxp_agent.Tests.JsonValue.{parse, to_string}
use pxp_agent.Tests.Sample.{sample}
use pxp_agent.Tests.Inputs.{
  chunks, binary_chunks, content, request, reverse, connected, connected_lem, processor,
  environment, reversed,
}

abbrev echo_request : ActionRequest
echo_request = request blocking "echo" "echo"

some_params : sample.is_empty (params echo_request).0 ≡ false
unfolding params
some_params = refl

some_text : is_blank (params_txt echo_request).0 ≡ false
unfolding params params_txt to_string
some_text = refl

some_label : is_blank (pretty_label echo_request).0 ≡ false
unfolding pretty_label
some_label = refl

accessors-stable_example :
    ((params (with_chunks binary_chunks (params echo_request).1)).0 ≡ (params echo_request).0)
    × ((params_txt (with_chunks binary_chunks (params_txt echo_request).1)).0
        ≡ (params_txt echo_request).0)
    × ((pretty_label
          (record (pretty_label echo_request).1 { transaction_id = "43"; action = "shout" })).0
        ≡ (pretty_label echo_request).0)
accessors-stable_example =
    accessors-stable echo_request binary_chunks "43" "shout" some_params some_text some_label

execute_action-Executed_example :
    Executed reverse.base
      (request blocking "reverse" "string")
      (ok reversed)
      (execute_action reverse.base (request blocking "reverse" "string") (ok reversed))
execute_action-Executed_example =
    execute_action-Executed reverse.base (request blocking "reverse" "string") (ok reversed)

process_request-malformed_example : process_request environment blocking binary_chunks processor ≡ (
  ok tt,
  record processor {
    outbox =
        pcp_error_message connected "7" "data is not in JSON format" ("pcp://host/controller" ∷ [])
        ∷ [];
  },
)
process_request-malformed_example =
    process_request-malformed environment blocking binary_chunks processor "7"
      "pcp://host/controller" "data is not in JSON format" connected_lem refl refl refl

validate_request_content-Validation_example :
    Validation
      (accepted (lookup "echo" processor.modules) (request blocking "echo" "reverse"))
      (validate_request_content processor.modules (request blocking "echo" "reverse"))
validate_request_content-Validation_example =
    validate_request_content-Validation processor.modules (request blocking "echo" "reverse")

-- An internal module refuses a non-blocking request.
parsed :
    ActionRequest.new non_blocking (chunks (content "echo" "echo"))
    ≡ ok (request non_blocking "echo" "echo")
unfolding ActionRequest.new parse
parsed = refl

refused : accepted (lookup "echo" processor.modules) (request non_blocking "echo" "echo") ≡ false
unfolding lookup has_action
refused = refl

process_request-refused_example :
    (w : String) × (process_request environment non_blocking
        (chunks (content "echo" "echo"))
        processor
      ≡ (
        ok tt,
        record processor { outbox = pxp_error_message (request non_blocking "echo" "echo") w ∷ [] },
      ))
process_request-refused_example =
    process_request-refused environment non_blocking (chunks (content "echo" "echo"))
      (request non_blocking "echo" "echo") processor connected_lem parsed refused

process_request-Answered_example :
    Answered []
      (process_request environment non_blocking (chunks (content "echo" "echo")) processor)
process_request-Answered_example =
    process_request-Answered environment non_blocking (chunks (content "echo" "echo"))
      (request non_blocking "echo" "echo") processor connected_lem parsed
