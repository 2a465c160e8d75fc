-- ===== src/Tests/Starting.antt =====
-- The start of a task and a blocking action, at concrete inputs.
use pxp_agent.Base.{◌≡◌, refl, true, false, [], ◌∷◌}
use pxp_agent.Exception.{Result, ok}
use pxp_agent.ActionRequest.{ActionRequest, non_blocking, set_results_dir}
use pxp_agent.Connector.{pxp_error_message, wrap_debug}
use pxp_agent.ThreadContainer
use pxp_agent.ThreadContainer.{ThreadContainer, started}
use pxp_agent.ResultsMutex.{ResultsMutex}
use pxp_agent.RequestProcessor.Storage
use pxp_agent.RequestProcessor.Storage.{ResultsStorage}
use pxp_agent.RequestProcessor.Content.{external_module}
use pxp_agent.RequestProcessor.Requests.{Processor, process_non_blocking_request}
use pxp_agent.RequestProcessor.Requests.Starting.{
  Began, placed, process_non_blocking_request-ongoing, process_non_blocking_request-Began,
}
use pxp_agent.Tests.Sample.{sample, Folder}
use pxp_agent.Tests.Inputs.{
  request, reverse, connected_lem, container, processor, environment, storage,
}

abbrev reverse_request : ActionRequest
reverse_request = request non_blocking "reverse" "string"

-- A container that has a thread for the transaction.
abbrev busy : Processor
busy = record processor {
  threads = record container { threads = ("42", started) ∷ []; num_added_threads = 1 };
}

found : ThreadContainer.find "42" busy.threads ≡ true
unfolding ThreadContainer.find
found = refl

process_non_blocking_request-ongoing_example :
    process_non_blocking_request environment (external_module reverse) reverse_request busy ≡ (
      ok tt,
      record busy {
        outbox =
            pxp_error_message reverse_request
              "already exists an ongoing task with transaction id 42"
            ∷ [];
      },
    )
process_non_blocking_request-ongoing_example =
    process_non_blocking_request-ongoing environment (external_module reverse) reverse_request busy
      connected_lem found

not_found : ThreadContainer.find "42" processor.threads ≡ false
unfolding ThreadContainer.find
not_found = refl

no_debug : wrap_debug reverse_request.parsed_chunks ≡ ok []
unfolding wrap_debug
no_debug = refl

abbrev storing : Result ResultsStorage × Folder × ResultsMutex
unfolding Storage.new set_results_dir
storing = Storage.new (placed processor reverse_request) processor.disk processor.mutexes

abbrev made : ResultsStorage
unfolding storing
made = elim storing.0 [ ok s ↦ s | _ ↦ storage ]

storing_lem :
    Storage.new (placed processor reverse_request) processor.disk processor.mutexes
    ≡ (ok made, storing.1, storing.2)
unfolding Storage.new storing made set_results_dir
storing_lem = refl

process_non_blocking_request-Began_example :
    (p' : Processor) × (process_non_blocking_request environment
        (external_module reverse)
        reverse_request
        processor
      ≡ (ok tt, p'))
    × Began environment (external_module reverse) reverse_request [] made processor p'
process_non_blocking_request-Began_example =
    process_non_blocking_request-Began environment (external_module reverse) reverse_request
      processor [] made storing.1 storing.2 connected_lem no_debug not_found storing_lem refl
