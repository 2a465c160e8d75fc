-- ===== src/Tests/Lifecycle.antt =====
-- A task that has ended, and the status query that follows it, at concrete inputs.
use pxp_agent.Base.{◌≡◌, refl, true, [], ◌∷◌, lookup}
use pxp_agent.Exception.{ok}
use pxp_agent.Json.{get_text}
use pxp_agent.ActionRequest.{ActionRequest, blocking, non_blocking, params}
use pxp_agent.Module.{execute_action}
use pxp_agent.ResultsMutex
use pxp_agent.Util.Process.{delivered}
use pxp_agent.Modules.Status.{check_pid, no_pid, call_action}
use pxp_agent.RequestProcessor.Task.{TaskWorld, finish_task}
use pxp_agent.RequestProcessor.Task.Order.{recorded_exit_code}
use pxp_agent.RequestProcessor.Lifecycle.{Reported, finish_task-Reported}
use pxp_agent.Tests.JsonValue.{member, text, no_members}
use pxp_agent.Tests.Sample.{sample, Folder}
use pxp_agent.Tests.Inputs.{
  request, reverse, reversed, connected, connected_lem, storage, world, one_mutex,
}

abbrev task : ActionRequest
task = request non_blocking "reverse" "string"

abbrev query : ActionRequest
query = record (request blocking "status" "query") {
  params_cache = member "transaction_id" (text "42") no_members;
}

abbrev spool : Folder
spool = record { texts = []; directories = "/spool/42" ∷ [] }

mutex_there : ResultsMutex.get "42" one_mutex ≡ ok 0
unfolding ResultsMutex.get
mutex_there = refl

asked : get_text (params query).0 "transaction_id" ≡ ok "42"
unfolding params
asked = refl

directory_there : sample.exists spool "/spool/42" ≡ true
unfolding lookup
directory_there = refl

no_pid_file : check_pid (λ pid. delivered) spool "/spool/42/pid" ≡ ok no_pid
unfolding check_pid lookup
no_pid_file = refl

finish_task-Reported_example :
    (w' : TaskWorld) × (finish_task connected reverse task storage "2 s" (ok reversed) spool world
      ≡ (ok tt, w'))
    × Reported "/spool" "42"
        (recorded_exit_code (execute_action reverse.base task (ok reversed)))
        w'.disk
        (call_action "/spool" (λ pid. delivered) spool w'.disk query)
finish_task-Reported_example =
    finish_task-Reported connected reverse task storage "2 s" (ok reversed) spool spool world 0 true
      "/spool" (λ pid. delivered) query no_pid mutex_there refl refl connected_lem
      (λ d t. (_, refl)) refl asked directory_there no_pid_file refl
