-- ===== src/Tests/Tasks.antt =====
-- Non-blocking tasks and their files, at concrete inputs.
use pxp_agent.Base.{◌≡◌, refl, some, pos, true}
use pxp_agent.Exception.{Result, ok}
use pxp_agent.ActionRequest.{ActionRequest, non_blocking}
use pxp_agent.Module.{execute_action}
use pxp_agent.ResultsMutex
use pxp_agent.ResultsMutex.{ResultsMutex}
use pxp_agent.RequestProcessor.Storage
use pxp_agent.RequestProcessor.Storage.{ResultsStorage, write_metadata, metadata_path}
use pxp_agent.RequestProcessor.Storage.RoundTrip.{read_metadata-write_metadata, Stored, new-Stored}
use pxp_agent.RequestProcessor.Task.{TaskWorld, finish_task}
use pxp_agent.RequestProcessor.Task.Order.{Finished}
use pxp_agent.RequestProcessor.Task.Returns.{finish_task-ends}
use pxp_agent.Modules.Status.{read_metadata}
use pxp_agent.Tests.Sample.{sample, Folder}
use pxp_agent.Tests.Inputs.{
  request, reverse, reversed, connected, connected_lem, folder, storage, world, one_mutex,
  no_mutexes,
}

abbrev reverse_request : ActionRequest
reverse_request = request non_blocking "reverse" "string"

world_mutex : ResultsMutex.get "42" one_mutex ≡ ok 0
unfolding ResultsMutex.get
world_mutex = refl

finish_task-ends_example :
    (w' : TaskWorld) × (finish_task connected reverse reverse_request storage "2 s"
        (ok reversed)
        folder
        world
      ≡ (ok tt, w'))
    × Finished storage "42" 0 (execute_action reverse.base reverse_request (ok reversed)) world w'
finish_task-ends_example =
    finish_task-ends connected reverse reverse_request storage "2 s" (ok reversed) folder world 0
      true world_mutex refl refl connected_lem (λ d t. (_, refl))

abbrev finished : Folder
unfolding write_metadata
finished = elim (write_metadata storage (pos 4) "" "2 s" folder) [ ok d ↦ d | _ ↦ folder ]

finished_lem : write_metadata storage (pos 4) "" "2 s" folder ≡ ok finished
unfolding write_metadata finished
finished_lem = refl

read_metadata-write_metadata_example :
    read_metadata finished "/spool/42/metadata"
    ≡ some (record { exitcode = pos 4; completed = true })
read_metadata-write_metadata_example =
    read_metadata-write_metadata storage (pos 4) "" "2 s" folder finished finished_lem

abbrev stored : Result ResultsStorage × Folder × ResultsMutex
unfolding Storage.new
stored = Storage.new reverse_request folder no_mutexes

abbrev new_storage : ResultsStorage
unfolding stored
new_storage = elim stored.0 [ ok s ↦ s | _ ↦ storage ]

stored_lem : Storage.new reverse_request folder no_mutexes ≡ (ok new_storage, stored.1, stored.2)
unfolding Storage.new stored new_storage
stored_lem = refl

new-Stored_example : Stored reverse_request no_mutexes stored.2 new_storage stored.1
new-Stored_example =
    new-Stored reverse_request folder stored.1 no_mutexes stored.2 new_storage stored_lem
