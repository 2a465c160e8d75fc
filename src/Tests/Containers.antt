-- ===== src/Tests/Containers.antt =====
-- The containers, the PID files and the messages, at concrete inputs.
use Prim.Native.String.{◌++◌}
use pxp_agent.Base.{
  ◌≡◌, ◌+◌, refl, true, false, List, [], ◌∷◌, arith, lookup, insert, Dict, ◌||◌, ◌==◌, String, pos,
  negsuc,
}
use pxp_agent.Exception.{ok}
use pxp_agent.ActionRequest.{blocking}
use pxp_agent.ResultsMutex
use pxp_agent.ResultsMutex.{ResultsMutex}
use pxp_agent.ResultsMutex.Laws.{add-remove}
use pxp_agent.ThreadContainer
use pxp_agent.ThreadContainer.{
  ThreadContainer, Event, added, completed, woken, started, ManagedThread, sweep, run, destroy,
  finished, u32,
}
use pxp_agent.ThreadContainer.Sweep.{Distinct, lookup-sweep, unless_done}
use pxp_agent.ThreadContainer.Lifecycle.{Inv, run-new-Inv, zero_threshold_stalls}
use pxp_agent.ThreadContainer.Destructor.{any_running, destroy-run}
use pxp_agent.ThreadContainer.Adding.{add-find}
use pxp_agent.Util.Stoi.{stoi, to_string}
use pxp_agent.Util.Stoi.RoundTrip.{stoi-to_string}
use pxp_agent.Util.Process.{delivered}
use pxp_agent.Util.PidFile.{PidFile, is_executing, write, read}
use pxp_agent.Util.PidFile.Reading.{read-write_pid, Answers, is_executing-Answers}
use pxp_agent.Connector.{
  pxp_error_message, provisional_response_message, blocking_response_message,
  non_blocking_response_message,
}
use pxp_agent.Connector.Conformance.{
  Conforms, pxp_error-Conforms, provisional_response-Conforms, response-Conforms,
}
use pxp_agent.Schemas.{pxp_error, provisional_response, blocking_response, non_blocking_response}
use pxp_agent.Tests.JsonValue.{no_members}
use pxp_agent.Tests.Sample.{sample, Folder}
use pxp_agent.Tests.Inputs.{request, container, folder, no_mutexes, one_mutex}

cached : ResultsMutex.add "42" no_mutexes ≡ ok one_mutex
unfolding ResultsMutex.add insert
cached = refl

add-remove_example :
    (ResultsMutex.exists "42" no_mutexes ≡ false)
    × ((m'' : ResultsMutex) × (ResultsMutex.remove "42" one_mutex ≡ ok m'')
        × ((q : String) → ResultsMutex.get q m'' ≡ ResultsMutex.get q no_mutexes))
add-remove_example = add-remove "42" no_mutexes one_mutex cached

abbrev events : List Event
events = added "42" ∷ added "43" ∷ completed "42" ∷ woken ∷ []

run-new-Inv_example : Inv (run events (ThreadContainer.new "tasks" 500 1))
run-new-Inv_example = run-new-Inv "tasks" 500 1 events (omega arith)

zero_threshold_stalls_example :
    let c = run events (
      run (added "41" ∷ completed "41" ∷ woken ∷ woken ∷ []) (ThreadContainer.new "tasks" 500 0)) in
    (c.is_monitoring ≡ true) × (c.monitoring_thread ≡ finished)
zero_threshold_stalls_example = zero_threshold_stalls "tasks" "41" 500 events

destroy-run_example :
    let c = run events (ThreadContainer.new "tasks" 500 1) in
    ((destroy c).terminated ≡ any_running c.threads) × ((destroy c).warned ≡ any_running c.threads)
destroy-run_example = destroy-run "tasks" 500 1 events

abbrev two_threads : Dict ManagedThread
two_threads = ("42", record { joinable = true; is_done = true }) ∷ ("43", started) ∷ []

two_threads-Distinct : Distinct two_threads
unfolding lookup
two_threads-Distinct = (refl, (refl, tt))

lookup-sweep_example : lookup "43" (sweep two_threads).0 ≡ unless_done (lookup "43" two_threads)
lookup-sweep_example = lookup-sweep "43" two_threads two_threads-Distinct

no_thread : ThreadContainer.find "42" container ≡ false
unfolding ThreadContainer.find
no_thread = refl

add-find_example :
    (c' : ThreadContainer) × (ThreadContainer.add "42" started container ≡ ok c')
    × ((q : String) → ThreadContainer.find q c' ≡ ("42" == q || ThreadContainer.find q container))
    × (c'.num_added_threads ≡ u32 (container.num_added_threads + 1))
add-find_example = add-find "42" started container no_thread

stoi-to_string_example : stoi (to_string (negsuc 2147483647) ++ "\n") ≡ ok (negsuc 2147483647)
stoi-to_string_example = stoi-to_string (negsuc 2147483647) (omega arith)

abbrev pid_file : PidFile
pid_file = record { file_path = "/run/pxp.pid"; pidfile_fd = 3; cleanup_when_done = false }

abbrev with_pid : Folder
with_pid = record { texts = ("/run/pxp.pid", "1234\n") ∷ []; directories = [] }

written : write (pos 1234) pid_file folder ≡ ok with_pid
unfolding write to_string insert
written = refl

is_regular : sample.is_regular_file with_pid "/run/pxp.pid" ≡ true
unfolding lookup
is_regular = refl

read-write_pid_example : read pid_file with_pid ≡ ok (pos 1234)
read-write_pid_example =
    read-write_pid pid_file folder with_pid (pos 1234) (omega arith) written refl is_regular
      is_regular

is_executing-Answers_example :
    Answers (λ pid. delivered) pid_file with_pid (is_executing (λ pid. delivered) pid_file with_pid)
is_executing-Answers_example = is_executing-Answers (λ pid. delivered) pid_file with_pid

pxp_error-Conforms_example :
    Conforms pxp_error (pxp_error_message (request blocking "echo" "echo") "unknown module").content
pxp_error-Conforms_example = pxp_error-Conforms (request blocking "echo" "echo") "unknown module"

provisional_response-Conforms_example :
    Conforms provisional_response
      (provisional_response_message (request blocking "echo" "echo") []).content
provisional_response-Conforms_example =
    provisional_response-Conforms (request blocking "echo" "echo") []

response-Conforms_example :
    Conforms blocking_response
      (blocking_response_message (request blocking "echo" "echo") no_members []).content
    × Conforms non_blocking_response
        (non_blocking_response_message (request blocking "echo" "echo") no_members "42").content
response-Conforms_example =
    response-Conforms (request blocking "echo" "echo") no_members [] "42" refl
