-- ===== src/Tests/Queries.antt =====
-- The echo and the status module, at concrete inputs.
use Prim.Native.String.{◌++◌}
use pxp_agent.Base.{◌≡◌, refl, some, none, true, false, [], ◌∷◌, ℤ, pos, lookup}
use pxp_agent.Exception.{ok}
use pxp_agent.Json.{get_text}
use pxp_agent.ActionRequest.{ActionRequest, blocking, params}
use pxp_agent.ExternalModule.{read_non_blocking_outcome}
use pxp_agent.Modules.Status
use pxp_agent.Modules.Status.{
  ActionMetadata, success, unknown, read_metadata, check_pid, no_pid, running_by_pid,
}
use pxp_agent.Modules.Status.Table.{Row, asserts, call_action-Row, call_action_no_results}
use pxp_agent.Util.Process.{Signalled, delivered}
use pxp_agent.Tests.JsonValue.{Value, member, text, flag, number, no_members, to_string, parse}
use pxp_agent.Tests.Sample.{sample, Folder}
use pxp_agent.Tests.Inputs.{request, folder}

abbrev query : ActionRequest
query = record (request blocking "status" "query") {
  params_cache = member "transaction_id" (text "42") no_members;
}

asked : get_text (params query).0 "transaction_id" ≡ ok "42"
unfolding params
asked = refl

abbrev completed : Value
completed = member "completed" (flag true) (member "exitcode" (number (pos 0)) no_members)

-- A results directory of a completed action, without and with a PID file.
abbrev results : Folder
unfolding to_string
results = record {
  texts = ("/spool/42/metadata", to_string completed ++ "\n") ∷ ("/spool/42/stdout", "{}") ∷ [];
  directories = "/spool/42" ∷ [];
}

abbrev with_pid : Folder
unfolding results
with_pid = record results { texts = ("/spool/42/pid", "1234\n") ∷ results.texts }

abbrev kill : ℤ → Signalled
kill pid = delivered

results_there : sample.exists results "/spool/42" ≡ true
unfolding results lookup
results_there = refl

without_pid : check_pid kill results "/spool/42/pid" ≡ ok no_pid
unfolding check_pid results lookup
without_pid = refl

not_asserting : asserts (read_metadata results "/spool/42/metadata") no_pid ≡ false
unfolding read_metadata results parse lookup
not_asserting = refl

call_action-Row_example :
    Row "42" success
      (some (record { out_txt = "{}"; err_txt = ""; read_result = ok tt }, pos 0))
      (Status.call_action "/spool" kill results results query)
unfolding read_metadata results parse lookup read_non_blocking_outcome
call_action-Row_example =
    call_action-Row "/spool" kill results results query "42" no_pid asked results_there without_pid
      not_asserting

nothing_there : sample.exists folder "/spool/42" ≡ false
unfolding lookup
nothing_there = refl

call_action_no_results_example :
    Row "42" unknown none (Status.call_action "/spool" kill folder folder query)
call_action_no_results_example =
    call_action_no_results "/spool" kill folder folder query "42" asked nothing_there
