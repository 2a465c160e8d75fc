-- ===== src/RequestProcessor/Requests.antt =====
-- processRequest, processBlockingRequest and processNonBlockingRequest.
pub mod Handling
pub mod Replies
pub mod Starting
use Prim.Native.String.{◌++◌}
use pxp_agent.Base.{
  String, true, false, List, [], ◌∷◌, Option, none, some, if◌then◌else◌, is_blank, ℤ, Dict, lookup,
}
use pxp_agent.Exception.{
  Exception, Result, ok, err, aborted, request_error, processor_error, storage_error, unknown, what,
}
use pxp_agent.Libraries.{Libraries}
use pxp_agent.Json.{get_text}
use pxp_agent.ActionRequest
use pxp_agent.ActionRequest.{
  ActionRequest, ParsedChunks, RequestType, blocking, non_blocking, set_results_dir,
}
use pxp_agent.Module.{ActionOutcome, execute_action}
use pxp_agent.Modules.Echo
use pxp_agent.Modules.Ping
use pxp_agent.Modules.Status
use pxp_agent.ExternalModule
use pxp_agent.ExternalModule.{ExternalModule, Executor}
use pxp_agent.ThreadContainer
use pxp_agent.ThreadContainer.{ThreadContainer, started}
use pxp_agent.ResultsMutex.{ResultsMutex}
use pxp_agent.Connector.{
  Connection, Message, Outbox, send_pcp_error, send_pxp_error, send_blocking_response,
  send_provisional_response,
}
use pxp_agent.Util.Process.{Signalled}
use pxp_agent.RequestProcessor.Storage
use pxp_agent.RequestProcessor.Storage.{ResultsStorage}
use pxp_agent.RequestProcessor.Content.{
  Loaded, echo, ping, status, external_module, base, validate_request_content,
}

-- The arguments of a thread that runs nonBlockingActionTask.
pub record Task ⦃L : Libraries⦄ : Type 0 where
  pub module_ptr : Loaded
  pub request : ActionRequest
  pub storage : ResultsStorage

-- What the request processor reads and changes; `tasks` are the threads that it has started, the
-- last one first.
pub record Processor ⦃L : Libraries⦄ : Type 0 where
  pub spool_dir : String
  pub modules : Dict Loaded
  pub threads : ThreadContainer
  pub mutexes : ResultsMutex
  pub disk : L.Disk
  pub outbox : List Message
  pub tasks : List Task

-- The world around it: the connection, the processes, std::thread's constructor for a task, and the
-- disk as other threads leave it while the status module waits.
pub record Environment ⦃L : Libraries⦄ : Type 0 where
  pub connection : Connection
  pub executor : Executor
  pub kill : ℤ → Signalled
  pub spawn : Task → Result (Unit {0})
  pub meanwhile : L.Disk → L.Disk

module _ ⦃L : Libraries⦄ where
  open L use {Disk, slash}

  -- The virtual method `callAction`, with the disk as it leaves it.
  unfoldable pub call_action :
      Environment → String → Loaded → ActionRequest → Disk → Result ActionOutcome × Disk
  unfolding Echo.call_action Ping.call_action Status.call_action ExternalModule.call_action
  call_action x spool_dir (echo m) r d = (Echo.call_action r, d)
  call_action x spool_dir (ping m) r d = (Ping.call_action r, d)
  call_action x spool_dir (status m) r d =
      let d' = x.meanwhile d in (Status.call_action spool_dir x.kill d d' r, d')
  call_action x spool_dir (external_module m) r d = ExternalModule.call_action x.executor m r d

  -- The result of a send, with the outbox after it.
  abbrev sent : Processor → Result (Unit {0}) × Outbox → Result (Unit {0}) × Processor
  sent p (x, out) = (x, record p { outbox = out })

  respond_blocking :
      Connection → ActionRequest → Result ActionOutcome → Processor → Result (Unit {0}) × Processor
  respond_blocking k r (ok outcome) p = sent p (send_blocking_response k r outcome.results p.outbox)
  respond_blocking k r (err e) p = (err e, p)
  respond_blocking k r aborted p = (aborted, p)

  unfoldable pub process_blocking_request :
      Environment → Loaded → ActionRequest → Processor → Result (Unit {0}) × Processor
  unfolding call_action execute_action respond_blocking
  process_blocking_request x m r p =
      let (called, d) = call_action x p.spool_dir m r p.disk in
      respond_blocking x.connection r (execute_action (base m) r called) (record p { disk = d })

  -- The catch clauses, which give the text of the error; std::exception is the base of every
  -- exception but `unknown`.
  start_failure : Exception → Result String
  start_failure (storage_error w) = ok ("failed to initialize result files: " ++ w)
  start_failure unknown = err unknown
  start_failure e = ok ("failed to start action task: " ++ what e)

  -- The thread has been made. If `add` threw, its argument would die joinable.
  added :
      Loaded
      → ActionRequest
      → ResultsStorage
      → Processor
      → Result ThreadContainer
      → Result String × Processor
  added m r s p (ok c) = (
    ok "",
    record p { threads = c; tasks = record { module_ptr = m; request = r; storage = s } ∷ p.tasks },
  )
  added m r s p _ = (aborted, p)

  spawned :
      Loaded
      → ActionRequest
      → ResultsStorage
      → Processor
      → Result (Unit {0})
      → Result String × Processor
  unfolding added start_failure ThreadContainer.add
  spawned m r s p (ok u) = added m r s p (ThreadContainer.add r.transaction_id started p.threads)
  spawned m r s p (err e) = (start_failure e, p)
  spawned m r s p aborted = (aborted, p)

  stored :
      Environment
      → Loaded
      → ActionRequest
      → Processor
      → Result ResultsStorage × Disk × ResultsMutex
      → Result String × Processor
  unfolding spawned start_failure
  stored x m r p (ok s, d, mutexes) =
      spawned m r s (record p { disk = d; mutexes = mutexes })
        (x.spawn (record { module_ptr = m; request = r; storage = s }))
  stored x m r p (err e, d, mutexes) = (start_failure e, record p { disk = d; mutexes = mutexes })
  stored x m r p (aborted, d, mutexes) = (aborted, record p { disk = d; mutexes = mutexes })

  -- The try block and its catch clauses: `err_msg`, blank where the task has been started.
  unfoldable pub start_task :
      Environment → Loaded → ActionRequest → Processor → Result String × Processor
  unfolding ThreadContainer.find Storage.new stored
  start_task x m r p =
      if ThreadContainer.find r.transaction_id p.threads
      then (ok ("already exists an ongoing task with transaction id " ++ r.transaction_id), p)
      else stored x m r p (Storage.new r p.disk p.mutexes)

  respond_non_blocking :
      Connection → ActionRequest → Result String × Processor → Result (Unit {0}) × Processor
  respond_non_blocking k r (ok err_msg, p) =
      if is_blank err_msg
      then sent p (send_provisional_response k r p.outbox)
      else sent p (send_pxp_error k r err_msg p.outbox)
  respond_non_blocking k r (err e, p) = (err e, p)
  respond_non_blocking k r (aborted, p) = (aborted, p)

  unfoldable pub process_non_blocking_request :
      Environment → Loaded → ActionRequest → Processor → Result (Unit {0}) × Processor
  unfolding set_results_dir start_task respond_non_blocking
  process_non_blocking_request x m r p =
      let r' = set_results_dir (slash p.spool_dir r.transaction_id) r in
      respond_non_blocking x.connection r' (start_task x m r' p)

  -- The second inner try block's catch clause, for std::exception.
  pub catch_failure :
      Connection → ActionRequest → Result (Unit {0}) × Processor → Result (Unit {0}) × Processor
  catch_failure k r (err unknown, p) = (err unknown, p)
  catch_failure k r (err e, p) = sent p (send_pxp_error k r (what e) p.outbox)
  catch_failure k r (x, p) = (x, p)

  pub execute :
      Environment → ActionRequest → Processor → Option Loaded → Result (Unit {0}) × Processor
  unfolding process_blocking_request process_non_blocking_request
  execute x r p none = (aborted, p)
  execute x r p (some m) = elim r.request_type [
    | blocking ↦ process_blocking_request x m r p
    | non_blocking ↦ process_non_blocking_request x m r p
  ]

  -- The request after its validation, and the first inner try block's catch clause.
  validated :
      Environment → ActionRequest → Processor → Result (Unit {0}) → Result (Unit {0}) × Processor
  unfolding catch_failure execute lookup
  validated x r p (ok u) =
      catch_failure x.connection r (execute x r p (lookup r.module_name p.modules))
  validated x r p (err (processor_error w)) = sent p (send_pxp_error x.connection r w p.outbox)
  validated x r p (err e) = (err e, p)
  validated x r p aborted = (aborted, p)

  requested : Environment → Processor → Result ActionRequest → Result (Unit {0}) × Processor
  unfolding validated validate_request_content
  requested x p (ok r) = validated x r p (validate_request_content p.modules r)
  requested x p (err e) = (err e, p)
  requested x p aborted = (aborted, p)

  -- The outer catch clause, for ActionRequest::Error.
  catch_bad_message :
      Connection → ParsedChunks → Result (Unit {0}) × Processor → Result (Unit {0}) × Processor
  catch_bad_message k c (err (request_error w), p) = elim (get_text c.envelope "id") [
    | ok id ↦ elim (get_text c.envelope "sender") [
      | ok sender ↦ sent p (send_pcp_error k id w (sender ∷ []) p.outbox)
      | err e ↦ (err e, p)
      | aborted ↦ (aborted, p)
    ]
    | err e ↦ (err e, p)
    | aborted ↦ (aborted, p)
  ]
  catch_bad_message k c (x, p) = (x, p)

  unfoldable pub process_request :
      Environment → RequestType → ParsedChunks → Processor → Result (Unit {0}) × Processor
  unfolding ActionRequest.new requested catch_bad_message
  process_request x t c p = catch_bad_message x.connection c (requested x p (ActionRequest.new t c))
