-- ===== src/RequestProcessor/Task.antt =====
-- nonBlockingActionTask. The task runs in a thread of its own; what it shares with other threads is
-- its world, and the order of its accesses is kept in `events`, the last one first. An exception
-- that leaves the function ends the program: `aborted`.
pub mod Order
pub mod Returns
use Prim.Native.String.{◌++◌}
use pxp_agent.Base.{
  ℕ, String, Bool, true, false, List, [], ◌∷◌, Option, none, some, if◌then◌else◌, ℤ, pos,
}
use pxp_agent.Exception.{
  Exception, Result, ok, err, aborted, processing_error, connection_error, connection_config_error,
  connection_fatal_error, storage_error,
}
use pxp_agent.Libraries.{Libraries}
use pxp_agent.Json.{get_flag}
use pxp_agent.ActionRequest.{ActionRequest}
use pxp_agent.Module.{ModuleType, internal, external, ActionOutcome, execute_action}
use pxp_agent.ExternalModule.{ExternalModule, Executor, call_action}
use pxp_agent.ResultsMutex
use pxp_agent.ResultsMutex.{ResultsMutex}
use pxp_agent.Connector.{Connection, Message, Outbox, send_pxp_error, send_non_blocking_response}
use pxp_agent.RequestProcessor.Storage.{ResultsStorage, write_metadata}

pub data TaskEvent : Type 0 where
  locked unlocked : ℕ → TaskEvent
  metadata_written mutex_removed done : TaskEvent

pub record TaskWorld ⦃L : Libraries⦄ : Type 0 where
  pub disk : L.Disk
  pub mutexes : ResultsMutex
  pub outbox : List Message
  pub events : List TaskEvent

-- The variables `completed`, `exit_code` and `exec_error` of the function.
pub record Progress : Type 0 where
  pub completed : Bool
  pub exit_code : ℤ
  pub exec_error : String

abbrev exit_failure : ℤ
exit_failure = pos 1

-- Nothing has completed yet.
abbrev pub not_completed : Progress
not_completed = record { completed = false; exit_code = exit_failure; exec_error = "" }

module _ ⦃L : Libraries⦄ where
  open L use {Disk}

  abbrev log : TaskEvent → TaskWorld → TaskWorld
  log e w = record w { events = e ∷ w.events }

  -- `lck_ptr`: the transaction's mutex, null where the cache does not have it.
  unfoldable pub task_mutex : String → ResultsMutex → Option ℕ
  unfolding ResultsMutex.get
  task_mutex t_id m = elim (ResultsMutex.get t_id m) [
    | ok p ↦ some p
    | err e ↦ none
    | aborted ↦ none
  ]

  lock_mutex : Option ℕ → TaskWorld → TaskWorld
  lock_mutex none w = w
  lock_mutex (some p) w = log (locked p) w

  -- The result of a send, and the world with the outbox after it.
  with_outbox : Result (Unit {0}) × Outbox → TaskWorld → Result (Unit {0}) × TaskWorld
  with_outbox (r, out) w = (r, record w { outbox = out })

  -- What follows a call, after a normal return and after an exception.
  abbrev on_result :
      {A : Type 0}
      → Result (Unit {0}) × TaskWorld
      → (TaskWorld → Result A × TaskWorld)
      → (Exception → TaskWorld → Result A × TaskWorld)
      → Result A × TaskWorld
  on_result (ok u, w) returned thrown = returned w
  on_result (err e, w) returned thrown = thrown e w
  on_result (aborted, w) returned thrown = (aborted, w)

  -- The two catch clauses.
  catch_failure :
      Connection → ActionRequest → Exception → Progress → TaskWorld → Result Progress × TaskWorld
  unfolding with_outbox
  catch_failure k r (processing_error what) p w =
      on_result (with_outbox (send_pxp_error k r what w.outbox) w)
        (λ w'. (ok (record p { exec_error = what ++ "\n" }), w')) (λ e w'. (aborted, w'))
  catch_failure k r (connection_error what) p w =
      (ok (record p { exec_error = "Failed to send non blocking response: " ++ what ++ "\n" }), w)
  catch_failure k r (connection_config_error what) p w =
      (ok (record p { exec_error = "Failed to send non blocking response: " ++ what ++ "\n" }), w)
  catch_failure k r (connection_fatal_error what) p w =
      (ok (record p { exec_error = "Failed to send non blocking response: " ++ what ++ "\n" }), w)
  catch_failure k r _ p w = (aborted, w)

  notify_if :
      Connection
      → ActionRequest
      → ActionOutcome
      → Progress
      → TaskWorld
      → Result Bool
      → Result Progress × TaskWorld
  unfolding with_outbox catch_failure
  notify_if k r outcome p w (ok true) =
      on_result
        (with_outbox (send_non_blocking_response k r outcome.results r.transaction_id w.outbox) w)
        (λ w'. (ok p, w')) (λ e w'. catch_failure k r e p w')
  notify_if k r outcome p w (ok false) = (ok p, w)
  notify_if k r outcome p w (err e) = catch_failure k r e p w
  notify_if k r outcome p w aborted = (aborted, w)

  -- The response, if the request asks for it.
  notify :
      Connection
      → ActionRequest
      → ActionOutcome
      → Progress
      → TaskWorld
      → Result Progress × TaskWorld
  unfolding notify_if
  notify k r outcome p w =
      notify_if k r outcome p w (get_flag r.parsed_chunks.data_chunk "notify_outcome")

  -- The try block after executeAction: the lock, the assert on the type of the outcome, the response.
  after_action :
      Connection
      → ActionRequest
      → Option ℕ
      → Result ActionOutcome
      → TaskWorld
      → Result Progress × TaskWorld
  unfolding lock_mutex catch_failure notify
  after_action k r mtx (ok outcome) w =
      let w' = lock_mutex mtx w in
      elim outcome.outcome_type [
        | internal ↦ (aborted, w')
        | external ↦
            notify k r outcome
              (record { completed = true; exit_code = outcome.exitcode; exec_error = "" }) w'
      ]
  after_action k r mtx (err e) w = catch_failure k r e not_completed w
  after_action k r mtx aborted w = (aborted, w)

  stored : TaskWorld → Result Disk → Result (Unit {0}) × TaskWorld
  stored w (ok d) = (ok tt, log metadata_written (record w { disk = d }))
  stored w (err (storage_error e)) = (ok tt, w)
  stored w (err _) = (aborted, w)
  stored w aborted = (aborted, w)

  -- "Store metadata on disk"; only a ResultsStorage::Error is caught.
  store_metadata : ResultsStorage → Progress → String → TaskWorld → Result (Unit {0}) × TaskWorld
  unfolding write_metadata stored
  store_metadata s p duration w =
      stored w (write_metadata s p.exit_code p.exec_error duration w.disk)

  removed : String → TaskWorld → TaskWorld
  unfolding ResultsMutex.remove
  removed t_id w = elim (ResultsMutex.remove t_id w.mutexes) [
    | ok m ↦ log mutex_removed (record w { mutexes = m })
    | err e ↦ w
    | aborted ↦ w
  ]

  -- The scope_exit object.
  task_cleaner : String → Option ℕ → Bool → TaskWorld → TaskWorld
  unfolding removed
  task_cleaner t_id none completed w = log done w
  task_cleaner t_id (some p) completed w =
      let w' = if completed then w else log (locked p) w in
      log done (log (unlocked p) (removed t_id w'))

  end_task :
      ActionRequest
      → ResultsStorage
      → String
      → Option ℕ
      → Result Progress × TaskWorld
      → Result (Unit {0}) × TaskWorld
  unfolding store_metadata task_cleaner
  end_task r s duration mtx (ok p, w) =
      on_result (store_metadata s p duration w)
        (λ w'. (ok tt, task_cleaner r.transaction_id mtx p.completed w')) (λ e w'. (aborted, w'))
  end_task r s duration mtx (err e, w) = (aborted, w)
  end_task r s duration mtx (aborted, w) = (aborted, w)

  -- The task, for the outcome `called` of the action and the disk `d` that the action leaves.
  unfoldable pub finish_task :
      Connection
      → ExternalModule
      → ActionRequest
      → ResultsStorage
      → String
      → Result ActionOutcome
      → Disk
      → TaskWorld
      → Result (Unit {0}) × TaskWorld
  unfolding task_mutex execute_action after_action end_task
  finish_task k m r s duration called d w =
      let mtx = task_mutex r.transaction_id w.mutexes in
      end_task r s duration mtx
        (after_action k r mtx (execute_action m.base r called) (record w { disk = d }))

  unfoldable pub non_blocking_action_task :
      Connection
      → Executor
      → ExternalModule
      → ActionRequest
      → ResultsStorage
      → String
      → TaskWorld
      → Result (Unit {0}) × TaskWorld
  unfolding call_action finish_task
  non_blocking_action_task k x m r s duration w =
      let (called, d) = call_action x m r w.disk in finish_task k m r s duration called d w
