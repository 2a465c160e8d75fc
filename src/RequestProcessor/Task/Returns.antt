-- ===== src/RequestProcessor/Task/Returns.antt =====
-- A task comes to its end.
use Prim.Native.String.{◌++◌}
use pxp_agent.Base.{String, Bool, true, false, ◌≡◌, refl, Option, sym, subst, ℕ}
use pxp_agent.Exception.{Result, ok, err, aborted, processing_error}
use pxp_agent.Libraries.{Libraries}
use pxp_agent.Json.{get_flag}
use pxp_agent.ActionRequest.{ActionRequest}
use pxp_agent.Module.{ModuleType, internal, external, ActionOutcome, execute_action}
use pxp_agent.Module.Execution.{Executed, execute_action-Executed}
use pxp_agent.ExternalModule.{ExternalModule}
use pxp_agent.ResultsMutex
use pxp_agent.Connector.{Connection}
use pxp_agent.Connector.Sending.{Open, send_pxp_error-Open, send_non_blocking_response-Open}
use pxp_agent.RequestProcessor.Storage.{ResultsStorage, write_metadata}
use pxp_agent.RequestProcessor.Task.{
  TaskWorld, Progress, not_completed, finish_task, with_outbox, catch_failure, notify_if, notify,
  after_action, lock_mutex, stored, store_metadata, end_task, on_result, task_mutex, task_cleaner,
}
use pxp_agent.RequestProcessor.Task.Order.{Finished, finish_task-Finished}

module _ ⦃L : Libraries⦄ where
  open L use {Disk, atomic_write_to_file}

  abbrev Returned {ℓ} : {A : Type ℓ} → Result A × TaskWorld → Type 0
  Returned (ok a, w) = Unit {0}
  Returned (err e, w) = ⊥
  Returned (aborted, w) = ⊥

  -- What an external module gives: the outcome of a process, or an exception.
  abbrev pub Ran : Result ActionOutcome → Type 0
  Ran (ok outcome) = outcome.outcome_type ≡ external
  Ran (err e) = Unit {0}
  Ran aborted = ⊥

  -- A file that can be written, whatever the disk and the text.
  abbrev pub Writable : String → Type 0
  Writable file = (d : Disk) (t : String) → (e : Disk) × (atomic_write_to_file d t file ≡ ok e)

  error_sent-Returned :
      (k : Connection) (r : ActionRequest) (what : String) (p : Progress) (w : TaskWorld)
      → Open k
      → Returned (catch_failure k r (processing_error what) p w)
  unfolding catch_failure with_outbox
  error_sent-Returned k r what p w o =
      subst
        (λ y. Returned (
          on_result (with_outbox y w) (λ w'. (ok (record p { exec_error = what ++ "\n" }), w'))
            (λ e w'. (aborted, w'))))
        (sym (send_pxp_error-Open k r what w.outbox o)) tt

  notified-Returned :
      (k : Connection) (r : ActionRequest) (o : ActionOutcome) (p : Progress) (w : TaskWorld)
      (b : Bool)
      → Open k
      → Returned (notify_if k r o p w (ok b))
  unfolding notify_if with_outbox
  notified-Returned k r outcome p w true o =
      subst
        (λ y.
          Returned
            (on_result (with_outbox y w) (λ w'. (ok p, w')) (λ e w'. catch_failure k r e p w')))
        (sym (send_non_blocking_response-Open k r outcome.results r.transaction_id w.outbox o)) tt
  notified-Returned k r outcome p w false o = tt

  external-Returned :
      (t : ModuleType) (w : TaskWorld) (y : Result Progress × TaskWorld)
      → t ≡ external
      → Returned y
      → Returned {A = Progress} (elim t [ internal ↦ (aborted, w) | external ↦ y ])
  external-Returned internal w y h i = cc
  external-Returned external w y h i = i

  after_action-Returned :
      (k : Connection) (m : ExternalModule) (r : ActionRequest) (mtx : Option ℕ)
      (called x : Result ActionOutcome) (w : TaskWorld) (b : Bool)
      → Open k
      → get_flag r.parsed_chunks.data_chunk "notify_outcome" ≡ ok b
      → Ran called
      → Executed m.base r called x
      → Returned (after_action k r mtx x w)
  unfolding after_action notify
  after_action-Returned k m r mtx called (ok outcome) w b o n c (e, v) =
      let p : Progress = record {
        completed = true;
        exit_code = outcome.exitcode;
        exec_error = "";
      } in
      external-Returned outcome.outcome_type _ _ (subst Ran e c) (
        subst (λ i. Returned (notify_if k r outcome p (lock_mutex mtx w) i)) (sym n)
          (notified-Returned k r outcome p (lock_mutex mtx w) b o))
  after_action-Returned k m r mtx called (err (processing_error what)) w b o n c e =
      error_sent-Returned k r what not_completed w o
  after_action-Returned k m r mtx called (err _) w b o n c e = absurd e
  after_action-Returned k m r mtx called aborted w b o n c e = absurd (subst Ran e c)

  end_task-Returned :
      (r : ActionRequest) (s : ResultsStorage) (duration : String) (mtx : Option ℕ)
      (y : Result Progress × TaskWorld)
      → Writable s.metadata_file
      → Returned y
      → Returned (end_task r s duration mtx y)
  unfolding end_task store_metadata write_metadata stored
  end_task-Returned r s duration mtx (ok p, w) f h =
      let (e, i) = f w.disk _ in
      subst
        (λ y. Returned {A = Unit {0}} (
          on_result (stored w y) (λ w'. (ok tt, task_cleaner r.transaction_id mtx p.completed w'))
            (λ e w'. (aborted, w'))))
        (sym i) tt
  end_task-Returned r s duration mtx (err e, w) f h = absurd h
  end_task-Returned r s duration mtx (aborted, w) f h = absurd h

  returned : (y : Result (Unit {0}) × TaskWorld) → Returned y → (w : TaskWorld) × (y ≡ (ok tt, w))
  returned (ok u, w) h = (w, refl)
  returned (err e, w) h = absurd h
  returned (aborted, w) h = absurd h

  -- A task of an external module comes to its end if the transaction has the mutex q, the module
  -- gave an outcome or threw an exception, the request says whether it wants a response, the
  -- connection takes every message, and the metadata file can be written. The metadata on disk
  -- then say that the action is completed, with its exit code, or EXIT_FAILURE if it failed, and
  -- the mutex has left the cache. If the action succeeded the metadata are written under the
  -- mutex; if it failed they are written before the mutex is locked. The mutex is removed from the
  -- cache before it is unlocked, and the thread is marked as completed last.
  pub finish_task-ends :
      (k : Connection) (m : ExternalModule) (r : ActionRequest) (s : ResultsStorage)
      (duration : String) (called : Result ActionOutcome) (d : Disk) (w : TaskWorld) (q : ℕ)
      (b : Bool)
      → ResultsMutex.get r.transaction_id w.mutexes ≡ ok q
      → Ran called
      → get_flag r.parsed_chunks.data_chunk "notify_outcome" ≡ ok b
      → Open k
      → Writable s.metadata_file
      → (w' : TaskWorld) × (finish_task k m r s duration called d w ≡ (ok tt, w'))
        × Finished s r.transaction_id q (execute_action m.base r called) w w'
  unfolding finish_task
  finish_task-ends k m r s duration called d w q b c a n o f =
      let x = execute_action m.base r called in
      let mtx = task_mutex r.transaction_id w.mutexes in
      let v = record w { disk = d } in
      let z =
        after_action-Returned k m r mtx called x v b o n a
          (execute_action-Executed m.base r called) in
      let (w', e) =
        returned _ (end_task-Returned r s duration mtx (after_action k r mtx x v) f z) in
      (w', e, finish_task-Finished k m r s duration called d w w' q c e)
