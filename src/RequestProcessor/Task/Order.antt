-- ===== src/RequestProcessor/Task/Order.antt =====
-- The order in which a task locks the transaction's mutex, writes the metadata and lets go, and what
-- it leaves behind.
use pxp_agent.Base.{
  ℕ, String, Bool, true, false, ◌∷◌, some, Option, ◌≡◌, ◌≢◌, ap, refl, sym, subst, arith, ℤ, pos,
  ◌∙◌, if◌then◌else◌,
}
use pxp_agent.Exception.{
  storage_error, Exception, Result, ok, err, aborted, processing_error, connection_error,
  connection_config_error, connection_fatal_error,
}
use pxp_agent.Libraries.{Libraries}
use pxp_agent.ActionRequest.{ActionRequest}
use pxp_agent.Module.{ModuleType, ActionOutcome, internal, external, execute_action}
use pxp_agent.ExternalModule.{ExternalModule}
use pxp_agent.ResultsMutex
use pxp_agent.ResultsMutex.{ResultsMutex}
use pxp_agent.Connector.{Connection, Outbox, send_pxp_error}
use pxp_agent.RequestProcessor.Storage.{ResultsStorage, write_metadata}
use pxp_agent.Modules.Status.{read_metadata}
use pxp_agent.RequestProcessor.Storage.RoundTrip.{read_metadata-write_metadata}
use pxp_agent.RequestProcessor.Task.{
  locked, unlocked, metadata_written, mutex_removed, done, TaskWorld, Progress, finish_task,
  not_completed, task_mutex, with_outbox, on_result, catch_failure, notify, after_action,
  lock_mutex, store_metadata, stored, removed, notify_if, task_cleaner, end_task,
}
use pxp_agent.ResultsMutex.Laws.{get-remove}

module _ ⦃L : Libraries⦄ where
  open L use {Disk, atomic_write_to_file, write-not_storage_error}

  -- The exit code that is recorded: that of the action, or EXIT_FAILURE.
  abbrev pub recorded_exit_code : Result ActionOutcome → ℤ
  recorded_exit_code (ok outcome) = outcome.exitcode
  recorded_exit_code _ = pos 1

  abbrev pub succeeded : Result ActionOutcome → Bool
  succeeded (ok outcome) = true
  succeeded _ = false

  -- The function goes on, with the progress `p` but for its message and the world `w` but for its
  -- outbox, or the program aborts.
  abbrev pub Kept : Progress → TaskWorld → Result Progress × TaskWorld → Type 0
  Kept p w (ok p', w') =
      (p'.completed ≡ p.completed)
      × (p'.exit_code ≡ p.exit_code)
      × (w'.disk ≡ w.disk)
      × (w'.mutexes ≡ w.mutexes)
      × (w'.events ≡ w.events)
  Kept p w (err e, w') = ⊥
  Kept p w (aborted, w') = Unit {0}

  error_sent-Kept :
      (p : Progress) (what : String) (w : TaskWorld) (x : Result (Unit {0}) × Outbox)
      → Kept p w (
          on_result
            (with_outbox x w)
            (λ w'. (ok (record p { exec_error = what }), w'))
            (λ e w'. (aborted, w')))
  unfolding with_outbox
  error_sent-Kept p what w (ok u, out) = (refl, refl, refl, refl, refl)
  error_sent-Kept p what w (err e, out) = tt
  error_sent-Kept p what w (aborted, out) = tt

  catch_failure-Kept :
      (k : Connection) (r : ActionRequest) (e : Exception) (p : Progress) (w : TaskWorld)
      → Kept p w (catch_failure k r e p w)
  unfolding catch_failure
  catch_failure-Kept k r (processing_error what) p w =
      error_sent-Kept p _ w (send_pxp_error k r what w.outbox)
  catch_failure-Kept k r (connection_error what) p w = (refl, refl, refl, refl, refl)
  catch_failure-Kept k r (connection_config_error what) p w = (refl, refl, refl, refl, refl)
  catch_failure-Kept k r (connection_fatal_error what) p w = (refl, refl, refl, refl, refl)
  catch_failure-Kept k r _ p w = tt

  response_sent-Kept :
      (k : Connection) (r : ActionRequest) (p : Progress) (w : TaskWorld)
      (x : Result (Unit {0}) × Outbox)
      → Kept p w (on_result (with_outbox x w) (λ w'. (ok p, w')) (λ e w'. catch_failure k r e p w'))
  unfolding with_outbox
  response_sent-Kept k r p w (ok u, out) = (refl, refl, refl, refl, refl)
  response_sent-Kept k r p w (err e, out) = catch_failure-Kept k r e p (record w { outbox = out })
  response_sent-Kept k r p w (aborted, out) = tt

  notify_if-Kept :
      (k : Connection) (r : ActionRequest) (outcome : ActionOutcome) (p : Progress) (w : TaskWorld)
      (x : Result Bool)
      → Kept p w (notify_if k r outcome p w x)
  unfolding notify_if
  notify_if-Kept k r outcome p w (ok true) = response_sent-Kept k r p w _
  notify_if-Kept k r outcome p w (ok false) = (refl, refl, refl, refl, refl)
  notify_if-Kept k r outcome p w (err e) = catch_failure-Kept k r e p w
  notify_if-Kept k r outcome p w aborted = tt

  -- The progress and the world after the action and the lock.
  abbrev acted : Result ActionOutcome → Progress
  acted x = record { completed = succeeded x; exit_code = recorded_exit_code x; exec_error = "" }

  abbrev locked_if : Bool → Option ℕ → TaskWorld → TaskWorld
  locked_if b mtx w = if b then lock_mutex mtx w else w

  by_type-Kept :
      (t : ModuleType) (p : Progress) (w w' : TaskWorld) (x : Result Progress × TaskWorld)
      → Kept p w x
      → Kept p w (elim t [ internal ↦ (aborted, w') | external ↦ x ])
  by_type-Kept internal p w w' x h = tt
  by_type-Kept external p w w' x h = h

  after_action-Kept :
      (k : Connection) (r : ActionRequest) (mtx : Option ℕ) (x : Result ActionOutcome)
      (w : TaskWorld)
      → Kept (acted x) (locked_if (succeeded x) mtx w) (after_action k r mtx x w)
  unfolding after_action notify
  after_action-Kept k r mtx (ok outcome) w =
      by_type-Kept outcome.outcome_type (acted (ok outcome)) (lock_mutex mtx w) _ _
        (notify_if-Kept k r outcome (acted (ok outcome)) (lock_mutex mtx w) _)
  after_action-Kept k r mtx (err e) w = catch_failure-Kept k r e not_completed w
  after_action-Kept k r mtx aborted w = tt

  stored-inv :
      (w w' : TaskWorld) (f : TaskWorld → TaskWorld) (x : Result Disk)
      → ((e : String) → x ≢ err (storage_error e))
      → on_result (stored w x) (λ v. (ok tt, f v)) (λ e v. (aborted, v)) ≡ (ok tt, w')
      → (d : Disk) × (x ≡ ok d)
        × (f (record w { disk = d; events = metadata_written ∷ w.events }) ≡ w')
  unfolding stored
  stored-inv w w' f (ok d) n h = (d, refl, ap (λ v. v.1) h)
  stored-inv w w' f (err (storage_error e)) n h = absurd (n e refl)
  stored-inv w w' f (err _) n h = ground (arith)
  stored-inv w w' f aborted n h = ground (arith)

  store_metadata-inv :
      (s : ResultsStorage) (p : Progress) (duration : String) (w w' : TaskWorld)
      (f : TaskWorld → TaskWorld)
      → on_result (store_metadata s p duration w) (λ v. (ok tt, f v)) (λ e v. (aborted, v))
        ≡ (ok tt, w')
      → (d : Disk) × (write_metadata s p.exit_code p.exec_error duration w.disk ≡ ok d)
        × (f (record w { disk = d; events = metadata_written ∷ w.events }) ≡ w')
  unfolding store_metadata write_metadata
  store_metadata-inv s p duration w w' f h =
      stored-inv w w' f _ (write-not_storage_error w.disk _ s.metadata_file) h

  removed-lem :
      (t : String) (q : ℕ) (w : TaskWorld)
      → ResultsMutex.get t w.mutexes ≡ ok q
      → ((removed t w).events ≡ mutex_removed ∷ w.events)
        × ((removed t w).disk ≡ w.disk)
        × (ResultsMutex.exists t (removed t w).mutexes ≡ false)
  unfolding removed
  removed-lem t q w h =
      let (m, e, x) = get-remove t q w.mutexes h in rw (e, removed) (refl, refl, x)

  task_cleaner-lem :
      (t : String) (q : ℕ) (b : Bool) (w : TaskWorld)
      → ResultsMutex.get t w.mutexes ≡ ok q
      → ((task_cleaner t (some q) b w).events
          ≡ done ∷ unlocked q ∷ mutex_removed ∷ (if b then w.events else locked q ∷ w.events))
        × ((task_cleaner t (some q) b w).disk ≡ w.disk)
        × (ResultsMutex.exists t (task_cleaner t (some q) b w).mutexes ≡ false)
  unfolding task_cleaner
  task_cleaner-lem t q true w h =
      let (x, y, z) = removed-lem t q w h in (ap (λ l. done ∷ unlocked q ∷ l) x, y, z)
  task_cleaner-lem t q false w h =
      let (x, y, z) = removed-lem t q (record w { events = locked q ∷ w.events }) h in
      (ap (λ l. done ∷ unlocked q ∷ l) x, y, z)

  -- What holds of the world when the task is over.
  abbrev Recorded : ResultsStorage → String → ℕ → Progress → TaskWorld → TaskWorld → Type 0
  Recorded s t q p w w' =
      (w'.events
        ≡ done
          ∷ unlocked q
          ∷ mutex_removed
          ∷ (if p.completed
              then metadata_written ∷ w.events
              else locked q ∷ metadata_written ∷ w.events))
      × (read_metadata w'.disk s.metadata_file
          ≡ some (record { exitcode = p.exit_code; completed = true }))
      × (ResultsMutex.exists t w'.mutexes ≡ false)

  end_task-Recorded :
      (r : ActionRequest) (s : ResultsStorage) (duration : String) (q : ℕ) (p₀ : Progress)
      (w₀ : TaskWorld) (x : Result Progress × TaskWorld) (w' : TaskWorld)
      → ResultsMutex.get r.transaction_id w₀.mutexes ≡ ok q
      → Kept p₀ w₀ x
      → end_task r s duration (some q) x ≡ (ok tt, w')
      → Recorded s r.transaction_id q p₀ w₀ w'
  unfolding end_task
  end_task-Recorded r s duration q p₀ w₀ (ok p, w) w' c (b, n, _, m, v) h =
      let (d, e, f) =
        store_metadata-inv s p duration w w' (task_cleaner r.transaction_id (some q) p.completed)
          h in
      let t = r.transaction_id in
      let v' = record w { disk = d; events = metadata_written ∷ w.events } in
      let (x, y, z) = task_cleaner-lem t q p.completed v' (ap (ResultsMutex.get t) m ∙ c) in
      (
        ap (λ u. u.events) (sym f) ∙ x ∙ rw (b, v) refl,
        ap (λ u. read_metadata u.disk s.metadata_file) (sym f)
            ∙ ap (λ u. read_metadata u s.metadata_file) y
            ∙ read_metadata-write_metadata s p.exit_code p.exec_error duration w.disk d e
            ∙ ap (λ i. some (record { exitcode = i; completed = true })) n,
        ap (λ u. ResultsMutex.exists t u.mutexes) (sym f) ∙ z,
      )
  end_task-Recorded r s duration q p₀ w₀ (err e, w) w' c k h = absurd k
  end_task-Recorded r s duration q p₀ w₀ (aborted, w) w' c k h = ground (arith)

  -- What `Recorded` says of the world in which the task began.
  abbrev pub Finished :
      ResultsStorage → String → ℕ → Result ActionOutcome → TaskWorld → TaskWorld → Type 0
  Finished s t q x w w' =
      (w'.events ≡ (
        if succeeded x
        then done ∷ unlocked q ∷ mutex_removed ∷ metadata_written ∷ locked q ∷ w.events
        else done ∷ unlocked q ∷ mutex_removed ∷ locked q ∷ metadata_written ∷ w.events))
      × (read_metadata w'.disk s.metadata_file
          ≡ some (record { exitcode = recorded_exit_code x; completed = true }))
      × (ResultsMutex.exists t w'.mutexes ≡ false)

  Recorded-Finished :
      (s : ResultsStorage) (t : String) (q : ℕ) (x : Result ActionOutcome) (w w' : TaskWorld)
      → Recorded s t q (acted x) (locked_if (succeeded x) (some q) w) w'
      → Finished s t q x w w'
  unfolding lock_mutex
  Recorded-Finished s t q (ok o) w w' h = h
  Recorded-Finished s t q (err e) w w' h = h
  Recorded-Finished s t q aborted w w' h = h

  locked_if-mutexes :
      (b : Bool) (q : ℕ) (w : TaskWorld) → (locked_if b (some q) w).mutexes ≡ w.mutexes
  unfolding lock_mutex
  locked_if-mutexes true q w = refl
  locked_if-mutexes false q w = refl

  -- A task whose transaction has the mutex q, and that returns, has recorded that the action is
  -- completed, with the exit code of the action, or EXIT_FAILURE if it failed, and has removed the
  -- mutex from the cache. If the action succeeded the metadata are written under the mutex; if it
  -- failed they are written before the mutex is locked. The mutex is removed from the cache before
  -- it is unlocked, and the thread is marked as completed last.
  pub finish_task-Finished :
      (k : Connection) (m : ExternalModule) (r : ActionRequest) (s : ResultsStorage)
      (duration : String) (called : Result ActionOutcome) (d : Disk) (w w' : TaskWorld) (q : ℕ)
      → ResultsMutex.get r.transaction_id w.mutexes ≡ ok q
      → finish_task k m r s duration called d w ≡ (ok tt, w')
      → Finished s r.transaction_id q (execute_action m.base r called) w w'
  unfolding finish_task
  finish_task-Finished k m r s duration called d w w' q c h =
      let x = execute_action m.base r called in
      let v = record w { disk = d } in
      let z = after_action-Kept k r (some q) x v in
      let b = locked_if-mutexes (succeeded x) q v in
      let e : task_mutex r.transaction_id w.mutexes ≡ some q = rw (c, task_mutex) refl in
      Recorded-Finished s r.transaction_id q x v w' (
        end_task-Recorded r s duration q (acted x) (locked_if (succeeded x) (some q) v) _ w'
          (ap (ResultsMutex.get r.transaction_id) b ∙ c) z
          (subst (λ mtx. end_task r s duration mtx (after_action k r mtx x v) ≡ (ok tt, w')) e h))
