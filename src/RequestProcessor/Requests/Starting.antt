-- ===== src/RequestProcessor/Requests/Starting.antt =====
-- What processNonBlockingRequest and processBlockingRequest do with a request that its module
-- accepts.
use Prim.Native.String.{◌++◌}
use pxp_agent.Base.{
  is_blank, is_blank-append, String, true, false, ◌∷◌, ◌≡◌, refl, ap, List, ◌==◌, ◌||◌,
}
use pxp_agent.Exception.{ok}
use pxp_agent.Libraries.{Libraries}
use pxp_agent.ActionRequest.{ActionRequest, set_results_dir}
use pxp_agent.ThreadContainer
use pxp_agent.ThreadContainer.{ThreadContainer, started}
use pxp_agent.ThreadContainer.Adding.{add-find}
use pxp_agent.ResultsMutex.{ResultsMutex}
use pxp_agent.Connector.{pxp_error_message, provisional_response_message, wrap_debug}
use pxp_agent.Connector.Sending.{Open, send_pxp_error-Open, send_provisional_response-Open}
use pxp_agent.RequestProcessor.Storage
use pxp_agent.RequestProcessor.Storage.{ResultsStorage}
use pxp_agent.RequestProcessor.Storage.RoundTrip.{Stored, new-Stored}
use pxp_agent.RequestProcessor.Content.{Loaded}
use pxp_agent.RequestProcessor.Requests.{
  Environment, Processor, process_non_blocking_request, start_task, respond_non_blocking, stored,
  spawned, added, sent,
}

module _ ⦃L : Libraries⦄ where
  open L use {Disk, Json, slash}

  -- The request with its results directory.
  abbrev pub placed : Processor → ActionRequest → ActionRequest
  placed p r = set_results_dir (slash p.spool_dir r.transaction_id) r

  -- While the connection takes every message: a request whose transaction has a task in the
  -- container is answered by one PXP error that says so, and neither the threads, the mutexes nor
  -- the disk change.
  pub process_non_blocking_request-ongoing :
      (x : Environment) (m : Loaded) (r : ActionRequest) (p : Processor)
      → Open x.connection
      → ThreadContainer.find r.transaction_id p.threads ≡ true
      → process_non_blocking_request x m r p ≡ (
        ok tt,
        record p {
          outbox =
              pxp_error_message r
                ("already exists an ongoing task with transaction id " ++ r.transaction_id)
              ∷ p.outbox;
        },
      )
  unfolding process_non_blocking_request start_task respond_non_blocking set_results_dir
      pxp_error_message
  process_non_blocking_request-ongoing x m r p o f =
      let r' = placed p r in
      let b : is_blank ("already exists an ongoing task with transaction id " ++ r.transaction_id)
          ≡ false =
        is_blank-append "a" "lready exists an ongoing task with transaction id " r.transaction_id in
      rw (f, b, respond_non_blocking)
        (ap (sent p) (send_pxp_error-Open x.connection r' _ p.outbox o))

  -- What has been done when a task has been started: one provisional response, a thread with the
  -- transaction's name, and the results storage, which says that the action is not completed.
  pub record Began (x : Environment) (m : Loaded) (r : ActionRequest) (debug : List Json)
      (s : ResultsStorage) (p p' : Processor) : Type 0 where
    pub reply : p'.outbox ≡ provisional_response_message r debug ∷ p.outbox
    pub task : p'.tasks ≡ record { module_ptr = m; request = placed p r; storage = s } ∷ p.tasks
    pub found :
        (q : String)
        → ThreadContainer.find q p'.threads
          ≡ (r.transaction_id == q || ThreadContainer.find q p.threads)
    pub storage : Stored (placed p r) p.mutexes p'.mutexes s p'.disk

  -- While the connection takes every message: a request whose debug chunks can be wrapped, whose
  -- transaction has no task, and whose results storage and thread can be made, is answered by one
  -- provisional response; the container then has a thread with the name of the transaction beside
  -- those that it had, the task has been given to the thread, the transaction has a mutex, and the
  -- metadata on disk say that the action is not completed.
  pub process_non_blocking_request-Began :
      (x : Environment) (m : Loaded) (r : ActionRequest) (p : Processor) (debug : List Json)
      (s : ResultsStorage) (d : Disk) (c : ResultsMutex)
      → Open x.connection
      → wrap_debug r.parsed_chunks ≡ ok debug
      → ThreadContainer.find r.transaction_id p.threads ≡ false
      → Storage.new (placed p r) p.disk p.mutexes ≡ (ok s, d, c)
      → x.spawn (record { module_ptr = m; request = placed p r; storage = s }) ≡ ok tt
      → (p' : Processor) × (process_non_blocking_request x m r p ≡ (ok tt, p'))
        × Began x m r debug s p p'
  unfolding process_non_blocking_request start_task respond_non_blocking set_results_dir stored
      spawned added provisional_response_message
  process_non_blocking_request-Began x m r p debug s d c o w f n k =
      let r' = placed p r in
      let (t, e, g, _) = add-find r.transaction_id started p.threads f in
      let p₁ = record p {
        disk = d;
        mutexes = c;
        threads = t;
        tasks = record { module_ptr = m; request = r'; storage = s } ∷ p.tasks;
      } in
      (
        record p₁ { outbox = provisional_response_message r debug ∷ p.outbox },
        rw (f, n, k, e)
            (ap (sent p₁) (send_provisional_response-Open x.connection r' debug p.outbox o w)),
        record {
          reply = refl;
          task = refl;
          found = g;
          storage = new-Stored r' p.disk d p.mutexes c s n;
        },
      )
