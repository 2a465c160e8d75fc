-- ===== src/RequestProcessor/Requests/Handling.antt =====
-- How many messages the steps of processRequest send, while the connection takes every message.
use pxp_agent.Base.{
  String, if_elim, Bool, true, false, ◌∷◌, Option, none, some, ◌≡◌, refl, sym, ap, is_blank,
  if◌then◌else◌, subst,
}
use pxp_agent.Exception.{Result, ok, err, aborted, unknown}
use pxp_agent.Libraries.{Libraries}
use pxp_agent.ActionRequest.{ActionRequest, RequestType, blocking, non_blocking, set_results_dir}
use pxp_agent.Module.{ActionOutcome, execute_action}
use pxp_agent.Connector.{Connection, Message, Outbox, send_pxp_error, pxp_error_message}
use pxp_agent.Connector.Sending.{
  Open, SentOne, send_pxp_error-Open, send_pxp_error-SentOne, send_blocking_response-SentOne,
  send_provisional_response-SentOne,
}
use pxp_agent.RequestProcessor.Content.{Loaded, base}
use pxp_agent.RequestProcessor.Requests.{
  Environment, Processor, execute, catch_failure, process_blocking_request,
  process_non_blocking_request, respond_blocking, respond_non_blocking, start_task, sent,
  call_action, added, spawned, stored,
}
use pxp_agent.ThreadContainer
use pxp_agent.ThreadContainer.{ThreadContainer}
use pxp_agent.ResultsMutex.{ResultsMutex}
use pxp_agent.RequestProcessor.Storage.{ResultsStorage}

module _ ⦃L : Libraries⦄ where
  open L use {Json, slash}

  -- The same of a step of the request processor.
  abbrev Handled : Outbox → Result (Unit {0}) × Processor → Type 0
  Handled out (x, p) = SentOne out (x, p.outbox)

  sent-Handled :
      (out : Outbox) (p : Processor) (y : Result (Unit {0}) × Outbox)
      → SentOne out y
      → Handled out (sent p y)
  sent-Handled out p (ok u, o) h = h
  sent-Handled out p (err e, o) h = h
  sent-Handled out p (aborted, o) h = h

  respond_blocking-Handled :
      (k : Connection) (r : ActionRequest) (x : Result ActionOutcome) (p : Processor)
      → Open k
      → Handled p.outbox (respond_blocking k r x p)
  unfolding respond_blocking
  respond_blocking-Handled k r (ok outcome) p o =
      sent-Handled p.outbox p _ (send_blocking_response-SentOne k r outcome.results p.outbox o)
  respond_blocking-Handled k r (err e) p o = refl
  respond_blocking-Handled k r aborted p o = tt

  if_sent-Handled :
      (out : Outbox) (p : Processor) (b : Bool) (y z : Result (Unit {0}) × Outbox)
      → SentOne out y
      → SentOne out z
      → Handled out (if b then sent p y else sent p z)
  if_sent-Handled out p true y z h i = sent-Handled out p y h
  if_sent-Handled out p false y z h i = sent-Handled out p z i

  -- What starts a task sends nothing.
  abbrev Unsent : Outbox → Result String × Processor → Type 0
  Unsent out (x, p) = p.outbox ≡ out

  respond_non_blocking-Handled :
      (k : Connection) (r : ActionRequest) (out : Outbox) (x : Result String × Processor)
      → Open k
      → Unsent out x
      → Handled out (respond_non_blocking k r x)
  unfolding respond_non_blocking
  respond_non_blocking-Handled k r out (ok err_msg, p) o h =
      subst (λ q. Handled q (respond_non_blocking k r (ok err_msg, p))) h
        (if_sent-Handled p.outbox p (is_blank err_msg) _ _
          (send_provisional_response-SentOne k r p.outbox o)
          (send_pxp_error-SentOne k r err_msg p.outbox o))
  respond_non_blocking-Handled k r out (err e, p) o h = h
  respond_non_blocking-Handled k r out (aborted, p) o h = tt

  added-Unsent :
      (m : Loaded) (r : ActionRequest) (s : ResultsStorage) (p : Processor)
      (x : Result ThreadContainer)
      → Unsent p.outbox (added m r s p x)
  unfolding added
  added-Unsent m r s p (ok c) = refl
  added-Unsent m r s p (err e) = refl
  added-Unsent m r s p aborted = refl

  spawned-Unsent :
      (m : Loaded) (r : ActionRequest) (s : ResultsStorage) (p : Processor) (x : Result (Unit {0}))
      → Unsent p.outbox (spawned m r s p x)
  unfolding spawned
  spawned-Unsent m r s p (ok u) = added-Unsent m r s p _
  spawned-Unsent m r s p (err e) = refl
  spawned-Unsent m r s p aborted = refl

  stored-Unsent :
      (x : Environment) (m : Loaded) (r : ActionRequest) (p : Processor)
      (y : Result ResultsStorage × L.Disk × ResultsMutex)
      → Unsent p.outbox (stored x m r p y)
  unfolding stored
  stored-Unsent x m r p (ok s, d, c) = spawned-Unsent m r s (record p { disk = d; mutexes = c }) _
  stored-Unsent x m r p (err e, d, c) = refl
  stored-Unsent x m r p (aborted, d, c) = refl

  start_task-Unsent :
      (x : Environment) (m : Loaded) (r : ActionRequest) (p : Processor)
      → Unsent p.outbox (start_task x m r p)
  unfolding start_task
  start_task-Unsent x m r p =
      if_elim (Unsent p.outbox) (ThreadContainer.find r.transaction_id p.threads) refl
        (stored-Unsent x m r p _)

  by_type-Handled :
      (t : RequestType) (out : Outbox) (y z : Result (Unit {0}) × Processor)
      → Handled out y
      → Handled out z
      → Handled out (elim t [ blocking ↦ y | non_blocking ↦ z ])
  by_type-Handled blocking out y z h i = h
  by_type-Handled non_blocking out y z h i = i

  pub execute-Handled :
      (x : Environment) (r : ActionRequest) (p : Processor) (m : Option Loaded)
      → Open x.connection
      → Handled p.outbox (execute x r p m)
  unfolding execute process_blocking_request process_non_blocking_request
  execute-Handled x r p none o = tt
  execute-Handled x r p (some m) o =
      let (called, d) = call_action x p.spool_dir m r p.disk in
      let r' = set_results_dir (slash p.spool_dir r.transaction_id) r in
      by_type-Handled r.request_type p.outbox _ _
        (respond_blocking-Handled x.connection r (execute_action (base m) r called)
          (record p { disk = d }) o)
        (respond_non_blocking-Handled x.connection r' p.outbox (start_task x m r' p) o
          (start_task-Unsent x m r' p))

  -- A request that is answered with one message, or whose handling ends with an exception that
  -- derives from no std::exception, or aborts.
  abbrev pub Answered : Outbox → Result (Unit {0}) × Processor → Type 0
  Answered out (ok u, p) = (m : Message) × (p.outbox ≡ m ∷ out)
  Answered out (err unknown, p) = Unit {0}
  Answered out (err _, p) = ⊥
  Answered out (aborted, p) = Unit {0}

  pub error_sent-Answered :
      (k : Connection) (r : ActionRequest) (w : String) (out : Outbox) (p : Processor)
      → Open k
      → p.outbox ≡ out
      → Answered out (sent p (send_pxp_error k r w p.outbox))
  error_sent-Answered k r w out p o h =
      subst (λ y. Answered out (sent p y)) (sym (send_pxp_error-Open k r w p.outbox o))
        (pxp_error_message r w, ap (λ q. pxp_error_message r w ∷ q) h)

  pub catch_failure-Answered :
      (k : Connection) (r : ActionRequest) (out : Outbox) (y : Result (Unit {0}) × Processor)
      → Open k
      → Handled out y
      → Answered out (catch_failure k r y)
  unfolding catch_failure
  catch_failure-Answered k r out (ok u, p) o h = h
  catch_failure-Answered k r out (err unknown, p) o h = tt
  catch_failure-Answered k r out (err _, p) o h = error_sent-Answered k r _ out p o h
  catch_failure-Answered k r out (aborted, p) o h = tt
