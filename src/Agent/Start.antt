-- ===== src/Agent/Start.antt =====
-- Which callback a message reaches once the agent has been started.
use pxp_agent.Base.{
  String, false, some, ◌≡◌, refl, ap, ◌∙◌, if◌then◌else◌, ◌==◌, lookup, lookup-insert, eq_iff,
}
use pxp_agent.Exception.{Result}
use pxp_agent.Libraries.{Libraries}
use pxp_agent.ActionRequest.{ParsedChunks, blocking, non_blocking}
use pxp_agent.Schemas.{blocking_request_type, non_blocking_request_type}
use pxp_agent.RequestProcessor.Requests.{Processor, Environment, process_request}
use pxp_agent.Agent.{
  Broker, Agent, blocking_request_callback, non_blocking_request_callback, ttl_expired_callback,
  start, register_callbacks, on_message, dispatched, callback,
}

module _ ⦃L : Libraries⦄ where
  abbrev with_processor : Agent → Result (Unit {0}) × Processor → Result (Unit {0}) × Agent
  with_processor a (r, p) = (r, record a { request_processor = p })

  -- The callback of a message type, by the order of the registrations.
  lookup-register_callbacks :
      (k : Broker) (a : Agent) (t : String)
      → lookup t (register_callbacks k a).callbacks ≡ (
          if k.ttl_expired_type == t
          then some ttl_expired_callback
          else if non_blocking_request_type == t
          then some non_blocking_request_callback
          else if blocking_request_type == t
          then some blocking_request_callback
          else lookup t a.callbacks)
  unfolding register_callbacks
  lookup-register_callbacks k a t =
      lookup-insert k.ttl_expired_type t ttl_expired_callback _
      ∙ ap (λ o. if k.ttl_expired_type == t then some ttl_expired_callback else o)
          (lookup-insert non_blocking_request_type t non_blocking_request_callback _
            ∙ ap
                (λ o.
                  if non_blocking_request_type == t then some non_blocking_request_callback else o)
                (lookup-insert blocking_request_type t blocking_request_callback a.callbacks))

  on_message-dispatched :
      (x : Environment) (t : String) (c : ParsedChunks) (a : Agent)
      → on_message x t c a
        ≡ with_processor a (dispatched x (lookup t a.callbacks) c a.request_processor)
  unfolding on_message
  on_message-dispatched x t c a = refl

  -- A message of each type, once `start` has registered the callbacks: the two types of requests
  -- reach processRequest with the matching request type, and a TTL expired message changes nothing.
  abbrev pub Dispatches : Environment → Broker → ParsedChunks → Agent → Type 0
  Dispatches x k c a =
      let b = (start k a).1 in
      (on_message x blocking_request_type c b
        ≡ with_processor b (process_request x blocking c a.request_processor))
      × (on_message x non_blocking_request_type c b
          ≡ with_processor b (process_request x non_blocking c a.request_processor))
      × ((on_message x k.ttl_expired_type c b).1 ≡ b)

  -- If the type of TTL expired messages is not that of a request, then once `start` has registered
  -- the callbacks, and whether it returns or throws, a message with the type of a blocking or non-
  -- blocking request is handled by processRequest with the matching request type, with its result,
  -- and a TTL expired message leaves the agent as it is.
  pub start-Dispatches :
      (x : Environment) (k : Broker) (c : ParsedChunks) (a : Agent)
      → k.ttl_expired_type == blocking_request_type ≡ false
      → k.ttl_expired_type == non_blocking_request_type ≡ false
      → Dispatches x k c a
  unfolding start register_callbacks dispatched callback
  start-Dispatches x k c a h i =
      let b = register_callbacks k a in
      let at_blocking : lookup blocking_request_type b.callbacks ≡ some blocking_request_callback =
        lookup-register_callbacks k a blocking_request_type ∙ rw h refl in
      let at_non_blocking : lookup non_blocking_request_type b.callbacks
          ≡ some non_blocking_request_callback =
        lookup-register_callbacks k a non_blocking_request_type ∙ rw i refl in
      let at_ttl : lookup k.ttl_expired_type b.callbacks ≡ some ttl_expired_callback =
        lookup-register_callbacks k a k.ttl_expired_type
        ∙ rw ((eq_iff k.ttl_expired_type k.ttl_expired_type).1 refl) refl in
      (
        on_message-dispatched x blocking_request_type c b
            ∙ ap (λ o. with_processor b (dispatched x o c a.request_processor)) at_blocking,
        on_message-dispatched x non_blocking_request_type c b
            ∙ ap (λ o. with_processor b (dispatched x o c a.request_processor)) at_non_blocking,
        ap (λ r. r.1)
            (on_message-dispatched x k.ttl_expired_type c b
              ∙ ap (λ o. with_processor b (dispatched x o c a.request_processor)) at_ttl),
      )
