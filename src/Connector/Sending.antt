-- ===== src/Connector/Sending.antt =====
-- What the methods of the connector send while the connection takes every message.
use pxp_agent.Base.{String, List, ◌∷◌, ◌≡◌, refl, sym, subst}
use pxp_agent.Exception.{Result, ok, err, aborted}
use pxp_agent.Libraries.{Libraries}
use pxp_agent.ActionRequest.{ActionRequest}
use pxp_agent.Connector.{
  Connection, Message, Outbox, try_send, with_debug, wrap_debug, send_pcp_error, send_pxp_error,
  send_non_blocking_response, non_blocking_response_message, send_blocking_response,
  send_provisional_response, pxp_error_message, pcp_error_message, provisional_response_message,
  blocking_response_message,
}

module _ ⦃L : Libraries⦄ where
  open L use {Json}

  -- The connection takes every message.
  abbrev pub Open : Connection → Type 0
  Open k = (m : Message) → k.send m ≡ ok tt

  pub try_send-Open :
      (k : Connection) (m : Message) (out : Outbox) → Open k → try_send k m out ≡ (ok tt, m ∷ out)
  unfolding try_send
  try_send-Open k m out o = rw (o m, try_send) refl

  -- One message has been sent, or an exception left nothing sent.
  abbrev pub SentOne : Outbox → Result (Unit {0}) × Outbox → Type 0
  SentOne out (ok u, out') = (m : Message) × (out' ≡ m ∷ out)
  SentOne out (err e, out') = out' ≡ out
  SentOne out (aborted, out') = Unit {0}

  pub try_send-SentOne :
      (k : Connection) (m : Message) (out : Outbox) → Open k → SentOne out (try_send k m out)
  try_send-SentOne k m out o = subst (SentOne out) (sym (try_send-Open k m out o)) (m, refl)

  with_debug-SentOne :
      (k : Connection) (x : Result (List Json)) (f : List Json → Message) (out : Outbox)
      → Open k
      → SentOne out (with_debug k x f out)
  unfolding with_debug
  with_debug-SentOne k (ok debug) f out o = try_send-SentOne k (f debug) out o
  with_debug-SentOne k (err e) f out o = refl
  with_debug-SentOne k aborted f out o = tt

  pub send_blocking_response-SentOne :
      (k : Connection) (r : ActionRequest) (j : Json) (out : Outbox)
      → Open k
      → SentOne out (send_blocking_response k r j out)
  unfolding send_blocking_response
  send_blocking_response-SentOne k r j out = with_debug-SentOne k (wrap_debug r.parsed_chunks) _ out

  pub send_provisional_response-SentOne :
      (k : Connection) (r : ActionRequest) (out : Outbox)
      → Open k
      → SentOne out (send_provisional_response k r out)
  unfolding send_provisional_response
  send_provisional_response-SentOne k r out =
      with_debug-SentOne k (wrap_debug r.parsed_chunks) _ out

  pub send_pxp_error-Open :
      (k : Connection) (r : ActionRequest) (w : String) (out : Outbox)
      → Open k
      → send_pxp_error k r w out ≡ (ok tt, pxp_error_message r w ∷ out)
  unfolding send_pxp_error
  send_pxp_error-Open k r w out = try_send-Open k (pxp_error_message r w) out

  pub send_pcp_error-Open :
      (k : Connection) (id w : String) (endpoints : List String) (out : Outbox)
      → Open k
      → send_pcp_error k id w endpoints out ≡ (ok tt, pcp_error_message k id w endpoints ∷ out)
  unfolding send_pcp_error
  send_pcp_error-Open k id w endpoints out =
      try_send-Open k (pcp_error_message k id w endpoints) out

  pub send_pxp_error-SentOne :
      (k : Connection) (r : ActionRequest) (w : String) (out : Outbox)
      → Open k
      → SentOne out (send_pxp_error k r w out)
  send_pxp_error-SentOne k r w out o =
      subst (SentOne out) (sym (send_pxp_error-Open k r w out o)) (pxp_error_message r w, refl)

  pub send_provisional_response-Open :
      (k : Connection) (r : ActionRequest) (debug : List Json) (out : Outbox)
      → Open k
      → wrap_debug r.parsed_chunks ≡ ok debug
      → send_provisional_response k r out ≡ (ok tt, provisional_response_message r debug ∷ out)
  unfolding send_provisional_response with_debug
  send_provisional_response-Open k r debug out o h =
      rw h (try_send-Open k (provisional_response_message r debug) out o)

  pub send_blocking_response-Open :
      (k : Connection) (r : ActionRequest) (j : Json) (debug : List Json) (out : Outbox)
      → Open k
      → wrap_debug r.parsed_chunks ≡ ok debug
      → send_blocking_response k r j out ≡ (ok tt, blocking_response_message r j debug ∷ out)
  unfolding send_blocking_response with_debug
  send_blocking_response-Open k r j debug out o h =
      rw h (try_send-Open k (blocking_response_message r j debug) out o)

  pub send_non_blocking_response-Open :
      (k : Connection) (r : ActionRequest) (j : Json) (job_id : String) (out : Outbox)
      → Open k
      → send_non_blocking_response k r j job_id out
        ≡ (ok tt, non_blocking_response_message r j job_id ∷ out)
  unfolding send_non_blocking_response
  send_non_blocking_response-Open k r j job_id out =
      try_send-Open k (non_blocking_response_message r j job_id) out
