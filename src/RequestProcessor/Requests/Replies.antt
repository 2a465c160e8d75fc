-- ===== src/RequestProcessor/Requests/Replies.antt =====
-- The replies that processRequest sends, while the connection takes every message.
use pxp_agent.Base.{String, Bool, false, [], ◌∷◌, some, ◌≡◌, refl, ap, ◌∙◌, arith, subst, lookup}
use pxp_agent.Exception.{Result, ok, err, aborted, request_error, processor_error, unknown}
use pxp_agent.Libraries.{Libraries}
use pxp_agent.Json.{get_text}
use pxp_agent.ActionRequest
use pxp_agent.ActionRequest.{ActionRequest, ParsedChunks, RequestType}
use pxp_agent.ActionRequest.Format.{format_error, new-format_error}
use pxp_agent.Connector.{Connection, pxp_error_message, pcp_error_message, send_pcp_error, Outbox}
use pxp_agent.Connector.Sending.{Open, send_pxp_error-Open, send_pcp_error-Open}
use pxp_agent.RequestProcessor.Content.{
  accepted, Validation, validate_request_content, validate_request_content-Validation,
}
use pxp_agent.RequestProcessor.Requests.{
  Environment, Processor, process_request, requested, validated, catch_bad_message, sent,
}
use pxp_agent.RequestProcessor.Requests.Handling.{
  Answered, error_sent-Answered, catch_failure-Answered, execute-Handled,
}

module _ ⦃L : Libraries⦄ where
  bad_message-lem :
      (k : Connection) (c : ParsedChunks) (p : Processor) (id sender w : String)
      → get_text c.envelope "id" ≡ ok id
      → get_text c.envelope "sender" ≡ ok sender
      → catch_bad_message k c (err (request_error w), p)
        ≡ sent p (send_pcp_error k id w (sender ∷ []) p.outbox)
  unfolding catch_bad_message
  bad_message-lem k c p id sender w i s = rw (i, s, catch_bad_message) refl

  -- While the connection takes every message: a message with an ID and a sender in its envelope
  -- and with no data, invalid data or binary data is answered by exactly one PCP error, for the
  -- sender, with the ID of the message and the first of the three defects, and nothing else
  -- changes.
  pub process_request-malformed :
      (x : Environment) (t : RequestType) (c : ParsedChunks) (p : Processor) (id sender w : String)
      → Open x.connection
      → get_text c.envelope "id" ≡ ok id
      → get_text c.envelope "sender" ≡ ok sender
      → format_error c ≡ some w
      → process_request x t c p ≡ (
        ok tt,
        record p { outbox = pcp_error_message x.connection id w (sender ∷ []) ∷ p.outbox },
      )
  unfolding process_request requested
  process_request-malformed x t c p id sender w o i s f =
      ap (λ n. catch_bad_message x.connection c (requested x p n))
        (new-format_error t c id sender w i s f)
      ∙ bad_message-lem x.connection c p id sender w i s
      ∙ ap (sent p) (send_pcp_error-Open x.connection id w (sender ∷ []) p.outbox o)

  refused-validated :
      (x : Environment) (c : ParsedChunks) (r : ActionRequest) (p : Processor)
      (v : Result (Unit {0}))
      → Open x.connection
      → Validation false v
      → (w : String) × (catch_bad_message x.connection c (validated x r p v)
          ≡ (ok tt, record p { outbox = pxp_error_message r w ∷ p.outbox }))
  unfolding validated catch_bad_message
  refused-validated x c r p (ok u) o h = ground arith
  refused-validated x c r p (err (processor_error w)) o h =
      (w, rw (send_pxp_error-Open x.connection r w p.outbox o) refl)
  refused-validated x c r p (err _) o h = absurd h
  refused-validated x c r p aborted o h = absurd h

  -- While the connection takes every message: a request from which an ActionRequest can be made,
  -- and whose module is not loaded or does not accept it, is answered by exactly one PXP error for
  -- its sender, with its transaction ID; no action is executed, and nothing else changes.
  pub process_request-refused :
      (x : Environment) (t : RequestType) (c : ParsedChunks) (r : ActionRequest) (p : Processor)
      → Open x.connection
      → ActionRequest.new t c ≡ ok r
      → accepted (lookup r.module_name p.modules) r ≡ false
      → (w : String) × (process_request x t c p
          ≡ (ok tt, record p { outbox = pxp_error_message r w ∷ p.outbox }))
  unfolding process_request requested
  process_request-refused x t c r p o n a = rw n (
      refused-validated x c r p (validate_request_content p.modules r) o (
        subst (λ b. Validation b (validate_request_content p.modules r)) a
          (validate_request_content-Validation p.modules r)))

  caught-Answered :
      (k : Connection) (c : ParsedChunks) (out : Outbox) (y : Result (Unit {0}) × Processor)
      → Answered out y
      → Answered out (catch_bad_message k c y)
  unfolding catch_bad_message
  caught-Answered k c out (ok u, p) h = h
  caught-Answered k c out (err unknown, p) h = tt
  caught-Answered k c out (err _, p) h = absurd h
  caught-Answered k c out (aborted, p) h = tt

  validated-Answered :
      (x : Environment) (r : ActionRequest) (p : Processor) (b : Bool) (v : Result (Unit {0}))
      → Open x.connection
      → Validation b v
      → Answered p.outbox (validated x r p v)
  unfolding validated
  validated-Answered x r p b (ok u) o h =
      catch_failure-Answered x.connection r p.outbox _ o
        (execute-Handled x r p (lookup r.module_name p.modules) o)
  validated-Answered x r p b (err (processor_error w)) o h =
      error_sent-Answered x.connection r w p.outbox p o refl
  validated-Answered x r p b (err _) o h = absurd h
  validated-Answered x r p b aborted o h = absurd h

  -- While the connection takes every message: every request from which an ActionRequest can be
  -- made is answered by exactly one message, whatever its module, its action and the file system
  -- do, unless the program aborts; the only exceptions that leave the function are those that do
  -- not derive from std::exception.
  pub process_request-Answered :
      (x : Environment) (t : RequestType) (c : ParsedChunks) (r : ActionRequest) (p : Processor)
      → Open x.connection
      → ActionRequest.new t c ≡ ok r
      → Answered p.outbox (process_request x t c p)
  unfolding process_request requested
  process_request-Answered x t c r p o n = rw n (
      caught-Answered x.connection c p.outbox _ (
        validated-Answered x r p _ (validate_request_content p.modules r) o
          (validate_request_content-Validation p.modules r)))
