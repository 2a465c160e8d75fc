-- ===== src/Connector.antt =====
-- pxp_connector.cc: the messages that the agent sends. What cpp-pcp-client's `send` does with a
-- message is a parameter, and so is its error message type. The outbox holds the messages that
-- `send` took, the last one first.
pub mod Conformance
pub mod Sending
use pxp_agent.Base.{ℕ, String, List, [], ◌∷◌}
use pxp_agent.Exception.{
  Exception, Result, ok, err, aborted, connection_error, connection_config_error,
  connection_fatal_error, ◌>>=◌,
}
use pxp_agent.Libraries.{Libraries}
use pxp_agent.Json.{get_text}
use pxp_agent.ActionRequest.{ParsedChunks, ActionRequest}
use pxp_agent.Schemas.{
  blocking_response_type, non_blocking_response_type, provisional_response_type, pxp_error_msg_type,
}

pub record Message ⦃L : Libraries⦄ : Type 0 where
  pub endpoints : List String
  pub message_type : String
  pub timeout : ℕ
  pub content : L.Json
  pub debug : List L.Json

pub record Connection ⦃L : Libraries⦄ : Type 0 where
  pub send : Message → Result (Unit {0})
  pub error_msg_type : String

abbrev pub default_msg_timeout_sec : ℕ
default_msg_timeout_sec = 2

module _ ⦃L : Libraries⦄ where
  open L use {Json, set, empty, of_text}

  abbrev pub Outbox : Type 0
  Outbox = List Message

  -- The debug chunks; `get` throws if the envelope has no ID.
  unfoldable pub wrap_debug : ParsedChunks → Result (List Json)
  wrap_debug c = do request_id ← get_text c.envelope "id"; ok c.debug

  -- A call of `send` in the try block that each of the methods has: a connection_error is logged.
  unfoldable pub try_send : Connection → Message → Outbox → Result (Unit {0}) × Outbox
  try_send k m out = elim (k.send m) [
    | ok u ↦ (ok tt, m ∷ out)
    | err (connection_error w) ↦ (ok tt, out)
    | err (connection_config_error w) ↦ (ok tt, out)
    | err (connection_fatal_error w) ↦ (ok tt, out)
    | err e ↦ (err e, out)
    | aborted ↦ (aborted, out)
  ]

  unfoldable pub pcp_error_message : Connection → String → String → List String → Message
  pcp_error_message k request_id description endpoints = record {
    endpoints = endpoints;
    message_type = k.error_msg_type;
    timeout = default_msg_timeout_sec;
    content = set (set empty "id" (of_text request_id)) "description" (of_text description);
    debug = [];
  }

  unfoldable pub pxp_error_message : ActionRequest → String → Message
  pxp_error_message r description = record {
    endpoints = r.sender ∷ [];
    message_type = pxp_error_msg_type;
    timeout = default_msg_timeout_sec;
    content =
        set (set (set empty "transaction_id" (of_text r.transaction_id)) "id" (of_text r.id))
          "description" (of_text description);
    debug = [];
  }

  unfoldable pub blocking_response_message : ActionRequest → Json → List Json → Message
  blocking_response_message r results debug = record {
    endpoints = r.sender ∷ [];
    message_type = blocking_response_type;
    timeout = default_msg_timeout_sec;
    content = set (set empty "transaction_id" (of_text r.transaction_id)) "results" results;
    debug = debug;
  }

  unfoldable pub non_blocking_response_message : ActionRequest → Json → String → Message
  non_blocking_response_message r results job_id = record {
    endpoints = r.sender ∷ [];
    message_type = non_blocking_response_type;
    timeout = default_msg_timeout_sec;
    content =
        set (set (set empty "transaction_id" (of_text r.transaction_id)) "job_id" (of_text job_id))
          "results" results;
    debug = [];
  }

  unfoldable pub provisional_response_message : ActionRequest → List Json → Message
  provisional_response_message r debug = record {
    endpoints = r.sender ∷ [];
    message_type = provisional_response_type;
    timeout = default_msg_timeout_sec;
    content = set empty "transaction_id" (of_text r.transaction_id);
    debug = debug;
  }

  unfoldable pub send_pcp_error :
      Connection → String → String → List String → Outbox → Result (Unit {0}) × Outbox
  unfolding pcp_error_message try_send
  send_pcp_error k request_id description endpoints =
      try_send k (pcp_error_message k request_id description endpoints)

  unfoldable pub send_pxp_error :
      Connection → ActionRequest → String → Outbox → Result (Unit {0}) × Outbox
  unfolding pxp_error_message try_send
  send_pxp_error k r description = try_send k (pxp_error_message r description)

  with_debug :
      Connection → Result (List Json) → (List Json → Message) → Outbox → Result (Unit {0}) × Outbox
  unfolding try_send
  with_debug k (ok debug) message out = try_send k (message debug) out
  with_debug k (err e) message out = (err e, out)
  with_debug k aborted message out = (aborted, out)

  unfoldable pub send_blocking_response :
      Connection → ActionRequest → Json → Outbox → Result (Unit {0}) × Outbox
  unfolding wrap_debug with_debug blocking_response_message
  send_blocking_response k r results =
      with_debug k (wrap_debug r.parsed_chunks) (blocking_response_message r results)

  unfoldable pub send_non_blocking_response :
      Connection → ActionRequest → Json → String → Outbox → Result (Unit {0}) × Outbox
  unfolding non_blocking_response_message try_send
  send_non_blocking_response k r results job_id =
      try_send k (non_blocking_response_message r results job_id)

  unfoldable pub send_provisional_response :
      Connection → ActionRequest → Outbox → Result (Unit {0}) × Outbox
  unfolding wrap_debug with_debug provisional_response_message
  send_provisional_response k r =
      with_debug k (wrap_debug r.parsed_chunks) (provisional_response_message r)
