-- ===== src/Agent.antt =====
-- agent.cc: the constructor of Agent, start, and the callbacks. The connection of cpp-pcp-client is
-- a parameter: what its constructor, connect and monitorConnection do. It calls the callback that is
-- registered for the type of a message.
pub mod Start
use pxp_agent.Base.{String, Option, none, some, List, [], ◌∷◌, is_blank, Dict, lookup, insert}
use pxp_agent.Exception.{
  Exception, Result, ok, err, aborted, ◌>>=◌, ◌>>◌, connection_config_error, connection_fatal_error,
  web_socket_configuration_error, fatal_error,
}
use pxp_agent.Libraries.{Libraries}
use pxp_agent.ActionRequest.{ParsedChunks, RequestType, blocking, non_blocking}
use pxp_agent.Schemas.{blocking_request_type, non_blocking_request_type}
use pxp_agent.Configuration.{AgentConfiguration}
use pxp_agent.Json.{get_text}
use pxp_agent.RequestProcessor.Requests.{Processor, Environment, process_request}
use pxp_agent.RequestProcessor.Startup
use pxp_agent.RequestProcessor.Startup.{Installation}

pub data Callback : Type 0 where
  blocking_request_callback non_blocking_request_callback ttl_expired_callback : Callback

-- PXPConnector's constructor, connect and monitorConnection, and the type of TTL expired messages.
pub record Broker : Type 0 where
  pub construct : AgentConfiguration → Result (Unit {0})
  pub connect : Result (Unit {0})
  pub monitor_connection : Result (Unit {0})
  pub ttl_expired_type : String

pub record Agent ⦃L : Libraries⦄ : Type 0 where
  pub callbacks : Dict Callback
  pub request_processor : Processor

-- The handler of the constructor's function-try-block.
unfoldable pub catch_connector : {A : Type 0} → Result A → Result A
catch_connector (err (connection_config_error w)) = err (web_socket_configuration_error w)
catch_connector r = r

-- The catch clauses of `start`.
unfoldable pub catch_connection : Result (Unit {0}) → Result (Unit {0})
catch_connection (err (connection_config_error w)) = err (web_socket_configuration_error w)
catch_connection (err (connection_fatal_error w)) = err (fatal_error w)
catch_connection r = r

module _ ⦃L : Libraries⦄ where
  open L use {Disk}

  unfoldable pub new : Broker → Installation → AgentConfiguration → Disk → Result Agent
  unfolding catch_connector Startup.new
  new k i agent d = catch_connector (
      k.construct agent
      >> (Startup.new i agent d >>= λ p. ok (record { callbacks = []; request_processor = p })))

  -- registerMessageCallback
  unfoldable pub register_callbacks : Broker → Agent → Agent
  unfolding insert
  register_callbacks k a = record a {
    callbacks = insert k.ttl_expired_type ttl_expired_callback (
        insert non_blocking_request_type non_blocking_request_callback
          (insert blocking_request_type blocking_request_callback a.callbacks));
  }

  -- The result, with the callbacks that handle the messages from then on.
  unfoldable pub start : Broker → Agent → Result (Unit {0}) × Agent
  unfolding register_callbacks catch_connection
  start k a = (catch_connection (k.connect >> k.monitor_connection), register_callbacks k a)

  unfoldable pub callback :
      Environment → Callback → ParsedChunks → Processor → Result (Unit {0}) × Processor
  unfolding process_request
  callback x blocking_request_callback c p = process_request x blocking c p
  callback x non_blocking_request_callback c p = process_request x non_blocking c p
  callback x ttl_expired_callback c p = (get_text c.data_chunk "id" >>= λ id. ok tt, p)

  dispatched :
      Environment → Option Callback → ParsedChunks → Processor → Result (Unit {0}) × Processor
  unfolding callback
  dispatched x none c p = (ok tt, p)
  dispatched x (some f) c p = callback x f c p

  -- A message arrives.
  unfoldable pub on_message :
      Environment → String → ParsedChunks → Agent → Result (Unit {0}) × Agent
  unfolding dispatched lookup
  on_message x message_type c a =
      let (r, p) = dispatched x (lookup message_type a.callbacks) c a.request_processor in
      (r, record a { request_processor = p })
