-- ===== src/Configuration/Settings.antt =====
-- The templates `get` and `set` of configuration.hpp, and getAgentConfiguration.
pub mod Access
pub mod Timeout
use Prim.Native.String.{◌++◌}
use pxp_agent.Base.{
  ℕ, ◌+◌, ◌*◌, String, Bool, true, false, Option, none, some, List, if◌then◌else◌, leb, ℤ, pos,
  negsuc,
}
use pxp_agent.Exception.{
  Result, ok, err, aborted, configuration_error, undefined_flag_error, flag_validation_error,
}
use pxp_agent.Exception.Stateful.{Stateful, gets, raise, pure, ◌>>=◌}
use pxp_agent.Libraries.{Libraries}
use pxp_agent.Configuration.{
  Value, Entry, AgentConfiguration, Configuration, HorseWhisperer, as_string, as_integer, find,
  get_flag, set_flag,
}

abbrev pub agent_client_type : String
agent_client_type = "agent"

-- `undefined_flag_error` becomes a Configuration::Error.
abbrev pub catch_undefined : {A : Type 0} → Result A → Result A
catch_undefined (err (undefined_flag_error w)) = err (configuration_error w)
catch_undefined r = r

-- The catch clauses of `set`.
abbrev pub catch_set : {S : Type 0} → String → Result (Unit {0}) × S → Result (Unit {0}) × S
catch_set flagname (err (flag_validation_error w), s) =
    (err (configuration_error ("invalid value for " ++ flagname)), s)
catch_set flagname (err (undefined_flag_error w), s) =
    (err (configuration_error ("unknown flag name: " ++ flagname)), s)
catch_set flagname (r, s) = (r, s)

-- The range of int, 32 bits.
abbrev pub is_int : ℤ → Bool
is_int (pos n) = leb n 2147483647
is_int (negsuc n) = leb n 2147483647

-- `negsuc n` is -(n + 1).
abbrev pub times_thousand : ℤ → ℤ
times_thousand (pos n) = pos (n * 1000)
times_thousand (negsuc n) = negsuc (n * 1000 + 999)

-- `timeout * 1000` in int; an overflow is undefined behaviour.
unfoldable pub milliseconds : ℤ → Result ℤ
milliseconds z = if is_int (times_thousand z) then ok (times_thousand z) else aborted

module _ ⦃L : Libraries⦄ ⦃H : HorseWhisperer⦄ where
  open L use {Double}

  -- `entry_ptr->value`, as a T
  abbrev pub default_value :
      {A : Type 0} → (Value Double → Option A) → String → Option (Entry Double) → Result A
  default_value read flagname none = err (configuration_error ("no default value for " ++ flagname))
  default_value read flagname (some e) = elim (read e.value) [ none ↦ aborted | some a ↦ ok a ]

  unfoldable pub get : {A : Type 0} → (Value Double → Option A) → String → Configuration → Result A
  unfolding find
  get read flagname c =
      if c.valid
      then catch_undefined (get_flag read flagname c)
      else default_value read flagname (find flagname c.defaults)

  unfoldable pub set : String → Value Double → Stateful Configuration (Unit {0})
  unfolding set_flag
  set flagname value c = if c.valid then catch_set flagname (set_flag flagname value c) else (
    err (configuration_error "cannot set configuration value until configuration is validated"),
    c,
  )

  cache : AgentConfiguration → Stateful Configuration AgentConfiguration
  cache agent c = (ok agent, record c { agent_configuration = agent })

  unfoldable pub read_agent_configuration : Stateful Configuration AgentConfiguration
  unfolding milliseconds cache
  read_agent_configuration = do
    modules_dir ← gets (get_flag as_string "modules-dir")
    broker_ws_uri ← gets (get_flag as_string "broker-ws-uri")
    ca ← gets (get_flag as_string "ssl-ca-cert")
    crt ← gets (get_flag as_string "ssl-cert")
    key ← gets (get_flag as_string "ssl-key")
    spool_dir ← gets (get_flag as_string "spool-dir")
    modules_config_dir ← gets (get_flag as_string "modules-config-dir")
    timeout ← gets (get_flag as_integer "connection-timeout")
    connection_timeout ← gets (λ c. milliseconds timeout)
    cache (record {
      modules_dir = modules_dir;
      broker_ws_uri = broker_ws_uri;
      ca = ca;
      crt = crt;
      key = key;
      spool_dir = spool_dir;
      modules_config_dir = modules_config_dir;
      client_type = agent_client_type;
      connection_timeout = connection_timeout;
    })

  -- With the assert.
  unfoldable pub get_agent_configuration : Stateful Configuration AgentConfiguration
  unfolding read_agent_configuration
  get_agent_configuration c = if c.valid then read_agent_configuration c else (aborted, c)
