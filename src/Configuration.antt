-- ===== src/Configuration.antt =====
-- configuration.hpp: the options, the state of the Configuration singleton, and its access to the
-- flags of HorseWhisperer, whose own singleton is a parameter.
pub mod Defaults
pub mod Ready
pub mod Parsing
pub mod Logging
pub mod Validation
pub mod Settings
use pxp_agent.Base.{
  ℕ, String, Bool, true, false, Option, none, some, List, [], ◌∷◌, ◌≡◌, ◌==◌, ℤ, is_some, Dict, All,
  lookup, if◌then◌else◌,
}
use pxp_agent.Exception.{Result, ok, err, aborted, undefined_flag_error}
use pxp_agent.Exception.Stateful.{Stateful}
use pxp_agent.Libraries.{Libraries}

pub data Types : Type 0 where
  integer string bool double : Types

-- The value of an option or a flag, with its type.
pub data Value (D : Type 0) : Type 0 where
  integer_value : ℤ → Value D
  string_value : String → Value D
  bool_value : Bool → Value D
  double_value : D → Value D

abbrev pub type_of : {D : Type 0} → Value D → Types
type_of (integer_value n) = integer
type_of (string_value s) = string
type_of (bool_value b) = bool
type_of (double_value x) = double

abbrev pub as_integer : {D : Type 0} → Value D → Option ℤ
as_integer (integer_value n) = some n
as_integer _ = none

abbrev pub as_string : {D : Type 0} → Value D → Option String
as_string (string_value s) = some s
as_string _ = none

abbrev pub as_bool : {D : Type 0} → Value D → Option Bool
as_bool (bool_value b) = some b
as_bool _ = none

-- EntryBase, and Entry<T> with its default.
pub record Entry (D : Type 0) : Type 0 where
  pub name : String
  pub aliases : String
  pub help : String
  pub type : Types
  pub configured : Bool
  pub value : Value D

-- Configuration::Agent
pub record AgentConfiguration : Type 0 where
  pub modules_dir : String
  pub broker_ws_uri : String
  pub ca : String
  pub crt : String
  pub key : String
  pub spool_dir : String
  pub modules_config_dir : String
  pub client_type : String
  pub connection_timeout : ℤ

-- The names of the options, each with its type.
abbrev pub option_types : Dict Types
option_types =
    ("config-file", string)
    ∷ ("broker-ws-uri", string)
    ∷ ("connection-timeout", integer)
    ∷ ("ssl-ca-cert", string)
    ∷ ("ssl-cert", string)
    ∷ ("ssl-key", string)
    ∷ ("logfile", string)
    ∷ ("loglevel", string)
    ∷ ("modules-dir", string)
    ∷ ("modules-config-dir", string)
    ∷ ("spool-dir", string)
    ∷ ("foreground", bool)
    ∷ ("pidfile", string)
    ∷ []

abbrev pub is_option : String → Bool
is_option q = is_some (lookup q option_types)

-- leatherman's log levels
pub data LogLevel : Type 0 where
  none_level trace debug info warning error fatal : LogLevel

-- What the loggers of leatherman and of cpp-pcp-client have been set up with: the file that they
-- write to, none for the standard output, and whether SIGUSR2 reopens it.
pub record Loggers : Type 0 where
  pub stream : Option String
  pub level : LogLevel
  pub pcp_level : String
  pub reopens : Bool

-- HW::ParseResult
pub data ParseResult : Type 0 where
  parse_ok help version failure invalid_flag : ParseResult

-- The global flags of HorseWhisperer. What is said of them is said of the names of the options,
-- each of which is the only name of its flag.
pub record HorseWhisperer ⦃L : Libraries⦄ : Type 1 where
  pub Flags : Type 0
  -- Reset
  pub reset : Flags
  -- DefineGlobalFlag, with the flag's names, its help and its default
  pub define : Flags → String → String → Value L.Double → Flags
  -- GetFlag; none is an undefined_flag_error
  pub get : Flags → String → Option (Value L.Double)
  -- the message of that error
  pub undefined : String → String
  -- SetFlag for a flag that is defined
  pub set : Flags → String → Value L.Double → Flags
  -- Parse, once the options are defined: the options that the arguments set, in order, each by
  -- SetFlag, and what it returns or throws
  pub settings : List String → List (String × Value L.Double)
  pub outcome : List String → Result ParseResult
  -- what Start gives by itself, once Parse has been called: none where it runs the callback of the
  -- action `start` and gives its exit code. A flag at the end of the arguments takes the action for
  -- its value, and Start then runs nothing; after a failed Parse it runs nothing either.
  pub start_code : List String → Option ℕ
  pub get-define :
      (f : Flags) (n q help : String) (v : Value L.Double)
      → is_option n ≡ true
      → is_option q ≡ true
      → get (define f n help v) q ≡ (if n == q then some v else get f q)
  pub get-set :
      (f : Flags) (n q : String) (v : Value L.Double)
      → is_option n ≡ true
      → is_option q ≡ true
      → get (set f n v) q ≡ (if n == q then some v else get f q)
  pub settings-typed :
      (args : List String) → All (λ s. lookup s.0 option_types ≡ some (type_of s.1)) (settings args)

pub record Configuration ⦃L : Libraries⦄ ⦃H : HorseWhisperer⦄ : Type 0 where
  pub valid : Bool
  pub defaults : List (Entry L.Double)
  pub config_file : String
  pub agent_configuration : AgentConfiguration
  pub logfile : String
  -- the file that `logfile_fstream_` is open for
  pub logfile_fstream : Option String
  -- the state of the loggers, none before their setup
  pub logging : Option Loggers
  -- the flags of the HorseWhisperer singleton
  pub flags : H.Flags

module _ ⦃L : Libraries⦄ ⦃H : HorseWhisperer⦄ where
  open L use {Double}
  open H use {get, set, undefined}

  -- `defaults_.get<Option::ByName>().find(name)`
  unfoldable pub find : String → List (Entry Double) → Option (Entry Double)
  find q [] = none
  find q (e ∷ es) = if e.name == q then some e else find q es

  -- The callback of the flag of an option: `entry_ptr->configured = true`.
  unfoldable pub mark : String → List (Entry Double) → List (Entry Double)
  mark q [] = []
  mark q (e ∷ es) =
      let rest = mark q es in if e.name == q then record e { configured = true } ∷ es else e ∷ rest

  -- HW::SetFlag, which calls the flag's callback.
  unfoldable pub set_flag : String → Value Double → Stateful Configuration (Unit {0})
  unfolding mark
  set_flag name v c =
      if is_some (get c.flags name)
      then (ok tt, record c { flags = set c.flags name v; defaults = mark name c.defaults })
      else (err (undefined_flag_error (undefined name)), c)

  -- The value of a flag of another type is not read as a T.
  abbrev pub read_as :
      {A : Type 0} → (Value Double → Option A) → String → Option (Value Double) → Result A
  read_as read name none = err (undefined_flag_error (undefined name))
  read_as read name (some v) = elim (read v) [ none ↦ aborted | some a ↦ ok a ]

  -- HW::GetFlag<T>, where `read` takes a value as a T
  abbrev pub get_flag : {A : Type 0} → (Value Double → Option A) → String → Configuration → Result A
  get_flag read name c = read_as read name (get c.flags name)
