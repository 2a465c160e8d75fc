-- ===== src/Exception.antt =====
-- C++ exceptions as values: a constructor for each class that the code throws or catches, with the
-- text of `what()`.
pub mod Stateful
use pxp_agent.Base.{String, ◌≡◌, refl, ◌⊎◌, inl, inr}

pub data Exception : Type 0 where
  -- Module::LoadingError, Module::ProcessingError
  loading_error processing_error : String → Exception
  -- ActionRequest::Error, RequestProcessor::Error, ResultsStorage::Error, ResultsMutex::Error
  request_error processor_error storage_error mutex_error : String → Exception
  -- ThreadContainer::Error, PIDFile::Error, Configuration::Error
  container_error pid_file_error configuration_error : String → Exception
  -- leatherman's data_parse_error, and its data_key_error and data_type_error
  data_parse_error data_error : String → Exception
  -- Agent::WebSocketConfigurationError and Agent::FatalError, the two classes below Agent::Error
  web_socket_configuration_error fatal_error : String → Exception
  -- cpp-pcp-client's validation_error, schema_error and connection_error, and the two classes below
  -- connection_error that the code names
  validation_error schema_error connection_error : String → Exception
  connection_config_error connection_fatal_error : String → Exception
  -- HorseWhisperer's horsewhisperer_error, and the two classes below it that the code names
  horsewhisperer_error undefined_flag_error flag_validation_error : String → Exception
  -- std::invalid_argument, std::out_of_range, and any other std::exception
  invalid_argument out_of_range std_exception : String → Exception
  -- thrown, and not a std::exception
  unknown : Exception

-- e.what()
abbrev pub what : Exception → String
what (loading_error w) = w
what (processing_error w) = w
what (request_error w) = w
what (processor_error w) = w
what (storage_error w) = w
what (mutex_error w) = w
what (container_error w) = w
what (pid_file_error w) = w
what (configuration_error w) = w
what (data_parse_error w) = w
what (data_error w) = w
what (validation_error w) = w
what (schema_error w) = w
what (web_socket_configuration_error w) = w
what (fatal_error w) = w
what (connection_error w) = w
what (connection_config_error w) = w
what (connection_fatal_error w) = w
what (horsewhisperer_error w) = w
what (undefined_flag_error w) = w
what (flag_validation_error w) = w
what (invalid_argument w) = w
what (out_of_range w) = w
what (std_exception w) = w
what unknown = ""

-- A Configuration::Error, or the filesystem_error of boost, which is among the other exceptions of
-- the class std::exception.
abbrev pub IsSettingsError : Exception → Type 0
IsSettingsError (configuration_error w) = Unit {0}
IsSettingsError (std_exception w) = Unit {0}
IsSettingsError _ = ⊥

pub data Result {ℓ} (A : Type ℓ) : Type ℓ where
  ok : A → Result A
  err : Exception → Result A
  -- a failed assert, or std::terminate
  aborted : Result A

infixl 5 ◌>>=◌ ◌>>◌
abbrev pub ◌>>=◌ {ℓ κ} : {A : Type ℓ} {B : Type κ} → Result A → (A → Result B) → Result B
ok a >>= f = f a
err e >>= f = err e
aborted >>= f = aborted

abbrev pub ◌>>◌ {ℓ} : {B : Type ℓ} → Result (Unit {0}) → Result B → Result B
m >> k = m >>= λ _. k

-- A call that follows another one, for a module whose `>>` is that of a state.
abbrev pub guarded {ℓ} : {A : Type ℓ} → Result (Unit {0}) → Result A → Result A
guarded (ok u) r = r
guarded (err e) r = err e
guarded aborted r = aborted

pub Result-cases {ℓ} :
    {A : Type ℓ} (r : Result A)
    → ((a : A) × (r ≡ ok a)) ⊎ ((e : Exception) × (r ≡ err e)) ⊎ (r ≡ aborted)
Result-cases (ok a) = inl (a, refl)
Result-cases (err e) = inr (inl (e, refl))
Result-cases aborted = inr (inr refl)

-- A successful computation that ends in another one has succeeded in both.
pub bind_ok {ℓ κ} :
    {A : Type ℓ} {B : Type κ} (r : Result A) (f : A → Result B) {b : B}
    → (r >>= f) ≡ ok b
    → (a : A) × (r ≡ ok a) × (f a ≡ ok b)
bind_ok (ok a) f h = (a, refl, h)
bind_ok (err e) f h = cc
bind_ok aborted f h = cc
