-- ===== src/Json.antt =====
-- The typed reads of leatherman's JsonContainer: `get<T>(key)` throws a data_error where the key is
-- missing or holds a value of another type.
use pxp_agent.Base.{String, Bool, Option, none, some, List, ℤ, is_some}
use pxp_agent.Exception.{Result, ok, err, data_error}
use pxp_agent.Libraries.{Libraries}

abbrev pub or_data_error {ℓ} : {A : Type ℓ} → Option A → String → Result A
or_data_error none key = err (data_error key)
or_data_error (some a) key = ok a

abbrev pub typed : {J A : Type 0} → (J → Option A) → Option J → Option A
typed read none = none
typed read (some j) = read j

module _ ⦃L : Libraries⦄ where
  open L use {Json, entry, as_text, as_flag, as_number, as_items}

  abbrev pub includes : Json → String → Bool
  includes j key = is_some (entry j key)

  abbrev pub get_text : Json → String → Result String
  get_text j key = or_data_error (typed as_text (entry j key)) key

  abbrev pub get_flag : Json → String → Result Bool
  get_flag j key = or_data_error (typed as_flag (entry j key)) key

  abbrev pub get_number : Json → String → Result ℤ
  get_number j key = or_data_error (typed as_number (entry j key)) key

  abbrev pub get_items : Json → String → Result (List Json)
  get_items j key = or_data_error (typed as_items (entry j key)) key

  abbrev pub get_json : Json → String → Result Json
  get_json j key = or_data_error (entry j key) key
