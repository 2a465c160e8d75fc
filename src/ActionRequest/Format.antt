-- ===== src/ActionRequest/Format.antt =====
-- The errors of ActionRequest's constructor, and the fields that are computed at their first use.
use pxp_agent.Base.{String, not, ◌≡◌, refl, none, some, if◌then◌else◌, arith, Option}
use pxp_agent.Exception.{ok, err, request_error}
use pxp_agent.Libraries.{Libraries}
use pxp_agent.Json.{get_text}
use pxp_agent.ActionRequest.{ParsedChunks, RequestType, new, validate_format, is_json, braces}

module _ ⦃L : Libraries⦄ where
  open L use {empty, parse-braces, is_empty, entry}

  -- The first defect of a message, in the order in which they are looked for.
  abbrev pub format_error : ParsedChunks → Option String
  format_error c =
      if not c.has_data
      then some "no data"
      else if c.invalid_data
      then some "invalid data"
      else if not (is_json c.data_type)
      then some "data is not in JSON format"
      else none

  validate_format-format_error :
      (c : ParsedChunks) (w : String)
      → format_error c ≡ some w
      → validate_format c ≡ err (request_error w)
  unfolding validate_format
  validate_format-format_error c w h = ground arith

  braces-empty : braces ≡ ok empty
  unfolding braces
  braces-empty = rw (parse-braces, braces) refl

  -- A message whose envelope has an ID and a sender, and whose data chunk is missing, invalid or not
  -- JSON, is refused with an ActionRequest::Error that names the first of these defects.
  pub new-format_error :
      (t : RequestType) (c : ParsedChunks) (id sender w : String)
      → get_text c.envelope "id" ≡ ok id
      → get_text c.envelope "sender" ≡ ok sender
      → format_error c ≡ some w
      → new t c ≡ err (request_error w)
  unfolding new
  new-format_error t c id sender w h k e =
      rw (braces-empty, h, k, validate_format-format_error c w e, new) refl
