-- ===== src/ActionRequest.antt =====
-- action_request.cc and action_request.hpp: a request as read from the chunks of a message. The
-- accessors that initialise a field at their first call return the request beside the value.
pub mod Format
pub mod Caching
use Prim.Native.String.{◌++◌}
use pxp_agent.Base.{
  ℕ, String, Bool, true, false, not, ◌&&◌, Option, none, some, List, if◌then◌else◌, is_blank,
}
use pxp_agent.Exception.{Result, ok, err, request_error, data_parse_error, ◌>>=◌, ◌>>◌}
use pxp_agent.Libraries.{Libraries}
use pxp_agent.Json.{includes, get_text, get_flag}

pub data RequestType : Type 0 where
  blocking non_blocking : RequestType

abbrev pub is_non_blocking : RequestType → Bool
is_non_blocking blocking = false
is_non_blocking non_blocking = true

abbrev pub request_type_names : RequestType → String
request_type_names blocking = "blocking"
request_type_names non_blocking = "non blocking"

pub data ContentType : Type 0 where
  json binary : ContentType

abbrev is_json : ContentType → Bool
is_json json = true
is_json binary = false

-- PCPClient::ParsedChunks, as the agent uses it.
pub record ParsedChunks ⦃L : Libraries⦄ : Type 0 where
  pub envelope : L.Json
  pub has_data : Bool
  pub invalid_data : Bool
  pub data_type : ContentType
  pub data_chunk : L.Json
  pub debug : List L.Json
  pub num_invalid_debug : ℕ

pub record ActionRequest ⦃L : Libraries⦄ : Type 0 where
  pub request_type : RequestType
  pub id : String
  pub sender : String
  pub transaction_id : String
  pub module_name : String
  pub action : String
  pub notify_outcome : Bool
  pub parsed_chunks : ParsedChunks
  pub params_cache : L.Json
  pub params_txt_cache : String
  pub pretty_label_cache : String
  pub results_dir : String

module _ ⦃L : Libraries⦄ where
  open L use {Json, entry, is_empty, parse, to_string}

  validate_format : ParsedChunks → Result (Unit {0})
  validate_format c =
      if not c.has_data
      then err (request_error "no data")
      else if c.invalid_data
      then err (request_error "invalid data")
      else if not (is_json c.data_type)
      then err (request_error "data is not in JSON format")
      else ok tt

  -- `params_ { "{}" }`
  braces : Result Json
  braces = elim (parse "{}") [ none ↦ err (data_parse_error "{}") | some j ↦ ok j ]

  notify : RequestType → Json → Result Bool
  notify blocking j = ok true
  notify non_blocking j = get_flag j "notify_outcome"

  -- The constructor.
  unfoldable pub new : RequestType → ParsedChunks → Result ActionRequest
  unfolding validate_format braces notify
  new t c = do
    params ← braces
    id ← get_text c.envelope "id"
    sender ← get_text c.envelope "sender"
    validate_format c
    transaction_id ← get_text c.data_chunk "transaction_id"
    m ← get_text c.data_chunk "module"
    a ← get_text c.data_chunk "action"
    notify_outcome ← notify t c.data_chunk
    ok (record {
      request_type = t;
      id = id;
      sender = sender;
      transaction_id = transaction_id;
      module_name = m;
      action = a;
      notify_outcome = notify_outcome;
      parsed_chunks = c;
      params_cache = params;
      params_txt_cache = "";
      pretty_label_cache = "";
      results_dir = "";
    })

  unfoldable pub set_results_dir : String → ActionRequest → ActionRequest
  set_results_dir dir r = record r { results_dir = dir }

  fetch_params : Option Json → Json → Json
  fetch_params none cached = cached
  fetch_params (some j) cached = j

  unfoldable pub params : ActionRequest → Json × ActionRequest
  unfolding fetch_params
  params r =
      let p =
        if is_empty r.params_cache && includes r.parsed_chunks.data_chunk "params"
        then fetch_params (entry r.parsed_chunks.data_chunk "params") r.params_cache
        else r.params_cache in
      (p, record r { params_cache = p })

  unfoldable pub params_txt : ActionRequest → String × ActionRequest
  unfolding params
  params_txt r =
      if is_blank r.params_txt_cache
      then (let (p, r') = params r in
          let t = to_string p in (t, record r' { params_txt_cache = t }))
      else (r.params_txt_cache, r)

  unfoldable pub pretty_label : ActionRequest → String × ActionRequest
  pretty_label r =
      if is_blank r.pretty_label_cache
      then (let t =
            request_type_names r.request_type
            ++ " '"
            ++ r.module_name
            ++ " "
            ++ r.action
            ++ "' request (transaction "
            ++ r.transaction_id
            ++ ")" in
          (t, record r { pretty_label_cache = t }))
      else (r.pretty_label_cache, r)
