-- ===== src/Libraries.antt =====
-- The third-party code that the agent calls, as parameters: leatherman's JsonContainer and file
-- functions, boost::filesystem's paths, and the schema validator of cpp-pcp-client.
use Prim.Native.String.{◌++◌}
use pxp_agent.Base.{
  String, Bool, true, Option, none, some, List, ◌≡◌, ◌≢◌, if◌then◌else◌, ◌==◌, ℤ, is_some, contains,
  All,
}
use pxp_agent.Exception.{Result, ok, err, storage_error, schema_error, std_exception}

-- leatherman::json_container. A JsonContainer holds any JSON value.
pub record JsonApi : Type 1 where
  pub Json : Type 0
  pub empty : Json
  -- `JsonContainer { txt }`; `none` is a data_parse_error
  pub parse : String → Option Json
  -- the message of that error
  pub parse_failure : String → String
  pub to_string : Json → String
  pub is_empty : Json → Bool
  -- the value at a key, none where the container is no object or lacks the key
  pub entry : Json → String → Option Json
  pub set : Json → String → Json → Json
  pub of_text : String → Json
  pub of_flag : Bool → Json
  pub of_number : ℤ → Json
  pub of_items : List Json → Json
  pub as_text : Json → Option String
  pub as_flag : Json → Option Bool
  pub as_number : Json → Option ℤ
  pub as_items : Json → Option (List Json)
  -- a double, and the reads and tests by type; a number is an Int if it is no double
  pub Double : Type 0
  pub as_double : Json → Option Double
  pub is_object : Json → Bool
  pub is_text : Json → Bool
  pub is_flag : Json → Bool
  pub is_integer : Json → Bool
  pub is_double : Json → Bool
  -- the keys of an object, in order
  pub keys : Json → List String
  pub as_text-is_text : (j : Json) → is_text j ≡ true → is_some (as_text j) ≡ true
  pub as_flag-is_flag : (j : Json) → is_flag j ≡ true → is_some (as_flag j) ≡ true
  pub as_double-is_double : (j : Json) → is_double j ≡ true → is_some (as_double j) ≡ true
  pub entry-keys : (j : Json) → All (λ k. is_some (entry j k) ≡ true) (keys j)
  pub contains-keys :
      (j : Json) (k : String) → is_some (entry j k) ≡ true → contains k (keys j) ≡ true
  pub parse-braces : parse "{}" ≡ some empty
  pub is_empty-empty : is_empty empty ≡ true
  pub entry-empty : (k : String) → entry empty k ≡ none
  pub entry-set :
      (j : Json) (k q : String) (v : Json)
      → entry (set j k v) q ≡ (if k == q then some v else entry j q)
  pub as_text-of_text : (s : String) → as_text (of_text s) ≡ some s
  pub as_flag-of_flag : (b : Bool) → as_flag (of_flag b) ≡ some b
  pub as_number-of_number : (n : ℤ) → as_number (of_number n) ≡ some n
  -- what is written to a file, with a newline at the end, is read back
  pub parse-to_string : (j : Json) → parse (to_string j ++ "\n") ≡ some j

-- cpp-pcp-client's Schema and Validator.
pub data TypeConstraint : Type 0 where
  string object array bool : TypeConstraint

-- A call that may throw a schema_error and nothing else.
abbrev pub SchemaChecked {ℓ} : {A : Type ℓ} → Result A → Type 0
SchemaChecked (ok a) = Unit {0}
SchemaChecked (err (schema_error w)) = Unit {0}
SchemaChecked _ = ⊥

pub record SchemaApi (Json : Type 0) : Type 1 where
  pub Schema : Type 0
  pub Validator : Type 0
  -- `Schema { name, ContentType::Json }`, and `Schema { name, json }`, which may throw schema_error
  pub new_schema : String → Schema
  pub schema_of : String → Json → Result Schema
  pub add_constraint : Schema → String → TypeConstraint → Bool → Schema
  pub add_sub_schema : Schema → String → Schema → Bool → Schema
  pub no_schemas : Validator
  pub register_schema : Validator → Schema → Result Validator
  pub includes_schema : Validator → String → Bool
  -- false is a validation_error
  pub validates : Validator → Json → String → Bool
  -- the message of that error
  pub violation : Validator → Json → String → String
  pub schema_of-SchemaChecked : (name : String) (j : Json) → SchemaChecked (schema_of name j)
  pub register_schema-SchemaChecked :
      (v : Validator) (s : Schema) → SchemaChecked (register_schema v s)

-- A call that may throw a boost::filesystem::filesystem_error and nothing else.
abbrev pub FileChecked {ℓ} : {A : Type ℓ} → Result A → Type 0
FileChecked (ok a) = Unit {0}
FileChecked (err (std_exception w)) = Unit {0}
FileChecked _ = ⊥

-- leatherman::file_util and boost::filesystem.
pub record FileApi : Type 1 where
  pub Disk : Type 0
  -- fs::path's operator/
  pub slash : String → String → String
  -- fs::path's stem and extension
  pub stem : String → String
  pub extension : String → String
  pub parent_path : String → String
  pub tilde_expand : String → String
  -- what exists, is_directory and is_regular_file throw for a path whose status cannot be
  -- determined, and the answers that they give otherwise
  pub status : Disk → String → Result (Unit {0})
  pub exists : Disk → String → Bool
  pub is_regular_file : Disk → String → Bool
  pub is_directory : Disk → String → Bool
  -- the path without symbolic links, which throws if one of them leads nowhere
  pub canonical : Disk → String → Result String
  pub file_readable : Disk → String → Bool
  pub read : Disk → String → Option String
  pub atomic_write_to_file : Disk → String → String → Result Disk
  pub create_directories : Disk → String → Result Disk
  -- the Boolean that create_directories gives
  pub created : Disk → String → Bool
  pub remove_all : Disk → String → Result Disk
  pub canonical-FileChecked : (d : Disk) (p : String) → FileChecked (canonical d p)
  pub status-FileChecked : (d : Disk) (p : String) → FileChecked (status d p)
  pub create_directories-FileChecked :
      (d : Disk) (p : String) → FileChecked (create_directories d p)
  pub remove_all-FileChecked : (d : Disk) (p : String) → FileChecked (remove_all d p)
  -- the agent's own exception is none of the library's
  pub write-not_storage_error :
      (d : Disk) (t p w : String) → atomic_write_to_file d t p ≢ err (storage_error w)
  -- a file that was written is there, can be read back, and no other file has changed
  pub exists-write :
      (d e : Disk) (t p q : String)
      → atomic_write_to_file d t p ≡ ok e
      → exists e q ≡ (if p == q then true else exists d q)
  pub read-write :
      (d e : Disk) (t p q : String)
      → atomic_write_to_file d t p ≡ ok e
      → read e q ≡ (if p == q then some t else read d q)

pub record Libraries : Type 1 where
  pub json : JsonApi
  pub open json use *
  pub schemas : SchemaApi Json
  pub open schemas use *
  -- whether the build defines NDEBUG, which leaves out the assert of the status module
  pub ndebug : Bool
  pub files : FileApi
  pub open files use *
