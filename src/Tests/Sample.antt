-- ===== src/Tests/Sample.antt =====
-- Libraries that the tests use: files in a map, and schemas that ask for keys.
use Prim.Native.String.{◌++◌}
use pxp_agent.Base.{
  String, Bool, true, false, not, ◌||◌, ◌&&◌, List, [], ◌∷◌, some, ◌≡◌, ◌≢◌, sym, ap, ◌∙◌, ◌==◌,
  if◌then◌else◌, is_some, contains, Dict, lookup, insert, lookup-insert, arith,
}
use pxp_agent.Exception.{Result, ok, err, storage_error}
use pxp_agent.Libraries.{SchemaApi, FileApi, Libraries}
use pxp_agent.Tests.JsonValue.{Value, json_values, entry}

pub record Folder : Type 0 where
  pub texts : Dict String
  pub directories : List String

abbrev pub is_there : Folder → String → Bool
is_there d q = is_some (lookup q d.texts) || contains q d.directories

abbrev pub save : Folder → String → String → Result Folder
save d t p = ok (record d { texts = insert p t d.texts })

abbrev pub join : String → String → String
join d a = d ++ ("/" ++ a)

pub saved_is_there :
    (d e : Folder) (t p q : String)
    → save d t p ≡ ok e
    → is_there e q ≡ (if p == q then true else is_there d q)
saved_is_there d e t p q h =
    let k : record d { texts = insert p t d.texts } ≡ e = ground arith in
    ap (λ f. is_there f q) (sym k) ∙ ground (arith, lookup-insert p q t d.texts)

pub saved_is_read :
    (d e : Folder) (t p q : String)
    → save d t p ≡ ok e
    → lookup q e.texts ≡ (if p == q then some t else lookup q d.texts)
saved_is_read d e t p q h =
    let k : record d { texts = insert p t d.texts } ≡ e = ground arith in
    ap (λ f. lookup q f.texts) (sym k) ∙ lookup-insert p q t d.texts

pub save_succeeds : (d : Folder) (t p w : String) → save d t p ≢ err (storage_error w)
save_succeeds d t p w h = ground arith

abbrev pub text_files : FileApi
text_files = record {
  Disk = Folder;
  slash = join;
  stem = λ p. p;
  extension = λ p. "";
  status = λ d q. ok tt;
  status-FileChecked = λ d q. tt;
  canonical = λ d q. ok q;
  canonical-FileChecked = λ d q. tt;
  exists = is_there;
  is_regular_file = λ d q. is_some (lookup q d.texts);
  is_directory = λ d q. contains q d.directories;
  file_readable = λ d q. is_some (lookup q d.texts);
  read = λ d q. lookup q d.texts;
  atomic_write_to_file = save;
  tilde_expand = λ p. p;
  parent_path = λ p. "/";
  created = λ d q. not (is_there d q);
  remove_all = λ d q. ok d;
  create_directories-FileChecked = λ d q. tt;
  remove_all-FileChecked = λ d q. tt;
  create_directories = λ d q. ok (record d { directories = q ∷ d.directories });
  write-not_storage_error = save_succeeds;
  exists-write = saved_is_there;
  read-write = saved_is_read;
}

-- A schema's name, and its keys with the flag that says if they are required.
pub record KeySchema : Type 0 where
  pub schema_name : String
  pub keys : List (String × Bool)

abbrev has_keys : List (String × Bool) → Value → Bool
has_keys [] j = true
has_keys ((k, required) ∷ r) j = (if required then is_some (entry j k) else true) && has_keys r j

abbrev validates : List KeySchema → Value → String → Bool
validates [] j name = false
validates (s ∷ r) j name = if s.schema_name == name then has_keys s.keys j else validates r j name

abbrev includes : List KeySchema → String → Bool
includes [] name = false
includes (s ∷ r) name = s.schema_name == name || includes r name

abbrev pub key_schemas : SchemaApi Value
key_schemas = record {
  Schema = KeySchema;
  Validator = List KeySchema;
  new_schema = λ name. record { schema_name = name; keys = [] };
  schema_of = λ name j. ok (record { schema_name = name; keys = [] });
  add_constraint = λ s k t required. record s { keys = (k, required) ∷ s.keys };
  add_sub_schema = λ s k sub required. record s { keys = (k, required) ∷ s.keys };
  no_schemas = [];
  register_schema = λ v s. ok (s ∷ v);
  includes_schema = includes;
  validates = validates;
  violation = λ v j name. "invalid " ++ name;
  schema_of-SchemaChecked = λ name j. tt;
  register_schema-SchemaChecked = λ v s. tt;
}

instance abbrev pub sample : Libraries
sample = record { ndebug = false; json = json_values; schemas = key_schemas; files = text_files }
