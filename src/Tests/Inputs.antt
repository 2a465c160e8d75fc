-- ===== src/Tests/Inputs.antt =====
-- Requests, modules and worlds for the tests.
use pxp_agent.Base.{String, true, false, List, [], ◌∷◌, refl, pos}
use pxp_agent.Exception.{ok}
use pxp_agent.ActionRequest.{ActionRequest, ParsedChunks, RequestType, json, binary}
use pxp_agent.Module.{Module, ActionOutcome, external}
use pxp_agent.ExternalModule.{ExternalModule, Executor}
use pxp_agent.Connector.{Connection}
use pxp_agent.Connector.Sending.{Open}
use pxp_agent.ThreadContainer.{ThreadContainer, absent}
use pxp_agent.ResultsMutex.{ResultsMutex}
use pxp_agent.Util.Process.{delivered}
use pxp_agent.RequestProcessor.Storage.{ResultsStorage}
use pxp_agent.RequestProcessor.Content.{echo, external_module}
use pxp_agent.RequestProcessor.Requests.{Environment, Processor}
use pxp_agent.RequestProcessor.Task.{TaskWorld}
use pxp_agent.Tests.JsonValue.{Value, member, text, flag, no_members}
use pxp_agent.Tests.Sample.{Folder, KeySchema, sample}

abbrev pub envelope : Value
envelope = member "id" (text "7") (member "sender" (text "pcp://host/controller") no_members)

abbrev pub argument : Value
argument = member "argument" (text "maradona") no_members

abbrev pub content : String → String → Value
content m a = member "transaction_id" (text "42") (
    member "module" (text m) (
      member "action" (text a)
        (member "notify_outcome" (flag true) (member "params" argument no_members))))

abbrev pub chunks : Value → ParsedChunks
chunks data_chunk = record {
  envelope = envelope;
  has_data = true;
  invalid_data = false;
  data_type = json;
  data_chunk = data_chunk;
  debug = [];
  num_invalid_debug = 0;
}

-- A message whose data is not JSON.
abbrev pub binary_chunks : ParsedChunks
binary_chunks = record (chunks no_members) { data_type = binary }

abbrev pub request : RequestType → String → String → ActionRequest
request t m a = record {
  request_type = t;
  id = "7";
  sender = "pcp://host/controller";
  transaction_id = "42";
  module_name = m;
  action = a;
  notify_outcome = true;
  parsed_chunks = chunks (content m a);
  params_cache = no_members;
  params_txt_cache = "";
  pretty_label_cache = "";
  results_dir = "";
}

abbrev pub asking : String → List KeySchema
asking action = record { schema_name = action; keys = ("argument", true) ∷ [] } ∷ []

abbrev pub plain : String → List KeySchema
plain action = record { schema_name = action; keys = [] } ∷ []

abbrev pub a_module : String → String → Module
a_module name action = record {
  module_name = name;
  actions = action ∷ [];
  config_validator = [];
  input_validator = asking action;
  results_validator = plain action;
}

abbrev pub reverse : ExternalModule
reverse = record {
  base = a_module "reverse" "string";
  path = "/opt/modules/reverse";
  config = no_members;
}

abbrev pub reversed : ActionOutcome
reversed = record {
  outcome_type = external;
  exitcode = pos 4;
  std_err = "";
  std_out = "{}";
  results = no_members;
}

abbrev pub connected : Connection
connected = record { send = λ m. ok tt; error_msg_type = "http://puppetlabs.com/error_message" }

pub connected_lem : Open connected
connected_lem m = refl

abbrev pub folder : Folder
folder = record { texts = []; directories = [] }

abbrev pub container : ThreadContainer
container = record {
  check_interval = 500;
  threads_threshold = 10;
  name = "Action Executer";
  threads = [];
  monitoring_thread = absent;
  destructing = false;
  is_monitoring = false;
  num_added_threads = 0;
  num_erased_threads = 0;
}

abbrev pub no_mutexes : ResultsMutex
no_mutexes = record { mutexes = []; next_mutex = 0 }

abbrev pub one_mutex : ResultsMutex
one_mutex = record { mutexes = ("42", 0) ∷ []; next_mutex = 1 }

abbrev pub storage : ResultsStorage
storage = record { metadata_file = "/spool/42/metadata"; action_metadata = no_members }

abbrev pub world : TaskWorld
world = record { disk = folder; mutexes = one_mutex; outbox = []; events = [] }

abbrev pub processor : Processor
processor = record {
  spool_dir = "/spool";
  modules = ("echo", echo (a_module "echo" "echo")) ∷ ("reverse", external_module reverse) ∷ [];
  threads = container;
  mutexes = no_mutexes;
  disk = folder;
  outbox = [];
  tasks = [];
}

abbrev pub executor : Executor
executor = record {
  start = λ path action input d. (ok 1234, d);
  finish = λ pid d. (ok (record { exit_code = pos 0; output = "{}"; error = "" }), d);
}

abbrev pub environment : Environment
environment = record {
  connection = connected;
  executor = executor;
  kill = λ pid. delivered;
  spawn = λ t. ok tt;
  meanwhile = λ d. d;
}
