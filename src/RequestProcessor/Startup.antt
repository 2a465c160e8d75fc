-- ===== src/RequestProcessor/Startup.antt =====
-- The constructor of RequestProcessor and logLoadedModules. What the directory iterators and the
-- executables give is as in the loading of the modules; `plural` is leatherman's.
use Prim.Native.String.{◌++◌}
use pxp_agent.Base.{ℕ, String, List, [], ◌∷◌, if◌then◌else◌, is_blank, length, Dict}
use pxp_agent.Exception.{Result, ok, aborted, ◌>>=◌}
use pxp_agent.Libraries.{Libraries}
use pxp_agent.Configuration.{AgentConfiguration}
use pxp_agent.ExternalModule.{Execution}
use pxp_agent.ThreadContainer
use pxp_agent.ThreadContainer.{threads_monitoring_interval_ms, default_threads_threshold}
use pxp_agent.RequestProcessor.Content.{Loaded, base}
use pxp_agent.RequestProcessor.Modules.{
  load_modules_configuration, load_internal_modules, load_external_modules_from,
}
use pxp_agent.RequestProcessor.Requests.{Processor}

-- What is read at the start: the metadata validator, the paths of the configuration files and of
-- the entries of the modules directory, and the output of the executables.
pub record Installation ⦃L : Libraries⦄ : Type 0 where
  pub validator : L.Validator
  pub config_files : List String
  pub module_files : List (Result String)
  pub run : String → Execution

-- The loop over the actions of a module, with the variables `txt` and `actions_list`.
list_actions : List String → String → String → String × String
list_actions [] txt actions_list = (txt, actions_list)
list_actions (action ∷ actions) txt actions_list =
    if is_blank actions_list
    then list_actions actions "action" (actions_list ++ (": " ++ action))
    else list_actions actions txt (actions_list ++ (", " ++ action))

module _ ⦃L : Libraries⦄ where
  open L use {Disk, Json}

  -- The lines of the log.
  unfoldable pub log_loaded_modules : (ℕ → String) → Dict Loaded → List String
  unfolding list_actions
  log_loaded_modules plural [] = []
  log_loaded_modules plural ((name, m) ∷ modules) =
      let actions = (base m).actions in
      let (txt, actions_list) = list_actions actions "found no action" "" in
      ("Loaded '"
        ++ (name ++ ("' module - " ++ (txt ++ (plural (length actions) ++ actions_list)))))
      ∷ log_loaded_modules plural modules

  -- The members of a new RequestProcessor, with its modules.
  abbrev pub processor_with : AgentConfiguration → Disk → Dict Loaded → Processor
  unfolding ThreadContainer.new
  processor_with agent d modules = record {
    spool_dir = agent.spool_dir;
    modules = modules;
    threads =
        ThreadContainer.new "Action Executer" threads_monitoring_interval_ms
          default_threads_threshold;
    mutexes = record { mutexes = []; next_mutex = 0 };
    disk = d;
    outbox = [];
    tasks = [];
  }

  load_external :
      Installation → AgentConfiguration → Disk → Dict Json → Dict Loaded → Result (Dict Loaded)
  unfolding load_external_modules_from
  load_external i agent d configs modules =
      if is_blank agent.modules_dir
      then ok modules
      else load_external_modules_from i.validator i.run configs d agent.modules_dir i.module_files
          modules

  load_modules : Installation → AgentConfiguration → Disk → Result (Dict Loaded)
  unfolding load_modules_configuration load_internal_modules load_external
  load_modules i agent d = do
    configs ← load_modules_configuration d agent.modules_config_dir i.config_files []
    modules ← load_internal_modules []
    load_external i agent d configs modules

  unfoldable pub new : Installation → AgentConfiguration → Disk → Result Processor
  unfolding load_modules
  new i agent d =
      if is_blank agent.spool_dir
      then aborted
      else (load_modules i agent d >>= λ modules. ok (processor_with agent d modules))
