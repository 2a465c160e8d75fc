-- ===== src/Lib.antt =====
-- pxp-agent: the agent that executes actions for the controllers of a PCP network. A message from
-- the broker becomes a request; the request processor validates it, executes the action of a module,
-- at once or in a thread of its own, and replies through the connector. A non-blocking action leaves
-- its metadata, its output and its PID in a directory of the spool, where the status module reads
-- them; a mutex for each transaction keeps the two apart, and a container owns the threads.
--
-- Which file models what (paths from the root of the repository):
-- - ActionRequest: lib/src/action_request.cc and its header. An accessor that fills a mutable field
--   returns the request beside the value.
-- - Module, Modules/Echo, Modules/Ping, Modules/Status: lib/src/module.cc, lib/src/modules/*.cc,
--   lib/inc/pxp-agent/{module,action_outcome}.hpp.
-- - Configuration: lib/src/configuration.cc, lib/src/configuration/posix/configuration.cc and
--   lib/inc/pxp-agent/configuration.hpp. Configuration has the singleton's fields; Defaults the table
--   of options and initialize; Parsing parseOptions and parseConfigFile; Logging setupLogging and
--   reopenLogfile; Validation validate; Settings get, set and getAgentConfiguration. An operation is
--   a function of the monad of Exception/Stateful: it takes the configuration and gives a result
--   beside the configuration that is left, also where it throws.
-- - Agent: lib/src/agent.cc. RequestProcessor/Startup is the constructor that it calls.
-- - Main: exe/main.cc. `main` gives the exit code; HW::Start runs the action `start`.
-- - ExternalModule: lib/src/external_module.cc, the execution of actions; ExternalModule/Registration,
--   the constructors, with the executable's metadata as an argument.
-- - ResultsMutex: lib/src/results_mutex.cc. A mutex is a number, taken afresh by `add`.
-- - ThreadContainer: lib/src/thread_container.cc. A function that holds the lock from its first
--   statement to its last is one step, and so is one turn of the monitoring loop; a run is any list
--   of additions, completions and wake-ups. Counters are of 32 bits and wrap.
-- - RequestProcessor/Storage, Task, Content, Requests, Modules: lib/src/request_processor.cc. The
--   state that the functions share is a record that they take and give back, and the order in which a task
--   touches it is a list of events. RequestProcessor/Lifecycle follows a task to its status query.
-- - Connector, Schemas: lib/src/pxp_connector.cc, lib/src/pxp_schemas.cc. A message that the
--   connection took is put in an outbox.
-- - Util/PidFile, Util/Process, Util/Stoi: lib/src/util/posix/{pid_file,process}.cc and the number
--   conversions of the standard library that they use, on an int of 32 bits.
-- - Util/Daemonize: lib/src/util/posix/daemonize.cc. A run is that of one process, through the two
--   forks; the calls that it makes of the system are listed in their order. Phases has `daemonize`
--   and its parts, States the states between them, Rules what the proofs in Running share.
-- - Exception: the exceptions as values; a failed assert and std::terminate are `aborted`. The assert
--   of the status module depends on NDEBUG, which is a parameter of the build.
-- - Libraries: leatherman (JSON, files, processes), boost::filesystem and the schemas and messages of
--   cpp-pcp-client are parameters, with laws for what their documentation says: what is set is read
--   back, what is written to a file is read back, and no other file changes.
-- - HorseWhisperer, in Configuration, is a parameter likewise: flags with a value for each name, and
--   the settings, the result and the action that the parser gives for a command line.
-- - Tests: concrete libraries, and the theorems at concrete inputs.
--
-- The loops run over finite lists, and the loop of the monitoring thread is a step for each of its
-- turns. Only the digits of a number are made with fuel, in Util/Stoi: the number itself and one
-- more, which is enough, as the round trip through std::stoi shows. The loop of `validate` that looks
-- for a free path draws UUIDs from a list; it has an end exactly if the path of one of them is free,
-- and runs on, as `aborted`, if not.
--
-- Not modelled: the directory iterators, whose results are arguments; the signal handler of a daemon
-- and the interleaving of a process with its forks (`main` takes the outcome of daemonize as an
-- argument); printed text, log messages, elapsed time and the Windows variants, which are input and
-- output only. A path whose status cannot be determined makes exists, is_directory and
-- is_regular_file throw in Configuration, in PIDFile::read and where external modules are loaded;
-- elsewhere (Storage, Status, ExternalModule, the clean-up of a PID file, the loading of the
-- configuration files) their answer is taken to be known.
mod Base
pub mod Exception
pub mod Libraries
pub mod Json
pub mod ActionRequest
pub mod ResultsMutex
pub mod ThreadContainer
pub mod Util
pub mod Module
pub mod Modules
pub mod ExternalModule
pub mod Schemas
pub mod Configuration
pub mod Connector
pub mod RequestProcessor
pub mod Agent
pub mod Main
pub mod Tests
