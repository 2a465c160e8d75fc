-- ===== src/RequestProcessor.antt =====
-- request_processor.cc: the storage of results, the tasks of non-blocking requests, the processing
-- of requests, and the loading of modules.
pub mod Storage
pub mod Task
pub mod Content
pub mod Requests
pub mod Modules
pub mod Startup
pub mod Lifecycle
