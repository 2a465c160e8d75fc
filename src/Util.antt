-- ===== src/Util.antt =====
-- util/: the standard library's conversions of integers, processes and the PID file.
pub mod Stoi
pub mod Process
pub mod PidFile
pub mod Daemonize
