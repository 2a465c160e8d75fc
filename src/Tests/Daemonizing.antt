-- ===== src/Tests/Daemonizing.antt =====
-- `daemonize` at a concrete system whose calls all succeed, on the disk of Running.
use pxp_agent.Base.{◌∷◌, true, false, pos}
use pxp_agent.Util.Process.{failed, esrch}
use pxp_agent.Util.PidFile.{returned}
use pxp_agent.Util.Daemonize.{System, in_child}
use pxp_agent.Util.Daemonize.Phases.{daemonize}
use pxp_agent.Util.Daemonize.Rules.{Post}
use pxp_agent.Util.Daemonize.States.{initial}
use pxp_agent.Util.Daemonize.Running.{Left, Became, daemonize-Became}
use pxp_agent.Tests.Sample.{sample}
use pxp_agent.Tests.Options.{whisperer, configuration}
use pxp_agent.Tests.Running.{host_disk}

abbrev system : System
system = record {
  getppid = 100;
  agent_pid = pos 42;
  open_file = λ d path. returned (3, record d { texts = (path, "") ∷ d.texts });
  kill = λ pid. failed esrch;
  set_lock = λ process fd t. returned tt;
  wait_lock = λ fd t. returned tt;
  test_lock = λ fd t. returned true;
  fork = λ process. in_child;
  setsid = true;
  block_mask = true;
  sigaction = true;
  reset_mask = true;
  chdir = true;
  signal = λ s. true;
}

daemonize-Became_example :
    Post
      (Became system (configuration false) host_disk)
      (Left system (configuration false) host_disk)
      (daemonize system (configuration false) (initial host_disk))
daemonize-Became_example = daemonize-Became system (configuration false) host_disk
