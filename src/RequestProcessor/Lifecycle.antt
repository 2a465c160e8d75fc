-- ===== src/RequestProcessor/Lifecycle.antt =====
-- request_processor.cc and modules/status.cc together: what a status query says of a task that has
-- come to its end.
use pxp_agent.Base.{String, Bool, true, false, not, ◌&&◌, some, ◌≡◌, ap, sym, subst, ◌∙◌, ℕ, ℤ}
use pxp_agent.Exception.{Result, ok}
use pxp_agent.Libraries.{Libraries}
use pxp_agent.Json.{get_flag, get_text}
use pxp_agent.ActionRequest.{ActionRequest, params}
use pxp_agent.Module.{ActionOutcome, execute_action}
use pxp_agent.ExternalModule.{ExternalModule}
use pxp_agent.ResultsMutex
use pxp_agent.Connector.{Connection}
use pxp_agent.Connector.Sending.{Open}
use pxp_agent.Util.Process.{Signalled}
use pxp_agent.Modules.Status.{PidCheck, Metadata, read_metadata, check_pid, is_running, call_action}
use pxp_agent.Modules.Status.Table.{
  Row, asserts, table_status, table_files, completed_status, files_of, call_action-Row,
}
use pxp_agent.RequestProcessor.Storage.{ResultsStorage}
use pxp_agent.RequestProcessor.Task.{TaskWorld, finish_task}
use pxp_agent.RequestProcessor.Task.Order.{recorded_exit_code}
use pxp_agent.RequestProcessor.Task.Returns.{Ran, Writable, finish_task-ends}

module _ ⦃L : Libraries⦄ where
  open L use {Disk, exists, slash, ndebug}

  -- The answer for a completed action with this exit code.
  abbrev pub Reported : String → String → ℤ → Disk → Result ActionOutcome → Type 0
  Reported spool_dir t_id code d r =
      Row t_id (completed_status code) (some (files_of (slash spool_dir t_id) d, code)) r

  reported :
      (spool_dir : String) (kill : ℤ → Signalled) (d d' : Disk) (q : ActionRequest) (t_id : String)
      (c : PidCheck) (code : ℤ)
      → get_text (params q).0 "transaction_id" ≡ ok t_id
      → exists d (slash spool_dir t_id) ≡ true
      → check_pid kill d (slash (slash spool_dir t_id) "pid") ≡ ok c
      → is_running c && not ndebug ≡ false
      → read_metadata d' (slash (slash spool_dir t_id) "metadata")
        ≡ some (record { exitcode = code; completed = true })
      → Reported spool_dir t_id code d' (call_action spool_dir kill d d' q)
  reported spool_dir kill d d' q t_id c code t x p a m =
      subst
        (λ (n : Metadata).
          Row t_id (table_status n c) (table_files n c (files_of (slash spool_dir t_id) d'))
            (call_action spool_dir kill d d' q))
        m
        (call_action-Row spool_dir kill d d' q t_id c t x p
          (subst (λ (n : Metadata). asserts n c ≡ false) (sym m) a))

  -- A task of an external module comes to its end, if the transaction has the mutex n, the module
  -- gave an outcome or threw an exception, the request says whether it wants a response, the
  -- connection takes every message, and the metadata file, which is the one of the transaction in
  -- the spool directory, can be written. A status query for the transaction that reads the
  -- metadata after that, and finds the results directory and a PID file whose text is no number
  -- out of the range of an `int` nor, unless the build defines NDEBUG, the PID of an existing
  -- process, is answered with the exit code of the action, or EXIT_FAILURE if the action failed,
  -- with success or failure by this code, and with the texts of stdout and stderr on the disk.
  pub finish_task-Reported :
      (k : Connection) (m : ExternalModule) (r : ActionRequest) (s : ResultsStorage)
      (duration : String) (called : Result ActionOutcome) (d e : Disk) (w : TaskWorld) (n : ℕ)
      (b : Bool) (spool_dir : String) (kill : ℤ → Signalled) (q : ActionRequest) (c : PidCheck)
      → ResultsMutex.get r.transaction_id w.mutexes ≡ ok n
      → Ran called
      → get_flag r.parsed_chunks.data_chunk "notify_outcome" ≡ ok b
      → Open k
      → Writable s.metadata_file
      → s.metadata_file ≡ slash (slash spool_dir r.transaction_id) "metadata"
      → get_text (params q).0 "transaction_id" ≡ ok r.transaction_id
      → exists e (slash spool_dir r.transaction_id) ≡ true
      → check_pid kill e (slash (slash spool_dir r.transaction_id) "pid") ≡ ok c
      → is_running c && not ndebug ≡ false
      → (w' : TaskWorld) × (finish_task k m r s duration called d w ≡ (ok tt, w'))
        × Reported spool_dir r.transaction_id
            (recorded_exit_code (execute_action m.base r called))
            w'.disk
            (call_action spool_dir kill e w'.disk q)
  finish_task-Reported k m r s duration called d e w n b spool_dir kill q c h1 h2 h3 h4 h5 f t x p
        a =
      let (w', g, z) = finish_task-ends k m r s duration called d w n b h1 h2 h3 h4 h5 in
      (
        w',
        g,
        reported spool_dir kill e w'.disk q r.transaction_id c
            (recorded_exit_code (execute_action m.base r called)) t x p a
            (ap (read_metadata w'.disk) (sym f) ∙ z.1),
      )
