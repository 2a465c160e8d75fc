-- ===== src/Modules/Status.antt =====
-- modules/status.cc: the status of a non-blocking transaction, from the files of its results
-- directory. The PID file is read from the disk as it is at first, `d`; the other files are read
-- after the possible sleep and under the transaction's mutex, from the disk as it is then, `d'`.
pub mod Table
pub mod Metadata
use pxp_agent.Base.{
  String, Bool, true, false, not, ◌&&◌, ◌||◌, Option, none, some, [], ◌∷◌, if◌then◌else◌, is_blank,
  ℤ, pos, is_zero,
}
use pxp_agent.Exception.{
  Result, ok, err, aborted, ◌>>=◌, ◌>>◌, invalid_argument, data_error, data_parse_error,
}
use pxp_agent.Libraries.{Libraries, TypeConstraint}
use pxp_agent.Json.{includes, get_text, get_flag, get_number}
use pxp_agent.ActionRequest.{ActionRequest, params}
use pxp_agent.Module.{Module, ActionOutcome, internal_outcome}
use pxp_agent.ExternalModule.{read_non_blocking_outcome, OutcomeFiles}
use pxp_agent.Util.Stoi.{stoi}
use pxp_agent.Util.Process.{Signalled, process_exists}

abbrev pub unknown : String
unknown = "unknown"

abbrev pub success : String
success = "success"

abbrev pub failure : String
failure = "failure"

abbrev pub running : String
running = "running"

-- What the PID file says: nothing, or that its process exists or does not.
pub data PidCheck : Type 0 where
  no_pid running_by_pid not_running_by_pid : PidCheck

pub record ActionMetadata : Type 0 where
  pub exitcode : ℤ
  pub completed : Bool

-- The constructor of ActionMetadata, `none` if it throws its Error.
abbrev pub Metadata : Type 0
Metadata = Option ActionMetadata

abbrev pub is_running : PidCheck → Bool
is_running running_by_pid = true
is_running _ = false

abbrev pub is_not_running : PidCheck → Bool
is_not_running not_running_by_pid = true
is_not_running _ = false

module _ ⦃L : Libraries⦄ where
  open L use {
    Json, Disk, exists, read, parse, set, empty, of_text, of_number, slash, new_schema,
    add_constraint, no_schemas, register_schema, ndebug,
  }

  -- The constructor.
  unfoldable pub new : Result Module
  new = do
    input ←
        register_schema no_schemas
          (add_constraint (new_schema "query") "transaction_id" TypeConstraint.string true)
    results ← register_schema no_schemas (new_schema "query")
    ok (record {
      module_name = "status";
      actions = "query" ∷ [];
      config_validator = no_schemas;
      input_validator = input;
      results_validator = results;
    })

  completed_metadata : Json → Metadata
  completed_metadata j = elim (get_number j "exitcode") [
    | ok n ↦ some (record { exitcode = n; completed = true })
    | err e ↦ none
    | aborted ↦ none
  ]

  metadata_entries : Json → Metadata
  unfolding completed_metadata
  metadata_entries j = elim (get_flag j "completed") [
    | ok done ↦
        if done then completed_metadata j else some (record { exitcode = pos 0; completed = false })
    | err e ↦ none
    | aborted ↦ none
  ]

  metadata_text : Option String → Metadata
  unfolding metadata_entries
  metadata_text none = none
  metadata_text (some txt) = elim (parse txt) [ none ↦ none | some j ↦ metadata_entries j ]

  -- The constructor of ActionMetadata; `none` stands for its Error, on each of its causes.
  unfoldable pub read_metadata : Disk → String → Metadata
  unfolding metadata_text
  read_metadata d file = if not (exists d file) then none else metadata_text (read d file)

  check_text : (ℤ → Signalled) → Result ℤ → Result PidCheck
  unfolding process_exists
  check_text kill (ok pid) =
      ok (if process_exists kill pid then running_by_pid else not_running_by_pid)
  check_text kill (err (invalid_argument w)) = ok no_pid
  check_text kill (err e) = err e
  check_text kill aborted = aborted

  unfoldable pub check_pid : (ℤ → Signalled) → Disk → String → Result PidCheck
  unfolding check_text stoi
  check_pid kill d pid_file =
      if not (exists d pid_file) then ok no_pid else (elim (read d pid_file) [
        | none ↦ ok no_pid
        | some pid_txt ↦ if is_blank pid_txt then ok no_pid else check_text kill (stoi pid_txt)
      ])

  -- The results at first: the transaction ID, and the status unknown.
  unfoldable pub initial_results : String → Json
  initial_results t_id = set (set empty "transaction_id" (of_text t_id)) "status" (of_text unknown)

  unfoldable pub with_status : ActionMetadata → PidCheck → Json → Json
  with_status m c results =
      if m.completed
      then set results "status" (of_text (if is_zero m.exitcode then success else failure))
      else if is_running c
      then set results "status" (of_text running)
      else results

  -- `read_non_blocking_outcome` throws a ProcessingError at most, which is caught here.
  unfoldable pub with_outcome : ActionMetadata → String → Disk → Json → Json
  unfolding read_non_blocking_outcome
  with_outcome m dir d results =
      let files = read_non_blocking_outcome (slash dir "stdout") (slash dir "stderr") d in
      set (set (set results "exitcode" (of_number m.exitcode)) "stdout" (of_text files.out_txt))
        "stderr" (of_text files.err_txt)

  -- From the metadata on. The assert, which NDEBUG leaves out, fails for completed metadata and a
  -- running PID.
  unfoldable pub respond : Metadata → PidCheck → String → Disk → Json → Result ActionOutcome
  unfolding with_status with_outcome
  respond none c dir d results = ok (internal_outcome (pos 0) results)
  respond (some m) c dir d results =
      let results' = with_status m c results in
      if m.completed || is_not_running c
      then (if is_running c && not ndebug
          then aborted
          else ok (internal_outcome (pos 0) (with_outcome m dir d results')))
      else ok (internal_outcome (pos 0) results')

  unfoldable pub call_action :
      String → (ℤ → Signalled) → Disk → Disk → ActionRequest → Result ActionOutcome
  unfolding initial_results
  call_action spool_dir kill d d' r = do
    t_id ← get_text (params r).0 "transaction_id"
    let dir = slash spool_dir t_id
    if not (exists d dir) then ok (internal_outcome (pos 0) (initial_results t_id)) else do
      c ← check_pid kill d (slash dir "pid")
      respond (read_metadata d' (slash dir "metadata")) c dir d' (initial_results t_id)
