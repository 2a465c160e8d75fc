-- ===== src/Modules/Status/Table.antt =====
-- The status table in the comment of status.cc, against the code.
use pxp_agent.Base.{
  String, Bool, true, false, not, ◌&&◌, ◌||◌, none, some, ◌≡◌, refl, arith, if◌then◌else◌, ℤ, pos,
  is_zero, Option,
}
use pxp_agent.Exception.{Result, ok}
use pxp_agent.Libraries.{Libraries}
use pxp_agent.Json.{includes, get_text, get_number}
use pxp_agent.ActionRequest.{ActionRequest, params}
use pxp_agent.Module.{ActionOutcome, internal_outcome}
use pxp_agent.ExternalModule.{OutcomeFiles, read_non_blocking_outcome}
use pxp_agent.Util.Process.{Signalled}
use pxp_agent.Modules.Status.{
  unknown, success, failure, running, PidCheck, no_pid, running_by_pid, not_running_by_pid,
  ActionMetadata, Metadata, read_metadata, check_pid, is_running, is_not_running, initial_results,
  with_outcome, respond, call_action,
}

-- The two last columns of the table.
abbrev pub completed_status : ℤ → String
completed_status n = if is_zero n then success else failure

abbrev pub incomplete_status : PidCheck → String
incomplete_status running_by_pid = running
incomplete_status _ = unknown

abbrev pub table_status : Metadata → PidCheck → String
table_status none c = unknown
table_status (some m) c = if m.completed then completed_status m.exitcode else incomplete_status c

-- Whether the answer includes the output, and then the texts and the exit code that it shows.
abbrev pub table_files : Metadata → PidCheck → OutcomeFiles → Option (OutcomeFiles × ℤ)
table_files none c files = none
table_files (some m) c files =
    if m.completed || is_not_running c then some (files, m.exitcode) else none

module _ ⦃L : Libraries⦄ where
  open L use {
    Json, Disk, exists, slash, set, empty, of_text, entry-set, entry-empty, as_text-of_text,
    as_number-of_number, ndebug,
  }

  -- The assert of the code is about to fail.
  abbrev pub asserts : Metadata → PidCheck → Bool
  asserts none c = false
  asserts (some m) c = m.completed && is_running c && not ndebug

  abbrev pub Shown : Option (OutcomeFiles × ℤ) → Json → Type 0
  Shown none j =
      (includes j "stdout" ≡ false)
      × (includes j "stderr" ≡ false)
      × (includes j "exitcode" ≡ false)
  Shown (some (files, n)) j =
      (get_text j "stdout" ≡ ok files.out_txt)
      × (get_text j "stderr" ≡ ok files.err_txt)
      × (get_number j "exitcode" ≡ ok n)

  -- A successful outcome with this transaction ID, status and output.
  abbrev pub Row : String → String → Option (OutcomeFiles × ℤ) → Result ActionOutcome → Type 0
  Row t_id status shown r =
      (o : ActionOutcome) × (r ≡ ok o)
      × (o.exitcode ≡ pos 0)
      × (get_text o.results "transaction_id" ≡ ok t_id)
      × (get_text o.results "status" ≡ ok status)
      × Shown shown o.results

  abbrev pub files_of : String → Disk → OutcomeFiles
  files_of dir d = read_non_blocking_outcome (slash dir "stdout") (slash dir "stderr") d

  initial_id : (t_id : String) → get_text (initial_results t_id) "transaction_id" ≡ ok t_id
  unfolding initial_results
  initial_id t_id = simp (entry-set, as_text-of_text)

  initial_status : (t_id : String) → get_text (initial_results t_id) "status" ≡ ok unknown
  unfolding initial_results
  initial_status t_id = simp (entry-set, as_text-of_text)

  initial-Shown : (t_id : String) → Shown none (initial_results t_id)
  unfolding initial_results
  initial-Shown t_id =
      (simp (entry-set, entry-empty), simp (entry-set, entry-empty), simp (entry-set, entry-empty))

  abbrev set_status : Json → String → Json
  set_status j status = set j "status" (of_text status)

  plain-Row :
      (t_id status : String)
      → Row t_id status none
          (ok (internal_outcome (pos 0) (set_status (initial_results t_id) status)))
  plain-Row t_id status =
      let (a, b, c) = initial-Shown t_id in
      (
        internal_outcome (pos 0) (set_status (initial_results t_id) status),
        refl,
        refl,
        simp entry-set (initial_id t_id),
        simp (entry-set, as_text-of_text),
        (simp entry-set a, simp entry-set b, simp entry-set c),
      )

  unknown-Row :
      (t_id : String) → Row t_id unknown none (ok (internal_outcome (pos 0) (initial_results t_id)))
  unknown-Row t_id = (
    internal_outcome (pos 0) (initial_results t_id),
    refl,
    refl,
    initial_id t_id,
    initial_status t_id,
    initial-Shown t_id,
  )

  files-Row :
      (m : ActionMetadata) (j : Json) (t_id status dir : String) (d : Disk)
      → get_text j "transaction_id" ≡ ok t_id
      → get_text j "status" ≡ ok status
      → Row t_id status
          (some (files_of dir d, m.exitcode))
          (ok (internal_outcome (pos 0) (with_outcome m dir d j)))
  unfolding with_outcome
  files-Row m j t_id status dir d ht hs = (
    internal_outcome (pos 0) (with_outcome m dir d j),
    refl,
    refl,
    simp entry-set ht,
    simp entry-set hs,
    (
      simp (entry-set, as_text-of_text),
      simp (entry-set, as_text-of_text),
      simp (entry-set, as_number-of_number),
    ),
  )

  completed-Row :
      (n : ℤ) (t_id dir : String) (d : Disk)
      → Row t_id (completed_status n) (some (files_of dir d, n)) (
          ok (
            internal_outcome (pos 0) (
              with_outcome
                (record { exitcode = n; completed = true })
                dir
                d
                (set_status (initial_results t_id) (completed_status n)))))
  completed-Row n t_id dir d =
      files-Row (record { exitcode = n; completed = true })
        (set_status (initial_results t_id) (completed_status n)) t_id (completed_status n) dir d
        (simp entry-set (initial_id t_id)) (simp (entry-set, as_text-of_text))

  respond-Row :
      (n : ℤ) (done : Bool) (c : PidCheck) (t_id dir : String) (d : Disk)
      → done && is_running c && not ndebug ≡ false
      → Row t_id
          (table_status (some (record { exitcode = n; completed = done })) c)
          (table_files (some (record { exitcode = n; completed = done })) c (files_of dir d))
          (respond
            (some (record { exitcode = n; completed = done }))
            c
            dir
            d
            (initial_results t_id))
  unfolding respond
  respond-Row n true running_by_pid t_id dir d h = rw h (completed-Row n t_id dir d)
  respond-Row n true no_pid t_id dir d h = completed-Row n t_id dir d
  respond-Row n true not_running_by_pid t_id dir d h = completed-Row n t_id dir d
  respond-Row n false no_pid t_id dir d h = unknown-Row t_id
  respond-Row n false running_by_pid t_id dir d h = plain-Row t_id running
  respond-Row n false not_running_by_pid t_id dir d h =
      files-Row (record { exitcode = n; completed = false }) (initial_results t_id) t_id unknown dir
        d (initial_id t_id) (initial_status t_id)

  respond-Row_any :
      (m : Metadata) (c : PidCheck) (t_id dir : String) (d : Disk)
      → asserts m c ≡ false
      → Row t_id
          (table_status m c)
          (table_files m c (files_of dir d))
          (respond m c dir d (initial_results t_id))
  unfolding respond
  respond-Row_any none c t_id dir d h = unknown-Row t_id
  respond-Row_any (some m) c t_id dir d h = respond-Row m.exitcode m.completed c t_id dir d h

  module _ (spool_dir : String) (kill : ℤ → Signalled) (d d' : Disk) (r : ActionRequest)
      (t_id : String) (c : PidCheck) (ht : get_text (params r).0 "transaction_id" ≡ ok t_id)
      (hd : exists d (slash spool_dir t_id) ≡ true)
      (hc : check_pid kill d (slash (slash spool_dir t_id) "pid") ≡ ok c) where
    abbrev dir : String
    dir = slash spool_dir t_id

    abbrev metadata : Metadata
    metadata = read_metadata d' (slash dir "metadata")

    call_action-respond :
        call_action spool_dir kill d d' r ≡ respond metadata c dir d' (initial_results t_id)
    unfolding call_action
    call_action-respond = ground arith

    -- For a transaction that has a results directory, and a PID file whose text is no number out
    -- of the range of an `int`, the answer is the row of the status table for what the PID file
    -- and the metadata say: its status, and either the exit code with the texts of stdout and stderr
    -- or none of the three. Completed metadata beside the PID of an existing process are excepted
    -- in a build without NDEBUG, where the assert fails.
    pub call_action-Row :
        asserts metadata c ≡ false
        → Row t_id
            (table_status metadata c)
            (table_files metadata c (files_of dir d'))
            (call_action spool_dir kill d d' r)
    call_action-Row h = rw call_action-respond (respond-Row_any metadata c t_id dir d' h)

  -- A transaction without a results directory has the status unknown and no output.
  pub call_action_no_results :
      (spool_dir : String) (kill : ℤ → Signalled) (d d' : Disk) (r : ActionRequest) (t_id : String)
      → get_text (params r).0 "transaction_id" ≡ ok t_id
      → exists d (slash spool_dir t_id) ≡ false
      → Row t_id unknown none (call_action spool_dir kill d d' r)
  unfolding call_action
  call_action_no_results spool_dir kill d d' r t_id ht hd =
      let e : call_action spool_dir kill d d' r
          ≡ ok (internal_outcome (pos 0) (initial_results t_id)) =
        ground arith in
      rw e (unknown-Row t_id)
