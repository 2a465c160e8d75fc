-- ===== src/RequestProcessor/Storage.antt =====
-- ResultsStorage: the metadata file of a non-blocking transaction, and its mutex.
pub mod RoundTrip
use Prim.Native.String.{◌++◌}
use pxp_agent.Base.{String, Bool, true, false, if◌then◌else◌, is_blank, ℤ}
use pxp_agent.Exception.{Result, ok, err, aborted, ◌>>=◌, storage_error, what}
use pxp_agent.Libraries.{Libraries}
use pxp_agent.ActionRequest.{ActionRequest, params_txt}
use pxp_agent.ResultsMutex
use pxp_agent.ResultsMutex.{ResultsMutex}

pub record ResultsStorage ⦃L : Libraries⦄ : Type 0 where
  pub metadata_file : String
  pub action_metadata : L.Json

module _ ⦃L : Libraries⦄ where
  open L use {
    Json, Disk, exists, create_directories, atomic_write_to_file, set, empty, of_text, of_flag,
    of_number, to_string, slash,
  }

  unfoldable pub initial_metadata : ActionRequest → Json
  unfolding params_txt
  initial_metadata r =
      let input = (params_txt r).0 in
      set
        (set
          (set (set (set empty "module" (of_text r.module_name)) "action" (of_text r.action))
            "completed" (of_flag false))
          "duration" (of_text "0 s"))
        "input" (of_text (if is_blank input then "none" else input))

  -- `catch (const fs::filesystem_error&)`, the one exception of create_directories.
  results_directory : String → Disk → Result Disk
  results_directory dir d = if exists d dir then ok d else (elim (create_directories d dir) [
    | ok d' ↦ ok d'
    | err e ↦ err (storage_error ("failed to create results directory: " ++ what e))
    | aborted ↦ aborted
  ])

  -- A mutex that is cached already is left as it is.
  cache_mutex : String → ResultsMutex → Result ResultsMutex
  unfolding ResultsMutex.exists ResultsMutex.add
  cache_mutex t_id m = if ResultsMutex.exists t_id m then ok m else ResultsMutex.add t_id m

  unfoldable pub metadata_path : ActionRequest → String
  metadata_path r = slash r.results_dir "metadata"

  -- The rest of the constructor, after a step that changes the disk, or its end by an exception.
  abbrev keep :
      Disk
      → ResultsMutex
      → Result Disk
      → (Disk → Result ResultsStorage × Disk × ResultsMutex)
      → Result ResultsStorage × Disk × ResultsMutex
  keep d m (ok d') f = f d'
  keep d m (err e) f = (err e, d, m)
  keep d m aborted f = (aborted, d, m)

  abbrev keep_mutex :
      ResultsStorage
      → Disk
      → ResultsMutex
      → Result ResultsMutex
      → Result ResultsStorage × Disk × ResultsMutex
  keep_mutex s d m (ok m') = (ok s, d, m')
  keep_mutex s d m (err e) = (err e, d, m)
  keep_mutex s d m aborted = (aborted, d, m)

  -- The constructor: the storage, with the disk and the mutexes as it leaves them.
  unfoldable pub new :
      ActionRequest → Disk → ResultsMutex → Result ResultsStorage × Disk × ResultsMutex
  unfolding initial_metadata results_directory cache_mutex metadata_path
  new r d m = keep d m (results_directory r.results_dir d) λ d₁.
      keep d₁ m (atomic_write_to_file d₁ (to_string (initial_metadata r) ++ "\n") (metadata_path r))
        λ d₂.
          keep_mutex
            (record { metadata_file = metadata_path r; action_metadata = initial_metadata r }) d₂ m
            (cache_mutex r.transaction_id m)

  unfoldable pub final_metadata : ℤ → String → String → Json → Json
  final_metadata exit_code exec_error duration j =
      set
        (set (set (set j "completed" (of_flag true)) "duration" (of_text duration)) "exitcode"
          (of_number exit_code))
        "exec_error" (of_text exec_error)

  unfoldable pub write_metadata : ResultsStorage → ℤ → String → String → Disk → Result Disk
  unfolding final_metadata
  write_metadata s exit_code exec_error duration d =
      atomic_write_to_file d
        (to_string (final_metadata exit_code exec_error duration s.action_metadata) ++ "\n")
        s.metadata_file
