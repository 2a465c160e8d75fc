-- ===== src/RequestProcessor/Storage/RoundTrip.antt =====
-- The metadata that ResultsStorage writes, as the status module reads them.
use Prim.Native.String.{◌++◌}
use text.Mathlib.TextPositions.{eq_refl}
use pxp_agent.Base.{
  String, true, false, ◌≡◌, refl, sym, ap, ◌∙◌, some, arith, ℤ, pos, ◌==◌, ◌||◌, inl, inr,
  Bool-cases, eq_iff,
}
use pxp_agent.Exception.{Result, ok, err, aborted}
use pxp_agent.Libraries.{Libraries}
use pxp_agent.ActionRequest.{ActionRequest}
use pxp_agent.ResultsMutex
use pxp_agent.ResultsMutex.{ResultsMutex}
use pxp_agent.Json.{get_flag, get_number}
use pxp_agent.ResultsMutex.Laws.{add_lem}
use pxp_agent.Modules.Status.{read_metadata}
use pxp_agent.Modules.Status.Metadata.{read_metadata-completed, read_metadata-incomplete}
use pxp_agent.RequestProcessor.Storage.{
  ResultsStorage, new, write_metadata, initial_metadata, final_metadata, metadata_path,
  results_directory, cache_mutex, keep, keep_mutex,
}

module _ ⦃L : Libraries⦄ where
  open L use {
    Json, Disk, exists, read, to_string, parse, atomic_write_to_file, parse-to_string, exists-write,
    read-write, entry-set, entry-empty, as_flag-of_flag, as_number-of_number,
  }

  -- Metadata that were written are read as the JSON document that they are.
  read-written :
      (d e : Disk) (j : Json) (file : String)
      → atomic_write_to_file d (to_string j ++ "\n") file ≡ ok e
      → (exists e file ≡ true) × (read e file ≡ some (to_string j ++ "\n"))
  read-written d e j file h = (
    exists-write d e _ file file h ∙ rw (eq_refl file),
    read-write d e _ file file h ∙ rw (eq_refl file),
  )

  final_completed :
      (n : ℤ) (x t : String) (j : Json)
      → (get_flag (final_metadata n x t j) "completed" ≡ ok true)
        × (get_number (final_metadata n x t j) "exitcode" ≡ ok n)
  unfolding final_metadata
  final_completed n x t j =
      (simp (entry-set, as_flag-of_flag), simp (entry-set, as_number-of_number))

  initial_incomplete : (r : ActionRequest) → get_flag (initial_metadata r) "completed" ≡ ok false
  unfolding initial_metadata
  initial_incomplete r = simp (entry-set, as_flag-of_flag)

  -- After the end of a task has been recorded, the status module reads the metadata as completed,
  -- with the exit code that was recorded.
  pub read_metadata-write_metadata :
      (s : ResultsStorage) (exit_code : ℤ) (exec_error duration : String) (d e : Disk)
      → write_metadata s exit_code exec_error duration d ≡ ok e
      → read_metadata e s.metadata_file ≡ some (record { exitcode = exit_code; completed = true })
  unfolding write_metadata
  read_metadata-write_metadata s exit_code exec_error duration d e h =
      let j = final_metadata exit_code exec_error duration s.action_metadata in
      let (x, r) = read-written d e j s.metadata_file h in
      let (f, n) = final_completed exit_code exec_error duration s.action_metadata in
      read_metadata-completed e s.metadata_file (to_string j ++ "\n") j exit_code x r
        (parse-to_string j) f n

  -- What the constructor has done when it succeeds: the metadata are there and say that the action
  -- is not completed, and the transaction has a mutex, beside those that had one before.
  pub record Stored (r : ActionRequest) (m m' : ResultsMutex) (s : ResultsStorage) (d' : Disk)
      : Type 0 where
    pub file : s.metadata_file ≡ metadata_path r
    pub incomplete :
        read_metadata d' s.metadata_file ≡ some (record { exitcode = pos 0; completed = false })
    pub cached :
        (t : String) → ResultsMutex.exists t m' ≡ (r.transaction_id == t || ResultsMutex.exists t m)

  cache_mutex_lem :
      (t q : String) (m m' : ResultsMutex)
      → cache_mutex t m ≡ ok m'
      → ResultsMutex.exists q m' ≡ (t == q || ResultsMutex.exists q m)
  unfolding cache_mutex
  cache_mutex_lem t q m m' h = elim (Bool-cases (ResultsMutex.exists t m)) [
    | inl e ↦ let k : m ≡ m' = ground arith in rw (← k) (ground (arith, eq_iff t q))
    | inr e ↦ (add_lem t q m m' (ground arith)).2
  ]

  keep_ok :
      (d d' : Disk) (m m' : ResultsMutex) (x : Result Disk)
      (f : Disk → Result ResultsStorage × Disk × ResultsMutex) (s : ResultsStorage)
      → keep d m x f ≡ (ok s, d', m')
      → (e : Disk) × (x ≡ ok e) × (f e ≡ (ok s, d', m'))
  keep_ok d d' m m' (ok e) f s h = (e, refl, h)
  keep_ok d d' m m' (err e) f s h = ground (arith)
  keep_ok d d' m m' aborted f s h = ground (arith)

  keep_mutex_ok :
      (s s' : ResultsStorage) (d d' : Disk) (m m' : ResultsMutex) (x : Result ResultsMutex)
      → keep_mutex s d m x ≡ (ok s', d', m')
      → (x ≡ ok m') × (d ≡ d') × (s ≡ s')
  keep_mutex_ok s s' d d' m m' (ok e) h = ground (arith)
  keep_mutex_ok s s' d d' m m' (err e) h = ground (arith)
  keep_mutex_ok s s' d d' m m' aborted h = ground (arith)

  new-inv :
      (r : ActionRequest) (d d' : Disk) (m m' : ResultsMutex) (s : ResultsStorage)
      → new r d m ≡ (ok s, d', m')
      → (d₁ : Disk) × (atomic_write_to_file d₁
            (to_string (initial_metadata r) ++ "\n")
            (metadata_path r)
          ≡ ok d')
        × (cache_mutex r.transaction_id m ≡ ok m')
        × (s.metadata_file ≡ metadata_path r)
  unfolding new
  new-inv r d d' m m' s h =
      let (d₁, h₁, k₁) = keep_ok d d' m m' (results_directory r.results_dir d) _ s h in
      let (d₂, h₂, k₂) =
        keep_ok d₁ d' m m'
          (atomic_write_to_file d₁ (to_string (initial_metadata r) ++ "\n") (metadata_path r)) _ s
          k₁ in
      let (c, e, f) = keep_mutex_ok _ s d₂ d' m m' (cache_mutex r.transaction_id m) k₂ in
      (d₁, h₂ ∙ ap (λ x. ok x) e, c, sym (ap (λ x. x.metadata_file) f))

  -- If the constructor of ResultsStorage succeeds, the metadata file of the request is on disk and
  -- the status module reads it as not completed, with exit code 0; the transaction has a mutex in
  -- the cache, and the other transactions have one exactly if they had one before.
  pub new-Stored :
      (r : ActionRequest) (d d' : Disk) (m m' : ResultsMutex) (s : ResultsStorage)
      → new r d m ≡ (ok s, d', m')
      → Stored r m m' s d'
  new-Stored r d d' m m' s h =
      let (d₁, w, c, f) = new-inv r d d' m m' s h in
      let (x, y) = read-written d₁ d' (initial_metadata r) (metadata_path r) w in
      record {
        file = f;
        incomplete = rw f (
            read_metadata-incomplete d' (metadata_path r) (to_string (initial_metadata r) ++ "\n")
              (initial_metadata r) x y (parse-to_string (initial_metadata r))
              (initial_incomplete r));
        cached = λ t. cache_mutex_lem r.transaction_id t m m' c;
      }
