-- ===== src/Configuration/Validation/SpoolDir.antt =====
-- The test of the spool directory, and the checks of the PID file.
use pxp_agent.Base.{
  String, Bool, true, false, not, ◌&&◌, some, List, [], ◌∷◌, ◌≡◌, ◌⊎◌, refl, sym, is_blank, lookup,
  Bool-cases, inl, inr, subst, if_elim, if◌then◌else◌,
}
use pxp_agent.Exception.{
  Result, ok, err, aborted, Exception, configuration_error, std_exception, IsSettingsError,
}
use pxp_agent.Exception.Stateful.{Post}
use pxp_agent.Libraries.{Libraries, FileChecked}
use pxp_agent.Configuration.{string_value, Configuration, HorseWhisperer}
use pxp_agent.Configuration.Validation.{
  check_pid_dir, loop_status, unused_path, test_directory, made, removed, writable, check_spool_dir,
  check_pid_file, normalize_pid_file,
}
use pxp_agent.Configuration.Validation.Frame.{
  Checks, guarded-Checks, Checks-mono, Before, Failed, Only, check-Post, check-Last, string-Post,
  set_flag-Last,
}
use pxp_agent.Configuration.Validation.Directories.{Free, unused_path-Free}

module _ ⦃L : Libraries⦄ ⦃H : HorseWhisperer⦄ where
  open L use {
    Disk, slash, status, status-FileChecked, exists, is_directory, is_regular_file,
    create_directories, created, remove_all, parent_path, tilde_expand,
    create_directories-FileChecked, remove_all-FileChecked,
  }
  open H use {get}

  removed-Checks :
      (Q : Type 0) (d : Disk) (r : Result Disk)
      → FileChecked r
      → Q
      → Checks (λ x. x.0 ≡ true → Q) (removed d r)
  unfolding removed
  removed-Checks Q d (ok e) h q = λ t. q
  removed-Checks Q d (err (std_exception w)) h q = λ t. q
  removed-Checks Q d (err _) h q = absurd h
  removed-Checks Q d aborted h q = absurd h

  -- The directory is new, and has been made.
  abbrev Made : Bool → Result Disk → Type 0
  Made is_new r = (is_new ≡ true) × ((e : Disk) × (r ≡ ok e))

  made-Checks :
      (p : String) (is_new : Bool) (d : Disk) (r : Result Disk)
      → FileChecked r
      → Checks (λ x. x.0 ≡ true → Made is_new r) (made p is_new d r)
  unfolding made
  made-Checks p true d (ok e) h =
      removed-Checks _ e (remove_all e p) (remove_all-FileChecked e p) (refl, (e, refl))
  made-Checks p false d (ok e) h = λ t. cc
  made-Checks p b d (err (std_exception w)) h = λ t. cc
  made-Checks p b d (err _) h = absurd h
  made-Checks p b d aborted h = absurd h

  -- A directory that was not there could be made in the spool directory.
  abbrev pub Writable : Disk → String → List String → Type 0
  Writable d dir uuids =
      (p : String) × (unused_path d dir uuids ≡ some p)
      × Made (created d p) (create_directories d p)

  test_directory-Checks :
      (d : Disk) (dir : String) (uuids : List String)
      → Free d dir uuids
      → Checks (λ x. x.0 ≡ true → Writable d dir uuids) (test_directory d (unused_path d dir uuids))
  unfolding test_directory
  test_directory-Checks d dir uuids f =
      let (p, e, g, w) = unused_path-Free d dir uuids f in
      subst (λ o. Checks (λ x. x.0 ≡ true → Writable d dir uuids) (test_directory d o)) (sym e)
        (Checks-mono (λ x. x.0 ≡ true → Made (created d p) (create_directories d p)) _ _
          (made-Checks p (created d p) d (create_directories d p)
            (create_directories-FileChecked d p))
          (λ x h t. (p, e, h t)))

  writable-Checks : (dir : String) (r : Bool × Disk) → Checks (λ d. r.0 ≡ true) (writable dir r)
  unfolding writable
  writable-Checks dir (true, d) = refl
  writable-Checks dir (false, d) = tt

  loop_status-Checks :
      (d : Disk) (dir : String) (uuids : List String)
      → Checks (λ u. Unit {0}) (loop_status d dir uuids)
  unfolding loop_status
  loop_status-Checks d dir [] = tt
  loop_status-Checks d dir (uuid ∷ uuids) =
      guarded-Checks (λ u. Unit {0}) (status d (slash dir uuid)) _
        (status-FileChecked d (slash dir uuid))
        (if_elim (Checks (λ u. Unit {0})) (exists d (slash dir uuid))
          (loop_status-Checks d dir uuids) tt)

  abbrev pub Spooled : Disk → String → List String → Configuration → Disk → Configuration → Type 0
  Spooled d dir uuids c d' e = (e ≡ c) × (is_blank dir ≡ false) × Writable d dir uuids

  pub check_spool_dir-Post :
      (v : Bool) (uuids : List String) (d : Disk) (dir : String) (c : Configuration)
      → (is_blank dir ≡ false → Free d dir uuids)
      → Before v c
      → Post (Spooled d dir uuids c) (Failed v) (check_spool_dir uuids d dir c)
  unfolding check_spool_dir
  check_spool_dir-Post v uuids d dir c f b = elim (Bool-cases (is_blank dir)) [
    | inl k ↦ rw k (tt, b)
    | inr k ↦ rw k (
        check-Post (λ u. Unit {0}) (Spooled d dir uuids c) v (loop_status d dir uuids) _ c b
          (loop_status-Checks d dir uuids)
          (λ u q.
            check-Post (λ x. x.0 ≡ true → Writable d dir uuids) (Spooled d dir uuids c) v
              (test_directory d (unused_path d dir uuids)) _ c b
              (test_directory-Checks d dir uuids (f k))
              (λ x w.
                check-Last (λ d'. x.0 ≡ true) (Spooled d dir uuids c) v (writable dir x) c b
                  (writable-Checks dir x) (λ d' t. (refl, k, w t)))))
  ]

  -- The PID file is a regular file, or not there, in a directory.
  abbrev pub PidFileOk : Disk → String → Type 0
  PidFileOk d path =
      ((exists d path ≡ false) ⊎ (is_regular_file d path ≡ true))
      × (is_directory d (parent_path path) ≡ true)

  check_pid_dir-Checks :
      (d : Disk) (dir : String) → Checks (λ u. is_directory d dir ≡ true) (check_pid_dir d dir)
  unfolding check_pid_dir
  check_pid_dir-Checks d dir =
      guarded-Checks (λ u. is_directory d dir ≡ true) (status d dir) _ (status-FileChecked d dir)
        (elim (Bool-cases (exists d dir)) [
          | inr x ↦ rw x tt
          | inl x ↦ elim (Bool-cases (is_directory d dir)) [
            | inl i ↦ rw (x, i) refl
            | inr i ↦ rw (x, i) tt
          ]
        ])

  pid_dir-Checks :
      (d : Disk) (path : String)
      → (exists d path ≡ false) ⊎ (is_regular_file d path ≡ true)
      → Checks (λ u. PidFileOk d path) (check_pid_dir d (parent_path path))
  pid_dir-Checks d path h =
      Checks-mono (λ u. is_directory d (parent_path path) ≡ true) _ _
        (check_pid_dir-Checks d (parent_path path)) (λ u i. (h, i))

  -- The first test, on the two facts about the file that it reads.
  branch-Checks :
      (d : Disk) (path : String) (there regular : Bool) (e : Exception)
      → exists d path ≡ there
      → is_regular_file d path ≡ regular
      → IsSettingsError e
      → Checks
          (λ u. PidFileOk d path)
          (if there && not regular then err e else check_pid_dir d (parent_path path))
  branch-Checks d path false regular e x r c = pid_dir-Checks d path (inl x)
  branch-Checks d path true true e x r c = pid_dir-Checks d path (inr r)
  branch-Checks d path true false e x r c = c

  check_pid_file-Checks :
      (d : Disk) (path : String) → Checks (λ u. PidFileOk d path) (check_pid_file d path)
  unfolding check_pid_file
  check_pid_file-Checks d path =
      guarded-Checks (λ u. PidFileOk d path) (status d path) _ (status-FileChecked d path)
        (branch-Checks d path _ _ (configuration_error _) refl refl tt)

  abbrev pub PidChecked : Bool → Bool → Disk → Configuration → Unit {0} → Configuration → Type 0
  PidChecked v foreground d c u e =
      Before v e
      × ((foreground ≡ true)
          ⊎ ((s : String) × (get e.flags "pidfile" ≡ some (string_value s)) × PidFileOk d s))
      × Only ("pidfile" ∷ []) c e

  pub normalize_pid_file-Post :
      (v : Bool) (d : Disk) (foreground : Bool) (c : Configuration)
      → Before v c
      → Post (PidChecked v foreground d c) (Failed v) (normalize_pid_file d foreground c)
  unfolding normalize_pid_file lookup
  normalize_pid_file-Post v d true c b = (b, inl refl, λ q o x. refl)
  normalize_pid_file-Post v d false c b =
      string-Post (PidChecked v false d c) v "pidfile" _ c refl b (λ s g.
        check-Post (λ u. PidFileOk d (tilde_expand s)) (PidChecked v false d c) v
          (check_pid_file d (tilde_expand s)) _ c b (check_pid_file-Checks d (tilde_expand s))
          (λ u p.
            set_flag-Last (PidChecked v false d c) v "pidfile" (tilde_expand s) c refl b
              (λ e b' g' o. (b', inr (tilde_expand s, g', p), o))))
