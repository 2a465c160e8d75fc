-- ===== src/Configuration/Logging/Levels.antt =====
-- What setupLogging sets up.
use pxp_agent.Base.{
  String, Bool, true, false, not, ◌||◌, Option, none, some, ◌≡◌, refl, ap, ◌∙◌, ◌==◌, if◌then◌else◌,
  lookup, Bool-cases, inl, inr,
}
use pxp_agent.Exception.{
  Exception, Result, ok, err, aborted, guarded, std_exception, IsSettingsError,
}
use pxp_agent.Exception.Stateful.{Post, after, after-Post, Post-mono, pure, ◌>>◌}
use pxp_agent.Libraries.{Libraries, FileChecked}
use pxp_agent.Configuration.{
  LogLevel, Configuration, HorseWhisperer, string_value, bool_value, get_flag, as_bool,
}
use pxp_agent.Configuration.Logging.{
  effective_level, option_to_log_level, setup_logging, start_loggers, select_stream, open_file,
  set_logfile, open_stream, validate_log_dir_path,
}

module _ ⦃L : Libraries⦄ ⦃H : HorseWhisperer⦄ where
  open L use {Disk, status, status-FileChecked, is_directory, parent_path, tilde_expand, exists}
  open H use {get, Flags}

  -- The loggers have been set up with a level that the text names.
  abbrev Started : Option String → Bool → String → Flags → Configuration → Type 0
  Started stream log_on_stdout loglevel f c =
      (c.flags ≡ f)
      × (lvl : LogLevel) × (lookup loglevel option_to_log_level ≡ some lvl)
      × (c.logging
          ≡ some (record {
            stream = stream;
            level = lvl;
            pcp_level = loglevel;
            reopens = not log_on_stdout;
          }))

  abbrev Failed : Exception → Configuration → Type 0
  Failed e c = IsSettingsError e

  abbrev Level :
      Option String → Bool → Bool → String → Configuration → Unit {0} → Configuration → Type 0
  Level stream out signalled loglevel c u d =
      Started stream out loglevel c.flags d × (d.logfile ≡ c.logfile) × ((out || signalled) ≡ true)

  start_loggers-Level :
      (signalled out : Bool) (loglevel : String) (stream : Option String) (c : Configuration)
      (o : Option LogLevel)
      → lookup loglevel option_to_log_level ≡ o
      → Post
          (Level stream out signalled loglevel c)
          Failed
          (start_loggers signalled out loglevel stream c)
  unfolding start_loggers
  start_loggers-Level signalled out loglevel stream c none h = rw h tt
  start_loggers-Level signalled true loglevel stream c (some lvl) h =
      rw h ((refl, lvl, h, refl), refl, refl)
  start_loggers-Level true false loglevel stream c (some lvl) h =
      rw h ((refl, lvl, h, refl), refl, refl)
  start_loggers-Level false false loglevel stream c (some lvl) h = rw h tt

  -- What has been chosen: the stream, and the path that is stored; `out` is for the standard output.
  abbrev Selected : Bool → Disk → String → Configuration → Option String → Configuration → Type 0
  Selected out d logfile c stream e =
      (stream ≡ (if out then none else some (tilde_expand logfile)))
      × (e.flags ≡ c.flags)
      × (e.logfile ≡ (if out then logfile else tilde_expand logfile))
      × ((out || is_directory d (parent_path (tilde_expand logfile))) ≡ true)

  abbrev Checked : Disk → String → Configuration → Unit {0} → Configuration → Type 0
  Checked d path c u e = (is_directory d (parent_path path) ≡ true) × (e ≡ c)

  guarded-Checked :
      (d : Disk) (path : String) (c : Configuration) (s r : Result (Unit {0}))
      → FileChecked s
      → Post (Checked d path c) Failed (r, c)
      → Post (Checked d path c) Failed (guarded s r, c)
  guarded-Checked d path c (ok u) r h k = k
  guarded-Checked d path c (err (std_exception w)) r h k = tt
  guarded-Checked d path c (err _) r h k = absurd h
  guarded-Checked d path c aborted r h k = absurd h

  validate_log_dir_path-Post :
      (d : Disk) (path : String) (c : Configuration)
      → Post (Checked d path c) Failed (validate_log_dir_path d path, c)
  unfolding validate_log_dir_path
  validate_log_dir_path-Post d path c =
      guarded-Checked d path c (status d (parent_path path)) _
        (status-FileChecked d (parent_path path))
        (elim (Bool-cases (exists d (parent_path path))) [
          | inr x ↦ rw x tt
          | inl x ↦ elim (Bool-cases (is_directory d (parent_path path))) [
            | inl i ↦ rw (x, i) (i, refl)
            | inr i ↦ rw (x, i) tt
          ]
        ])

  open_file-Selected :
      (can_append : String → Bool) (d : Disk) (logfile : String) (c : Configuration)
      → Post (Selected false d logfile c) Failed (open_file can_append d (tilde_expand logfile) c)
  unfolding open_file set_logfile open_stream
  open_file-Selected can_append d logfile c =
      let c' = record c { logfile = tilde_expand logfile } in
      after-Post (Checked d (tilde_expand logfile) c') (Selected false d logfile c) Failed _
        (λ u. open_stream can_append (tilde_expand logfile) >> pure (some (tilde_expand logfile)))
        (validate_log_dir_path-Post d (tilde_expand logfile) c')
        (λ u e p. (refl, ap (λ x. x.flags) p.1, ap (λ x. x.logfile) p.1, p.0))

  branch-Selected :
      (can_append : String → Bool) (d : Disk) (logfile : String) (c : Configuration) (out : Bool)
      → c.logfile ≡ logfile
      → Post
          (Selected out d logfile c)
          Failed
          ((if out then pure none else open_file can_append d (tilde_expand logfile)) c)
  branch-Selected can_append d logfile c true s = (refl, refl, s, refl)
  branch-Selected can_append d logfile c false s = open_file-Selected can_append d logfile c

  -- The value of the options that setupLogging reads.
  abbrev pub Reads : String → String → Bool → Configuration → Type 0
  Reads logfile loglevel foreground c =
      (get c.flags "logfile" ≡ some (string_value logfile))
      × (get c.flags "loglevel" ≡ some (string_value loglevel))
      × (get c.flags "foreground" ≡ some (bool_value foreground))

  abbrev pub SetUp :
      Bool
      → Bool
      → Disk
      → String
      → String
      → Bool
      → Configuration
      → Unit {0}
      → Configuration
      → Type 0
  SetUp out signalled d logfile loglevel foreground c u e =
      Started (if out then none else some (tilde_expand logfile)) out
        (effective_level foreground out loglevel) c.flags e
      × (e.logfile ≡ (if out then logfile else tilde_expand logfile))
      × ((out || is_directory d (parent_path (tilde_expand logfile))) ≡ true)
      × ((out || signalled) ≡ true)

  -- The part that follows the choice of the stream.
  started-SetUp :
      (out signalled : Bool) (d : Disk) (logfile loglevel : String) (foreground : Bool)
      (stream : Option String) (c e : Configuration)
      → Selected out d logfile c stream e
      → get c.flags "foreground" ≡ some (bool_value foreground)
      → Post (SetUp out signalled d logfile loglevel foreground c) Failed (
          after
            (get_flag as_bool "foreground" e, e)
            (λ b. start_loggers signalled out (effective_level b out loglevel) stream))
  started-SetUp out signalled d logfile loglevel foreground stream c e (s, f, p, i) b =
      let l = effective_level foreground out loglevel in
      let file = if out then none else some (tilde_expand logfile) in
      let e' : Configuration = record e { flags = c.flags } in
      rw (f, b, s)
        (Post-mono (Level file out signalled l e')
          (SetUp out signalled d logfile loglevel foreground c) Failed Failed
          (start_loggers signalled out l file e')
          (start_loggers-Level signalled out l file e' _ refl) (λ u x q. (q.0, q.1 ∙ p, i, q.2))
          (λ x y z. z))

  pub setup_logging-SetUp :
      (can_append : String → Bool) (signalled : Bool) (d : Disk) (logfile loglevel : String)
      (foreground : Bool) (c : Configuration)
      → Reads logfile loglevel foreground c
      → Post
          (SetUp (logfile == "-") signalled d logfile loglevel foreground c)
          Failed
          (setup_logging can_append signalled d c)
  unfolding setup_logging set_logfile select_stream
  setup_logging-SetUp can_append signalled d logfile loglevel foreground c (l, v, b) =
      rw (l, v)
        (after-Post (Selected (logfile == "-") d logfile c)
          (SetUp (logfile == "-") signalled d logfile loglevel foreground c) Failed _ _
          (branch-Selected can_append d logfile (record c { logfile = logfile }) (logfile == "-")
            refl)
          (λ stream e p.
            started-SetUp (logfile == "-") signalled d logfile loglevel foreground stream c e p b))
