-- ===== src/Main/Exits.antt =====
-- The exit codes of the program, and what has happened before each.
use pxp_agent.Base.{
  ℕ, String, Bool, true, false, ◌≡◌, ◌⊎◌, refl, ap, ◌∙◌, is_blank, inl, inr, arith, if_elim, Option,
  none, some,
}
use pxp_agent.Exception.{
  Result, ok, err, aborted, configuration_error, web_socket_configuration_error, what,
}
use pxp_agent.Exception.Stateful.{Post, after, pure}
use pxp_agent.Libraries.{Libraries}
use pxp_agent.Configuration.{
  Configuration, HorseWhisperer, ParseResult, parse_ok, help, version, failure, invalid_flag,
  as_bool,
}
use pxp_agent.Configuration.Defaults.{initialize}
use pxp_agent.Configuration.Defaults.Initial.{Initial, Initial-Ready, initialize-Initial}
use pxp_agent.Configuration.Defaults.Table.{Table}
use pxp_agent.Configuration.Ready.{Ready}
use pxp_agent.Configuration.Parsing.{parse_options, with_start}
use pxp_agent.Configuration.Parsing.Typed.{parse_options-keeps}
use pxp_agent.Configuration.Logging.{setup_logging}
use pxp_agent.Configuration.Validation.{validate}
use pxp_agent.Configuration.Logging.Kept.{setup_logging-keeps}
use pxp_agent.Configuration.Validation.Frame.{Failed}
use pxp_agent.Configuration.Validation.WebSocket.{PcpThrows}
use pxp_agent.Configuration.Validation.Directories.{Free}
use pxp_agent.Configuration.Validation.Valid.{Validated, validate-Validated}
use pxp_agent.Configuration.Settings.{get, get_agent_configuration}
use pxp_agent.Main.{
  Host, success, parsing_failure, configuration_failure, daemonization_failure, exit_of, is_caught,
  uncaught, agent_result, run_agent, daemonized, in_background, start_agent, try_log_error,
  parsing_failed, started, validated, logged, switch, parsed, main,
}

module _ ⦃L : Libraries⦄ ⦃H : HorseWhisperer⦄ where
  open L use {Disk, is_directory}
  open H use {start_code}

  -- The agent has run with the settings of this configuration, or the daemon could not be made.
  abbrev pub Ran : Host → Disk → Configuration → ℕ → Type 0
  Ran x d c code =
      (code ≡ daemonization_failure)
      ⊎ (exit_of (agent_result x d (get_agent_configuration c).0) ≡ ok code)

  -- What validate gives, after setupLogging, on the configuration that parseOptions has left.
  abbrev pub validation : Host → Disk → Configuration → Result Disk × Configuration
  validation x d c = validate x.pcp_client x.uuids d (setup_logging x.can_append x.signalled d c).1

  -- The configuration was validated before that, with the result `v`.
  abbrev pub Served : Result Disk × Configuration → Host → Disk → ℕ → Type 0
  Served v x d code =
      (d' : Disk) × (c : Configuration) × (v ≡ (ok d', c))
      × Validated x.pcp_client x.uuids d d' c
      × Ran x d' c code

  -- Why the program has ended with an exit code; `Idle` is for a command line that starts nothing.
  abbrev pub Exits :
      Type 0 → Result Disk × Configuration → Host → Disk → Result ℕ × Configuration → Type 0
  Exits Idle v x d (ok code, c) =
      ((code ≡ success) × Idle)
      ⊎ (code ≡ parsing_failure)
      ⊎ (code ≡ configuration_failure)
      ⊎ Served v x d code
      ⊎ (start_code (with_start x.argv) ≡ some code)
  Exits Idle v x d (err e, c) = Unit
  Exits Idle v x d (aborted, c) = Unit

  abbrev Ends : (ℕ → Type 0) → Result ℕ × Configuration → Type 0
  Ends P (ok code, c) = P code
  Ends P (err e, c) = Unit
  Ends P (aborted, c) = Unit

  run-Ran :
      (x : Host) (d : Disk) (c c' : Configuration) (y : Result ℕ)
      → exit_of (agent_result x d (get_agent_configuration c).0) ≡ y
      → Ends (Ran x d c) (y, c')
  run-Ran x d c c' (ok code) h = inr h
  run-Ran x d c c' (err e) h = tt
  run-Ran x d c c' aborted h = tt

  daemonized-Ran :
      (x : Host) (d : Disk) (r : Result (Unit {0})) (c : Configuration)
      → Ends (Ran x d c) (daemonized x d r c)
  unfolding daemonized run_agent
  daemonized-Ran x d (ok u) c = run-Ran x d c _ _ refl
  daemonized-Ran x d (err e) c = inl refl
  daemonized-Ran x d aborted c = tt

  in_background-Ran :
      (x : Host) (d : Disk) (r : Result Bool) (c : Configuration)
      → Ends (Ran x d c) (in_background x d r c)
  unfolding in_background
  in_background-Ran x d (ok true) c = daemonized-Ran x d (ok tt) c
  in_background-Ran x d (ok false) c = daemonized-Ran x d x.daemonize c
  in_background-Ran x d (err e) c = daemonized-Ran x d (err e) c
  in_background-Ran x d aborted c = tt

  served-Exits :
      (Idle : Type 0) (v : Result Disk × Configuration) (x : Host) (d d' : Disk) (c : Configuration)
      (r : Result ℕ × Configuration)
      → v ≡ (ok d', c)
      → Validated x.pcp_client x.uuids d d' c
      → Ends (Ran x d' c) r
      → Exits Idle v x d r
  served-Exits Idle v x d d' c (ok code, e) k w h = inr (inr (inr (inl (d', c, k, w, h))))
  served-Exits Idle v x d d' c (err e, s) k w h = tt
  served-Exits Idle v x d d' c (aborted, s) k w h = tt

  started-Exits :
      (Idle : Type 0) (v : Result Disk × Configuration) (x : Host) (d d' : Disk) (c : Configuration)
      (o : Option ℕ)
      → v ≡ (ok d', c)
      → Validated x.pcp_client x.uuids d d' c
      → start_code (with_start x.argv) ≡ o
      → Exits Idle v x d (elim o [ none ↦ start_agent x d' c | some code ↦ (ok code, c) ])
  unfolding start_agent
  started-Exits Idle v x d d' c none k h t =
      served-Exits Idle v x d d' c _ k h (in_background-Ran x d' (get as_bool "foreground" c) c)
  started-Exits Idle v x d d' c (some code) k h t = inr (inr (inr (inr t)))

  validated-Exits :
      (Idle : Type 0) (v : Result Disk × Configuration) (x : Host) (d : Disk) (b : Bool)
      (r : Result Disk × Configuration)
      → v ≡ r
      → Post (Validated x.pcp_client x.uuids d) (Failed b) r
      → Exits Idle v x d (validated x r)
  unfolding validated started
  validated-Exits Idle v x d b (ok d', c) k h =
      started-Exits Idle v x d d' c (start_code (with_start x.argv)) k h refl
  validated-Exits Idle v x d b (err (configuration_error w), c) k h = inr (inr (inl refl))
  validated-Exits Idle v x d b (err _, c) k h = tt
  validated-Exits Idle v x d b (aborted, c) k h = tt

  -- What the world provides: the certificate functions throw one class, and some UUID is free in each directory.
  abbrev pub Provided : Host → Disk → Type 0
  Provided x d =
      PcpThrows x.pcp_client × ((dir : String) → is_directory d dir ≡ true → Free d dir x.uuids)

  logged-Exits :
      (Idle : Type 0) (v : Result Disk × Configuration) (x : Host) (d : Disk)
      (r : Result (Unit {0}) × Configuration)
      → Provided x d
      → v ≡ validate x.pcp_client x.uuids d r.1
      → Ready r.1
      → Exits Idle v x d (logged x d r)
  unfolding logged
  logged-Exits Idle v x d (ok u, c) p k h =
      validated-Exits Idle v x d c.valid _ k (validate-Validated x.pcp_client x.uuids d c p.0 p.1 h)
  logged-Exits Idle v x d (err (configuration_error w), c) p k h = inr (inr (inl refl))
  logged-Exits Idle v x d (err _, c) p k h = tt
  logged-Exits Idle v x d (aborted, c) p k h = tt

  failed-Exits :
      (Idle : Type 0) (v : Result Disk × Configuration) (x : Host) (d : Disk)
      (r : Result (Unit {0}) × Configuration)
      → Exits Idle v x d (after r (λ u. pure parsing_failure))
  failed-Exits Idle v x d (ok u, c) = inr (inl refl)
  failed-Exits Idle v x d (err e, c) = tt
  failed-Exits Idle v x d (aborted, c) = tt

  parsing_failed-Exits :
      (Idle : Type 0) (v : Result Disk × Configuration) (x : Host) (d : Disk) (c : Configuration)
      → Exits Idle v x d (parsing_failed x d c)
  unfolding parsing_failed
  parsing_failed-Exits Idle v x d c = failed-Exits Idle v x d (try_log_error x d c)

  switch-Exits :
      (Idle : Type 0) (v : Result Disk × Configuration) (x : Host) (d : Disk) (p : ParseResult)
      (c : Configuration)
      → Provided x d
      → ((p ≡ help) ⊎ (p ≡ version) → Idle)
      → v ≡ validation x d c
      → Ready c
      → Exits Idle v x d (switch x d p c)
  unfolding switch
  switch-Exits Idle v x d parse_ok c h a k r =
      logged-Exits Idle v x d _ h k (setup_logging-keeps x.can_append x.signalled d c r)
  switch-Exits Idle v x d help c h a k r = inl (refl, a (inl refl))
  switch-Exits Idle v x d version c h a k r = inl (refl, a (inr refl))
  switch-Exits Idle v x d failure c h a k r = parsing_failed-Exits Idle v x d c
  switch-Exits Idle v x d invalid_flag c h a k r = parsing_failed-Exits Idle v x d c

  -- The command line has asked for the help or for the version.
  abbrev pub Asks : Result ParseResult → Type 0
  Asks r = (r ≡ ok help) ⊎ (r ≡ ok version)

  asks : (r : Result ParseResult) (p : ParseResult) → r ≡ ok p → (p ≡ help) ⊎ (p ≡ version) → Asks r
  asks r p h (inl e) = inl (h ∙ ap ok e)
  asks r p h (inr e) = inr (h ∙ ap ok e)

  not_asked : ¬ ((parse_ok ≡ help) ⊎ (parse_ok ≡ version))
  not_asked (inl e) = cc
  not_asked (inr e) = cc

  -- The program has nothing to run: the help, the version, or a Start that gives 0 by itself.
  abbrev pub Nothing : Result ParseResult → Host → Type 0
  Nothing z x = Asks z ⊎ (start_code (with_start x.argv) ≡ some success)

  parsed-Exits :
      (v : Result Disk × Configuration) (x : Host) (d : Disk) (z : Result ParseResult)
      (r : Result ParseResult × Configuration)
      → Provided x d
      → z ≡ r.0
      → v ≡ validation x d r.1
      → Ready r.1
      → Exits (Nothing z x) v x d (parsed x d r)
  unfolding parsed
  parsed-Exits v x d z (ok p, c) h e k r =
      switch-Exits (Nothing z x) v x d p c h (λ s. inl (asks z p e s)) k r
  parsed-Exits v x d z (err e, c) h q k r =
      if_elim (Exits (Nothing z x) v x d) (is_caught e)
        (if_elim (Exits (Nothing z x) v x d) (is_blank (what e))
          (switch-Exits (Nothing z x) v x d parse_ok c h (λ s. absurd (not_asked s)) k r)
          (parsing_failed-Exits (Nothing z x) v x d c))
        tt
  parsed-Exits v x d z (aborted, c) h e k r = tt

  uncaught-Exits :
      (Idle : Type 0) (v : Result Disk × Configuration) (x : Host) (d : Disk)
      (r : Result ℕ × Configuration)
      → Exits Idle v x d r
      → Exits Idle v x d (uncaught r)
  uncaught-Exits Idle v x d (ok code, c) h = h
  uncaught-Exits Idle v x d (err e, c) h = tt
  uncaught-Exits Idle v x d (aborted, c) h = tt

  -- What parseOptions returns in `main`, and the configuration that it leaves.
  abbrev pub parse_result_of : Host → Disk → Configuration → Result ParseResult
  parse_result_of x d c = (parse_options d x.argv (initialize c).1).0

  abbrev pub validation_of : Host → Disk → Configuration → Result Disk × Configuration
  validation_of x d c = validation x d (parse_options d x.argv (initialize c).1).1

  initialized-Exits :
      (x : Host) (d : Disk) (r : Result (Unit {0}) × Configuration)
      → Provided x d
      → Post Initial (λ e c. ⊥) r
      → Exits
          (Nothing (parse_options d x.argv r.1).0 x)
          (validation x d (parse_options d x.argv r.1).1)
          x
          d
          (uncaught (after r (λ u e. parsed x d (parse_options d x.argv e))))
  initialized-Exits x d (ok u, c) h i = uncaught-Exits _ _ x d _ (
      parsed-Exits _ x d _ (parse_options d x.argv c) h refl refl
        (parse_options-keeps d x.argv c (Initial-Ready c i)))
  initialized-Exits x d (err e, c) h i = absurd i
  initialized-Exits x d (aborted, c) h i = absurd i

  main-Exits :
      (x : Host) (d : Disk) (c : Configuration)
      → Provided x d
      → Table c.defaults
      → Exits (Nothing (parse_result_of x d c) x) (validation_of x d c) x d (main x d c)
  unfolding main
  main-Exits x d c h t = initialized-Exits x d (initialize c) h (initialize-Initial c t)

  abbrev code_of : Result ℕ → ℕ
  code_of (ok code) = code
  code_of r = 0

  exit_of-success : (r : Result (Unit {0})) → exit_of r ≡ ok success → r ≡ ok tt
  exit_of-success (ok u) h = refl
  exit_of-success (err (web_socket_configuration_error w)) h = absurd (omega (arith, ap code_of h))
  exit_of-success (err _) h = absurd (omega (arith, ap code_of h))
  exit_of-success aborted h = cc

  -- validate has returned with the result `v`, and the agent has run without an error on the
  -- configuration that it left.
  abbrev pub Completed : Result Disk × Configuration → Host → Disk → Type 0
  Completed v x d =
      (d' : Disk) × (c : Configuration) × (v ≡ (ok d', c))
      × Validated x.pcp_client x.uuids d d' c
      × (agent_result x d' (get_agent_configuration c).0 ≡ ok tt)

  success-Completed :
      (z : Result ParseResult) (v : Result Disk × Configuration) (x : Host) (d : Disk)
      (r : Result ℕ × Configuration)
      → Exits (Nothing z x) v x d r
      → r.0 ≡ ok success
      → Nothing z x ⊎ Completed v x d
  success-Completed z v x d (ok code, c) (inl (e, a)) h = inl a
  success-Completed z v x d (ok code, c) (inr (inl e)) h = absurd (omega (arith, e, ap code_of h))
  success-Completed z v x d (ok code, c) (inr (inr (inl e))) h =
      absurd (omega (arith, e, ap code_of h))
  success-Completed z v x d (ok code, c) (inr (inr (inr (inl (d', e, q, w, inl k))))) h =
      absurd (omega (arith, k, ap code_of h))
  success-Completed z v x d (ok code, c) (inr (inr (inr (inl (d', e, q, w, inr k))))) h =
      inr (d', e, q, w, exit_of-success _ (k ∙ h))
  success-Completed z v x d (ok code, c) (inr (inr (inr (inr k)))) h =
      inl (inr (k ∙ ap some (ap code_of h)))
  success-Completed z v x d (err e, c) i h = cc
  success-Completed z v x d (aborted, c) i h = cc

  -- If cpp-pcp-client's certificate functions throw nothing but connection_config_error, and in
  -- every directory the path of some UUID is free, then from the exit code 0 of `main`, on the table
  -- of options that the constructor of Configuration leaves, it follows that the command line asked
  -- for the help or the version, or that HW::Start gave 0 without running the action, or else that
  -- validate has returned in this run and that the agent has run, with the settings of the
  -- configuration that validate left, without an exception of its constructor, of the connection or
  -- of its monitoring.
  pub main-success :
      (x : Host) (d : Disk) (c : Configuration)
      → Provided x d
      → Table c.defaults
      → (main x d c).0 ≡ ok success
      → Nothing (parse_result_of x d c) x ⊎ Completed (validation_of x d c) x d
  main-success x d c h t =
      success-Completed _ (validation_of x d c) x d (main x d c) (main-Exits x d c h t)
