-- ===== src/Configuration/Validation/Valid.antt =====
-- What validate ensures of the configuration.
use pxp_agent.Base.{
  String, Bool, true, false, List, [], ◌∷◌, some, ◌≡◌, ◌⊎◌, refl, ap, ◌∙◌, is_blank, lookup, inl,
  inr, contains, arith, subst, sym,
}
use pxp_agent.Exception.Stateful.{Post, after-Post, Post-mono}
use pxp_agent.Libraries.{Libraries}
use mathlib.Core.Option.{some-injective}
use pxp_agent.Configuration.{
  Value, string_value, bool_value, Configuration, HorseWhisperer, is_option,
}
use pxp_agent.Configuration.Ready.{Ready}
use pxp_agent.Configuration.Validation.{
  PcpClient, validate, validate_other_settings, set_valid, validate_pid_file,
}
use pxp_agent.Configuration.Validation.Frame.{Before, Failed, Only, string-Post, bool-Post}
use pxp_agent.Configuration.Validation.WebSocket.{
  PcpThrows, WebSocketValid, WebSocketChecked, validate_web_socket_settings-Post,
}
use pxp_agent.Configuration.Validation.Directories.{Free, DirectoryIn, Normalized, normalize-Post}
use pxp_agent.Configuration.Validation.SpoolDir.{
  Writable, Spooled, check_spool_dir-Post, PidFileOk, PidChecked, normalize_pid_file-Post,
}

module _ ⦃L : Libraries⦄ ⦃H : HorseWhisperer⦄ where
  open L use {Double, Disk, is_directory}
  open H use {get}

  abbrev pub SpoolDirOk : Disk → List String → Configuration → Type 0
  SpoolDirOk d uuids c =
      (s : String) × (get c.flags "spool-dir" ≡ some (string_value s))
      × (is_blank s ≡ false)
      × Writable d s uuids

  -- A daemon has a PID file.
  abbrev pub PidFileSet : Disk → Configuration → Type 0
  PidFileSet d c =
      (get c.flags "foreground" ≡ some (bool_value true))
      ⊎ ((s : String) × (get c.flags "pidfile" ≡ some (string_value s)) × PidFileOk d s)

  abbrev other_names : List String
  other_names = "modules-dir" ∷ "modules-config-dir" ∷ "spool-dir" ∷ "pidfile" ∷ []

  -- The directories, the spool directory and the PID file; the latter is looked for on the disk
  -- after the test.
  abbrev pub OtherValid : List String → Disk → Disk → Configuration → Type 0
  OtherValid uuids d d' c =
      DirectoryIn d "modules-dir" c
      × DirectoryIn d "modules-config-dir" c
      × DirectoryIn d "spool-dir" c
      × SpoolDirOk d uuids c
      × PidFileSet d' c

  abbrev OtherChecked : Bool → List String → Disk → Configuration → Disk → Configuration → Type 0
  OtherChecked v uuids d c d' e = Before v e × OtherValid uuids d d' e × Only other_names c e

  moved :
      (d : Disk) (n : String) (names : List String) (c e : Configuration)
      → Only names c e
      → is_option n ≡ true
      → contains n names ≡ false
      → DirectoryIn d n c
      → DirectoryIn d n e
  moved d n names c e o i k (s, g, h) = (s, o n i k ∙ g, h)

  pid_file_set :
      (d : Disk) (foreground : Bool) (c e : Configuration)
      → Only ("pidfile" ∷ []) c e
      → get c.flags "foreground" ≡ some (bool_value foreground)
      → (foreground ≡ true)
        ⊎ ((s : String) × (get e.flags "pidfile" ≡ some (string_value s)) × PidFileOk d s)
      → PidFileSet d e
  unfolding lookup
  pid_file_set d foreground c e o f (inl t) =
      inl (o "foreground" refl refl ∙ f ∙ ap (λ b. some (bool_value b)) t)
  pid_file_set d foreground c e o f (inr x) = inr x

  -- The foreground flag and the PID file, last.
  validate_pid_file-Post :
      (v : Bool) (uuids : List String) (d d' : Disk) (c : Configuration) (spool : String)
      → Before v c
      → DirectoryIn d "modules-dir" c
      → DirectoryIn d "modules-config-dir" c
      → DirectoryIn d "spool-dir" c
      → get c.flags "spool-dir" ≡ some (string_value spool)
      → is_blank spool ≡ false
      → Writable d spool uuids
      → Post (OtherChecked v uuids d c) (Failed v) (validate_pid_file d' c)
  unfolding validate_pid_file lookup
  validate_pid_file-Post v uuids d d' c spool b m n s g k w =
      let Q = OtherChecked v uuids d c in
      bool-Post Q v "foreground" _ c refl b (λ foreground f.
        after-Post (PidChecked v foreground d' c) Q (Failed v) _ _
          (normalize_pid_file-Post v d' foreground c b)
          (λ u e p. (
            p.0,
            (
              moved d "modules-dir" ("pidfile" ∷ []) c e p.2 refl refl m,
              moved d "modules-config-dir" ("pidfile" ∷ []) c e p.2 refl refl n,
              moved d "spool-dir" ("pidfile" ∷ []) c e p.2 refl refl s,
              (spool, p.2 "spool-dir" refl refl ∙ g, k, w),
              pid_file_set d' foreground c e p.2 f p.1,
            ),
            λ q o x. p.2 q o (ground (arith, x)),
          )))

  text_of : Value Double → String
  text_of (string_value s) = s
  text_of _ = ""

  -- The spool directory, once it has been normalized, is there.
  spool_dir-Free :
      (d : Disk) (uuids : List String) (c : Configuration) (spool : String)
      → ((dir : String) → is_directory d dir ≡ true → Free d dir uuids)
      → DirectoryIn d "spool-dir" c
      → get c.flags "spool-dir" ≡ some (string_value spool)
      → is_blank spool ≡ false
      → Free d spool uuids
  unfolding text_of
  spool_dir-Free d uuids c spool fresh (s, g, h) k b =
      let e : s ≡ spool = ap text_of (some-injective _ _ (sym g ∙ k)) in
      elim h [
        | inl x ↦ let t : true ≡ false = sym x ∙ ap is_blank e ∙ b in cc
        | inr x ↦ fresh spool (sym (ap (is_directory d) e) ∙ x)
      ]

  validate_other_settings-Post :
      (v : Bool) (uuids : List String) (d : Disk) (c : Configuration)
      → ((dir : String) → is_directory d dir ≡ true → Free d dir uuids)
      → Before v c
      → Post (OtherChecked v uuids d c) (Failed v) (validate_other_settings uuids d c)
  unfolding validate_other_settings lookup
  validate_other_settings-Post v uuids d c fresh b =
      let Q = OtherChecked v uuids d c in
      after-Post (Normalized v d "modules-dir" c) Q (Failed v) _ _
        (normalize-Post v d "modules-dir" c refl b)
        (λ u1 c1 n1.
          after-Post (Normalized v d "modules-config-dir" c1) Q (Failed v) _ _
            (normalize-Post v d "modules-config-dir" c1 refl n1.0)
            (λ u2 c2 n2.
              after-Post (Normalized v d "spool-dir" c2) Q (Failed v) _ _
                (normalize-Post v d "spool-dir" c2 refl n2.0)
                (λ u3 c3 n3. string-Post Q v "spool-dir" _ c3 refl n3.0 (λ spool g.
                  after-Post (Spooled d spool uuids c3) Q (Failed v) _ _
                    (check_spool_dir-Post v uuids d spool c3
                      (spool_dir-Free d uuids c3 spool fresh n3.1 g) n3.0)
                    (λ d' c4 w.
                      Post-mono (OtherChecked v uuids d c4) Q (Failed v) (Failed v) _
                        (validate_pid_file-Post v uuids d d' c4 spool
                          (subst (Before v) (sym w.0) n3.0)
                          (subst (DirectoryIn d "modules-dir") (sym w.0) (
                            moved d "modules-dir" ("spool-dir" ∷ []) c2 c3 n3.2 refl refl (
                              moved d "modules-dir" ("modules-config-dir" ∷ []) c1 c2 n2.2 refl refl
                                n1.1)))
                          (subst (DirectoryIn d "modules-config-dir") (sym w.0) (
                            moved d "modules-config-dir" ("spool-dir" ∷ []) c2 c3 n3.2 refl refl
                              n2.1))
                          (subst (DirectoryIn d "spool-dir") (sym w.0) n3.1)
                          (subst (λ x. get x.flags "spool-dir" ≡ some (string_value spool))
                            (sym w.0) g)
                          w.1 w.2)
                        (λ a e o. (
                          o.0,
                          o.1,
                          λ q i x.
                              o.2 q i x
                              ∙ ap (λ y. get y.flags q) w.0
                              ∙ n3.2 q i (ground (arith, x))
                              ∙ n2.2 q i (ground (arith, x))
                              ∙ n1.2 q i (ground (arith, x)),
                        ))
                        (λ e z x. x))))))

  -- A validated configuration.
  abbrev pub Validated : PcpClient → List String → Disk → Disk → Configuration → Type 0
  Validated p uuids d d' c =
      Ready c × (c.valid ≡ true) × WebSocketValid p d c × OtherValid uuids d d' c

  abbrev AllChecked : Bool → PcpClient → List String → Disk → Disk → Configuration → Type 0
  AllChecked v p uuids d d' c = Before v c × WebSocketValid p d c × OtherValid uuids d d' c

  kept :
      (p : PcpClient) (d : Disk) (c e : Configuration)
      → Only other_names c e
      → WebSocketValid p d c
      → WebSocketValid p d e
  unfolding lookup
  kept p d c e o (uri, ca, cert, key, u, uok, x, aok, y, cok, z, kok, pair) = (
    uri,
    ca,
    cert,
    key,
    o "broker-ws-uri" refl refl ∙ u,
    uok,
    o "ssl-ca-cert" refl refl ∙ x,
    aok,
    o "ssl-cert" refl refl ∙ y,
    cok,
    o "ssl-key" refl refl ∙ z,
    kok,
    pair,
  )

  pub validate-Validated :
      (p : PcpClient) (uuids : List String) (d : Disk) (c : Configuration)
      → PcpThrows p
      → ((dir : String) → is_directory d dir ≡ true → Free d dir uuids)
      → Ready c
      → Post (Validated p uuids d) (Failed c.valid) (validate p uuids d c)
  unfolding validate set_valid
  validate-Validated p uuids d c h fresh r =
      after-Post (AllChecked c.valid p uuids d) (Validated p uuids d) (Failed c.valid) _ set_valid
        (after-Post (WebSocketChecked c.valid p d) (AllChecked c.valid p uuids d) (Failed c.valid) _
          _ (validate_web_socket_settings-Post c.valid p d c h (r, refl))
          (λ u c1 w.
            Post-mono (OtherChecked c.valid uuids d c1) (AllChecked c.valid p uuids d)
              (Failed c.valid) (Failed c.valid) _
              (validate_other_settings-Post c.valid uuids d c1 fresh w.0)
              (λ d' e o. (o.0, kept p d c1 e o.2 w.1, o.1)) (λ e z x. x)))
        (λ d' e o. (o.0.0, refl, o.1, o.2))
