-- ===== src/Configuration/Parsing/Merging.antt =====
-- What the config file leaves in the flags.
use pxp_agent.Base.{
  String, true, false, not, ◌&&◌, Option, none, some, List, [], ◌∷◌, ◌≡◌, refl, ap, ◌∙◌,
  if◌then◌else◌, is_some, lookup, arith, contains, All, Bool-cases, Option-cases, ◌⊎◌, inl, inr,
}
use pxp_agent.Exception.Stateful.{Post, after-Post, Post-mono}
use pxp_agent.Libraries.{Libraries}
use pxp_agent.Configuration.{Types, Configuration, HorseWhisperer, find, option_types, is_option}
use pxp_agent.Configuration.Ready.{Ready, All-options}
use pxp_agent.Configuration.Parsing.{set_options, parse_content, parse_config_file, contents}
use pxp_agent.Configuration.Parsing.ConfigFile.{
  FileFailed, from_file, configured, OneKey, set_option-OneKey,
}

module _ ⦃L : Libraries⦄ ⦃H : HorseWhisperer⦄ where
  open L use {
    Double, Json, Disk, parse, entry, keys, is_object, file_readable, read, entry-keys,
    contains-keys,
  }
  open H use {get}

  -- What the loop over the keys has changed.
  abbrev Merged : Json → List String → Configuration → Unit {0} → Configuration → Type 0
  Merged j ks c u d =
      Ready d
      × All (λ k. is_option k ≡ true) ks
      × ((q : String) (t : Types)
          → lookup q option_types ≡ some t
          → get d.flags q ≡ (
              if contains q ks && not (configured q c)
              then from_file t (get c.flags q) (entry j q)
              else get c.flags q))

  Merged-cons :
      (j : Json) (k : String) (ks : List String) (c d e : Configuration)
      → OneKey j k c tt d
      → Merged j ks d tt e
      → Merged j (k ∷ ks) c tt e
  Merged-cons j k ks c d e p m =
      (m.0, (p.2, m.1), λ q t l. ground (arith, m.2 q t l, (p.1 q t l).0, (p.1 q t l).1))

  set_options-Merged :
      (j : Json) (ks : List String) (c : Configuration)
      → Ready c
      → All (λ k. is_some (entry j k) ≡ true) ks
      → Post (Merged j ks c) FileFailed (set_options j ks c)
  unfolding set_options
  set_options-Merged j [] c r h = (r, tt, λ q t l. refl)
  set_options-Merged j (k ∷ ks) c r h =
      after-Post (OneKey j k c) (Merged j (k ∷ ks) c) FileFailed _ _
        (set_option-OneKey j k (find k c.defaults) c r h.0 refl)
        (λ u d p.
          Post-mono (Merged j ks d) (Merged j (k ∷ ks) c) _ _ (set_options j ks d)
            (set_options-Merged j ks d p.0 h.1) (λ u' e m. Merged-cons j k ks c d e p m)
            (λ e s x. x))

  -- The value of every option, by the rank of what gives it: what set it before, the config file,
  -- and the value that it had.
  abbrev RankedAt : Json → Configuration → Configuration → String → Types → Type 0
  RankedAt j c d q t =
      get d.flags q
      ≡ (if configured q c then get c.flags q else from_file t (get c.flags q) (entry j q))

  abbrev pub Ranked : Json → Configuration → Configuration → Type 0
  Ranked j c d = All (λ s. RankedAt j c d s.0 s.1) option_types

  -- The config file has been read.
  abbrev pub FileRead : Option Json → Configuration → Unit {0} → Configuration → Type 0
  FileRead none c u d = ⊥
  FileRead (some j) c u d =
      Ready d × (is_object j ≡ true) × All (λ k. is_option k ≡ true) (keys j) × Ranked j c d

  Merged-RankedAt :
      (j : Json) (c d : Configuration)
      → Merged j (keys j) c tt d
      → (q : String) (t : Types) → lookup q option_types ≡ some t
      → RankedAt j c d q t
  Merged-RankedAt j c d m q t l = elim (Option-cases (entry j q)) [
    | inl e ↦ m.2 q t l ∙ rw e (ground arith)
    | inr (x, e) ↦ m.2 q t l ∙ rw (e, contains-keys j q (ap is_some e)) (ground arith)
  ]

  object-FileRead :
      (j : Json) (c : Configuration)
      → is_object j ≡ true
      → Ready c
      → Post (FileRead (some j) c) FileFailed (set_options j (keys j) c)
  object-FileRead j c o r =
      Post-mono (Merged j (keys j) c) (FileRead (some j) c) _ _ (set_options j (keys j) c)
        (set_options-Merged j (keys j) c r (entry-keys j))
        (λ u d m. (m.0, o, m.1, All-options (RankedAt j c d) (Merged-RankedAt j c d m)))
        (λ e d x. x)

  parse_content-FileRead :
      (o : Option Json) (c : Configuration)
      → Ready c
      → Post (FileRead o c) FileFailed (parse_content o c)
  unfolding parse_content
  parse_content-FileRead none c r = (tt, r)
  parse_content-FileRead (some j) c r = elim (Bool-cases (is_object j)) [
    | inl b ↦ rw b (object-FileRead j c b r)
    | inr b ↦ rw b (tt, r)
  ]

  -- Where the file cannot be read nothing changes.
  abbrev pub ConfigRead : Disk → Configuration → Unit {0} → Configuration → Type 0
  ConfigRead disk c u d =
      ((file_readable disk c.config_file ≡ false) × (d ≡ c))
      ⊎ FileRead (parse (contents (read disk c.config_file))) c u d

  -- On an initialized configuration the config file is ignored where it cannot be read. Otherwise
  -- parseConfigFile throws a Configuration::Error, or what the read of a number that is no int
  -- throws, with a well-formed configuration left, or it returns. Then the file is a JSON object,
  -- all its keys are options, and the value of each option is the one that was set before, else
  -- the one that the file gives, which has the type of the option, else the value that it had.
  pub parse_config_file-ConfigRead :
      (disk : Disk) (c : Configuration)
      → Ready c
      → Post (ConfigRead disk c) FileFailed (parse_config_file disk c)
  unfolding parse_config_file
  parse_config_file-ConfigRead disk c r = elim (Bool-cases (file_readable disk c.config_file)) [
    | inl b ↦ rw b (
        Post-mono (FileRead (parse (contents (read disk c.config_file))) c) (ConfigRead disk c) _ _
          (parse_content (parse (contents (read disk c.config_file))) c)
          (parse_content-FileRead (parse (contents (read disk c.config_file))) c r) (λ u d m. inr m)
          (λ e d x. x))
    | inr b ↦ rw b (inl (b, refl))
  ]
