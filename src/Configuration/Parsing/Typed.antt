-- ===== src/Configuration/Parsing/Typed.antt =====
-- parseOptions keeps the configuration well formed, whatever the command line and the file are.
use pxp_agent.Base.{
  String, Option, none, some, List, [], ◌∷◌, ◌≡◌, sym, subst, All, lookup, is_blank, if_elim, inl,
  inr,
}
use pxp_agent.Exception.{ok}
use pxp_agent.Exception.Stateful.{after-keeps, Post-state}
use pxp_agent.Libraries.{Libraries}
use pxp_agent.Configuration.{
  Value, type_of, option_types, Configuration, HorseWhisperer, ParseResult, parse_ok, help, version,
  failure, invalid_flag, set_flag, get_flag, as_string,
}
use pxp_agent.Configuration.Ready.{Ready, set_flag-Ready}
use pxp_agent.Configuration.Parsing.{
  set_flags, parse_arguments, with_start, parse_file_at, parse_config_file, after_arguments,
  parse_options, contents,
}
use pxp_agent.Configuration.Parsing.ConfigFile.{FileFailed}
use pxp_agent.Configuration.Parsing.Merging.{FileRead, ConfigRead, parse_config_file-ConfigRead}

module _ ⦃L : Libraries⦄ ⦃H : HorseWhisperer⦄ where
  open L use {Double, Json, Disk, parse, read, tilde_expand}
  open H use {settings, settings-typed, outcome}

  set_flag-keeps :
      (n : String) (v : Value Double) (c : Configuration)
      → lookup n option_types ≡ some (type_of v)
      → Ready c
      → Ready (set_flag n v c).1
  set_flag-keeps n v c h r =
      let (e, r') = set_flag-Ready n v c h r in subst (λ x. Ready x.1) (sym e) r'

  set_flags-keeps :
      (s : List (String × Value Double)) (c : Configuration)
      → All (λ p. lookup p.0 option_types ≡ some (type_of p.1)) s
      → Ready c
      → Ready (set_flags s c).1
  unfolding set_flags
  set_flags-keeps [] c h r = r
  set_flags-keeps ((n, v) ∷ s) c h r =
      after-keeps Ready (set_flag n v c) (λ u. set_flags s) (set_flag-keeps n v c h.0 r)
        (λ u d k. set_flags-keeps s d h.1 k)

  FileRead-Ready : (o : Option Json) (c d : Configuration) → FileRead o c tt d → Ready d
  FileRead-Ready none c d h = absurd h
  FileRead-Ready (some j) c d h = h.0

  ConfigRead-Ready :
      (disk : Disk) (c d : Configuration) → Ready c → ConfigRead disk c tt d → Ready d
  ConfigRead-Ready disk c d r (inl h) = subst Ready (sym h.1) r
  ConfigRead-Ready disk c d r (inr h) =
      FileRead-Ready (parse (contents (read disk c.config_file))) c d h

  parse_config_file-keeps :
      (disk : Disk) (c : Configuration) → Ready c → Ready (parse_config_file disk c).1
  parse_config_file-keeps disk c r =
      Post-state Ready (ConfigRead disk c) FileFailed (parse_config_file disk c)
        (parse_config_file-ConfigRead disk c r) (λ u d h. ConfigRead-Ready disk c d r h)
        (λ e d h. h.1)

  parse_file_at-keeps :
      (disk : Disk) (path : String) (c : Configuration)
      → Ready c
      → Ready (parse_file_at disk path c).1
  unfolding parse_file_at
  parse_file_at-keeps disk path c r =
      let c' : Configuration = record c { config_file = path } in
      if_elim (λ x. Ready x.1) (is_blank path) {x = (ok tt, c')} {y = parse_config_file disk c'} r
        (parse_config_file-keeps disk c' r)

  after_arguments-keeps :
      (disk : Disk) (p : ParseResult) (c : Configuration)
      → Ready c
      → Ready (after_arguments disk p c).1
  unfolding after_arguments
  after_arguments-keeps disk parse_ok c r =
      after-keeps Ready (get_flag as_string "config-file" c, c) _ r
        (λ path d k.
          after-keeps Ready (parse_file_at disk (tilde_expand path) d) _
            (parse_file_at-keeps disk (tilde_expand path) d k) (λ u e q. q))
  after_arguments-keeps disk help c r = r
  after_arguments-keeps disk version c r = r
  after_arguments-keeps disk failure c r = r
  after_arguments-keeps disk invalid_flag c r = r

  -- Whatever the command line and the config file, and whether parseOptions returns or throws, it
  -- leaves a well-formed configuration well-formed: every option has an entry, whose default has
  -- the type of the option, and every flag has a value of the type of its option.
  pub parse_options-keeps :
      (disk : Disk) (argv : List String) (c : Configuration)
      → Ready c
      → Ready (parse_options disk argv c).1
  unfolding parse_options parse_arguments
  parse_options-keeps disk argv c r =
      after-keeps Ready (parse_arguments argv c) (after_arguments disk)
        (after-keeps Ready (set_flags (settings (with_start argv)) c) _
          (set_flags-keeps (settings (with_start argv)) c (settings-typed (with_start argv)) r)
          (λ u d k. k))
        (λ p d k. after_arguments-keeps disk p d k)
