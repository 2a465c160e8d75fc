-- ===== src/RequestProcessor/Modules/Sound.antt =====
-- What holds of the modules that have been loaded.
use pxp_agent.Base.{
  All, String, List, [], ◌∷◌, Option, none, some, ◌≡◌, refl, sym, ap, subst, ◌∙◌, if_elim, is_blank,
  Dict, lookup, insert, ◌==◌,
}
use pxp_agent.Exception.{Result, ok, err, aborted, ◌>>=◌, bind_ok, loading_error, std_exception}
use pxp_agent.Libraries.{Libraries, FileChecked}
use pxp_agent.ExternalModule.{ExternalModule, Execution}
use pxp_agent.ExternalModule.Registration.{load_with, validate_configuration}
use pxp_agent.ExternalModule.Registration.Loading.{Loads, load_with-Loads, load-Loads}
use pxp_agent.ExternalModule.Registration.Actions.{load_with-Named, load-name, ok_injective}
use pxp_agent.RequestProcessor.Content.{Loaded, echo, ping, status, external_module}
use pxp_agent.RequestProcessor.Modules.{
  load_configured, keep_module, load_external_module, load_canonical, load_entry, load_entries,
  load_external_modules_from,
}

abbrev Ends : {A : Type 0} → Result A → Type 0
Ends (ok a) = Unit {0}
Ends (err e) = Unit {0}
Ends aborted = ⊥

Loads-Ends : {A : Type 0} (r : Result A) → Loads r → Ends r
Loads-Ends (ok a) h = tt
Loads-Ends (err (loading_error w)) h = tt
Loads-Ends (err _) h = absurd h
Loads-Ends aborted h = absurd h

bind-Ends :
    {A B : Type 0} (r : Result A) (f : A → Result B)
    → Ends r
    → ((a : A) → Ends (f a))
    → Ends (r >>= f)
bind-Ends (ok a) f h g = g a
bind-Ends (err e) f h g = tt
bind-Ends aborted f h g = absurd h

module _ ⦃L : Libraries⦄ where
  open L use {
    Json, Disk, Validator, status-FileChecked, canonical, canonical-FileChecked, is_directory, stem,
    extension, validates, includes_schema,
  }

  abbrev Checked : Option Json → ExternalModule → Type 0
  Checked none m = Unit {0}
  Checked (some config) m = validate_configuration m ≡ ok tt

  -- A module is stored under its own name, and the configuration of an external module has passed
  -- its validation, if one was loaded for that name.
  abbrev pub Entry : Dict Json → String → Loaded → Type 0
  Entry configs k (external_module m) = (m.module_name ≡ k) × Checked (lookup k configs) m
  Entry configs k (echo m) = m.module_name ≡ k
  Entry configs k (ping m) = m.module_name ≡ k
  Entry configs k (status m) = m.module_name ≡ k

  abbrev pub Sound : Dict Json → Dict Loaded → Type 0
  Sound configs [] = Unit {0}
  Sound configs ((k, m) ∷ r) = Entry configs k m × Sound configs r

  insert-Sound :
      (configs : Dict Json) (k : String) (m : Loaded) (d : Dict Loaded)
      → Entry configs k m
      → Sound configs d
      → Sound configs (insert k m d)
  unfolding insert
  insert-Sound configs k m [] e h = (e, tt)
  insert-Sound configs k m ((j, w) ∷ d) e (x, h) =
      if_elim (Sound configs) (j == k) (e, h) (x, insert-Sound configs k m d e h)

  load_configured-Checked :
      (v : Validator) (run : String → Execution) (path : String) (o : Option Json)
      (m : ExternalModule)
      → load_configured v run path o ≡ ok m
      → (m.module_name ≡ stem path) × Checked o m
  unfolding load_configured
  load_configured-Checked v run path (some config) m h =
      let (n, e, k) = bind_ok (load_with v (run path) path config) _ h in
      let (u, f, g) = bind_ok (validate_configuration n) _ k in
      let i = ok_injective g in
      let (_, _, _, _, _, s) = load_with-Named v (run path) path config n e in
      (sym (ap (λ z. z.base.module_name) i) ∙ s, subst (λ z. validate_configuration z ≡ ok tt) i f)
  load_configured-Checked v run path none m h = (load-name v (run path) path m h, tt)

  validate_configuration-Ends : (m : ExternalModule) → Ends (validate_configuration m)
  unfolding validate_configuration
  validate_configuration-Ends m =
      if_elim Ends (includes_schema m.config_validator m.module_name)
        (if_elim Ends (validates m.config_validator m.config m.module_name) tt tt) tt

  load_configured-Ends :
      (v : Validator) (run : String → Execution) (path : String) (o : Option Json)
      → Ends (load_configured v run path o)
  unfolding load_configured
  load_configured-Ends v run path (some config) =
      bind-Ends (load_with v (run path) path config) _
        (Loads-Ends _ (load_with-Loads v (run path) path config))
        λ m. bind-Ends (validate_configuration m) _ (validate_configuration-Ends m) λ u. tt
  load_configured-Ends v run path none = Loads-Ends _ (load-Loads v (run path) path)

  -- A step that returns with sound modules.
  abbrev Keeps : Dict Json → Result (Dict Loaded) → Type 0
  Keeps configs r = (d : Dict Loaded) × (r ≡ ok d) × Sound configs d

  keep_module-Keeps :
      (configs : Dict Json) (path : String) (d : Dict Loaded) (x : Result ExternalModule)
      → Ends x
      → ((m : ExternalModule)
          → x ≡ ok m
          → (m.module_name ≡ stem path) × Checked (lookup (stem path) configs) m)
      → Sound configs d
      → Keeps configs (keep_module d x)
  unfolding keep_module
  keep_module-Keeps configs path d (ok m) e c s =
      let (n, k) = c m refl in
      (
        insert m.module_name (external_module m) d,
        refl,
        insert-Sound configs m.module_name (external_module m) d
            (refl, subst (λ q. Checked (lookup q configs) m) (sym n) k) s,
      )
  keep_module-Keeps configs path d (err w) e c s = (d, refl, s)
  keep_module-Keeps configs path d aborted e c s = absurd e

  load_external_module-Keeps :
      (v : Validator) (run : String → Execution) (configs : Dict Json) (path : String)
      (d : Dict Loaded)
      → Sound configs d
      → Keeps configs (load_external_module v run configs path d)
  unfolding load_external_module
  load_external_module-Keeps v run configs path d s =
      let o = lookup (stem path) configs in
      keep_module-Keeps configs path d (load_configured v run path o)
        (load_configured-Ends v run path o) (load_configured-Checked v run path o) s

  -- A step that returns with sound modules, or throws a filesystem_error.
  abbrev pub Gives : Dict Json → Result (Dict Loaded) → Type 0
  Gives configs (ok d) = Sound configs d
  Gives configs (err (std_exception w)) = Unit {0}
  Gives configs _ = ⊥

  Keeps-Gives : (configs : Dict Json) (r : Result (Dict Loaded)) → Keeps configs r → Gives configs r
  Keeps-Gives configs r (d, e, s) = subst (Gives configs) (sym e) s

  checked-Gives :
      {A : Type 0} (configs : Dict Json) (r : Result A) (f : A → Result (Dict Loaded))
      → FileChecked r
      → ((a : A) → Gives configs (f a))
      → Gives configs (r >>= f)
  checked-Gives configs (ok a) f h g = g a
  checked-Gives configs (err (std_exception w)) f h g = tt
  checked-Gives configs (err _) f h g = absurd h
  checked-Gives configs aborted f h g = absurd h

  bind-Gives :
      (configs : Dict Json) (r : Result (Dict Loaded)) (f : Dict Loaded → Result (Dict Loaded))
      → Gives configs r
      → ((d : Dict Loaded) → Sound configs d → Gives configs (f d))
      → Gives configs (r >>= f)
  bind-Gives configs (ok d) f s g = g d s
  bind-Gives configs (err e) f h g = h
  bind-Gives configs aborted f h g = h

  load_canonical-Gives :
      (v : Validator) (run : String → Execution) (configs : Dict Json) (path : String)
      (d : Dict Loaded)
      → Sound configs d
      → Gives configs (load_canonical v run configs path d)
  unfolding load_canonical
  load_canonical-Gives v run configs path d s =
      if_elim (Gives configs) (is_blank (extension path))
        (Keeps-Gives configs _ (load_external_module-Keeps v run configs path d s)) s

  load_entry-Gives :
      (v : Validator) (run : String → Execution) (configs : Dict Json) (disk : Disk) (path : String)
      (d : Dict Loaded)
      → Sound configs d
      → Gives configs (load_entry v run configs disk path d)
  unfolding load_entry
  load_entry-Gives v run configs disk path d s =
      checked-Gives configs (L.status disk path) _ (status-FileChecked disk path) (λ u.
        if_elim (Gives configs) (is_directory disk path) s (
          checked-Gives configs (canonical disk path) _ (canonical-FileChecked disk path)
            (λ f_p. load_canonical-Gives v run configs f_p d s)))

  load_entries-Gives :
      (v : Validator) (run : String → Execution) (configs : Dict Json) (disk : Disk)
      (entries : List (Result String)) (d : Dict Loaded)
      → All FileChecked entries
      → Sound configs d
      → Gives configs (load_entries v run configs disk entries d)
  unfolding load_entries
  load_entries-Gives v run configs disk [] d h s = s
  load_entries-Gives v run configs disk (entry ∷ entries) d h s =
      checked-Gives configs entry _ h.0 (λ path.
        bind-Gives configs (load_entry v run configs disk path d) _
          (load_entry-Gives v run configs disk path d s)
          (λ d' s'. load_entries-Gives v run configs disk entries d' h.1 s'))

  pub load_external_modules_from-Gives :
      (v : Validator) (run : String → Execution) (configs : Dict Json) (disk : Disk) (dir : String)
      (entries : List (Result String)) (d : Dict Loaded)
      → All FileChecked entries
      → Sound configs d
      → Gives configs (load_external_modules_from v run configs disk dir entries d)
  unfolding load_external_modules_from
  load_external_modules_from-Gives v run configs disk dir entries d h s =
      checked-Gives configs (L.status disk dir) _ (status-FileChecked disk dir) (λ u.
        if_elim (Gives configs) (is_directory disk dir)
          (load_entries-Gives v run configs disk entries d h s) s)
