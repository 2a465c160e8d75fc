-- ===== src/Configuration/Settings/Access.antt =====
-- What `get` and `set` do before and after the validation.
use pxp_agent.Base.{
  String, Bool, true, false, Option, none, some, List, [], ◌∷◌, ◌≡◌, refl, sym, ap, ◌∙◌, lookup,
  is_some, if◌then◌else◌, ◌==◌, Bool-cases, inl, inr,
}
use pxp_agent.Exception.{Result, ok, err, aborted, configuration_error}
use pxp_agent.Libraries.{Libraries}
use pxp_agent.Configuration.{
  Value, Entry, type_of, Configuration, HorseWhisperer, option_types, is_option, find, set_flag,
  read_as, get_flag,
}
use pxp_agent.Configuration.Defaults.{define_default_values}
use pxp_agent.Configuration.Defaults.Table.{Table, unmarked}
use pxp_agent.Configuration.Ready.{Ready, written, set_flag-Ready}
use pxp_agent.Configuration.Settings.{get, set, default_value, catch_undefined, catch_set}

module _ ⦃L : Libraries⦄ ⦃H : HorseWhisperer⦄ where
  open L use {Double}
  open H use {get-set}

  -- What `set` throws then.
  abbrev not_validated : Result (Unit {0})
  not_validated =
      err (configuration_error "cannot set configuration value until configuration is validated")

  default_value-unmarked :
      {A : Type 0} (read : Value Double → Option A) (q : String) (es : List (Entry Double))
      → default_value read q (find q es) ≡ default_value read q (find q (unmarked es))
  unfolding find
  default_value-unmarked read q [] = refl
  default_value-unmarked read q (e ∷ es) = elim (Bool-cases (e.name == q)) [
    | inl h ↦ rw h refl
    | inr h ↦ rw h (default_value-unmarked read q es)
  ]

  -- Until the validation has succeeded, `get` gives the default of an option, whatever the command
  -- line and the config file say, and throws for any other name.
  pub get-default_value :
      {A : Type 0} (read : Value Double → Option A) (q : String) (c : Configuration)
      → Table c.defaults
      → c.valid ≡ false
      → get read q c ≡ default_value read q (find q (define_default_values []))
  unfolding get
  get-default_value read q c t v =
      ap
        (λ b.
          if b
          then catch_undefined (get_flag read q c)
          else default_value read q (find q c.defaults))
        v
      ∙ default_value-unmarked read q c.defaults
      ∙ ap (λ es. default_value read q (find q es)) t

  get-valid :
      {A : Type 0} (read : Value Double → Option A) (q : String) (c : Configuration)
      → c.valid ≡ true
      → get read q c ≡ catch_undefined (read_as read q (H.get c.flags q))
  unfolding get
  get-valid read q c v =
      ap
        (λ b.
          if b
          then catch_undefined (get_flag read q c)
          else default_value read q (find q c.defaults))
        v

  -- On a validated configuration `set` of an option with a value of its type succeeds; `get` then
  -- reads that value, and what it reads for every other option is as before.
  pub set-get :
      {A : Type 0} (read : Value Double → Option A) (n q : String) (v : Value Double) (a : A)
      (c : Configuration)
      → Ready c
      → c.valid ≡ true
      → lookup n option_types ≡ some (type_of v)
      → is_option q ≡ true
      → read v ≡ some a
      → (d : Configuration) × (set n v c ≡ (ok tt, d))
        × (get read q d ≡ (if n == q then ok a else get read q c))
  unfolding set
  set-get read n q v a c r h t o e =
      let (s, r') = set_flag-Ready n v c t r in
      (
        written n v c,
        ap (λ b. if b then catch_set n (set_flag n v c) else (not_validated, c)) h
            ∙ ap (catch_set n) s,
        get-valid read q (written n v c) h
            ∙ ap (λ x. catch_undefined (read_as read q x)) (get-set c.flags n q v (ap is_some t) o)
            ∙ branches (n == q) e (sym (get-valid read q c h)),
      )
    where
      branches :
          (b : Bool)
          → read v ≡ some a
          → catch_undefined (read_as read q (H.get c.flags q)) ≡ get read q c
          → catch_undefined (read_as read q (if b then some v else H.get c.flags q))
            ≡ (if b then ok a else get read q c)
      branches true e k = ap (λ x. catch_undefined (elim x [ none ↦ aborted | some y ↦ ok y ])) e
      branches false e k = k
