-- ===== src/Configuration/Validation/Frame.antt =====
-- How the steps of the validation change the configuration: reads, checks, and SetFlag.
use pxp_agent.Base.{
  String, Bool, true, false, Option, some, List, [], ◌∷◌, ◌≡◌, refl, sym, ap, ◌∙◌, subst, lookup,
  contains, is_some, arith, eq_iff,
}
use pxp_agent.Exception.{
  Exception, Result, ok, err, aborted, guarded, std_exception, IsSettingsError,
}
use pxp_agent.Exception.Stateful.{Stateful, Post, after, after-Post, Post-mono}
use pxp_agent.Libraries.{Libraries, FileChecked}
use pxp_agent.Configuration.{
  Value, string, string_value, as_string, as_bool, bool, bool_value, Configuration, HorseWhisperer,
  option_types, is_option, set_flag, get_flag,
}
use pxp_agent.Configuration.Ready.{Ready, set_flag-Ready, get_string-Ready, get_bool-Ready}

-- A check gives a value with the property, or throws a Configuration::Error or a filesystem_error.
abbrev pub Checks : {A : Type 0} → (A → Type 0) → Result A → Type 0
Checks P (ok a) = P a
Checks P (err e) = IsSettingsError e
Checks P aborted = ⊥

pub Checks-mono :
    {A : Type 0} (P Q : A → Type 0) (r : Result A) → Checks P r → ((a : A) → P a → Q a) → Checks Q r
Checks-mono P Q (ok a) h f = f a h
Checks-mono P Q (err e) h f = h
Checks-mono P Q aborted h f = h

pub guarded-Checks :
    {A : Type 0} (P : A → Type 0) (s : Result (Unit {0})) (r : Result A)
    → FileChecked s
    → Checks P r
    → Checks P (guarded s r)
guarded-Checks P (ok u) r h k = k
guarded-Checks P (err (std_exception w)) r h k = tt
guarded-Checks P (err _) r h k = absurd h
guarded-Checks P aborted r h k = absurd h

module _ ⦃L : Libraries⦄ ⦃H : HorseWhisperer⦄ where
  open L use {Double}
  open H use {get, get-set}

  -- The configuration before its validation has ended, valid or not as it was.
  abbrev pub Before : Bool → Configuration → Type 0
  Before v c = Ready c × (c.valid ≡ v)

  abbrev pub Failed : Bool → Exception → Configuration → Type 0
  Failed v e c = IsSettingsError e × Before v c

  -- All other options keep their values.
  abbrev pub Only : List String → Configuration → Configuration → Type 0
  Only names c d =
      (q : String) → is_option q ≡ true → contains q names ≡ false → get d.flags q ≡ get c.flags q

  pub check-Post :
      {A B : Type 0} (P : A → Type 0) (Q : B → Configuration → Type 0) (v : Bool) (r : Result A)
      (f : A → Stateful Configuration B) (c : Configuration)
      → Before v c
      → Checks P r
      → ((a : A) → P a → Post Q (Failed v) (f a c))
      → Post Q (Failed v) (after (r, c) f)
  check-Post P Q v (ok a) f c b h k = k a h
  check-Post P Q v (err e) f c b h k = (h, b)
  check-Post P Q v aborted f c b h k = h

  -- A check at the end.
  pub check-Last :
      {A : Type 0} (P : A → Type 0) (Q : A → Configuration → Type 0) (v : Bool) (r : Result A)
      (c : Configuration)
      → Before v c
      → Checks P r
      → ((a : A) → P a → Q a c)
      → Post Q (Failed v) (r, c)
  check-Last P Q v (ok a) c b h k = k a h
  check-Last P Q v (err e) c b h k = (h, b)
  check-Last P Q v aborted c b h k = h

  read_string-Checks :
      (n : String) (c : Configuration) (o : Option (Value Double))
      → (s : String) × (o ≡ some (string_value s))
      → get c.flags n ≡ o
      → Checks (λ s. get c.flags n ≡ some (string_value s)) (get_flag as_string n c)
  read_string-Checks n c o (s, h) g = rw (g ∙ h) refl

  -- GetFlag of an option of type String.
  string-Checks :
      (n : String) (v : Bool) (c : Configuration)
      → lookup n option_types ≡ some string
      → Before v c
      → Checks (λ s. get c.flags n ≡ some (string_value s)) (get_flag as_string n c)
  string-Checks n v c h b = read_string-Checks n c _ (get_string-Ready n c h b.0) refl

  -- What follows a GetFlag.
  pub string-Post :
      {B : Type 0} (Q : B → Configuration → Type 0) (v : Bool) (n : String)
      (f : String → Stateful Configuration B) (c : Configuration)
      → lookup n option_types ≡ some string
      → Before v c
      → ((s : String) → get c.flags n ≡ some (string_value s) → Post Q (Failed v) (f s c))
      → Post Q (Failed v) (after (get_flag as_string n c, c) f)
  string-Post Q v n f c h b =
      check-Post (λ s. get c.flags n ≡ some (string_value s)) Q v (get_flag as_string n c) f c b
        (string-Checks n v c h b)

  read_bool-Checks :
      (n : String) (c : Configuration) (o : Option (Value Double))
      → (b : Bool) × (o ≡ some (bool_value b))
      → get c.flags n ≡ o
      → Checks (λ b. get c.flags n ≡ some (bool_value b)) (get_flag as_bool n c)
  read_bool-Checks n c o (b, h) g = rw (g ∙ h) refl

  pub bool-Post :
      {B : Type 0} (Q : B → Configuration → Type 0) (v : Bool) (n : String)
      (f : Bool → Stateful Configuration B) (c : Configuration)
      → lookup n option_types ≡ some bool
      → Before v c
      → ((b : Bool) → get c.flags n ≡ some (bool_value b) → Post Q (Failed v) (f b c))
      → Post Q (Failed v) (after (get_flag as_bool n c, c) f)
  bool-Post Q v n f c h b =
      check-Post (λ x. get c.flags n ≡ some (bool_value x)) Q v (get_flag as_bool n c) f c b
        (read_bool-Checks n c _ (get_bool-Ready n c h b.0) refl)

  Written : Bool → String → String → Configuration → Unit {0} → Configuration → Type 0
  Written v n s c u d = Before v d × (get d.flags n ≡ some (string_value s)) × Only (n ∷ []) c d

  set_flag-Written :
      (v : Bool) (n s : String) (c : Configuration)
      → lookup n option_types ≡ some string
      → Before v c
      → Post (Written v n s c) (Failed v) (set_flag n (string_value s) c)
  unfolding Written
  set_flag-Written v n s c h b =
      let (e, r) = set_flag-Ready n (string_value s) c h b.0 in
      subst (Post (Written v n s c) (Failed v)) (sym e) (
        (r, b.1),
        ground
            (arith, eq_iff n n, get-set c.flags n n (string_value s) (ap is_some h) (ap is_some h)),
        λ q o k. ground (arith, get-set c.flags n q (string_value s) (ap is_some h) o),
      )

  -- What follows a SetFlag.
  pub set_flag-Post :
      {B : Type 0} (Q : B → Configuration → Type 0) (v : Bool) (n s : String) (c : Configuration)
      (f : Unit {0} → Stateful Configuration B)
      → lookup n option_types ≡ some string
      → Before v c
      → ((d : Configuration)
          → Before v d
          → get d.flags n ≡ some (string_value s)
          → Only (n ∷ []) c d
          → Post Q (Failed v) (f tt d))
      → Post Q (Failed v) (after (set_flag n (string_value s) c) f)
  unfolding Written
  set_flag-Post Q v n s c f h b k =
      after-Post (Written v n s c) Q (Failed v) _ f (set_flag-Written v n s c h b)
        (λ u d w. k d w.0 w.1 w.2)

  -- A SetFlag at the end.
  pub set_flag-Last :
      (Q : Unit {0} → Configuration → Type 0) (v : Bool) (n s : String) (c : Configuration)
      → lookup n option_types ≡ some string
      → Before v c
      → ((d : Configuration)
          → Before v d
          → get d.flags n ≡ some (string_value s)
          → Only (n ∷ []) c d
          → Q tt d)
      → Post Q (Failed v) (set_flag n (string_value s) c)
  unfolding Written
  set_flag-Last Q v n s c h b k =
      Post-mono (Written v n s c) Q (Failed v) (Failed v) _ (set_flag-Written v n s c h b)
        (λ u d w. k d w.0 w.1 w.2) (λ e d x. x)
