-- ===== src/Configuration/Parsing/ConfigFile.antt =====
-- What one key of the config file changes.
use mathlib.Core.Option.{some-injective}
use pxp_agent.Base.{
  String, Bool, true, false, not, ◌&&◌, ◌||◌, Option, none, some, List, [], ◌∷◌, ◌≡◌, refl, sym, ap,
  ◌∙◌, subst, if◌then◌else◌, is_some, lookup, ◌==◌, eq_iff, arith, Bool-cases, inl, inr,
}
use pxp_agent.Exception.{Exception, Result, ok, err, aborted, configuration_error, data_error}
use pxp_agent.Exception.Stateful.{Post, after-Post}
use pxp_agent.Libraries.{Libraries}
use pxp_agent.Json.{or_data_error}
use pxp_agent.Configuration.{
  Types, integer, string, bool, double, Value, integer_value, string_value, bool_value,
  double_value, Entry, Configuration, HorseWhisperer, find, mark, set_flag, option_types, is_option,
  type_of,
}
use pxp_agent.Configuration.Defaults.Table.{type_at, find-Table}
use pxp_agent.Configuration.Ready.{Ready, written, set_flag-Ready}
use pxp_agent.Configuration.Parsing.{field, typed_value, read_field, set_option}

-- What an error of the config file is: one of Configuration::Error, or a number that is no int.
abbrev pub FileError : Exception → Type 0
FileError (configuration_error w) = Unit {0}
FileError (data_error w) = Unit {0}
FileError _ = ⊥

abbrev with_value : {A B : Type 0} → (A → B) → Option A → Option B
with_value f none = none
with_value f (some a) = some (f a)

module _ ⦃L : Libraries⦄ ⦃H : HorseWhisperer⦄ where
  open L use {
    Double, Json, Disk, parse, entry, keys, is_object, is_integer, is_flag, is_double, is_text,
    as_number, as_flag, as_double, as_text, file_readable, read, as_text-is_text, as_flag-is_flag,
    as_double-is_double,
  }
  open H use {get, get-set}

  -- The value of an option of this type that a JSON value gives.
  abbrev pub json_value : Types → Json → Option (Value Double)
  json_value integer x = with_value integer_value (as_number x)
  json_value string x = with_value string_value (as_text x)
  json_value bool x = with_value bool_value (as_flag x)
  json_value double x = with_value double_value (as_double x)

  -- A value of the type has been read.
  abbrev Typed : Types → Json → Result (Value Double) → Type 0
  Typed t x (ok v) = (json_value t x ≡ some v) × (type_of v ≡ t)
  Typed t x (err e) = FileError e
  Typed t x aborted = ⊥

  field-Typed :
      {A : Type 0} (t : Types) (x : Json) (b : Bool) (o : Option A) (value : A → Value Double)
      (key message : String)
      → json_value t x ≡ with_value value o
      → ((a : A) → type_of (value a) ≡ t)
      → Typed t x (field b (or_data_error o key) value message)
  field-Typed t x true (some a) value key message h k = (h, k a)
  field-Typed t x true none value key message h k = tt
  field-Typed t x false o value key message h k = tt

  typed_value-Typed : (t : Types) (key : String) (x : Json) → Typed t x (typed_value t key x)
  unfolding typed_value
  typed_value-Typed integer key x =
      field-Typed integer x (is_integer x) (as_number x) integer_value key _ refl (λ n. refl)
  typed_value-Typed string key x =
      field-Typed string x (is_text x) (as_text x) string_value key _ refl (λ n. refl)
  typed_value-Typed bool key x =
      field-Typed bool x (is_flag x) (as_flag x) bool_value key _ refl (λ n. refl)
  typed_value-Typed double key x =
      field-Typed double x (is_double x) (as_double x) double_value key _ refl (λ n. refl)

  abbrev marked : Option (Entry Double) → Bool
  marked none = false
  marked (some e) = e.configured

  -- The option has been set, on the command line or by the config file.
  abbrev pub configured : String → Configuration → Bool
  configured q c = marked (find q c.defaults)

  -- The value that a JSON object has for an option, or the one that the option had.
  abbrev pub from_file : Types → Option (Value Double) → Option Json → Option (Value Double)
  from_file t o none = o
  from_file t o (some x) = json_value t x

  mark-configured :
      (k q : String) (es : List (Entry Double))
      → is_some (type_at (find k es)) ≡ true
      → marked (find q (mark k es)) ≡ (k == q || marked (find q es))
  unfolding find mark
  mark-configured k q [] h = cc
  mark-configured k q (e ∷ es) h =
      ground (arith, eq_iff e.name k, eq_iff e.name q, eq_iff k q, mark-configured k q es)

  -- What one key has changed: the value of its option, unless that was set before.
  abbrev Stepped : Json → String → Configuration → Configuration → Type 0
  Stepped j k c d =
      (q : String) (t : Types)
      → lookup q option_types ≡ some t
      → (get d.flags q ≡ (
          if k == q && not (configured q c)
          then from_file t (get c.flags q) (entry j q)
          else get c.flags q))
        × (configured q d ≡ (k == q || configured q c))

  known :
      (k : String) (e : Entry Double) (c : Configuration)
      → Ready c
      → find k c.defaults ≡ some e
      → lookup k option_types ≡ some e.type
  known k e c r f = sym (find-Table k c.defaults r.0) ∙ ap type_at f

  -- An option that was set before is skipped.
  skipped-Stepped :
      (j : Json) (k : String) (c : Configuration) → configured k c ≡ true → Stepped j k c c
  skipped-Stepped j k c h q t l =
      let same : k == q ≡ true → configured q c ≡ true =
        λ e. subst (λ x. configured x c ≡ true) ((eq_iff k q).0 e) h in
      ground arith

  set-Stepped :
      (j : Json) (k : String) (e : Entry Double) (x : Json) (v : Value Double) (c : Configuration)
      → lookup k option_types ≡ some e.type
      → find k c.defaults ≡ some e
      → entry j k ≡ some x
      → json_value e.type x ≡ some v
      → e.configured ≡ false
      → Stepped j k c (written k v c)
  set-Stepped j k e x v c n f g y b q t l = (
    ground (arith, at, get-set c.flags k q v (ap is_some n) (ap is_some l)),
    mark-configured k q c.defaults (ap (λ o. is_some (type_at o)) f),
  )
    where
      at :
          k == q ≡ true
          → (from_file t (get c.flags q) (entry j q) ≡ some v) × (configured q c ≡ false)
      at i =
          let p = (eq_iff k q).0 i in
          let u = some-injective _ _ (sym n ∙ ap (λ z. lookup z option_types) p ∙ l) in
          (
            ap (from_file t (get c.flags q)) (ap (entry j) (sym p) ∙ g)
                ∙ ap (λ z. json_value z x) (sym u)
                ∙ y,
            ap (λ z. configured z c) (sym p) ∙ ap marked f ∙ b,
          )

  -- The failure of the file: the configuration stays well formed.
  abbrev pub FileFailed : Exception → Configuration → Type 0
  FileFailed e c = FileError e × Ready c

  -- The state after the SetFlag of a value that has been read.
  Sets : Json → String → Configuration → Value Double → Configuration → Type 0
  Sets j k c v d =
      (d ≡ c) × (lookup k option_types ≡ some (type_of v)) × Stepped j k c (written k v c)

  read-Sets :
      (j : Json) (k : String) (e : Entry Double) (c : Configuration) (x : Json)
      (w : Result (Value Double))
      → Typed e.type x w
      → Ready c
      → find k c.defaults ≡ some e
      → e.configured ≡ false
      → entry j k ≡ some x
      → Post (Sets j k c) FileFailed (w, c)
  unfolding Sets
  read-Sets j k e c x (ok v) (y, u) r f b g =
      let n = known k e c r f in (refl, n ∙ ap some (sym u), set-Stepped j k e x v c n f g y b)
  read-Sets j k e c x (err e') y r f b g = (y, r)
  read-Sets j k e c x aborted y r f b g = y

  read_field-Sets :
      (j : Json) (k : String) (e : Entry Double) (c : Configuration) (o : Option Json)
      → Ready c
      → find k c.defaults ≡ some e
      → e.configured ≡ false
      → entry j k ≡ o
      → is_some o ≡ true
      → Post (Sets j k c) FileFailed (read_field k e.type o, c)
  unfolding read_field
  read_field-Sets j k e c none r f b g h = cc
  read_field-Sets j k e c (some x) r f b g h =
      read-Sets j k e c x _ (typed_value-Typed e.type k x) r f b g

  abbrev pub OneKey : Json → String → Configuration → Unit {0} → Configuration → Type 0
  OneKey j k c u d = Ready d × Stepped j k c d × (is_option k ≡ true)

  set_flag-OneKey :
      (j : Json) (k : String) (c : Configuration) (v : Value Double) (d : Configuration)
      → Ready c
      → Sets j k c v d
      → Post (OneKey j k c) FileFailed (set_flag k v d)
  unfolding Sets
  set_flag-OneKey j k c v d r (i, n, s) =
      let (h, r') = set_flag-Ready k v c n r in
      subst (Post (OneKey j k c) FileFailed) (sym (ap (set_flag k v) i ∙ h)) (r', s, ap is_some n)

  pub set_option-OneKey :
      (j : Json) (k : String) (o : Option (Entry Double)) (c : Configuration)
      → Ready c
      → is_some (entry j k) ≡ true
      → find k c.defaults ≡ o
      → Post (OneKey j k c) FileFailed (set_option j k o c)
  unfolding set_option
  set_option-OneKey j k none c r h f = (tt, r)
  set_option-OneKey j k (some e) c r h f = elim (Bool-cases e.configured) [
    | inl b ↦ rw b (r, skipped-Stepped j k c (ap marked f ∙ b), ap is_some (known k e c r f))
    | inr b ↦ rw b (
        after-Post (Sets j k c) (OneKey j k c) FileFailed _ (set_flag k)
          (read_field-Sets j k e c (entry j k) r f b refl h)
          (λ v d y. set_flag-OneKey j k c v d r y))
  ]
