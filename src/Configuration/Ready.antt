-- ===== src/Configuration/Ready.antt =====
-- The invariant of the configuration once initialize has run: the options are those that the
-- constructor defines, and each has a flag that holds a value of the option's type.
use pxp_agent.Base.{
  All, Dict, [], ◌∷◌, subst, Bool, ℤ, String, some, ◌≡◌, refl, sym, ap, ◌∙◌, Bool-cases, inl, inr,
  if◌then◌else◌, is_some, lookup, ◌==◌, eq_iff,
}
use mathlib.Core.Option.{some-injective}
use pxp_agent.Exception.{ok}
use pxp_agent.Libraries.{Libraries}
use pxp_agent.Configuration.{
  Types, string, bool, integer, Value, integer_value, string_value, bool_value, type_of,
  Configuration, HorseWhisperer, option_types, set_flag, mark,
}
use pxp_agent.Configuration.Defaults.Table.{Table, mark-unmarked}

-- What holds of all options holds of the one with this name, and conversely.
All-lookup :
    (P : String → Types → Type 0) (q : String) (t : Types) (es : Dict Types)
    → All (λ s. P s.0 s.1) es
    → lookup q es ≡ some t
    → P q t
unfolding lookup
All-lookup P q t [] h k = cc
All-lookup P q t ((n, u) ∷ es) h k = elim (Bool-cases (n == q)) [
  | inl e ↦
      (let v : u ≡ t =
          some-injective u t (ap (λ b. if b then some u else lookup q es) (sym e) ∙ k) in
        subst (P q) v (subst (λ x. P x u) ((eq_iff n q).0 e) h.0))
  | inr e ↦ All-lookup P q t es h.1 (ap (λ b. if b then some u else lookup q es) (sym e) ∙ k)
]

pub All-options :
    (P : String → Types → Type 0)
    → ((q : String) (t : Types) → lookup q option_types ≡ some t → P q t)
    → All (λ s. P s.0 s.1) option_types
unfolding lookup
All-options P f = (
  f "config-file" _ refl,
  (
    f "broker-ws-uri" _ refl,
    (
      f "connection-timeout" _ refl,
      (
        f "ssl-ca-cert" _ refl,
        (
          f "ssl-cert" _ refl,
          (
            f "ssl-key" _ refl,
            (
              f "logfile" _ refl,
              (
                f "loglevel" _ refl,
                (
                  f "modules-dir" _ refl,
                  (
                    f "modules-config-dir" _ refl,
                    (f "spool-dir" _ refl, (f "foreground" _ refl, (f "pidfile" _ refl, tt))),
                  ),
                ),
              ),
            ),
          ),
        ),
      ),
    ),
  ),
)

module _ ⦃L : Libraries⦄ ⦃H : HorseWhisperer⦄ where
  open L use {Double}
  open H use {Flags, get, set, get-set}

  abbrev Holds : Flags → String → Types → Type 0
  Holds f q t = (v : Value Double) × (get f q ≡ some v) × (type_of v ≡ t)

  abbrev pub HasTypes : Flags → Type 0
  HasTypes f = All (λ s. Holds f s.0 s.1) option_types

  HasTypes-at :
      (f : Flags) (q : String) (t : Types)
      → HasTypes f
      → lookup q option_types ≡ some t
      → Holds f q t
  HasTypes-at f q t = All-lookup (Holds f) q t option_types

  pub HasTypes-of :
      (f : Flags)
      → ((q : String) (t : Types) → lookup q option_types ≡ some t → Holds f q t)
      → HasTypes f
  HasTypes-of f = All-options (Holds f)

  abbrev pub Ready : Configuration → Type 0
  Ready c = Table c.defaults × HasTypes c.flags

  -- The configuration after a SetFlag.
  abbrev pub written : String → Value Double → Configuration → Configuration
  written n v c = record c { flags = set c.flags n v; defaults = mark n c.defaults }

  set-Holds :
      (f : Flags) (n : String) (v : Value Double)
      → lookup n option_types ≡ some (type_of v)
      → HasTypes f
      → (q : String) (t : Types) → lookup q option_types ≡ some t
      → Holds (set f n v) q t
  set-Holds f n v h k q t l = elim (Bool-cases (n == q)) [
    | inl e ↦ (
      v,
      get-set f n q v (ap is_some h) (ap is_some l) ∙ ap (λ b. if b then some v else get f q) e,
      some-injective _ _ (sym h ∙ ap (λ x. lookup x option_types) ((eq_iff n q).0 e) ∙ l),
    )
    | inr e ↦
        let (x, g, y) = HasTypes-at f q t k l in
        (
          x,
          get-set f n q v (ap is_some h) (ap is_some l)
              ∙ ap (λ b. if b then some v else get f q) e
              ∙ g,
          y,
        )
  ]

  set-HasTypes :
      (f : Flags) (n : String) (v : Value Double)
      → lookup n option_types ≡ some (type_of v)
      → HasTypes f
      → HasTypes (set f n v)
  set-HasTypes f n v h k = HasTypes-of (set f n v) (set-Holds f n v h k)

  -- SetFlag of an option with a value of its type.
  pub set_flag-Ready :
      (n : String) (v : Value Double) (c : Configuration)
      → lookup n option_types ≡ some (type_of v)
      → Ready c
      → (set_flag n v c ≡ (ok tt, written n v c)) × Ready (written n v c)
  unfolding set_flag
  set_flag-Ready n v c h r = (
    rw ((HasTypes-at c.flags n (type_of v) r.1 h).1) refl,
    (mark-unmarked n c.defaults ∙ r.0, set-HasTypes c.flags n v h r.1),
  )

  string_of : (v : Value Double) → type_of v ≡ string → (s : String) × (v ≡ string_value s)
  string_of (string_value s) h = (s, refl)
  string_of (integer_value s) h = cc
  string_of (bool_value s) h = cc
  string_of (Value.double_value s) h = cc

  -- GetFlag of an option of type String.
  pub get_string-Ready :
      (n : String) (c : Configuration)
      → lookup n option_types ≡ some string
      → Ready c
      → (s : String) × (get c.flags n ≡ some (string_value s))
  get_string-Ready n c h r =
      let (v, g, t) = HasTypes-at c.flags n string r.1 h in
      let (s, e) = string_of v t in (s, g ∙ ap some e)

  bool_of : (v : Value Double) → type_of v ≡ bool → (b : Bool) × (v ≡ bool_value b)
  bool_of (bool_value b) h = (b, refl)
  bool_of (integer_value s) h = cc
  bool_of (string_value s) h = cc
  bool_of (Value.double_value s) h = cc

  -- GetFlag of an option of type Bool.
  pub get_bool-Ready :
      (n : String) (c : Configuration)
      → lookup n option_types ≡ some bool
      → Ready c
      → (b : Bool) × (get c.flags n ≡ some (bool_value b))
  get_bool-Ready n c h r =
      let (v, g, t) = HasTypes-at c.flags n bool r.1 h in
      let (b, e) = bool_of v t in (b, g ∙ ap some e)

  integer_of : (v : Value Double) → type_of v ≡ integer → (n : ℤ) × (v ≡ integer_value n)
  integer_of (integer_value n) h = (n, refl)
  integer_of (bool_value b) h = cc
  integer_of (string_value s) h = cc
  integer_of (Value.double_value s) h = cc

  -- GetFlag of an option of type Integer.
  pub get_integer-Ready :
      (n : String) (c : Configuration)
      → lookup n option_types ≡ some integer
      → Ready c
      → (z : ℤ) × (get c.flags n ≡ some (integer_value z))
  get_integer-Ready n c h r =
      let (v, g, t) = HasTypes-at c.flags n integer r.1 h in
      let (z, e) = integer_of v t in (z, g ∙ ap some e)
