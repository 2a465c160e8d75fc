-- ===== src/Configuration/Defaults/Initial.antt =====
-- What initialize leaves in the flags.
use Prim.Native.String.{◌++◌}
use pxp_agent.Base.{
  String, true, false, Option, none, some, List, [], ◌∷◌, ◌≡◌, refl, sym, ap, ◌∙◌, if◌then◌else◌,
  is_blank, is_some, lookup, ◌==◌, eq_iff, arith, subst, Bool-cases, inl, inr,
}
use pxp_agent.Exception.{Result, ok, err, aborted}
use pxp_agent.Exception.Stateful.{Post}
use pxp_agent.Configuration.Ready.{Ready, HasTypes-of}
use mathlib.Core.Option.{some-injective}
use pxp_agent.Libraries.{Libraries}
use pxp_agent.Configuration.{
  Types, Value, Entry, HorseWhisperer, Configuration, find, is_option, type_of,
}
use pxp_agent.Configuration.Defaults.{
  define_default_values, insert_options, insert_option, append_entry, define_cast, define_flag,
  define_flags, cast, flag_names, initialize, set_default_values, with_flags,
}
use pxp_agent.Configuration.Defaults.Table.{Table, unmarked, type_at, find-Table}

cast-type_of : {D : Type 0} (v : Value D) → cast (type_of v) v ≡ some v
unfolding cast
cast-type_of (Value.integer_value n) = refl
cast-type_of (Value.string_value s) = refl
cast-type_of (Value.bool_value b) = refl
cast-type_of (Value.double_value x) = refl

module _ ⦃L : Libraries⦄ ⦃H : HorseWhisperer⦄ where
  open L use {Double}
  open H use {Flags, define, get, get-define, reset}

  -- The entries are of their types, without aliases, and none has the name of a later one.
  abbrev Sound : List (Entry Double) → Type 0
  Sound [] = Unit
  Sound (e ∷ es) =
      (is_option e.name ≡ true)
      × (e.aliases ≡ "")
      × (type_of e.value ≡ e.type)
      × (find e.name es ≡ none)
      × Sound es

  define_default_values-Sound : Sound (define_default_values [])
  unfolding define_default_values insert_options insert_option append_entry find lookup
  define_default_values-Sound = search tt

  define_flag-ok :
      (e : Entry Double) (f : Flags)
      → e.aliases ≡ ""
      → type_of e.value ≡ e.type
      → define_flag e f ≡ ok (define f e.name e.help e.value)
  unfolding define_flag define_cast flag_names
  define_flag-ok e f a t =
      ap (define_cast e f) (ap (λ u. cast u e.value) (sym t) ∙ cast-type_of e.value)
      ∙ ap (λ n. ok (define f (if is_blank n then e.name else e.name ++ (" " ++ n)) e.help e.value))
          a

  define_flags-unmarked :
      (es : List (Entry Double)) (r : Result Flags)
      → define_flags (unmarked es) r ≡ define_flags es r
  unfolding define_flags define_flag define_cast flag_names
  define_flags-unmarked [] r = refl
  define_flags-unmarked (e ∷ es) (ok f) = define_flags-unmarked es _
  define_flags-unmarked (e ∷ es) (err x) = refl
  define_flags-unmarked (e ∷ es) aborted = refl

  abbrev pub value_at : Option (Entry Double) → Option (Value Double) → Option (Value Double)
  value_at none o = o
  value_at (some e) o = some e.value

  -- The flags after a definition of each entry: the entry's default, or as before.
  abbrev Defines : List (Entry Double) → Flags → Result Flags → Type 0
  Defines es f (ok g) = (q : String) → is_option q ≡ true → get g q ≡ value_at (find q es) (get f q)
  Defines es f _ = ⊥

  -- The first entry's definition, which no later one replaces.
  value_at-cons :
      (e : Entry Double) (es : List (Entry Double)) (q : String) (o o' : Option (Value Double))
      → find e.name es ≡ none
      → o' ≡ (if e.name == q then some e.value else o)
      → value_at (find q es) o' ≡ value_at (find q (e ∷ es)) o
  unfolding find
  value_at-cons e es q o o' n h = elim (Bool-cases (e.name == q)) [
    | inl k ↦ rw (k, subst (λ x. find x es ≡ none) ((eq_iff e.name q).0 k) n) (ground (arith, h))
    | inr k ↦ rw (k) (ap (value_at (find q es)) (ground (arith, h)))
  ]

  Defines-cons :
      (e : Entry Double) (es : List (Entry Double)) (f : Flags) (r : Result Flags)
      → is_option e.name ≡ true
      → find e.name es ≡ none
      → Defines es (define f e.name e.help e.value) r
      → Defines (e ∷ es) f r
  unfolding find
  Defines-cons e es f (ok g) o n h =
      λ q oq. h q oq ∙ value_at-cons e es q _ _ n (get-define f e.name q e.help e.value o oq)
  Defines-cons e es f (err x) o n h = h
  Defines-cons e es f aborted o n h = h

  define_flags-Defines :
      (es : List (Entry Double)) (f : Flags) → Sound es → Defines es f (define_flags es (ok f))
  unfolding define_flags find
  define_flags-Defines [] f s = λ q o. refl
  define_flags-Defines (e ∷ es) f (o, a, t, n, s) =
      rw (define_flag-ok e f a t)
        (Defines-cons e es f _ o n (define_flags-Defines es (define f e.name e.help e.value) s))

  -- The flags hold the defaults of the options.
  abbrev pub Defaults : Configuration → Type 0
  Defaults c =
      (q : String)
      → is_option q ≡ true
      → get c.flags q ≡ value_at (find q (define_default_values [])) none

  value_at_some :
      (o : Option (Entry Double)) (x : Option (Value Double))
      → is_some (type_at o) ≡ true
      → value_at o x ≡ value_at o none
  value_at_some none x h = cc
  value_at_some (some e) x h = refl

  option_value :
      (q : String) (x : Option (Value Double))
      → is_option q ≡ true
      → value_at (find q (define_default_values [])) x
        ≡ value_at (find q (define_default_values [])) none
  unfolding define_default_values insert_options insert_option append_entry find
  option_value q x h =
      value_at_some (find q (define_default_values [])) x
        (ap is_some (find-Table q (define_default_values []) refl) ∙ h)

  abbrev pub Initial : Unit {0} → Configuration → Type 0
  Initial u c = Table c.defaults × Defaults c × (c.valid ≡ false)

  with_flags-Initial :
      (c : Configuration) (r : Result Flags)
      → Table c.defaults
      → c.valid ≡ false
      → Defines (define_default_values []) c.flags r
      → Post Initial (λ e d. ⊥) (with_flags c r)
  unfolding with_flags
  with_flags-Initial c (ok f) t v h = (t, λ q o. h q o ∙ option_value q _ o, v)
  with_flags-Initial c (err e) t v h = h
  with_flags-Initial c aborted t v h = h

  -- On an instance of Configuration, also one that has been used, initialize returns, and leaves
  -- each flag at the default of its option, the options defined as before, and the instance not
  -- valid.
  pub initialize-Initial :
      (c : Configuration) → Table c.defaults → Post Initial (λ e d. ⊥) (initialize c)
  unfolding initialize set_default_values
  initialize-Initial c t =
      with_flags-Initial (record c { valid = false; flags = reset }) _ t refl
        (subst (Defines (define_default_values []) reset)
          (ap (λ es. define_flags es (ok reset)) (sym t) ∙ define_flags-unmarked c.defaults _)
          (define_flags-Defines (define_default_values []) reset define_default_values-Sound))

  found-typed :
      (q : String) (es : List (Entry Double)) (e : Entry Double)
      → Sound es
      → find q es ≡ some e
      → type_of e.value ≡ e.type
  unfolding find
  found-typed q [] e s h = cc
  found-typed q (x ∷ es) e (o, a, t, n, s) h = elim (Bool-cases (x.name == q)) [
    | inl k ↦
        (let i = some-injective x e (ap (λ b. if b then some x else find q es) (sym k) ∙ h) in
          subst (λ y. type_of y.value ≡ y.type) i t)
    | inr k ↦ found-typed q es e s (ap (λ b. if b then some x else find q es) (sym k) ∙ h)
  ]

  default-typed :
      (q : String) (t : Types) (o : Option (Entry Double))
      → find q (define_default_values []) ≡ o
      → type_at o ≡ some t
      → (v : Value Double) × (value_at o none ≡ some v) × (type_of v ≡ t)
  default-typed q t none h k = cc
  default-typed q t (some e) h k =
      let s = found-typed q (define_default_values []) e define_default_values-Sound h in
      (e.value, refl, s ∙ some-injective e.type t k)

  pub unmarked-define_default_values : Table (define_default_values [])
  unfolding define_default_values insert_options insert_option append_entry find
  unmarked-define_default_values = refl

  pub Initial-Ready : (c : Configuration) → Initial tt c → Ready c
  Initial-Ready c (t, d, v) = (
    t,
    HasTypes-of c.flags (λ q u l.
        let k = find-Table q (define_default_values []) unmarked-define_default_values ∙ l in
        let (w, e, y) = default-typed q u (find q (define_default_values [])) refl k in
        (w, d q (ap is_some l) ∙ e, y)),
  )
