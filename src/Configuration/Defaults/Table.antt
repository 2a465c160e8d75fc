-- ===== src/Configuration/Defaults/Table.antt =====
-- The table of the options while the program runs: only the marks of its entries change.
use pxp_agent.Base.{
  String, false, if_elim, Option, none, some, List, [], ◌∷◌, ◌≡◌, refl, sym, ap, ◌∙◌, Dict, lookup,
  ◌==◌, arith,
}
use pxp_agent.Libraries.{Libraries}
use pxp_agent.Configuration.{Types, Entry, HorseWhisperer, find, mark, option_types}
use pxp_agent.Configuration.Defaults.{
  define_default_values, insert_options, insert_option, append_entry,
}

module _ ⦃L : Libraries⦄ ⦃H : HorseWhisperer⦄ where
  open L use {Double}

  abbrev pub unmarked : List (Entry Double) → List (Entry Double)
  unmarked [] = []
  unmarked (e ∷ es) = record e { configured = false } ∷ unmarked es

  -- The options are those that the constructor defines.
  abbrev pub Table : List (Entry Double) → Type 0
  Table es = unmarked es ≡ define_default_values []

  pub mark-unmarked : (q : String) (es : List (Entry Double)) → unmarked (mark q es) ≡ unmarked es
  unfolding mark
  mark-unmarked q [] = refl
  mark-unmarked q (e ∷ es) =
      if_elim (λ l. unmarked l ≡ record e { configured = false } ∷ unmarked es) (e.name == q) refl
        (ap (◌∷◌ (record e { configured = false })) (mark-unmarked q es))

  types_of : List (Entry Double) → Dict Types
  types_of [] = []
  types_of (e ∷ es) = (e.name, e.type) ∷ types_of es

  types_of-unmarked : (es : List (Entry Double)) → types_of (unmarked es) ≡ types_of es
  unfolding types_of
  types_of-unmarked [] = refl
  types_of-unmarked (e ∷ es) = ap (◌∷◌ (e.name, e.type)) (types_of-unmarked es)

  types_of-define_default_values : types_of (define_default_values []) ≡ option_types
  unfolding types_of define_default_values insert_options insert_option append_entry find
  types_of-define_default_values = refl

  abbrev pub type_at : Option (Entry Double) → Option Types
  type_at none = none
  type_at (some e) = some e.type

  lookup-types_of :
      (q : String) (es : List (Entry Double)) → lookup q (types_of es) ≡ type_at (find q es)
  unfolding types_of lookup find
  lookup-types_of q [] = refl
  lookup-types_of q (e ∷ es) = ground (arith, lookup-types_of q es)

  -- An option is found with the type that the constructor gives it.
  pub find-Table :
      (q : String) (es : List (Entry Double))
      → Table es
      → type_at (find q es) ≡ lookup q option_types
  find-Table q es h =
      sym (lookup-types_of q es)
      ∙ ap (lookup q) (sym (types_of-unmarked es) ∙ ap types_of h ∙ types_of-define_default_values)
