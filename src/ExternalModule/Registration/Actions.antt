-- ===== src/ExternalModule/Registration/Actions.antt =====
-- The actions of an external module that has been loaded.
use pxp_agent.Base.{
  String, Bool, true, false, List, [], ◌∷◌, ◌≡◌, refl, sym, ap, subst, ◌∙◌, arith, if◌then◌else◌,
}
use pxp_agent.Exception.{
  Result, ok, err, aborted, ◌>>=◌, bind_ok, data_error, data_parse_error, schema_error,
}
use pxp_agent.Libraries.{Libraries}
use pxp_agent.Json.{includes, get_text, get_json, get_items}
use pxp_agent.Module.{Module}
use pxp_agent.ExternalModule.{ExternalModule, Execution}
use pxp_agent.ExternalModule.Registration.{
  metadata_configuration_entry, append, get_metadata, on_schema_error, on_data_error,
  register_configuration, register_schemas, register_action, register_each, register_actions,
  unregistered, configured, load_with, load, braces_config,
}

abbrev join : List String → List String → List String
join [] ns = ns
join (x ∷ xs) ns = x ∷ join xs ns

join-append : (xs ns : List String) (n : String) → join (append xs n) ns ≡ join xs (n ∷ ns)
join-append [] ns n = refl
join-append (x ∷ xs) ns n = ap (λ l. x ∷ l) (join-append xs ns n)

join_nil : (xs : List String) → join xs [] ≡ xs
join_nil [] = refl
join_nil (x ∷ xs) = ap (λ l. x ∷ l) (join_nil xs)

abbrev value : {A : Type 0} → A → Result A → A
value d (ok a) = a
value d _ = d

pub ok_injective : {A : Type 0} {a b : A} → ok a ≡ ok b → a ≡ b
ok_injective {a = a} h = ap (value a) h

data_ok : {A : Type 0} (t : String) (r : Result A) (a : A) → on_data_error t r ≡ ok a → r ≡ ok a
data_ok t (ok b) a h = h
data_ok t (err (data_error w)) a h = cc
data_ok t (err (data_parse_error w)) a h = cc
data_ok t (err _) a h = h
data_ok t aborted a h = h

schema_ok : {A : Type 0} (t : String) (r : Result A) (a : A) → on_schema_error t r ≡ ok a → r ≡ ok a
schema_ok t (ok b) a h = h
schema_ok t (err (schema_error w)) a h = cc
schema_ok t (err _) a h = h
schema_ok t aborted a h = h

module _ ⦃L : Libraries⦄ where
  open L use {Json, Validator, stem, schema_of, register_schema}

  -- The names of the actions, in their order.
  abbrev pub Named : List Json → List String → Type 0
  Named [] [] = Unit {0}
  Named (a ∷ l) (n ∷ ns) = (get_text a "name" ≡ ok n) × Named l ns
  Named _ _ = ⊥

  register_schemas-inv :
      (n : String) (a : Json) (m m' : Module)
      → register_schemas n a m ≡ ok m'
      → (m'.actions ≡ append m.actions n) × (m'.module_name ≡ m.module_name)
  unfolding register_schemas
  register_schemas-inv n a m m' h =
      let (i, _, h₁) = bind_ok (get_json a "input") _ h in
      let (s, _, h₂) = bind_ok (schema_of n i) _ h₁ in
      let (j, _, h₃) = bind_ok (get_json a "results") _ h₂ in
      let (t, _, h₄) = bind_ok (schema_of n j) _ h₃ in
      let (v, _, h₅) = bind_ok (register_schema m.input_validator s) _ h₄ in
      let (w, _, h₆) = bind_ok (register_schema m.results_validator t) _ h₅ in
      (ground (arith, h₆), ground (arith, h₆))

  register_action-inv :
      (a : Json) (m m' : Module)
      → register_action a m ≡ ok m'
      → (n : String) × (get_text a "name" ≡ ok n)
        × (m'.actions ≡ append m.actions n)
        × (m'.module_name ≡ m.module_name)
  unfolding register_action
  register_action-inv a m m' h =
      let (n, e, k) = bind_ok (get_text a "name") _ h in
      let (x, y) = register_schemas-inv n a m m' (
        schema_ok _ (register_schemas n a m) m'
          (data_ok _ (on_schema_error _ (register_schemas n a m)) m' k)) in
      (n, e, x, y)

  register_each-inv :
      (l : List Json) (m m' : Module)
      → register_each l m ≡ ok m'
      → (ns : List String) × Named l ns
        × (m'.actions ≡ join m.actions ns)
        × (m'.module_name ≡ m.module_name)
  unfolding register_each
  register_each-inv [] m m' h =
      let e = ok_injective h in
      (
        [],
        tt,
        sym (ap (λ u. u.actions) e) ∙ sym (join_nil m.actions),
        sym (ap (λ u. u.module_name) e),
      )
  register_each-inv (a ∷ l) m m' h =
      let (m₁, e, k) = bind_ok (register_action a m) _ h in
      let (n, g, x, y) = register_action-inv a m m₁ e in
      let (ns, named, z, w) = register_each-inv l m₁ m' k in
      (n ∷ ns, (g, named), z ∙ ap (λ q. join q ns) x ∙ join-append m.actions ns n, w ∙ y)

  abbrev Same : Module → Module → Type 0
  Same m m' = (m'.actions ≡ m.actions) × (m'.module_name ≡ m.module_name)

  register_configuration-Same :
      (j : Json) (m m' : Module) → register_configuration j m ≡ ok m' → Same m m'
  unfolding register_configuration
  register_configuration-Same j m m' h =
      let (s, _, k) = bind_ok (schema_of m.module_name j) _ (schema_ok _ _ m' h) in
      let (v, _, e) = bind_ok (register_schema m.config_validator s) _ k in
      let i = ok_injective e in (sym (ap (λ u. u.actions) i), sym (ap (λ u. u.module_name) i))

  if-Same :
      (b : Bool) (x : Result Module) (m m' : Module)
      → (x ≡ ok m' → Same m m')
      → (if b then x else ok m) ≡ ok m'
      → Same m m'
  if-Same true x m m' f h = f h
  if-Same false x m m' f h =
      let i = ok_injective h in (sym (ap (λ u. u.actions) i), sym (ap (λ u. u.module_name) i))

  configured-inv :
      (j : Json) (m m' : Module)
      → configured j m ≡ ok m'
      → (m'.actions ≡ m.actions) × (m'.module_name ≡ m.module_name)
  unfolding configured
  configured-inv j m m' h =
      if-Same (includes j metadata_configuration_entry) _ m m'
        (λ k.
          let (c, _, r) = bind_ok (get_json j metadata_configuration_entry) _ k in
          register_configuration-Same c m m' r)
        h

  -- If the constructor of an external module with a configuration succeeds, the module has the
  -- stem of its path as its name, and its actions are the names of the actions in the metadata
  -- that its executable printed, in their order.
  pub load_with-Named :
      (v : Validator) (exec : Execution) (path : String) (config : Json) (m : ExternalModule)
      → load_with v exec path config ≡ ok m
      → (j : Json) × (l : List Json) × (get_metadata v exec ≡ ok j)
        × (get_items j "actions" ≡ ok l)
        × Named l m.actions
        × (m.module_name ≡ stem path)
  unfolding load_with register_actions
  load_with-Named v exec path config m h =
      let (j, e, k) = bind_ok (get_metadata v exec) _ h in
      let m₀ = unregistered (stem path) in
      let (b, f, g) = bind_ok (on_data_error _ (configured j m₀ >>= register_actions j)) _ k in
      let (m₁, c, r) =
        bind_ok (configured j m₀) (register_actions j)
          (data_ok _ (configured j m₀ >>= register_actions j) b f) in
      let (l, i, s) = bind_ok (get_items j "actions") _ r in
      let (ns, named, x, y) = register_each-inv l m₁ b s in
      let (p, q) = configured-inv j m₀ m₁ c in
      let u = ok_injective g in
      (
        j,
        l,
        e,
        i,
        subst (Named l) (sym (ap (λ a. join a ns) p) ∙ sym x ∙ ap (λ z. z.base.actions) u) named,
        sym (ap (λ z. z.base.module_name) u) ∙ y ∙ q,
      )

  -- A module that has been made without a configuration has the stem of its path as its name.
  pub load-name :
      (v : Validator) (exec : Execution) (path : String) (m : ExternalModule)
      → load v exec path ≡ ok m
      → m.module_name ≡ stem path
  unfolding load register_actions
  load-name v exec path m h =
      let m₀ = unregistered (stem path) in
      let (c, _, k) = bind_ok (braces_config) _ h in
      let (j, _, e) = bind_ok (get_metadata v exec) _ k in
      let (b, f, g) = bind_ok (on_data_error _ (register_actions j m₀)) _ e in
      let (l, _, s) = bind_ok (get_items j "actions") _ (data_ok _ (register_actions j m₀) b f) in
      let (ns, named, x, y) = register_each-inv l m₀ b s in
      sym (ap (λ z. z.base.module_name) (ok_injective g)) ∙ y
