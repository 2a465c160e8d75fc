-- ===== src/RequestProcessor/Content.antt =====
-- validateRequestContent, and the queries of `modules_`.
use Prim.Native.String.{◌++◌}
use pxp_agent.Base.{
  String, Bool, true, false, not, ◌&&◌, ◌≡◌, refl, Option, none, some, if◌then◌else◌, is_some, Dict,
  lookup, Bool-cases, Option-cases, inl, inr,
}
use pxp_agent.Exception.{Result, ok, err, aborted, processor_error}
use pxp_agent.Libraries.{Libraries}
use pxp_agent.ActionRequest.{ActionRequest, params, pretty_label, is_non_blocking}
use pxp_agent.Module.{Module, ModuleType, internal, external, has_action}
use pxp_agent.ExternalModule.{ExternalModule}

-- The classes that derive from Module.
pub data Loaded ⦃L : Libraries⦄ : Type 0 where
  echo ping status : Module → Loaded
  external_module : ExternalModule → Loaded

module _ ⦃L : Libraries⦄ where
  open L use {validates}

  abbrev pub base : Loaded → Module
  base (echo m) = m
  base (ping m) = m
  base (status m) = m
  base (external_module m) = m.base

  -- The virtual method `type`.
  abbrev pub type : Loaded → ModuleType
  type (external_module m) = external
  type _ = internal

  abbrev pub is_internal : ModuleType → Bool
  is_internal internal = true
  is_internal external = false

  unfoldable pub has_module : Dict Loaded → String → Bool
  unfolding lookup
  has_module modules name = is_some (lookup name modules)

  -- The checks after the module has been found.
  validate_loaded : Loaded → ActionRequest → Result (Unit {0})
  unfolding has_action
  validate_loaded m r =
      if not (has_action (base m) r.action)
      then err (
          processor_error
            ("unknown action '" ++ r.action ++ "' for module '" ++ r.module_name ++ "'"))
      else if is_internal (type m) && is_non_blocking r.request_type
      then err (
          processor_error
            ("the module '" ++ r.module_name ++ "' supports only blocking PXP requests"))
      else if not (validates (base m).input_validator (params r).0 r.action)
      then err (processor_error ("invalid input for " ++ (pretty_label r).0))
      else ok tt

  unfoldable pub validate_request_content : Dict Loaded → ActionRequest → Result (Unit {0})
  unfolding validate_loaded
  validate_request_content modules r = elim (lookup r.module_name modules) [
    | none ↦ err (processor_error ("unknown module: " ++ r.module_name))
    | some m ↦ validate_loaded m r
  ]

  -- A request that a module accepts: it has the action, the action's input schema takes the
  -- parameters, and a non-blocking request goes to an external module.
  abbrev pub accepts : Loaded → ActionRequest → Bool
  accepts m r =
      has_action (base m) r.action
      && not (is_internal (type m) && is_non_blocking r.request_type)
      && validates (base m).input_validator (params r).0 r.action

  abbrev pub accepted : Option Loaded → ActionRequest → Bool
  accepted none r = false
  accepted (some m) r = accepts m r

  -- What a validation may give: nothing where `valid`, and otherwise a RequestProcessor::Error.
  abbrev pub Validation : Bool → Result (Unit {0}) → Type 0
  Validation valid (ok u) = valid ≡ true
  Validation valid (err (processor_error w)) = valid ≡ false
  Validation valid (err _) = ⊥
  Validation valid aborted = ⊥

  validate_loaded-Validation :
      (m : Loaded) (r : ActionRequest) → Validation (accepts m r) (validate_loaded m r)
  unfolding validate_loaded
  validate_loaded-Validation m r = elim (Bool-cases (has_action (base m) r.action)) [
    | inl a ↦ elim (Bool-cases (is_internal (type m) && is_non_blocking r.request_type)) [
      | inl b ↦ rw (a, b) refl
      | inr b ↦ elim (Bool-cases (validates (base m).input_validator (params r).0 r.action)) [
        | inl c ↦ rw (a, b, c) refl
        | inr c ↦ rw (a, b, c) refl
      ]
    ]
    | inr a ↦ rw a refl
  ]

  -- A request's content is valid exactly if its module is loaded and accepts it; every other
  -- request is refused with a RequestProcessor::Error, and nothing else is thrown.
  pub validate_request_content-Validation :
      (modules : Dict Loaded) (r : ActionRequest)
      → Validation (accepted (lookup r.module_name modules) r) (validate_request_content modules r)
  unfolding validate_request_content
  validate_request_content-Validation modules r =
      elim (Option-cases (lookup r.module_name modules)) [
        | inl e ↦ rw (e, validate_request_content) refl
        | inr (m, e) ↦ rw (e, validate_request_content) (validate_loaded-Validation m r)
      ]
