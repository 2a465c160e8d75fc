-- ===== src/Connector/Conformance.antt =====
-- The messages of the connector against the schemas of pxp_schemas.cc.
use pxp_agent.Base.{
  String, Bool, true, false, ◌||◌, ◌&&◌, not, List, [], ◌∷◌, none, some, Option, ◌≡◌, arith, ◌==◌,
  is_some,
}
use pxp_agent.Libraries.{Libraries, TypeConstraint}
use pxp_agent.Json.{includes}
use pxp_agent.ActionRequest.{ActionRequest}
use pxp_agent.Schemas.{
  Constraint, blocking_response, non_blocking_response, provisional_response, pxp_error,
}
use pxp_agent.Connector.{
  blocking_response_message, non_blocking_response_message, provisional_response_message,
  pxp_error_message,
}

module _ ⦃L : Libraries⦄ where
  open L use {
    Json, entry, set, empty, of_text, as_text, as_flag, as_items, is_object, entry-set, entry-empty,
    as_text-of_text,
  }

  abbrev has_kind : TypeConstraint → Json → Bool
  has_kind TypeConstraint.string j = is_some (as_text j)
  has_kind TypeConstraint.bool j = is_some (as_flag j)
  has_kind TypeConstraint.array j = is_some (as_items j)
  has_kind TypeConstraint.object j = is_object j

  abbrev Meets : Bool → TypeConstraint → Option Json → Type 0
  Meets required kind (some j) = has_kind kind j ≡ true
  Meets required kind none = required ≡ false

  -- Each entry that the schema asks for is there, with the type that the schema gives it.
  abbrev pub MeetsAll : List Constraint → Json → Type 0
  MeetsAll [] j = Unit {0}
  MeetsAll (c ∷ cs) j = Meets c.required c.kind (entry j c.key) × MeetsAll cs j

  abbrev named : String → List Constraint → Bool
  named k [] = false
  named k (c ∷ cs) = c.key == k || named k cs

  -- No entry has a name that the schema does not give: its additionalProperties are false.
  abbrev pub Conforms : List Constraint → Json → Type 0
  Conforms cs j = MeetsAll cs j × ((k : String) → includes j k && not (named k cs) ≡ false)

  -- A PXP error, whatever the request and the description, conforms to its schema: the entries that
  -- the schema asks for, with their types, and no others.
  pub pxp_error-Conforms :
      (r : ActionRequest) (description : String)
      → Conforms pxp_error (pxp_error_message r description).content
  unfolding pxp_error pxp_error_message
  pxp_error-Conforms r description = (
    (
      simp (entry-set, as_text-of_text),
      (simp (entry-set, as_text-of_text), (simp (entry-set, as_text-of_text), tt)),
    ),
    λ k. simp (entry-set, entry-empty) (ground arith),
  )

  -- A provisional response, whatever the request, conforms to its schema: it has the entries that
  -- the schema asks for, with their types, and no others.
  pub provisional_response-Conforms :
      (r : ActionRequest) (debug : List Json)
      → Conforms provisional_response (provisional_response_message r debug).content
  unfolding provisional_response provisional_response_message
  provisional_response-Conforms r debug =
      ((simp (entry-set, as_text-of_text), tt), λ k. simp (entry-set, entry-empty) (ground arith))

  -- A blocking response and a non-blocking one conform to their schemas, if the results are a JSON
  -- object: each has the entries that its schema asks for, with their types, and no others.
  pub response-Conforms :
      (r : ActionRequest) (results : Json) (debug : List Json) (job_id : String)
      → is_object results ≡ true
      → Conforms blocking_response (blocking_response_message r results debug).content
        × Conforms non_blocking_response (non_blocking_response_message r results job_id).content
  unfolding blocking_response blocking_response_message non_blocking_response
      non_blocking_response_message
  response-Conforms r results debug job_id h = (
    (
      (simp (entry-set, as_text-of_text), (simp entry-set h, tt)),
      λ k. simp (entry-set, entry-empty) (ground arith),
    ),
    (
      (
        simp (entry-set, as_text-of_text),
        (simp (entry-set, as_text-of_text), (simp entry-set h, tt)),
      ),
      λ k. simp (entry-set, entry-empty) (ground arith),
    ),
  )
