-- ===== src/Schemas.antt =====
-- pxp_schemas.cc and pxp_schemas.hpp: the message types, and the entries of each kind of message.
use pxp_agent.Base.{String, Bool, true, false, List, [], ◌∷◌}
use pxp_agent.Libraries.{Libraries, TypeConstraint}

abbrev pub blocking_request_type : String
blocking_request_type = "http://puppetlabs.com/rpc_blocking_request"

abbrev pub blocking_response_type : String
blocking_response_type = "http://puppetlabs.com/rpc_blocking_response"

abbrev pub non_blocking_request_type : String
non_blocking_request_type = "http://puppetlabs.com/rpc_non_blocking_request"

abbrev pub non_blocking_response_type : String
non_blocking_response_type = "http://puppetlabs.com/rpc_non_blocking_response"

abbrev pub provisional_response_type : String
provisional_response_type = "http://puppetlabs.com/rpc_provisional_response"

abbrev pub pxp_error_msg_type : String
pxp_error_msg_type = "http://puppetlabs.com/rpc_error_message"

-- The arguments of a call of addConstraint.
pub record Constraint : Type 0 where
  pub key : String
  pub kind : TypeConstraint
  pub required : Bool

abbrev constraint : String → TypeConstraint → Bool → Constraint
constraint key kind required = record { key = key; kind = kind; required = required }

unfoldable pub blocking_request : List Constraint
blocking_request =
    constraint "transaction_id" TypeConstraint.string true
    ∷ constraint "module" TypeConstraint.string true
    ∷ constraint "action" TypeConstraint.string true
    ∷ constraint "params" TypeConstraint.object false
    ∷ []

unfoldable pub blocking_response : List Constraint
blocking_response =
    constraint "transaction_id" TypeConstraint.string true
    ∷ constraint "results" TypeConstraint.object true
    ∷ []

unfoldable pub non_blocking_request : List Constraint
non_blocking_request =
    constraint "transaction_id" TypeConstraint.string true
    ∷ constraint "notify_outcome" TypeConstraint.bool true
    ∷ constraint "module" TypeConstraint.string true
    ∷ constraint "action" TypeConstraint.string true
    ∷ constraint "params" TypeConstraint.object false
    ∷ []

unfoldable pub non_blocking_response : List Constraint
non_blocking_response =
    constraint "transaction_id" TypeConstraint.string true
    ∷ constraint "job_id" TypeConstraint.string true
    ∷ constraint "results" TypeConstraint.object true
    ∷ []

unfoldable pub provisional_response : List Constraint
provisional_response = constraint "transaction_id" TypeConstraint.string true ∷ []

unfoldable pub pxp_error : List Constraint
pxp_error =
    constraint "transaction_id" TypeConstraint.string true
    ∷ constraint "id" TypeConstraint.string true
    ∷ constraint "description" TypeConstraint.string true
    ∷ []

module _ ⦃L : Libraries⦄ where
  open L use {Schema, new_schema, add_constraint}

  add_constraints : Schema → List Constraint → Schema
  add_constraints s [] = s
  add_constraints s (c ∷ cs) = add_constraints (add_constraint s c.key c.kind c.required) cs

  pub schema : String → List Constraint → Schema
  unfolding add_constraints
  schema name cs = add_constraints (new_schema name) cs
