-- ===== src/ExternalModule.antt =====
-- external_module.cc: a module that runs an executable.
pub mod Registration
use Prim.Native.String.{◌++◌}
use pxp_agent.Base.{
  ℕ, String, Bool, false, not, Option, none, some, if◌then◌else◌, is_blank, ℤ, pos, nat_eq,
}
use pxp_agent.Exception.{Result, ok, err, aborted, ◌>>◌, processing_error}
use pxp_agent.Libraries.{Libraries}
use pxp_agent.ActionRequest.{
  blocking, non_blocking, ActionRequest, pretty_label, params, is_non_blocking,
}
use pxp_agent.Module.{Module, ActionOutcome, external_outcome}
use pxp_agent.Util.Stoi.{to_string}

-- What leatherman::execution::execute reports of a process.
pub record Execution : Type 0 where
  pub exit_code : ℤ
  pub output : String
  pub error : String

-- leatherman::execution. `start` spawns a process for a path, an action and an input, and gives its
-- PID; `finish` waits for its end. Both may change the disk, as the process runs meanwhile.
pub record Executor ⦃L : Libraries⦄ : Type 0 where
  pub start : String → String → String → L.Disk → Result ℕ × L.Disk
  pub finish : ℕ → L.Disk → Result Execution × L.Disk

pub record ExternalModule ⦃L : Libraries⦄ : Type 0 where
  pub base : Module
  pub open base use *
  pub path : String
  pub config : L.Json

abbrev pub external_module_file_error_ec : ℤ
external_module_file_error_ec = pos 5

-- A text that may be read from a file, as two output arguments, and the exception that ends the
-- reading.
pub record OutcomeFiles : Type 0 where
  pub out_txt : String
  pub err_txt : String
  pub read_result : Result (Unit {0})

abbrev text_or_blank : Option String → String
text_or_blank none = ""
text_or_blank (some t) = t

abbrev is_file_error : ℤ → Bool
is_file_error (pos n) = nat_eq n 5
is_file_error _ = false

module _ ⦃L : Libraries⦄ where
  open L use {
    Json, Disk, exists, read, parse, to_string as json_text, set, of_text, empty, is_empty, slash,
    Schema, Validator, schema_of, register_schema, no_schemas, includes_schema, validates,
    atomic_write_to_file,
  }

  unfoldable pub read_non_blocking_outcome : String → String → Disk → OutcomeFiles
  read_non_blocking_outcome out_file err_file d =
      let err_txt = if exists d err_file then text_or_blank (read d err_file) else "" in
      if not (exists d out_file)
      then record { out_txt = ""; err_txt = err_txt; read_result = ok tt }
      else (elim (read d out_file) [
        | none ↦ record {
          out_txt = "";
          err_txt = err_txt;
          read_result = err (processing_error "failed to read");
        }
        | some out_txt ↦ record { out_txt = out_txt; err_txt = err_txt; read_result = ok tt }
      ])

  bad_output : String → String → String → String
  bad_output label out_txt err_txt =
      "The task executed for the "
      ++ label
      ++ " returned "
      ++ (if is_blank out_txt then "no output" else "invalid JSON")
      ++ " on stdout - stderr:"
      ++ (if is_blank err_txt then " (empty)" else "\n" ++ err_txt)

  unfoldable pub process_request_outcome :
      ActionRequest → ℤ → String → String → Result ActionOutcome
  unfolding bad_output
  process_request_outcome r exit_code out_txt err_txt =
      elim (parse (if is_blank out_txt then "null" else out_txt)) [
        | none ↦ err (processing_error (bad_output (pretty_label r).0 out_txt err_txt))
        | some results ↦ ok (external_outcome exit_code err_txt out_txt results)
      ]

  output_files : ActionRequest → Json
  output_files r =
      set
        (set (set empty "stdout" (of_text (slash r.results_dir "stdout"))) "stderr"
          (of_text (slash r.results_dir "stderr")))
        "exitcode" (of_text (slash r.results_dir "exitcode"))

  unfoldable pub action_arguments : ExternalModule → ActionRequest → Json
  unfolding output_files
  action_arguments m r =
      let input = set empty "input" (params r).0 in
      let args = if not (is_empty m.config) then set input "configuration" m.config else input in
      if is_non_blocking r.request_type then set args "output_files" (output_files r) else args

  unfoldable pub get_action_arguments : ExternalModule → ActionRequest → String
  unfolding action_arguments
  get_action_arguments m r = json_text (action_arguments m r)

  -- The rest of a computation that changes the disk.
  abbrev and_then {ℓ} :
      {A : Type ℓ} {B : Type 0} → Result A × Disk → (A → Disk → Result B × Disk) → Result B × Disk
  and_then (ok a, d) f = f a d
  and_then (err e, d) f = (err e, d)
  and_then (aborted, d) f = (aborted, d)

  unfoldable pub call_blocking_action :
      Executor → ExternalModule → ActionRequest → Disk → Result ActionOutcome × Disk
  unfolding process_request_outcome get_action_arguments
  call_blocking_action x m r d =
      and_then (x.start m.path r.action (get_action_arguments m r) d) λ pid d₁.
        and_then (x.finish pid d₁)
          λ exec d₂. (process_request_outcome r exec.exit_code exec.output exec.error, d₂)

  -- The callback that writes the PID file, in the results directory.
  write_pid : String → ℕ → Disk → Result (Unit {0}) × Disk
  unfolding to_string
  write_pid results_dir pid d =
      elim (atomic_write_to_file d (to_string (pos pid) ++ "\n") (slash results_dir "pid")) [
        | ok d' ↦ (ok tt, d')
        | err e ↦ (err e, d)
        | aborted ↦ (aborted, d)
      ]

  collect : ActionRequest → Execution → Disk → Result ActionOutcome
  unfolding read_non_blocking_outcome process_request_outcome
  collect r exec d =
      let files =
        read_non_blocking_outcome (slash r.results_dir "stdout") (slash r.results_dir "stderr") d in
      if is_file_error exec.exit_code
      then err (processing_error "failed to write output on file")
      else (files.read_result
          >> process_request_outcome r exec.exit_code files.out_txt files.err_txt)

  unfoldable pub call_non_blocking_action :
      Executor → ExternalModule → ActionRequest → Disk → Result ActionOutcome × Disk
  unfolding get_action_arguments write_pid collect
  call_non_blocking_action x m r d =
      and_then (x.start m.path r.action (get_action_arguments m r) d) λ pid d₁.
        and_then (write_pid r.results_dir pid d₁)
          λ _ d₂. and_then (x.finish pid d₂) λ exec d₃. (collect r exec d₃, d₃)

  -- The assert on the results directory is part of the second branch.
  unfoldable pub call_action :
      Executor → ExternalModule → ActionRequest → Disk → Result ActionOutcome × Disk
  unfolding call_blocking_action call_non_blocking_action
  call_action x m r d = elim r.request_type [
    | blocking ↦ call_blocking_action x m r d
    | non_blocking ↦
        if is_blank r.results_dir then (aborted, d) else call_non_blocking_action x m r d
  ]
