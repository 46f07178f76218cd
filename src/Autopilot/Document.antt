-- ===== src/Autopilot/Document.antt =====
-- packages/autopilot/src/task/task-semantic-validator.ts, `deriveRunMode` and `validateTaskDocument`.
-- The check of the dependencies throws on a `dependsOn` that cannot be iterated or whose items have no
-- text, after the parser has noted it as an error: the model has that as an answer of its own.
pub mod Parsed
pub mod Cases
pub mod Kept
pub mod Phases
pub mod Throws
pub mod Valid
pub mod Errors
use mathlib.Core.Option
use autopilot_console.Prelude.{
  ℕ, suc, ◌+◌, Option, some, none, Bool, true, false, not, ◌&&◌, ◌||◌, String, List, [], ◌∷◌, ◌++◌,
  map, if◌then◌else◌,
}
use autopilot_console.Autopilot.Json.{
  Json, Fields, array, property, is_plain_object, is_string, nonempty_string, items_list, iterated,
}
use autopilot_console.Autopilot.Graph.{
  Dependencies, GraphCheck, found_errors, check_throws, has_id, validate_dependency_graph,
}
use autopilot_console.Autopilot.Requirement.{
  TaskError, document_not_object, missing_name, missing_description, missing_requirements,
  no_requirements, duplicate_id, in_graph, when_error, without, Requirement, parse_requirement,
}

pub data RunMode : Type 0 where
  fresh resumable complete : RunMode

-- The loop of `deriveRunMode`, and what it returns after it.
abbrev pub run_mode_of : List Requirement → Bool → Bool → RunMode
run_mode_of [] any_pass all_pass =
    if all_pass then complete else if any_pass then resumable else fresh
run_mode_of (r ∷ rest) any_pass all_pass =
    run_mode_of rest (any_pass || r.passes) (all_pass && r.passes)

unfoldable pub derive_run_mode : List Requirement → RunMode
derive_run_mode [] = fresh
derive_run_mode (r ∷ rest) = run_mode_of (r ∷ rest) false true

-- The document as it is returned: the properties of the input, with these requirements.
pub record TaskDocument : Type 0 where
  pub wire : Fields
  pub requirements : List Requirement

pub data Validation : Type 0 where
  valid : TaskDocument → RunMode → Validation
  invalid : List TaskError → Validation
  throws : Validation

-- A round of the loop over the requirements, `rest` being the rounds after it from the ids seen.
unfoldable pub collect :
    List String
    → Option Requirement × List TaskError
    → (List String → List Requirement × List TaskError)
    → List Requirement × List TaskError
collect seen (none, errors) rest = let (more, later) = rest seen in (more, errors ++ later)
collect seen (some r, errors) rest =
    let (more, later) = rest (r.id ∷ seen) in
    (r ∷ more, errors ++ when_error (has_id r.id seen) (duplicate_id r.id) ++ later)

-- The requirements and the errors of the loop.
unfoldable pub parse_all : List Json → ℕ → List String → List Requirement × List TaskError
parse_all [] index seen = ([], [])
parse_all (raw ∷ rest) index seen =
    collect seen (parse_requirement raw index) (parse_all rest (suc index))

-- The reads of `dependsOn` in the check of the graph: `none` where one throws.
unfoldable pub all_dependencies : List Requirement → Option (List Dependencies)
all_dependencies [] = some []
all_dependencies (r ∷ rest) = elim (iterated (property "dependsOn" r.wire)) [
  | none ↦ none
  | some deps ↦
      Option.map (λ more. record { id = r.id; depends_on = deps } ∷ more) (all_dependencies rest)
]

unfoldable pub conclude : Fields → List Requirement → List TaskError → Validation
conclude wire requirements [] =
    valid (record { wire = wire; requirements = requirements }) (derive_run_mode requirements)
conclude wire requirements (error ∷ errors) = invalid (error ∷ errors)

abbrev pub is_empty : List Requirement → Bool
is_empty [] = true
is_empty (r ∷ rest) = false

-- What follows from the check of the dependencies, `before` being the errors so far.
unfoldable pub answer_check : Fields → List Requirement → List TaskError → GraphCheck → Validation
answer_check wire requirements before check_throws = throws
answer_check wire requirements before (found_errors errors) =
    conclude wire requirements
      (before ++ when_error (is_empty requirements) no_requirements ++ map in_graph errors)

-- The part after the loop. `none` is a search out of fuel.
unfoldable pub check_graph : Fields → List Requirement → List TaskError → Option Validation
unfolding answer_check
check_graph wire requirements before = elim (all_dependencies requirements) [
  | none ↦ some throws
  | some dependencies ↦
      Option.map (answer_check wire requirements before) (validate_dependency_graph dependencies)
]

unfoldable pub top_errors : Fields → List TaskError
top_errors input =
    when_error (without (nonempty_string (property "name" input))) missing_name
    ++ when_error (not (is_string (property "description" input))) missing_description

-- `input.requirements`, where it is an array
abbrev pub requirements_of : Option Json → Option (List Json)
requirements_of (some (array items)) = some (items_list items)
requirements_of _ = none

unfoldable pub validate_task_document : Json → Option Validation
validate_task_document value = elim (is_plain_object value) [
  | none ↦ some (invalid (document_not_object ∷ []))
  | some input ↦ elim (requirements_of (property "requirements" input)) [
    | none ↦ some (invalid (top_errors input ++ missing_requirements ∷ []))
    | some items ↦
        let (requirements, errors) = parse_all items 0 [] in
        check_graph input requirements (top_errors input ++ errors)
  ]
]
