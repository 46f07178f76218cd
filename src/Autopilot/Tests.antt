-- ===== src/Autopilot/Tests.antt =====
-- The checks of a task file on small documents.
use autopilot_console.Prelude.{◌≡◌, refl, ◌↔◌, some, none, Bool, true, false, String, List, [], ◌∷◌}
use autopilot_console.Autopilot.Json.{
  Json, string, boolean, number, array, object, nil, cons, Fields, field, end,
}
use autopilot_console.Autopilot.Graph.{
  Dependencies, found_errors, dependency_cycle, add_id, ids_of, missing_of, missing_in, resolved,
  adjacent?, adjacent, paint, from_node, report_cycle, pop, enter, leave, after_child, scan, dfs,
  search_all, validate_dependency_graph,
}
use autopilot_console.Autopilot.Graph.Edges.{UniqueIds}
use autopilot_console.Autopilot.Graph.Valid.{IsSound, validate_dependency_graph_iff}
use autopilot_console.Autopilot.Requirement.{
  Requirement, phase_errors, parse_tdd, incomplete, some_phase_incomplete, field_errors,
  state_errors, parse_fields, parse_requirement,
}
use autopilot_console.Autopilot.Document.{
  resumable, derive_run_mode, TaskDocument, Validation, valid, throws, collect, parse_all,
  all_dependencies, conclude, answer_check, check_graph, top_errors, validate_task_document,
}
use autopilot_console.Autopilot.Document.Cases.{Distinct-UniqueIds}
use autopilot_console.Autopilot.Document.Valid.{
  IsValid, validate_task_document-some, validate_task_document-IsValid,
}
use autopilot_console.Autopilot.Document.Errors.{HasUncheckable, validate_task_document-throws_iff}

-- "b" depends on "a".
abbrev two : List Dependencies
two = record { id = "a"; depends_on = [] } ∷ record { id = "b"; depends_on = string "a" ∷ [] } ∷ []

two-UniqueIds : UniqueIds two
two-UniqueIds = Distinct-UniqueIds [] two (refl, (refl, tt))

-- "a" and "b" depend on one another, and "c" on "b": the search from "c" reports an edge that is none.
abbrev three : List Dependencies
three =
    record { id = "a"; depends_on = string "b" ∷ [] }
    ∷ record { id = "b"; depends_on = string "a" ∷ [] }
    ∷ record { id = "c"; depends_on = string "b" ∷ [] }
    ∷ []

stale_cycle :
    validate_dependency_graph three
    ≡ some (
        found_errors
          (dependency_cycle ("a" ∷ "b" ∷ "a" ∷ []) ∷ dependency_cycle ("b" ∷ "c" ∷ "b" ∷ []) ∷ []))
unfolding validate_dependency_graph add_id ids_of missing_of missing_in resolved adjacent? adjacent
    paint from_node report_cycle pop enter leave after_child scan dfs search_all
stale_cycle = refl

validate_dependency_graph_iff_example :
    (validate_dependency_graph two ≡ some (found_errors [])) ↔ IsSound two
validate_dependency_graph_iff_example = validate_dependency_graph_iff two two-UniqueIds

abbrev requirement : String → Bool → Json → Json
requirement id passes deps = object (
    field "id" (string id) (
      field "description" (string "what")
        (field "passes" (boolean passes) (field "dependsOn" deps end))))

abbrev fields : Json → Fields
fields deps = field "name" (string "task") (
    field "description" (string "all of it") (
      field "requirements"
        (array (cons (requirement "a" true (array nil)) (cons (requirement "b" false deps) nil)))
        end))

abbrev good : Json
good = object (fields (array (cons (string "a") nil)))

-- A number where a list of ids belongs.
abbrev bad : Json
bad = object (fields (number "5"))

abbrev kept_requirement : String → Bool → Json → Requirement
kept_requirement id passes deps = record {
  wire = field "id" (string id) (
      field "description" (string "what")
        (field "passes" (boolean passes) (field "dependsOn" deps end)));
  id = id;
  passes = passes;
  tdd = none;
}

abbrev document : TaskDocument
document = record {
  wire = fields (array (cons (string "a") nil));
  requirements =
      kept_requirement "a" true (array nil)
      ∷ kept_requirement "b" false (array (cons (string "a") nil))
      ∷ [];
}

good-valid : validate_task_document good ≡ some (valid document resumable)
unfolding validate_task_document top_errors parse_all collect parse_requirement parse_fields
    parse_tdd phase_errors field_errors state_errors incomplete some_phase_incomplete answer_check
    check_graph all_dependencies conclude derive_run_mode validate_dependency_graph add_id ids_of
    missing_of missing_in resolved adjacent? adjacent paint pop enter leave after_child scan dfs
    search_all
good-valid = refl

validate_task_document-IsValid_example : IsValid good document resumable
validate_task_document-IsValid_example =
    validate_task_document-IsValid good document resumable good-valid

validate_task_document-throws_iff_example :
    (validate_task_document bad ≡ some throws) ↔ HasUncheckable bad
validate_task_document-throws_iff_example = validate_task_document-throws_iff bad

bad-throws : validate_task_document bad ≡ some throws
unfolding validate_task_document top_errors parse_all collect parse_requirement parse_fields
    parse_tdd field_errors state_errors some_phase_incomplete answer_check check_graph
    all_dependencies
bad-throws = refl

validate_task_document-some_example :
    (answer : Validation) × (validate_task_document good ≡ some answer)
validate_task_document-some_example = validate_task_document-some good
