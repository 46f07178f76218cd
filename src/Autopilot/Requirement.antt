-- ===== src/Autopilot/Requirement.antt =====
-- packages/autopilot/src/task/task-semantic-validator.ts, `parseTdd` and `parseRequirement`. What the
-- source pushes on its list of errors is returned, and the caller appends it.
use autopilot_console.Prelude.{
  ℕ, Option, some, none, Bool, true, false, not, ◌&&◌, ◌||◌, String, List, [], ◌∷◌, ◌++◌,
  if◌then◌else◌,
}
use autopilot_console.Autopilot.Json.{
  Json, Fields, property, is_plain_object, is_string, nonempty_string, is_boolean, is_true,
  is_false, is_string_array,
}
use autopilot_console.Autopilot.Graph.{GraphError}

pub data TaskError : Type 0 where
  document_not_object missing_name missing_description missing_requirements no_requirements :
      TaskError
  requirement_not_object requirement_without_id : ℕ → TaskError
  description_required passes_not_boolean depends_on_not_strings tdd_not_object : String → TaskError
  phase_required phase_not_boolean : String → String → TaskError
  stuck_without_reason invalid_test_without_reason impossible_state duplicate_id :
      String → TaskError
  in_graph : GraphError → TaskError

-- `if (test) errors.push(error)`
abbrev pub when_error : Bool → TaskError → List TaskError
when_error test error = if test then error ∷ [] else []

-- A phase of `tdd`, a property that can be absent.
unfoldable pub phase_errors : String → String → Option Json → List TaskError
phase_errors id phase none = phase_required id phase ∷ []
phase_errors id phase (some value) = elim (is_plain_object value) [
  | none ↦ phase_required id phase ∷ []
  | some fields ↦
      when_error (not (is_boolean (property "passes" fields))) (phase_not_boolean id phase)
]

-- The copies that `parseTdd` makes have the values of the original.
unfoldable pub parse_tdd : Option Json → String → Option Fields × List TaskError
parse_tdd none id = (none, [])
parse_tdd (some raw) id = elim (is_plain_object raw) [
  | none ↦ (none, tdd_not_object id ∷ [])
  | some fields ↦ (
    some fields,
    phase_errors id "test" (property "test" fields)
        ++ phase_errors id "implement" (property "implement" fields)
        ++ phase_errors id "refactor" (property "refactor" fields),
  )
]

-- A requirement as it is kept: all its properties, and those that are overwritten.
pub record Requirement : Type 0 where
  pub wire : Fields
  pub id : String
  pub passes : Bool
  pub tdd : Option Fields

-- `p && p.passes === false`; what is no object has no such property.
unfoldable pub incomplete : Option Json → Bool
incomplete none = false
incomplete (some value) = elim (is_plain_object value) [
  | none ↦ false
  | some fields ↦ is_false (property "passes" fields)
]

unfoldable pub some_phase_incomplete : Option Fields → Bool
some_phase_incomplete none = false
some_phase_incomplete (some tdd) =
    incomplete (property "test" tdd)
    || incomplete (property "implement" tdd)
    || incomplete (property "refactor" tdd)

abbrev pub without : Option String → Bool
without none = true
without (some s) = false

-- `raw.dependsOn !== undefined` and no array of strings
abbrev pub bad_depends_on : Option Json → Bool
bad_depends_on none = false
bad_depends_on (some value) = not (is_string_array value)

-- The errors before and after the one of `parseTdd`.
unfoldable pub field_errors : String → Fields → List TaskError
field_errors id raw =
    when_error (not (is_string (property "description" raw))) (description_required id)
    ++ when_error (not (is_boolean (property "passes" raw))) (passes_not_boolean id)
    ++ when_error (bad_depends_on (property "dependsOn" raw)) (depends_on_not_strings id)

unfoldable pub state_errors : String → Fields → Option Fields → List TaskError
state_errors id raw tdd =
    when_error
      (is_true (property "stuck" raw) && without (nonempty_string (property "blockedReason" raw)))
      (stuck_without_reason id)
    ++ when_error
        (is_true (property "invalidTest" raw)
          && without (nonempty_string (property "invalidTestReason" raw)))
        (invalid_test_without_reason id)
    ++ when_error (is_true (property "passes" raw) && some_phase_incomplete tdd)
        (impossible_state id)

unfoldable pub parse_fields : Fields → String → Requirement × List TaskError
parse_fields raw id =
    let (tdd, tdd_errors) = parse_tdd (property "tdd" raw) id in
    (
      record { wire = raw; id = id; passes = is_true (property "passes" raw); tdd = tdd },
      field_errors id raw ++ tdd_errors ++ state_errors id raw tdd,
    )

unfoldable pub parse_requirement : Json → ℕ → Option Requirement × List TaskError
parse_requirement value index = elim (is_plain_object value) [
  | none ↦ (none, requirement_not_object index ∷ [])
  | some raw ↦ elim (nonempty_string (property "id" raw)) [
    | none ↦ (none, requirement_without_id index ∷ [])
    | some id ↦ let (requirement, errors) = parse_fields raw id in (some requirement, errors)
  ]
]
