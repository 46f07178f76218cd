-- ===== src/Autopilot/Document/Valid.antt =====
-- The answers of `validateTaskDocument`.
use mathlib.Core.Path.{subst}
use mathlib.Core.Logic.{⊎_elim}
use autopilot_console.Prelude.{
  ◌≡◌, ◌≢◌, refl, sym, ◌∙◌, ap, Option, some, none, true, false, not, List, [], ◌∷◌, ◌++◌, map, All,
}
use autopilot_console.Autopilot.Json.{
  Json, Items, Fields, null, boolean, number, string, array, object, property, is_string,
  nonempty_string, items_list,
}
use autopilot_console.Autopilot.Graph.{
  Dependencies, GraphError, found_errors, validate_dependency_graph,
}
use autopilot_console.Autopilot.Graph.Valid.{IsSound, validate_dependency_graph_iff}
use autopilot_console.Autopilot.Requirement.{
  TaskError, when_error, without, missing_name, missing_description, no_requirements, in_graph,
  Requirement,
}
use autopilot_console.Autopilot.Document.{
  RunMode, derive_run_mode, parse_all, is_empty, TaskDocument, Validation, valid, invalid, throws,
  all_dependencies, conclude, top_errors, requirements_of, validate_task_document,
}
use autopilot_console.Autopilot.Document.Parsed.{
  not-false, three-nil, append-nil, when_error-nil, Distinct, ids_in, Clean, parse_all-Clean,
}
use autopilot_console.Autopilot.Document.Cases.{
  Distinct-UniqueIds, check_graph-cases, validate-cases,
}
use autopilot_console.Autopilot.Document.Kept.{every_item_kept}
use autopilot_console.Autopilot.Document.Phases.{ModeOf, Phases, parsed-Phases, derive-ModeOf}

module _ (wire : Fields) (rs : List Requirement) where
  pub conclude-ne-throws : (es : List TaskError) → conclude wire rs es ≢ throws
  unfolding conclude
  conclude-ne-throws [] h = cc
  conclude-ne-throws (e ∷ es) h = cc

  conclude-valid :
      (es : List TaskError) (d : TaskDocument) (mode : RunMode)
      → conclude wire rs es ≡ valid d mode
      → (es ≡ []) × (d ≡ record { wire = wire; requirements = rs }) × (mode ≡ derive_run_mode rs)
  unfolding conclude
  conclude-valid [] d mode h = (refl, cc, cc)
  conclude-valid (e ∷ es) d mode h = cc

pub invalid-ne-throws : (errors : List TaskError) → invalid errors ≢ throws
invalid-ne-throws errors h = cc

invalid-ne-valid :
    (errors : List TaskError) (d : TaskDocument) (mode : RunMode) → invalid errors ≢ valid d mode
invalid-ne-valid errors d mode h = cc

throws-ne-valid : (d : TaskDocument) (mode : RunMode) → throws ≢ valid d mode
throws-ne-valid d mode h = cc

pair_eq :
    (d : TaskDocument) (mode : RunMode) (d' : TaskDocument) (mode' : RunMode)
    → d ≡ d'
    → mode ≡ mode'
    → ◌≡◌ {A = TaskDocument × RunMode} (d, mode) (d', mode')
pair_eq d mode d' mode' e f = cc (e, f)

pub answer_eq : (v w : Validation) → ◌≡◌ {A = Option Validation} (some v) (some w) → v ≡ w
answer_eq v w e = cc

-- The check of a task document ends, with an answer or a TypeError, on every value that it is given.
pub validate_task_document-some :
    (value : Json) → (answer : Validation) × (validate_task_document value ≡ some answer)
validate_task_document-some value =
    ⊎_elim {C = (answer : Validation) × (validate_task_document value ≡ some answer)}
      (λ refused. let (errors, e) = refused in (invalid errors, e))
      (λ listed.
        let (input, items, is, at, e) = listed in
        let (rs, errors) = parse_all items 0 [] in
        ⊎_elim {C = (answer : Validation) × (validate_task_document value ≡ some answer)}
          (λ bad. (throws, e ∙ bad.1))
          (λ good. let (ds, found, all_read, same, ran, noted, f) = good in (_, e ∙ f))
          (check_graph-cases input rs (top_errors input ++ errors)))
      (validate-cases value)

pub requirements_array :
    (o : Option Json) (items : List Json)
    → requirements_of o ≡ some items
    → (list : Items) × (o ≡ some (array list)) × (items ≡ items_list list)
requirements_array (some (array list)) items h = (list, refl, cc)
requirements_array none items h = cc
requirements_array (some null) items h = cc
requirements_array (some (boolean b)) items h = cc
requirements_array (some (number n)) items h = cc
requirements_array (some (string s)) items h = cc
requirements_array (some (object o)) items h = cc

-- What is true of a document that the check returns.
pub record IsValid (value : Json) (d : TaskDocument) (mode : RunMode) : Type 0 where
  pub read : value ≡ object d.wire
  pub named : without (nonempty_string (property "name" d.wire)) ≡ false
  pub described : is_string (property "description" d.wire) ≡ true
  pub nonempty : is_empty d.requirements ≡ false
  pub listed :
      (items : Items) × (property "requirements" d.wire ≡ some (array items))
      × (items_list items ≡ map (λ (r : Requirement). object r.wire) d.requirements)
  pub clean : Clean [] d.requirements
  pub phases : All Phases d.requirements
  pub graph : (ds : List Dependencies) × (all_dependencies d.requirements ≡ some ds) × IsSound ds
  pub mode_of : ModeOf d.requirements mode

in_graph-nil : (errors : List GraphError) → map in_graph errors ≡ [] → errors ≡ []
in_graph-nil [] h = refl
in_graph-nil (e ∷ es) h = cc

top_errors-nil :
    (input : Fields)
    → top_errors input ≡ []
    → (without (nonempty_string (property "name" input)) ≡ false)
      × (is_string (property "description" input) ≡ true)
unfolding top_errors
top_errors-nil input h =
    let name = without (nonempty_string (property "name" input)) in
    let described = is_string (property "description" input) in
    let (a, b) =
      append-nil (when_error name missing_name) (when_error (not described) missing_description)
        h in
    (
      when_error-nil name missing_name a,
      not-false described (when_error-nil (not described) missing_description b),
    )

derived-ModeOf : (rs : List Requirement) → is_empty rs ≡ false → ModeOf rs (derive_run_mode rs)
derived-ModeOf [] h = cc
derived-ModeOf (r ∷ rest) h = derive-ModeOf r rest

-- With no errors, what was read is a valid document.
IsValid-of :
    (value : Json) (input : Fields) (items : List Json)
    → value ≡ object input
    → requirements_of (property "requirements" input) ≡ some items
    → (ds : List Dependencies) (errors : List GraphError)
    → all_dependencies (parse_all items 0 []).0 ≡ some ds
    → map (λ (d : Dependencies). d.id) ds ≡ ids_in (parse_all items 0 []).0
    → validate_dependency_graph ds ≡ some (found_errors errors)
    → (top_errors input
          ++ (parse_all items 0 []).1
          ++ when_error (is_empty (parse_all items 0 []).0) no_requirements
          ++ map in_graph errors
        ≡ [])
    → IsValid value
        (record { wire = input; requirements = (parse_all items 0 []).0 })
        (derive_run_mode (parse_all items 0 []).0)
IsValid-of value input items is at ds errors all_read same ran nothing =
    let (rs, parsed) = parse_all items 0 [] in
    let (before, any, graph) =
      three-nil (top_errors input ++ parsed) (when_error (is_empty rs) no_requirements)
        (map in_graph errors) nothing in
    let (top, own) = append-nil (top_errors input) parsed before in
    let (name, description) = top_errors-nil input top in
    let (list, where_it_is, same_items) =
      requirements_array (property "requirements" input) items at in
    let clean = parse_all-Clean items 0 [] own in
    let unique = Distinct-UniqueIds [] ds (subst (Distinct []) (sym same) clean.1) in
    let sound =
      (validate_dependency_graph_iff ds unique).0
        (ran ∙ ap (λ xs. some (found_errors xs)) (in_graph-nil errors graph)) in
    record {
      read = is;
      named = name;
      described = description;
      nonempty = when_error-nil (is_empty rs) no_requirements any;
      listed = (list, where_it_is, sym same_items ∙ every_item_kept items 0 [] own);
      clean = clean;
      phases = parsed-Phases rs clean.0;
      graph = (ds, all_read, sound);
      mode_of = derived-ModeOf rs (when_error-nil (is_empty rs) no_requirements any);
    }

-- A document that the check returns is the input with the requirements read from it, one for each item
-- of the input's list, in its order; it has a name, a description and at least one requirement; each
-- requirement is well formed, with an id of its own, and has no phases or all three of them, each with
-- a flag that is set where the requirement passes; every dependency is the id of a requirement, and
-- none leads back to its start; the run mode is complete where all requirements pass, resumable where
-- some do and some do not, and fresh where none does.
pub validate_task_document-IsValid :
    (value : Json) (d : TaskDocument) (mode : RunMode)
    → validate_task_document value ≡ some (valid d mode)
    → IsValid value d mode
validate_task_document-IsValid value d mode h =
    ⊎_elim {C = IsValid value d mode}
      (λ refused.
        let (errors, e) = refused in
        absurd (invalid-ne-valid errors d mode (answer_eq _ _ (sym e ∙ h))))
      (λ listed.
        let (input, items, is, at, e) = listed in
        let (rs, errors) = parse_all items 0 [] in
        ⊎_elim {C = IsValid value d mode}
          (λ bad. absurd (throws-ne-valid d mode (answer_eq _ _ (sym bad.1 ∙ sym e ∙ h))))
          (λ good.
            let (ds, found, all_read, same, ran, noted, f) = good in
            let (nothing, is_d, is_mode) =
              conclude-valid input rs _ d mode (answer_eq _ _ (sym f ∙ sym e ∙ h)) in
            subst (λ (p : TaskDocument × RunMode). IsValid value p.0 p.1)
              (sym (pair_eq d mode _ _ is_d is_mode))
              (IsValid-of value input items is at ds found all_read same ran nothing))
          (check_graph-cases input rs (top_errors input ++ errors)))
      (validate-cases value)
