-- ===== src/Autopilot/Document/Cases.antt =====
-- The branches of `validateTaskDocument`, and its run mode.
use mathlib.Core.Path.{subst}
use mathlib.Core.Logic.{⊎_elim}
use autopilot_console.Prelude.{
  ◌≡◌, ◌≢◌, refl, sym, ap, some, none, Bool, true, false, ◌&&◌, ◌||◌, String, List, [], ◌∷◌, ◌++◌,
  map, if◌then◌else◌, arith, Member, here, there, Bool-cases, inl, inr, ◌⊎◌, Option-cases, all, any,
}
use autopilot_console.Autopilot.Json.{
  Json, Fields, null, boolean, number, string, array, object, property, is_plain_object, iterated,
}
use autopilot_console.Autopilot.Graph.{
  Dependencies, GraphError, found_errors, has_id, ids_of, missing_in, validate_dependency_graph,
}
use autopilot_console.Autopilot.Graph.Ids.{has_id_iff}
use autopilot_console.Autopilot.Graph.Edges.{UniqueIds}
use autopilot_console.Autopilot.Graph.Valid.{validate_dependency_graph-cases}
use autopilot_console.Autopilot.Requirement.{
  TaskError, document_not_object, missing_requirements, when_error, no_requirements, in_graph,
  Requirement,
}
use autopilot_console.Autopilot.Document.{
  fresh, resumable, complete, run_mode_of, derive_run_mode, parse_all, is_empty, invalid, throws,
  all_dependencies, conclude, answer_check, check_graph, top_errors, requirements_of,
  validate_task_document,
}
use autopilot_console.Autopilot.Document.Parsed.{Distinct, ids_in}

-- The run mode, read off all the requirements at once.
run_mode_of_lem :
    (rs : List Requirement) (any_pass all_pass : Bool)
    → run_mode_of rs any_pass all_pass ≡ (
        if all_pass && all (λ (r : Requirement). r.passes) rs
        then complete
        else if any_pass || any (λ (r : Requirement). r.passes) rs
        then resumable
        else fresh)
run_mode_of_lem [] any_pass all_pass = ground arith
run_mode_of_lem (r ∷ rest) any_pass all_pass =
    let inner = run_mode_of_lem rest (any_pass || r.passes) (all_pass && r.passes) in ground arith

-- A document with requirements is complete where all of them pass, resumable where some but not all
-- pass, and fresh where none does.
pub derive_run_mode_lem :
    (r : Requirement) (rest : List Requirement)
    → derive_run_mode (r ∷ rest) ≡ (
        if all (λ (q : Requirement). q.passes) (r ∷ rest)
        then complete
        else if any (λ (q : Requirement). q.passes) (r ∷ rest)
        then resumable
        else fresh)
unfolding derive_run_mode
derive_run_mode_lem r rest = run_mode_of_lem (r ∷ rest) false true

-- Ids that are new one after the other are all different.
new-Member :
    (seen : List String) (ds : List Dependencies) (d : Dependencies)
    → Distinct seen (map (λ (r : Dependencies). r.id) ds)
    → Member d ds
    → has_id d.id seen ≡ false
new-Member seen [] d h m = elim m [ ]
new-Member seen (e ∷ ds) d h here = h.0
new-Member seen (e ∷ ds) d h (there m) = elim (Bool-cases (has_id d.id seen)) [
  | inr new ↦ new
  | inl old ↦
      let later = new-Member (e.id ∷ seen) ds d h.1 m in
      let found = (has_id_iff d.id (e.id ∷ seen)).1 (there ((has_id_iff d.id seen).0 old)) in cc
]

first_id :
    (seen : List String) (d e : Dependencies) (ds : List Dependencies)
    → Distinct seen (map (λ (r : Dependencies). r.id) (d ∷ ds))
    → Member e ds
    → d.id ≢ e.id
first_id seen d e ds h m same =
    let later = new-Member (d.id ∷ seen) ds e h.1 m in
    let found = (has_id_iff e.id (d.id ∷ seen)).1 (subst (λ z. Member z (d.id ∷ seen)) same here) in
    cc

pub Distinct-UniqueIds :
    (seen : List String) (ds : List Dependencies)
    → Distinct seen (map (λ (r : Dependencies). r.id) ds)
    → UniqueIds ds
Distinct-UniqueIds seen (d ∷ ds) h r s here here e = refl
Distinct-UniqueIds seen (d ∷ ds) h r s here (there n) e = absurd (first_id seen d s ds h n e)
Distinct-UniqueIds seen (d ∷ ds) h r s (there m) here e = absurd (first_id seen d r ds h m (sym e))
Distinct-UniqueIds seen (d ∷ ds) h r s (there m) (there n) e =
    Distinct-UniqueIds (d.id ∷ seen) ds h.1 r s m n e
Distinct-UniqueIds seen [] h r s m n e = elim m [ ]

-- The reads of `dependsOn` throw, or yield the dependencies of each.
abbrev pub Read : List Requirement → Type 0
Read rs =
    (ds : List Dependencies) × (all_dependencies rs ≡ some ds)
    × (map (λ (d : Dependencies). d.id) ds ≡ ids_in rs)

pub all_dependencies-cases : (rs : List Requirement) → (all_dependencies rs ≡ none) ⊎ Read rs
unfolding all_dependencies
all_dependencies-cases [] = inr ([], refl, refl)
all_dependencies-cases (r ∷ rest) = elim (Option-cases (iterated (property "dependsOn" r.wire))) [
  | inl e ↦ inl (rw (e, all_dependencies))
  | inr (deps, e) ↦
      ⊎_elim {C = (all_dependencies (r ∷ rest) ≡ none) ⊎ Read (r ∷ rest)}
        (λ (no_list : all_dependencies rest ≡ none). inl (rw (e, no_list, all_dependencies)))
        (λ good.
          let (ds, f, same) = good in
          inr (
            record { id = r.id; depends_on = deps } ∷ ds,
            rw (e, f, all_dependencies),
            ap (λ (ids : List String). r.id ∷ ids) same,
          ))
        (all_dependencies-cases rest)
]

-- A read throws, or the text of a message.
abbrev pub Fails : List Requirement → Type 0
Fails rs =
    (all_dependencies rs ≡ none)
    ⊎ ((ds : List Dependencies) × (all_dependencies rs ≡ some ds)
        × (missing_in (ids_of ds) ds ≡ none))

module _ (wire : Fields) (rs : List Requirement) (before : List TaskError) where
  abbrev pub Checked : Type 0
  Checked =
      (ds : List Dependencies) × (errors : List GraphError) × (all_dependencies rs ≡ some ds)
      × (map (λ (d : Dependencies). d.id) ds ≡ ids_in rs)
      × (validate_dependency_graph ds ≡ some (found_errors errors))
      × ((missing : List GraphError) × (missing_in (ids_of ds) ds ≡ some missing))
      × (check_graph wire rs before
          ≡ some (
              conclude wire rs
                (before ++ when_error (is_empty rs) no_requirements ++ map in_graph errors)))

  pub check_graph-cases : (Fails rs × (check_graph wire rs before ≡ some throws)) ⊎ Checked
  unfolding check_graph answer_check
  check_graph-cases =
      ⊎_elim {C = (Fails rs × (check_graph wire rs before ≡ some throws)) ⊎ Checked}
        (λ e. inl (inl e, rw (e, check_graph)))
        (λ good.
          let (ds, e, same) = good in
          ⊎_elim {C = (Fails rs × (check_graph wire rs before ≡ some throws)) ⊎ Checked}
            (λ bad.
              let (lost, ran) = bad in
              inl (inr (ds, e, lost), rw (e, ran, check_graph, answer_check)))
            (λ done.
              let (missing, noted, errors, ran) = done in
              inr (
                ds,
                errors,
                e,
                same,
                ran,
                (missing, noted),
                rw (e, ran, check_graph, answer_check),
              ))
            (validate_dependency_graph-cases ds))
        (all_dependencies-cases rs)

pub is_object :
    (value : Json) (input : Fields) → is_plain_object value ≡ some input → value ≡ object input
is_object null input e = cc
is_object (boolean b) input e = cc
is_object (number n) input e = cc
is_object (string s) input e = cc
is_object (array a) input e = cc
is_object (object o) input e = cc

-- The input is an object with a list of requirements; `invalid` is the answer to all others.
module _ (value : Json) where
  abbrev pub Listed : Type 0
  Listed =
      (input : Fields) × (items : List Json) × (value ≡ object input)
      × (requirements_of (property "requirements" input) ≡ some items)
      × (validate_task_document value
          ≡ check_graph input (parse_all items 0 []).0
              (top_errors input ++ (parse_all items 0 []).1))

  pub validate-cases :
      ((errors : List TaskError) × (validate_task_document value ≡ some (invalid errors))) ⊎ Listed
  unfolding validate_task_document
  validate-cases = elim (Option-cases (is_plain_object value)) [
    | inl e ↦ inl (document_not_object ∷ [], rw (e, validate_task_document))
    | inr (input, e) ↦ elim (Option-cases (requirements_of (property "requirements" input))) [
      | inl n ↦
          inl (top_errors input ++ missing_requirements ∷ [], rw (e, n, validate_task_document))
      | inr (items, n) ↦
          inr (input, items, is_object value input e, n, rw (e, n, validate_task_document))
    ]
  ]
