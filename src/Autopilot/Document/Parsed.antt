-- ===== src/Autopilot/Document/Parsed.antt =====
-- What holds of the requirements that the parser of a task file noted no error about.
use mathlib.Core.Path.{subst}
use mathlib.Core.Logic.{⊎_elim}
use autopilot_console.Prelude.{
  ℕ, suc, ◌≡◌, ◌≢◌, refl, sym, Option, some, none, Bool, true, false, not, ◌&&◌, String, List, [],
  ◌∷◌, ◌++◌, map, inl, inr, ◌⊎◌, Option-cases, All,
}
use autopilot_console.Autopilot.Json.{
  Json, Fields, property, is_plain_object, is_string, nonempty_string, is_boolean, is_true,
}
use autopilot_console.Autopilot.Graph.{has_id}
use autopilot_console.Autopilot.Requirement.{
  description_required, passes_not_boolean, depends_on_not_strings, stuck_without_reason,
  invalid_test_without_reason, impossible_state, without, TaskError, duplicate_id, when_error,
  Requirement, parse_tdd, field_errors, state_errors, parse_fields, parse_requirement,
  some_phase_incomplete, bad_depends_on, requirement_not_object, requirement_without_id,
}
use autopilot_console.Autopilot.Document.{collect, parse_all}

pub append-nil : {A : Type 0} (xs ys : List A) → (xs ++ ys ≡ []) → (xs ≡ []) × (ys ≡ [])
append-nil [] ys e = (refl, e)
append-nil (x ∷ xs) ys e = cc

pub three-nil :
    {A : Type 0} (xs ys zs : List A) → (xs ++ ys ++ zs ≡ []) → (xs ≡ []) × (ys ≡ []) × (zs ≡ [])
three-nil xs ys zs e =
    let (left, right) = append-nil (xs ++ ys) zs e in
    let (one, two) = append-nil xs ys left in (one, two, right)

pub when_error-nil : (b : Bool) (e : TaskError) → when_error b e ≡ [] → b ≡ false
when_error-nil true e h = cc
when_error-nil false e h = refl

three_errors :
    (a b c : Bool) (e f g : TaskError)
    → (when_error a e ++ when_error b f ++ when_error c g ≡ [])
    → (a ≡ false) × (b ≡ false) × (c ≡ false)
three_errors a b c e f g h =
    let (x, y, z) = three-nil (when_error a e) (when_error b f) (when_error c g) h in
    (when_error-nil a e x, when_error-nil b f y, when_error-nil c g z)

-- A requirement without an error: the properties it needs, and no pass over an open phase.
pub record WellFormed (r : Requirement) : Type 0 where
  pub named : nonempty_string (property "id" r.wire) ≡ some r.id
  pub described : is_string (property "description" r.wire) ≡ true
  pub passes_boolean : is_boolean (property "passes" r.wire) ≡ true
  pub passes_read : r.passes ≡ is_true (property "passes" r.wire)
  pub dependencies : bad_depends_on (property "dependsOn" r.wire) ≡ false
  pub tdd_read : r.tdd ≡ (parse_tdd (property "tdd" r.wire) r.id).0
  pub tdd_well_formed : (parse_tdd (property "tdd" r.wire) r.id).1 ≡ []
  pub reasons :
      (is_true (property "stuck" r.wire) ≡ true
        → without (nonempty_string (property "blockedReason" r.wire)) ≡ false)
      × (is_true (property "invalidTest" r.wire) ≡ true
          → without (nonempty_string (property "invalidTestReason" r.wire)) ≡ false)
  pub possible : r.passes ≡ true → some_phase_incomplete r.tdd ≡ false

pub not-false : (b : Bool) → not b ≡ false → b ≡ true
not-false true h = refl
not-false false h = cc

and-false : (a b : Bool) → (a && b) ≡ false → a ≡ true → b ≡ false
and-false true b h t = h
and-false false b h t = cc

parse_fields-WellFormed :
    (raw : Fields) (id : String)
    → nonempty_string (property "id" raw) ≡ some id
    → (parse_fields raw id).1 ≡ []
    → WellFormed (parse_fields raw id).0
unfolding parse_fields field_errors state_errors
parse_fields-WellFormed raw id named h =
    let (tdd, in_tdd_errors) = parse_tdd (property "tdd" raw) id in
    let (first, in_tdd, states) =
      three-nil (field_errors id raw) in_tdd_errors (state_errors id raw tdd) h in
    let (description, passes, deps) =
      three_errors (not (is_string (property "description" raw)))
        (not (is_boolean (property "passes" raw))) (bad_depends_on (property "dependsOn" raw))
        (description_required id) (passes_not_boolean id) (depends_on_not_strings id) first in
    let (stuck, invalid_test, impossible) =
      three_errors
        (is_true (property "stuck" raw) && without (nonempty_string (property "blockedReason" raw)))
        (is_true (property "invalidTest" raw)
          && without (nonempty_string (property "invalidTestReason" raw)))
        (is_true (property "passes" raw) && some_phase_incomplete tdd) (stuck_without_reason id)
        (invalid_test_without_reason id) (impossible_state id) states in
    record {
      named = named;
      described = not-false _ description;
      passes_boolean = not-false _ passes;
      passes_read = refl;
      dependencies = deps;
      tdd_read = refl;
      tdd_well_formed = in_tdd;
      possible = and-false _ _ impossible;
      reasons = (and-false _ _ stuck, and-false _ _ invalid_test);
    }

-- What the parser makes of an item: an error alone, or a requirement with the errors about it.
module _ (value : Json) (index : ℕ) where
  abbrev Refused : Type 0
  Refused =
      (error : TaskError) × ◌≡◌ {A = Option Requirement × List TaskError}
        (parse_requirement value index) (none, error ∷ [])

  abbrev Taken : Type 0
  Taken =
      (raw : Fields) × (id : String) × (nonempty_string (property "id" raw) ≡ some id)
      × ◌≡◌ {A = Option Requirement × List TaskError} (parse_requirement value index)
          (some (parse_fields raw id).0, (parse_fields raw id).1)

  parse_requirement-cases : Refused ⊎ Taken
  unfolding parse_requirement
  parse_requirement-cases = elim (Option-cases (is_plain_object value)) [
    | inl e ↦ inl (requirement_not_object index, rw (e, parse_requirement))
    | inr (raw, e) ↦ elim (Option-cases (nonempty_string (property "id" raw))) [
      | inl n ↦ inl (requirement_without_id index, rw (e, n, parse_requirement))
      | inr (id, n) ↦ inr (raw, id, n, rw (e, n, parse_requirement))
    ]
  ]

module _ (raw : Json) (rest : List Json) (index : ℕ) (seen : List String) where
  parse_all-refused :
      (error : TaskError)
      → ◌≡◌ {A = Option Requirement × List TaskError}
          (parse_requirement raw index)
          (none, error ∷ [])
      → (parse_all (raw ∷ rest) index seen).1 ≢ []
  unfolding parse_all collect
  parse_all-refused error e = rw (e, parse_all, collect) (λ h. cc)

  parse_all-taken :
      (r : Requirement) (errors : List TaskError)
      → ◌≡◌ {A = Option Requirement × List TaskError} (parse_requirement raw index) (some r, errors)
      → ◌≡◌ {A = List Requirement × List TaskError} (parse_all (raw ∷ rest) index seen) (
        r ∷ (parse_all rest (suc index) (r.id ∷ seen)).0,
        errors
            ++ when_error (has_id r.id seen) (duplicate_id r.id)
            ++ (parse_all rest (suc index) (r.id ∷ seen)).1,
      )
  unfolding parse_all collect
  parse_all-taken r errors e = rw (e, parse_all, collect)

-- Each id is new among those before it.
abbrev pub Distinct : List String → List String → Type 0
Distinct seen [] = Unit
Distinct seen (x ∷ xs) = (has_id x seen ≡ false) × Distinct (x ∷ seen) xs

abbrev pub ids_in : List Requirement → List String
ids_in rs = map (λ (r : Requirement). r.id) rs

abbrev pub Clean : List String → List Requirement → Type 0
Clean seen rs = All WellFormed rs × Distinct seen (ids_in rs)

pub parse_all-Clean :
    (items : List Json) (index : ℕ) (seen : List String)
    → (parse_all items index seen).1 ≡ []
    → Clean seen (parse_all items index seen).0
unfolding parse_all collect
parse_all-Clean [] index seen h = (tt, tt)
parse_all-Clean (raw ∷ rest) index seen h =
    ⊎_elim {C = Clean seen (parse_all (raw ∷ rest) index seen).0}
      (λ refused.
        let (error, e) = refused in absurd (parse_all-refused raw rest index seen error e h))
      (λ taken.
        let (fields, id, named, e) = taken in
        let r = (parse_fields fields id).0 in
        let step = parse_all-taken raw rest index seen r (parse_fields fields id).1 e in
        let (own, new, others) =
          three-nil (parse_fields fields id).1 (when_error (has_id r.id seen) (duplicate_id r.id))
            (parse_all rest (suc index) (r.id ∷ seen)).1
            (subst (λ (p : List Requirement × List TaskError). p.1 ≡ []) step h) in
        let (formed, distinct) = parse_all-Clean rest (suc index) (r.id ∷ seen) others in
        subst (λ (p : List Requirement × List TaskError). Clean seen p.0) (sym step)
          (
            (parse_fields-WellFormed fields id named own, formed),
            (when_error-nil _ _ new, distinct),
          ))
      (parse_requirement-cases raw index)
