-- ===== src/Autopilot/Document/Phases.antt =====
-- The phases of a requirement, and the run mode of a document.
use mathlib.Core.Path.{subst}
use autopilot_console.Prelude.{
  ◌≡◌, refl, sym, ◌∙◌, ap, Option, some, none, Bool, true, false, String, List, [], ◌∷◌, arith,
  Member, here, there, Bool-cases, inl, inr, All, all, any, not, all-Member, any-Member,
  any_of_Member,
}
use autopilot_console.Autopilot.Json.{
  Json, Fields, null, boolean, number, string, array, object, property, is_boolean, is_false,
}
use autopilot_console.Autopilot.Requirement.{
  Requirement, phase_errors, parse_tdd, incomplete, some_phase_incomplete, when_error,
  phase_not_boolean,
}
use autopilot_console.Autopilot.Document.{RunMode, fresh, resumable, complete, derive_run_mode}
use autopilot_console.Autopilot.Document.Parsed.{WellFormed, three-nil}
use autopilot_console.Autopilot.Document.Cases.{derive_run_mode_lem}

-- The run mode, by which of the requirements pass.
pub data ModeOf (rs : List Requirement) : RunMode → Type 0 where
  all_pass : ((r : Requirement) → Member r rs → r.passes ≡ true) → ModeOf rs complete
  some_pass :
      (r s : Requirement)
      → Member r rs
      → r.passes ≡ true
      → Member s rs
      → s.passes ≡ false
      → ModeOf rs resumable
  none_pass : ((r : Requirement) → Member r rs → r.passes ≡ false) → ModeOf rs fresh

-- A phase with a flag, which is set where the requirement passes.
pub record Phase (passes : Bool) (o : Option Json) : Type 0 where
  pub fields : Fields
  pub is : o ≡ some (object fields)
  pub flag : Bool
  pub flagged : property "passes" fields ≡ some (boolean flag)
  pub passed : passes ≡ true → flag ≡ true

-- No phases, or all three of them.
pub data Phases (r : Requirement) : Type 0 where
  without_phases : property "tdd" r.wire ≡ none → r.tdd ≡ none → Phases r
  with_phases :
      (tdd : Fields)
      → property "tdd" r.wire ≡ some (object tdd)
      → r.tdd ≡ some tdd
      → Phase r.passes (property "test" tdd)
      → Phase r.passes (property "implement" tdd)
      → Phase r.passes (property "refactor" tdd)
      → Phases r

phase_errors-Phase :
    (id phase : String) (o : Option Json) (passes : Bool)
    → phase_errors id phase o ≡ []
    → (passes ≡ true → incomplete o ≡ false)
    → Phase passes o
unfolding phase_errors incomplete
phase_errors-Phase id phase none passes clean possible = cc
phase_errors-Phase id phase (some (object g)) passes clean possible =
    flag_found (property "passes" g) refl clean possible
  where
    flag_found :
        (f : Option Json)
        → property "passes" g ≡ f
        → when_error (not (is_boolean f)) (phase_not_boolean id phase) ≡ []
        → (passes ≡ true → is_false f ≡ false)
        → Phase passes (some (object g))
    flag_found (some (boolean true)) e clean possible = record {
      fields = g;
      is = refl;
      flag = true;
      flagged = e;
      passed = λ h. refl;
    }
    flag_found (some (boolean false)) e clean possible = record {
      fields = g;
      is = refl;
      flag = false;
      flagged = e;
      passed = λ h. let no = possible h in cc;
    }
    flag_found none e clean possible = cc
    flag_found (some null) e clean possible = cc
    flag_found (some (number n)) e clean possible = cc
    flag_found (some (string s)) e clean possible = cc
    flag_found (some (array a)) e clean possible = cc
    flag_found (some (object o)) e clean possible = cc
phase_errors-Phase id phase (some null) passes clean possible = cc
phase_errors-Phase id phase (some (boolean b)) passes clean possible = cc
phase_errors-Phase id phase (some (number n)) passes clean possible = cc
phase_errors-Phase id phase (some (string s)) passes clean possible = cc
phase_errors-Phase id phase (some (array a)) passes clean possible = cc

some_phase_parts :
    (tdd : Fields)
    → some_phase_incomplete (some tdd) ≡ false
    → (incomplete (property "test" tdd) ≡ false)
      × (incomplete (property "implement" tdd) ≡ false)
      × (incomplete (property "refactor" tdd) ≡ false)
unfolding some_phase_incomplete
some_phase_parts tdd h = (ground arith, ground arith, ground arith)

tdd-Phases :
    (r : Requirement) (o : Option Json)
    → property "tdd" r.wire ≡ o
    → r.tdd ≡ (parse_tdd o r.id).0
    → (parse_tdd o r.id).1 ≡ []
    → (r.passes ≡ true → some_phase_incomplete r.tdd ≡ false)
    → Phases r
unfolding parse_tdd
tdd-Phases r none is read clean possible = without_phases is read
tdd-Phases r (some (object tdd)) is read clean possible =
    let (a, b, c) =
      three-nil (phase_errors r.id "test" (property "test" tdd))
        (phase_errors r.id "implement" (property "implement" tdd))
        (phase_errors r.id "refactor" (property "refactor" tdd)) clean in
    let parts = λ (h : r.passes ≡ true).
      some_phase_parts tdd (ap some_phase_incomplete (sym read) ∙ possible h) in
    with_phases tdd is read
      (phase_errors-Phase r.id "test" (property "test" tdd) r.passes a (λ h. (parts h).0))
      (phase_errors-Phase r.id "implement" (property "implement" tdd) r.passes b (λ h. (parts h).1))
      (phase_errors-Phase r.id "refactor" (property "refactor" tdd) r.passes c (λ h. (parts h).2))
tdd-Phases r (some null) is read clean possible = cc
tdd-Phases r (some (boolean b)) is read clean possible = cc
tdd-Phases r (some (number n)) is read clean possible = cc
tdd-Phases r (some (string s)) is read clean possible = cc
tdd-Phases r (some (array a)) is read clean possible = cc

WellFormed-Phases : (r : Requirement) → WellFormed r → Phases r
WellFormed-Phases r w =
    tdd-Phases r (property "tdd" r.wire) refl w.tdd_read w.tdd_well_formed w.possible

pub parsed-Phases : (rs : List Requirement) → All WellFormed rs → All Phases rs
parsed-Phases [] h = tt
parsed-Phases (r ∷ rs) h = (WellFormed-Phases r h.0, parsed-Phases rs h.1)

fails_at :
    (rs : List Requirement)
    → all (λ (q : Requirement). q.passes) rs ≡ false
    → (q : Requirement) × Member q rs × (q.passes ≡ false)
fails_at [] h = cc
fails_at (r ∷ rs) h = elim (Bool-cases r.passes) [
  | inr e ↦ (r, here, e)
  | inl e ↦ let (q, m, f) = fails_at rs (ground arith) in (q, there m, f)
]

fails_all :
    (rs : List Requirement)
    → any (λ (q : Requirement). q.passes) rs ≡ false
    → (q : Requirement) → Member q rs
    → q.passes ≡ false
fails_all rs h q m = elim (Bool-cases q.passes) [
  | inr e ↦ e
  | inl e ↦ let found = any_of_Member (λ (q : Requirement). q.passes) m e in cc
]

pub derive-ModeOf :
    (r : Requirement) (rest : List Requirement) → ModeOf (r ∷ rest) (derive_run_mode (r ∷ rest))
derive-ModeOf r rest =
    subst (ModeOf (r ∷ rest)) (sym (derive_run_mode_lem r rest))
      (elim (Bool-cases (all (λ (q : Requirement). q.passes) (r ∷ rest))) [
        | inl every ↦
            rw every (all_pass (λ q m. all-Member (λ (q : Requirement). q.passes) m every))
        | inr one_fails ↦
            let (s, n, fails) = fails_at (r ∷ rest) one_fails in
            elim (Bool-cases (any (λ (q : Requirement). q.passes) (r ∷ rest))) [
              | inl one ↦
                  let (q, m, passes) = any-Member (λ (q : Requirement). q.passes) (r ∷ rest) one in
                  rw (one_fails, one) (some_pass q s m passes n fails)
              | inr no_one ↦
                  rw (one_fails, no_one) (none_pass (λ q m. fails_all (r ∷ rest) no_one q m))
            ]
      ])
