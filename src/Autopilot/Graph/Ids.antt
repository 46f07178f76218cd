-- ===== src/Autopilot/Graph/Ids.antt =====
-- The ids of the requirements, and the edges between them.
use mathlib.Core.Path.{subst}
use mathlib.Core.Logic.{⊎_elim}
use text.Mathlib.Text.{◌==◌ as str_eq}
use text.Mathlib.TextEquality.{eq_iff}
use autopilot_console.Prelude.{
  ◌≡◌, ◌≢◌, refl, sym, ap, ◌∙◌, ◌↔◌, some, Option-cases, arith, false, true, String, List, [], ◌∷◌,
  ◌++◌, map, if◌then◌else◌, Member, here, there, Bool-cases, inl, inr, ◌⊎◌, any-Member,
  any_of_Member,
}
use autopilot_console.Autopilot.Json.{
  Json, string, null, boolean, number, array, object, text_throws,
}
use autopilot_console.Autopilot.Graph.{
  has_dep, Dependencies, has_id, add_id, ids_of, missing_of, missing_in,
}

pub has_id_iff : (x : String) (ids : List String) → (has_id x ids ≡ true) ↔ Member x ids
has_id_iff x ids = (
  (λ h.
      let (a, m, e) = any-Member (str_eq x) ids h in
      subst (λ z. Member z ids) (sym ((eq_iff x a).0 e)) m),
  (λ m. any_of_Member (str_eq x) m ((eq_iff x x).1 refl)),
)

Member-append_left :
    {A : Type 0} {x : A} {xs : List A} (ys : List A) → Member x xs → Member x (xs ++ ys)
Member-append_left ys here = here
Member-append_left ys (there m) = there (Member-append_left ys m)

Member-append_right :
    {A : Type 0} {x : A} (xs : List A) {ys : List A} → Member x ys → Member x (xs ++ ys)
Member-append_right [] m = m
Member-append_right (y ∷ xs) m = there (Member-append_right xs m)

Member-append_cases :
    {A : Type 0} {x : A} (xs ys : List A) → Member x (xs ++ ys) → Member x xs ⊎ Member x ys
Member-append_cases [] ys m = inr m
Member-append_cases (y ∷ xs) ys here = inl here
Member-append_cases (y ∷ xs) ys (there m) =
    ⊎_elim {C = Member _ (y ∷ xs) ⊎ Member _ ys} (λ l. inl (there l)) inr
      (Member-append_cases xs ys m)

-- `add_id` keeps what was seen, adds what is new, and nothing else.
seen-add_id : {x : String} (seen rest : List String) → Member x seen → Member x (add_id seen rest)
unfolding add_id
seen-add_id seen [] m = m
seen-add_id seen (id ∷ rest) m = elim (Bool-cases (has_id id seen)) [
  | inl old ↦ rw old (seen-add_id seen rest m)
  | inr new ↦ rw new (seen-add_id (seen ++ id ∷ []) rest (Member-append_left (id ∷ []) m))
]

Member-add_id : {x : String} (seen rest : List String) → Member x rest → Member x (add_id seen rest)
unfolding add_id
Member-add_id seen (id ∷ rest) here = elim (Bool-cases (has_id id seen)) [
  | inl old ↦ rw old (seen-add_id seen rest ((has_id_iff id seen).0 old))
  | inr new ↦ rw new (seen-add_id (seen ++ id ∷ []) rest (Member-append_right seen here))
]
Member-add_id seen (id ∷ rest) (there m) =
    Member-add_id (if has_id id seen then seen else seen ++ id ∷ []) rest m
Member-add_id seen [] m = elim m [ ]

first_of : {x id : String} {rest : List String} → Member x (id ∷ []) → Member x (id ∷ rest)
first_of here = here
first_of (there m) = elim m [ ]

add_id-cases :
    {x : String} (seen rest : List String)
    → Member x (add_id seen rest)
    → Member x seen ⊎ Member x rest
unfolding add_id
add_id-cases seen [] m = inl m
add_id-cases {x} seen (id ∷ rest) m = elim (Bool-cases (has_id id seen)) [
  | inl old ↦
      let inner : Member x (add_id seen rest) =
        subst (λ b. Member x (add_id (if b then seen else seen ++ id ∷ []) rest)) old m in
      ⊎_elim {C = Member x seen ⊎ Member x (id ∷ rest)} inl (λ r. inr (there r))
        (add_id-cases seen rest inner)
  | inr new ↦
      let inner : Member x (add_id (seen ++ id ∷ []) rest) =
        subst (λ b. Member x (add_id (if b then seen else seen ++ id ∷ []) rest)) new m in
      ⊎_elim {C = Member x seen ⊎ Member x (id ∷ rest)}
        (λ l.
          ⊎_elim {C = Member x seen ⊎ Member x (id ∷ rest)} inl (λ one. inr (first_of one))
            (Member-append_cases seen (id ∷ []) l))
        (λ r. inr (there r)) (add_id-cases (seen ++ id ∷ []) rest inner)
]

pub string_eq : (x y : String) → string x ≡ string y → x ≡ y
string_eq x y e = cc

-- A requirement has the id.
abbrev pub Named : List Dependencies → String → Type 0
Named requirements x = (r : Dependencies) × Member r requirements × (r.id ≡ x)

id-Named :
    (requirements : List Dependencies) {x : String}
    → Member x (map (λ (r : Dependencies). r.id) requirements)
    → Named requirements x
id-Named (r ∷ rest) here = (r, here, refl)
id-Named (r ∷ rest) (there m) = let (s, n, e) = id-Named rest m in (s, there n, e)
id-Named [] m = elim m [ ]

id-Member :
    {r : Dependencies} {requirements : List Dependencies}
    → Member r requirements
    → Member r.id (map (λ (r : Dependencies). r.id) requirements)
id-Member here = here
id-Member (there m) = there (id-Member m)

pub ids_of-Member :
    {requirements : List Dependencies} {r : Dependencies}
    → Member r requirements
    → Member r.id (ids_of requirements)
unfolding ids_of
ids_of-Member {requirements} m =
    Member-add_id [] (map (λ (r : Dependencies). r.id) requirements) (id-Member m)

pub ids_of-Named :
    (requirements : List Dependencies) (x : String)
    → Member x (ids_of requirements)
    → Named requirements x
unfolding ids_of
ids_of-Named requirements x m = id-Named requirements (
    ⊎_elim {C = Member x (map (λ (r : Dependencies). r.id) requirements)} (λ l. elim l [ ]) (λ r. r)
      (add_id-cases [] (map (λ (r : Dependencies). r.id) requirements) m))

-- The first loop reports nothing exactly where each dependency is an id.
module _ (ids : List String) where
  abbrev pub IsId : Json → Type 0
  IsId d = (x : String) × (d ≡ string x) × Member x ids

  has_dep_iff : (d : Json) → (has_dep d ids ≡ true) ↔ IsId d
  has_dep_iff null = ((λ e. cc), (λ h. let (x, e, m) = h in cc))
  has_dep_iff (boolean b) = ((λ e. cc), (λ h. let (x, e, m) = h in cc))
  has_dep_iff (number n) = ((λ e. cc), (λ h. let (x, e, m) = h in cc))
  has_dep_iff (array a) = ((λ e. cc), (λ h. let (x, e, m) = h in cc))
  has_dep_iff (object o) = ((λ e. cc), (λ h. let (x, e, m) = h in cc))
  has_dep_iff (string y) = (
    (λ e. (y, refl, (has_id_iff y ids).0 e)),
    (λ h.
        let (x, e, m) = h in
        (has_id_iff y ids).1 (subst (λ z. Member z ids) (sym (string_eq y x e)) m)),
  )

  abbrev pub AllIn : List Json → Type 0
  AllIn deps = (d : Json) → Member d deps → IsId d

  AllIn-cons : (d : Json) (deps : List Json) → IsId d → AllIn deps → AllIn (d ∷ deps)
  AllIn-cons d deps h all x here = h
  AllIn-cons d deps h all x (there m) = all x m

  missing_of_step :
      (id : String) (d : Json) (deps : List Json)
      → has_dep d ids ≡ false
      → missing_of ids id (d ∷ deps) ≢ some []
  unfolding missing_of
  missing_of_step id d deps absent h = elim (Bool-cases (text_throws d)) [
    | inl throwing ↦ ground arith
    | inr fine ↦ elim (Option-cases (missing_of ids id deps)) [
      | inl e ↦ ground arith
      | inr (more, e) ↦ ground arith
    ]
  ]

  missing_of_iff :
      (id : String) (deps : List Json) → (missing_of ids id deps ≡ some []) ↔ AllIn deps
  unfolding missing_of
  missing_of_iff id [] = ((λ e x m. elim m [ ]), (λ all. refl))
  missing_of_iff id (d ∷ deps) = elim (Bool-cases (has_dep d ids)) [
    | inl found ↦
        let (go, back) = missing_of_iff id deps in
        rw found (
          (λ e. AllIn-cons d deps ((has_dep_iff d).0 found) (go e)),
          (λ all. back (λ x m. all x (there m))),
        )
    | inr absent ↦ (
      (λ e. absurd (missing_of_step id d deps absent e)),
      (λ all. let h = (has_dep_iff d).1 (all d here) in cc),
    )
  ]

append-nil : {A : Type 0} (xs ys : List A) → (xs ++ ys ≡ []) → (xs ≡ []) × (ys ≡ [])
append-nil [] ys e = (refl, e)
append-nil (x ∷ xs) ys e = cc

-- Every dependency is the id of a requirement.
abbrev pub Present : List String → List Dependencies → Type 0
Present ids requirements = (r : Dependencies) → Member r requirements → AllIn ids r.depends_on

Present-cons :
    (ids : List String) (r : Dependencies) (rest : List Dependencies)
    → AllIn ids r.depends_on
    → Present ids rest
    → Present ids (r ∷ rest)
Present-cons ids r rest h all s here = h
Present-cons ids r rest h all s (there m) = all s m

-- A list of errors is empty exactly where its parts are.
missing_in-parts :
    (ids : List String) (r : Dependencies) (rest : List Dependencies)
    → missing_in ids (r ∷ rest) ≡ some []
    → (missing_of ids r.id r.depends_on ≡ some []) × (missing_in ids rest ≡ some [])
unfolding missing_in
missing_in-parts ids r rest h = elim (Option-cases (missing_of ids r.id r.depends_on)) [
  | inl e ↦ absurd (ground arith)
  | inr (errors, e) ↦ elim (Option-cases (missing_in ids rest)) [
    | inl f ↦ absurd (ground arith)
    | inr (more, f) ↦
        let joined : errors ++ more ≡ [] = ground arith in
        let (a, b) = append-nil errors more joined in (e ∙ ap some a, f ∙ ap some b)
  ]
]

parts-missing_in :
    (ids : List String) (r : Dependencies) (rest : List Dependencies)
    → missing_of ids r.id r.depends_on ≡ some []
    → missing_in ids rest ≡ some []
    → missing_in ids (r ∷ rest) ≡ some []
unfolding missing_in
parts-missing_in ids r rest e f = rw (e, f, missing_in)

pub missing_in_iff :
    (ids : List String) (requirements : List Dependencies)
    → (missing_in ids requirements ≡ some []) ↔ Present ids requirements
unfolding missing_in
missing_in_iff ids [] = ((λ e r m. elim m [ ]), (λ all. refl))
missing_in_iff ids (r ∷ rest) =
    let (go, back) = missing_in_iff ids rest in
    let (first, first_back) = missing_of_iff ids r.id r.depends_on in
    (
      (λ e. let (a, b) = missing_in-parts ids r rest e in Present-cons ids r rest (first a) (go b)),
      (λ all.
          parts-missing_in ids r rest (first_back (all r here)) (back (λ s m. all s (there m)))),
    )
