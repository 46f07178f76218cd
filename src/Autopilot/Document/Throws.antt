-- ===== src/Autopilot/Document/Throws.antt =====
-- Where the check of the dependencies throws a TypeError.
use mathlib.Core.Path.{subst}
use mathlib.Core.Logic.{⊎_elim}
use autopilot_console.Prelude.{
  ◌≡◌, ◌≢◌, refl, sym, ◌∙◌, ap, Option, some, none, Bool, String, List, [], ◌∷◌, Member, here,
  there, Option-cases, inl, inr, ◌⊎◌,
}
use autopilot_console.Autopilot.Json.{
  Json, Items, Fields, null, boolean, number, string, array, object, property, items_list, letters,
  iterated,
}
use autopilot_console.Autopilot.Graph.{Dependencies, ids_of}
use autopilot_console.Autopilot.Graph.Texts.{HasNoText, missing_in_throws, throws_missing_in}
use autopilot_console.Autopilot.Requirement.{Requirement}
use autopilot_console.Autopilot.Document.{all_dependencies}
use autopilot_console.Autopilot.Document.Cases.{Fails}

-- A `dependsOn` that cannot be iterated, or that has an item without a text.
pub data IsUncheckable : Option Json → Type 0 where
  a_number : {n : String} → IsUncheckable (some (number n))
  a_boolean : {b : Bool} → IsUncheckable (some (boolean b))
  an_object : {fields : Fields} → IsUncheckable (some (object fields))
  a_list :
      {items : Items} (d : Json)
      → Member d (items_list items)
      → HasNoText d
      → IsUncheckable (some (array items))

-- A requirement with such a property.
abbrev pub Throws : List Requirement → Type 0
Throws rs = (r : Requirement) × Member r rs × IsUncheckable (property "dependsOn" r.wire)

not_iterated : (o : Option Json) → iterated o ≡ none → IsUncheckable o
not_iterated none h = cc
not_iterated (some null) h = cc
not_iterated (some (boolean b)) h = a_boolean
not_iterated (some (number n)) h = a_number
not_iterated (some (string s)) h = cc
not_iterated (some (array a)) h = cc
not_iterated (some (object o)) h = an_object

letter_has_text : (s : String) {d : Json} → Member d (letters s) → HasNoText d → ⊥
letter_has_text String.[] m n = elim m [ ]
letter_has_text (String.◌∷◌ c s) here n = elim n [ ]
letter_has_text (String.◌∷◌ c s) (there m) n = letter_has_text s m n

list_eq : (xs ys : List Json) → ◌≡◌ {A = Option (List Json)} (some xs) (some ys) → xs ≡ ys
list_eq xs ys e = cc

item-IsUncheckable :
    (o : Option Json) (deps : List Json) (d : Json)
    → iterated o ≡ some deps
    → Member d deps
    → HasNoText d
    → IsUncheckable o
item-IsUncheckable none deps d e m n =
    elim (subst (λ xs. Member d xs) (sym (list_eq [] deps e)) m) [ ]
item-IsUncheckable (some null) deps d e m n =
    elim (subst (λ xs. Member d xs) (sym (list_eq [] deps e)) m) [ ]
item-IsUncheckable (some (string s)) deps d e m n =
    absurd (letter_has_text s (subst (λ xs. Member d xs) (sym (list_eq (letters s) deps e)) m) n)
item-IsUncheckable (some (array items)) deps d e m n =
    a_list d (subst (λ xs. Member d xs) (sym (list_eq (items_list items) deps e)) m) n
item-IsUncheckable (some (boolean b)) deps d e m n = a_boolean
item-IsUncheckable (some (number x)) deps d e m n = a_number
item-IsUncheckable (some (object f)) deps d e m n = an_object

-- The reads, one requirement at a time.
read_cons :
    (r : Requirement) (rest : List Requirement)
    → ((all_dependencies (r ∷ rest) ≡ none)
        × ((iterated (property "dependsOn" r.wire) ≡ none) ⊎ (all_dependencies rest ≡ none)))
      ⊎ ((deps : List Json) × (ds : List Dependencies) × (iterated (property "dependsOn" r.wire)
            ≡ some deps)
          × (all_dependencies rest ≡ some ds)
          × (all_dependencies (r ∷ rest) ≡ some (record { id = r.id; depends_on = deps } ∷ ds)))
unfolding all_dependencies
read_cons r rest = elim (Option-cases (iterated (property "dependsOn" r.wire))) [
  | inl e ↦ inl (rw (e, all_dependencies), inl e)
  | inr (deps, e) ↦ elim (Option-cases (all_dependencies rest)) [
    | inl f ↦ inl (rw (e, f, all_dependencies), inr f)
    | inr (ds, f) ↦ inr (deps, ds, e, f, rw (e, f, all_dependencies))
  ]
]

none_some : {ds : List Dependencies} → ◌≢◌ {A = Option (List Dependencies)} none (some ds)
none_some e = cc

unread-Throws : (rs : List Requirement) → all_dependencies rs ≡ none → Throws rs
unfolding all_dependencies
unread-Throws [] h = cc
unread-Throws (r ∷ rest) h =
    ⊎_elim {C = Throws (r ∷ rest)}
      (λ failed.
        ⊎_elim {C = Throws (r ∷ rest)} (λ e. (r, here, not_iterated _ e))
          (λ f. let (s, m, bad) = unread-Throws rest f in (s, there m, bad)) failed.1)
      (λ read. let (deps, ds, e, f, g) = read in absurd (none_some (sym h ∙ g))) (read_cons r rest)

some_eq :
    (xs ys : List Dependencies) → ◌≡◌ {A = Option (List Dependencies)} (some xs) (some ys) → xs ≡ ys
some_eq xs ys e = cc

one_of :
    (r : Requirement) (rest : List Requirement) (deps : List Json) (more : List Dependencies)
    (d : Dependencies)
    → iterated (property "dependsOn" r.wire) ≡ some deps
    → (Member d more
        → (q : Requirement) × Member q rest
          × (iterated (property "dependsOn" q.wire) ≡ some d.depends_on))
    → Member d (record { id = r.id; depends_on = deps } ∷ more)
    → (q : Requirement) × Member q (r ∷ rest)
      × (iterated (property "dependsOn" q.wire) ≡ some d.depends_on)
one_of r rest deps more _ e later here = (r, here, e)
one_of r rest deps more d e later (there m) = let (q, k, f) = later m in (q, there k, f)

found_in :
    (q : Requirement) (rest : List Requirement) (deps : List Json) (more : List Dependencies)
    {r : Requirement}
    → iterated (property "dependsOn" q.wire) ≡ some deps
    → (Member r rest
        → (d : Dependencies) × Member d more
          × (iterated (property "dependsOn" r.wire) ≡ some d.depends_on))
    → Member r (q ∷ rest)
    → (d : Dependencies) × Member d (record { id = q.id; depends_on = deps } ∷ more)
      × (iterated (property "dependsOn" r.wire) ≡ some d.depends_on)
found_in q rest deps more e later here = (record { id = q.id; depends_on = deps }, here, e)
found_in q rest deps more e later (there m) = let (d, k, f) = later m in (d, there k, f)

no_list : {deps : List Json} → ◌≢◌ {A = Option (List Json)} none (some deps)
no_list e = cc

-- What was read of each requirement.
read_of :
    (rs : List Requirement) (ds : List Dependencies) (d : Dependencies)
    → all_dependencies rs ≡ some ds
    → Member d ds
    → (r : Requirement) × Member r rs × (iterated (property "dependsOn" r.wire) ≡ some d.depends_on)
unfolding all_dependencies
read_of [] ds d h m = elim (subst (λ xs. Member d xs) (sym (some_eq [] ds h)) m) [ ]
read_of (r ∷ rest) ds d h m =
    ⊎_elim
      {C = (q : Requirement) × Member q (r ∷ rest)
        × (iterated (property "dependsOn" q.wire) ≡ some d.depends_on)}
      (λ failed. absurd (none_some (sym failed.0 ∙ h)))
      (λ read.
        let (deps, more, e, f, g) = read in
        one_of r rest deps more d e (read_of rest more d f)
          (subst (λ xs. Member d xs) (some_eq _ _ (sym h ∙ g)) m))
      (read_cons r rest)

read_by :
    (rs : List Requirement) (ds : List Dependencies) {r : Requirement}
    → all_dependencies rs ≡ some ds
    → Member r rs
    → (d : Dependencies) × Member d ds
      × (iterated (property "dependsOn" r.wire) ≡ some d.depends_on)
read_by (q ∷ rest) ds {r = r} h m =
    ⊎_elim
      {C = (d : Dependencies) × Member d ds
        × (iterated (property "dependsOn" r.wire) ≡ some d.depends_on)}
      (λ failed. absurd (none_some (sym failed.0 ∙ h)))
      (λ read.
        let (deps, more, e, f, g) = read in
        let (d, n, same) = found_in q rest deps more e (λ k. read_by rest more f k) m in
        (d, subst (λ xs. Member d xs) (some_eq _ _ (sym g ∙ h)) n, same))
      (read_cons q rest)
read_by [] ds h m = elim m [ ]

-- The check fails exactly where a requirement has such a property.
pub Fails-Throws : (rs : List Requirement) → Fails rs → Throws rs
Fails-Throws rs (inl e) = unread-Throws rs e
Fails-Throws rs (inr (ds, read, lost)) =
    let (d, m, x, n, no_text) = missing_in_throws (ids_of ds) ds lost in
    let (r, k, e) = read_of rs ds d read m in
    (r, k, item-IsUncheckable (property "dependsOn" r.wire) d.depends_on x e n no_text)

unread :
    (rs : List Requirement) {r : Requirement}
    → Member r rs
    → iterated (property "dependsOn" r.wire) ≡ none
    → all_dependencies rs ≡ none
unread rs m e = elim (Option-cases (all_dependencies rs)) [
  | inl f ↦ f
  | inr (ds, f) ↦ let (d, n, g) = read_by rs ds f m in absurd (no_list (sym e ∙ g))
]

unchecked :
    (rs : List Requirement) {r : Requirement} (o : Option Json)
    → property "dependsOn" r.wire ≡ o
    → Member r rs
    → IsUncheckable o
    → Fails rs
unchecked rs _ is m a_number = inl (unread rs m (ap iterated is))
unchecked rs _ is m a_boolean = inl (unread rs m (ap iterated is))
unchecked rs _ is m an_object = inl (unread rs m (ap iterated is))
unchecked rs _ is m (a_list {items} x n no_text) = elim (Option-cases (all_dependencies rs)) [
  | inl f ↦ inl f
  | inr (ds, f) ↦
      let (d, k, g) = read_by rs ds f m in
      let same = list_eq (items_list items) d.depends_on (sym (ap iterated is) ∙ g) in
      inr (ds, f, throws_missing_in (ids_of ds) ds k (subst (λ xs. Member x xs) same n) no_text)
]

pub Throws-Fails : (rs : List Requirement) → Throws rs → Fails rs
Throws-Fails rs (r, m, bad) = unchecked rs (property "dependsOn" r.wire) refl m bad
