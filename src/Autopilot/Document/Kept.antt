-- ===== src/Autopilot/Document/Kept.antt =====
-- Which items of a task file become requirements.
use mathlib.Core.Path.{subst}
use text.Mathlib.Text.{◌==◌ as str_eq}
use text.Mathlib.TextEquality.{eq_iff}
use autopilot_console.Prelude.{
  ℕ, suc, ◌≡◌, ◌≢◌, refl, sym, ◌∙◌, ap, Option, some, none, String, List, [], ◌∷◌, ◌++◌, map, arith,
  Member, here, there, Bool-cases, Option-cases, inl, inr,
}
use autopilot_console.Autopilot.Json.{
  Json, Fields, null, boolean, number, string, array, object, property, nonempty_string,
}
use autopilot_console.Autopilot.Requirement.{
  Requirement, parse_fields, parse_requirement, when_error, duplicate_id,
}
use autopilot_console.Autopilot.Graph.{has_id}
use autopilot_console.Autopilot.Document.{collect, parse_all}
use autopilot_console.Autopilot.Document.Parsed.{three-nil}

-- An object with an id that is a text and not empty.
abbrev pub HasId : Fields → Type 0
HasId fields = (id : String) × (property "id" fields ≡ some (string id)) × (id ≢ "")

nonempty_of :
    (o : Option Json) (id : String)
    → nonempty_string o ≡ some id
    → (o ≡ some (string id)) × (id ≢ "")
nonempty_of (some (string s)) id h = elim (Bool-cases (str_eq s "")) [
  | inl e ↦ absurd (ground arith)
  | inr e ↦
      let same : s ≡ id = ground arith in
      (ap (λ x. some (string x)) same, λ empty. let bad = (eq_iff s "").1 (same ∙ empty) in cc)
]
nonempty_of none id h = cc
nonempty_of (some null) id h = cc
nonempty_of (some (boolean b)) id h = cc
nonempty_of (some (number n)) id h = cc
nonempty_of (some (array a)) id h = cc
nonempty_of (some (object o)) id h = cc

of_nonempty : (id : String) → id ≢ "" → nonempty_string (some (string id)) ≡ some id
of_nonempty id ne = elim (Bool-cases (str_eq id "")) [
  | inl e ↦ absurd (ne ((eq_iff id "").0 e))
  | inr e ↦ rw e
]

module _ (index : ℕ) (seen : List String) where
  parsed_object :
      (value : Json) (r : Requirement)
      → (parse_requirement value index).0 ≡ some r
      → (value ≡ object r.wire) × HasId r.wire
  unfolding parse_requirement parse_fields
  parsed_object (object fields) r h = elim (Option-cases (nonempty_string (property "id" fields))) [
    | inl e ↦ absurd (ground arith)
    | inr (id, e) ↦
        let (named, ne) = nonempty_of (property "id" fields) id e in
        let same : fields ≡ r.wire = ground arith in
        (ap object same, subst HasId same (id, named, ne))
  ]
  parsed_object null r h = cc
  parsed_object (boolean b) r h = cc
  parsed_object (number n) r h = cc
  parsed_object (string s) r h = cc
  parsed_object (array a) r h = cc

  object_parsed :
      (fields : Fields)
      → HasId fields
      → (r : Requirement) × ((parse_requirement (object fields) index).0 ≡ some r)
        × (r.wire ≡ fields)
  unfolding parse_requirement parse_fields
  object_parsed fields (id, named, ne) =
      let found = ap nonempty_string named ∙ of_nonempty id ne in
      ((parse_fields fields id).0, rw (found, parse_requirement), refl)

  all_dropped :
      (raw : Json) (rest : List Json)
      → (parse_requirement raw index).0 ≡ none
      → (parse_all (raw ∷ rest) index seen).0 ≡ (parse_all rest (suc index) seen).0
  unfolding parse_all collect
  all_dropped raw rest e = rw (e, parse_all, collect)

  all_taken :
      (raw : Json) (rest : List Json) (r : Requirement)
      → (parse_requirement raw index).0 ≡ some r
      → (parse_all (raw ∷ rest) index seen).0 ≡ r ∷ (parse_all rest (suc index) (r.id ∷ seen)).0
  unfolding parse_all collect
  all_taken raw rest r e = rw (e, parse_all, collect)

first_or_later :
    (index : ℕ) (seen : List String) (raw : Json) (rest : List Json) (r q : Requirement)
    {more : List Requirement}
    → (parse_requirement raw index).0 ≡ some q
    → (Member r more → Member (object r.wire) rest × HasId r.wire)
    → Member r (q ∷ more)
    → Member (object r.wire) (raw ∷ rest) × HasId r.wire
first_or_later index seen raw rest r q e later here =
    let (is, id) = parsed_object index seen raw r e in
    (subst (λ x. Member (object r.wire) (x ∷ rest)) (sym is) here, id)
first_or_later index seen raw rest r q e later (there m) = let (k, id) = later m in (there k, id)

-- A requirement is one of the items, which has an id; and each such item is a requirement.
pub kept_item :
    (items : List Json) (index : ℕ) (seen : List String) (r : Requirement)
    → Member r (parse_all items index seen).0
    → Member (object r.wire) items × HasId r.wire
unfolding parse_all
kept_item [] index seen r m = elim m [ ]
kept_item (raw ∷ rest) index seen r m = elim (Option-cases (parse_requirement raw index).0) [
  | inl e ↦
      let n =
        subst (λ (xs : List Requirement). Member r xs) (all_dropped index seen raw rest e) m in
      let (k, id) = kept_item rest (suc index) seen r n in (there k, id)
  | inr (q, e) ↦
      let n =
        subst (λ (xs : List Requirement). Member r xs) (all_taken index seen raw rest q e) m in
      first_or_later index seen raw rest r q e (kept_item rest (suc index) (q.id ∷ seen) r) n
]

pub item_kept :
    (items : List Json) (index : ℕ) (seen : List String) (fields : Fields)
    → Member (object fields) items
    → HasId fields
    → (r : Requirement) × Member r (parse_all items index seen).0 × (r.wire ≡ fields)
item_kept [] index seen fields m id = elim m [ ]
item_kept (_ ∷ rest) index seen fields here id =
    let (r, e, same) = object_parsed index seen fields id in
    (
      r,
      subst (λ (xs : List Requirement). Member r xs)
          (sym (all_taken index seen (object fields) rest r e)) here,
      same,
    )
item_kept (raw ∷ rest) index seen fields (there m) id =
    elim (Option-cases (parse_requirement raw index).0) [
      | inl e ↦
          let (r, n, same) = item_kept rest (suc index) seen fields m id in
          (
            r,
            subst (λ (xs : List Requirement). Member r xs) (sym (all_dropped index seen raw rest e))
                n,
            same,
          )
      | inr (q, e) ↦
          let (r, n, same) = item_kept rest (suc index) (q.id ∷ seen) fields m id in
          (
            r,
            subst (λ (xs : List Requirement). Member r xs) (sym (all_taken index seen raw rest q e))
                (there n),
            same,
          )
    ]

-- What is dropped is noted, and so is what later rounds note.
none_dropped :
    (raw : Json) (rest : List Json) (index : ℕ) (seen : List String)
    → (parse_requirement raw index).0 ≡ none
    → (parse_all (raw ∷ rest) index seen).1 ≢ []
unfolding parse_all collect parse_requirement
none_dropped (object fields) rest index seen e h =
    elim (Option-cases (nonempty_string (property "id" fields))) [
      | inl f ↦ ground arith
      | inr (id, f) ↦ ground arith
    ]
none_dropped null rest index seen e h = cc
none_dropped (boolean b) rest index seen e h = cc
none_dropped (number n) rest index seen e h = cc
none_dropped (string s) rest index seen e h = cc
none_dropped (array a) rest index seen e h = cc

errors_taken :
    (raw : Json) (rest : List Json) (index : ℕ) (seen : List String) (r : Requirement)
    → (parse_requirement raw index).0 ≡ some r
    → (parse_all (raw ∷ rest) index seen).1
      ≡ (parse_requirement raw index).1
        ++ when_error (has_id r.id seen) (duplicate_id r.id)
        ++ (parse_all rest (suc index) (r.id ∷ seen)).1
unfolding parse_all collect
errors_taken raw rest index seen r e = rw (e, parse_all, collect)

rest_clean :
    (raw : Json) (rest : List Json) (index : ℕ) (seen : List String) (r : Requirement)
    → (parse_requirement raw index).0 ≡ some r
    → (parse_all (raw ∷ rest) index seen).1 ≡ []
    → (parse_all rest (suc index) (r.id ∷ seen)).1 ≡ []
rest_clean raw rest index seen r e h =
    let (own, new, later) =
      three-nil (parse_requirement raw index).1 (when_error (has_id r.id seen) (duplicate_id r.id))
        (parse_all rest (suc index) (r.id ∷ seen)).1
        (sym (errors_taken raw rest index seen r e) ∙ h) in
    later

cons_eq : {x y : Json} {xs ys : List Json} → x ≡ y → xs ≡ ys → x ∷ xs ≡ y ∷ ys
cons_eq e f = cc (e, f)

-- Where nothing is noted, every item is a requirement.
pub every_item_kept :
    (items : List Json) (index : ℕ) (seen : List String)
    → (parse_all items index seen).1 ≡ []
    → items ≡ map (λ (r : Requirement). object r.wire) (parse_all items index seen).0
unfolding parse_all
every_item_kept [] index seen clean = refl
every_item_kept (raw ∷ rest) index seen clean =
    elim (Option-cases (parse_requirement raw index).0) [
      | inl e ↦ absurd (none_dropped raw rest index seen e clean)
      | inr (r, e) ↦
          let (is, id) = parsed_object index seen raw r e in
          let later =
            every_item_kept rest (suc index) (r.id ∷ seen)
              (rest_clean raw rest index seen r e clean) in
          cons_eq is later
          ∙ ap (map (λ (r : Requirement). object r.wire)) (sym (all_taken index seen raw rest r e))
    ]
