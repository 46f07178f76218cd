-- ===== src/Autopilot/Graph/Texts.antt =====
-- Where the text of a message about a missing dependency throws.
use autopilot_console.Prelude.{
  ◌≡◌, refl, some, none, Bool, true, false, ◌||◌, String, List, [], ◌∷◌, arith, Member, here, there,
  Bool-cases, Option-cases, inl, inr, ◌⊎◌,
}
use autopilot_console.Autopilot.Json.{
  Json, Items, Fields, null, boolean, number, string, array, object, nil, cons, property,
  items_list, text_throws, some_text_throws,
}
use autopilot_console.Autopilot.Graph.{has_dep, Dependencies, missing_of, missing_in}

-- An object with a property `toString`, in lists to any depth.
pub data HasNoText : Json → Type 0 where
  own_to_string :
      {fields : Fields} (v : Json) → property "toString" fields ≡ some v → HasNoText (object fields)
  item :
      {items : Items} (d : Json)
      → Member d (items_list items)
      → HasNoText d
      → HasNoText (array items)

or_cases : (a b : Bool) → (a || b) ≡ true → (a ≡ true) ⊎ (b ≡ true)
or_cases a b h = ground arith

mutual
  unfolding text_throws some_text_throws

  text_throws-HasNoText : (d : Json) → text_throws d ≡ true → HasNoText d
  text_throws-HasNoText (object fields) h = elim (Option-cases (property "toString" fields)) [
    | inl e ↦ absurd (ground arith)
    | inr (v, e) ↦ own_to_string v e
  ]
  text_throws-HasNoText (array items) h =
      let (d, m, no_text) = some_throws items h in item d m no_text
  text_throws-HasNoText null h = cc
  text_throws-HasNoText (boolean b) h = cc
  text_throws-HasNoText (number n) h = cc
  text_throws-HasNoText (string s) h = cc

  some_throws :
      (items : Items)
      → some_text_throws items ≡ true
      → (d : Json) × Member d (items_list items) × HasNoText d
  some_throws nil h = cc
  some_throws (cons x xs) h = elim (Bool-cases (text_throws x)) [
    | inl e ↦ (x, here, text_throws-HasNoText x e)
    | inr e ↦ let (d, m, no_text) = some_throws xs (ground arith) in (d, there m, no_text)
  ]

some_of_Member :
    {d : Json} (items : Items)
    → Member d (items_list items)
    → text_throws d ≡ true
    → some_text_throws items ≡ true
unfolding some_text_throws
some_of_Member nil m e = elim m [ ]
some_of_Member (cons x xs) here e = rw (e, some_text_throws)
some_of_Member (cons x xs) (there m) e = let rest = some_of_Member xs m e in ground arith

pub HasNoText-text_throws : {d : Json} → HasNoText d → text_throws d ≡ true
unfolding text_throws
HasNoText-text_throws (own_to_string v e) = rw (e, text_throws)
HasNoText-text_throws (item {items} d m no_text) =
    some_of_Member items m (HasNoText-text_throws no_text)

-- What has no text is no id.
no_dep : {d : Json} (ids : List String) → HasNoText d → has_dep d ids ≡ false
no_dep ids (own_to_string v e) = refl
no_dep ids (item d m no_text) = refl

pub missing_of_throws :
    (ids : List String) (id : String) (deps : List Json)
    → missing_of ids id deps ≡ none
    → (d : Json) × Member d deps × HasNoText d
unfolding missing_of
missing_of_throws ids id [] h = cc
missing_of_throws ids id (x ∷ deps) h = elim (Bool-cases (has_dep x ids)) [
  | inl found ↦ let (d, m, n) = missing_of_throws ids id deps (ground arith) in (d, there m, n)
  | inr absent ↦ elim (Bool-cases (text_throws x)) [
    | inl t ↦ (x, here, text_throws-HasNoText x t)
    | inr fine ↦ elim (Option-cases (missing_of ids id deps)) [
      | inl e ↦ let (d, m, n) = missing_of_throws ids id deps e in (d, there m, n)
      | inr (more, e) ↦ absurd (ground arith)
    ]
  ]
]

throws_missing_of :
    (ids : List String) (id : String) {d : Json} (deps : List Json)
    → Member d deps
    → HasNoText d
    → missing_of ids id deps ≡ none
unfolding missing_of
throws_missing_of ids id (x ∷ deps) here n =
    let absent = no_dep ids n in let t = HasNoText-text_throws n in rw (absent, t, missing_of)
throws_missing_of ids id (x ∷ deps) (there m) n =
    let rest = throws_missing_of ids id deps m n in rw (rest, missing_of) (ground arith)
throws_missing_of ids id [] m n = elim m [ ]

pub missing_in_throws :
    (ids : List String) (rs : List Dependencies)
    → missing_in ids rs ≡ none
    → (r : Dependencies) × Member r rs × (d : Json) × Member d r.depends_on × HasNoText d
unfolding missing_in
missing_in_throws ids [] h = cc
missing_in_throws ids (r ∷ rest) h = elim (Option-cases (missing_of ids r.id r.depends_on)) [
  | inl e ↦ let (d, m, n) = missing_of_throws ids r.id r.depends_on e in (r, here, d, m, n)
  | inr (errors, e) ↦ elim (Option-cases (missing_in ids rest)) [
    | inl f ↦ let (s, k, d, m, n) = missing_in_throws ids rest f in (s, there k, d, m, n)
    | inr (more, f) ↦ absurd (ground arith)
  ]
]

pub throws_missing_in :
    (ids : List String) {r : Dependencies} {d : Json} (rs : List Dependencies)
    → Member r rs
    → Member d r.depends_on
    → HasNoText d
    → missing_in ids rs ≡ none
unfolding missing_in
throws_missing_in ids (r ∷ rest) here m n =
    let first = throws_missing_of ids r.id r.depends_on m n in rw (first, missing_in)
throws_missing_in ids (r ∷ rest) (there k) m n =
    let later = throws_missing_in ids rest k m n in
    elim (Option-cases (missing_of ids r.id r.depends_on)) [
      | inl e ↦ rw (e, missing_in)
      | inr (errors, e) ↦ rw (e, later, missing_in)
    ]
throws_missing_in ids [] k m n = elim k [ ]
