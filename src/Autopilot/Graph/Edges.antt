-- ===== src/Autopilot/Graph/Edges.antt =====
-- The edges that the search follows are the dependencies between the requirements.
use mathlib.Core.Path.{subst}
use mathlib.Core.Logic.{⊎_elim}
use text.Mathlib.Text.{◌==◌ as str_eq}
use text.Mathlib.TextEquality.{eq_iff}
use autopilot_console.Prelude.{
  ◌≡◌, ◌≢◌, refl, sym, ◌∙◌, some, none, String, List, [], ◌∷◌, if◌then◌else◌, Member, here, there,
  Bool-cases, inl, inr, ◌⊎◌,
}
use autopilot_console.Autopilot.Json.{Json, string, null, boolean, number, array, object}
use autopilot_console.Autopilot.Graph.{
  Dependencies, resolve, resolved, has_id, ids_of, adjacent?, or_empty, adjacent,
}
use autopilot_console.Autopilot.Graph.Ids.{string_eq, has_id_iff, ids_of-Member, Present}
use autopilot_console.Autopilot.Graph.Cycles.{Leads, edge, onward}

first_or_later :
    (y : String) (ys : List String) (P : String → Type 0) {x : String}
    → P y
    → ((z : String) → Member z ys → P z)
    → Member x (y ∷ ys)
    → P x
first_or_later y ys P p q here = p
first_or_later y ys P p q (there m) = q _ m

-- The string items that are ids.
module _ (ids : List String) where
  resolve-cases :
      (d : Json) (rest : List String) (P : String → Type 0) {x : String}
      → ((y : String) → d ≡ string y → Member y ids → P y)
      → ((y : String) → Member y rest → P y)
      → Member x (resolve ids d rest)
      → P x
  resolve-cases null rest P p q m = q _ m
  resolve-cases (boolean b) rest P p q m = q _ m
  resolve-cases (number n) rest P p q m = q _ m
  resolve-cases (array a) rest P p q m = q _ m
  resolve-cases (object o) rest P p q m = q _ m
  resolve-cases (string s) rest P {x} p q m = elim (Bool-cases (has_id s ids)) [
    | inl found ↦
        first_or_later s rest P (p s refl ((has_id_iff s ids).0 found)) q
          (subst (λ b. Member x (if b then s ∷ rest else rest)) found m)
    | inr absent ↦ q x (subst (λ b. Member x (if b then s ∷ rest else rest)) absent m)
  ]

  Member-resolved :
      (deps : List Json) {x : String}
      → Member x (resolved ids deps)
      → Member (string x) deps × Member x ids
  unfolding resolved
  Member-resolved [] m = elim m [ ]
  Member-resolved (d ∷ deps) m =
      resolve-cases d (resolved ids deps) (λ y. Member (string y) (d ∷ deps) × Member y ids)
        (λ y e n. (subst (λ z. Member (string y) (z ∷ deps)) (sym e) here, n))
        (λ y n. let (k, i) = Member-resolved deps n in (there k, i)) m

  Member-resolve :
      (d : Json) {x : String} {rest : List String} → Member x rest → Member x (resolve ids d rest)
  Member-resolve null m = m
  Member-resolve (boolean b) m = m
  Member-resolve (number n) m = m
  Member-resolve (array a) m = m
  Member-resolve (object o) m = m
  Member-resolve (string s) m = elim (Bool-cases (has_id s ids)) [
    | inl found ↦ rw found (there m)
    | inr absent ↦ rw absent m
  ]

  Member_of-resolved :
      {x : String} {deps : List Json}
      → Member (string x) deps
      → Member x ids
      → Member x (resolved ids deps)
  unfolding resolved
  Member_of-resolved here i = rw ((has_id_iff _ ids).1 i) here
  Member_of-resolved (there {x = d} m) i = Member-resolve d (Member_of-resolved m i)

-- What the search reads for an id: a requirement of that id, the last of them.
module _ (ids : List String) where
  abbrev Read : List Dependencies → String → Dependencies → Type 0
  Read requirements node r =
      Member r requirements
      × (r.id ≡ node)
      × (adjacent? ids requirements node ≡ some (resolved ids r.depends_on))

  abbrev Last : List Dependencies → String → Type 0
  Last requirements node =
      ((r : Dependencies) × Read requirements node r)
      ⊎ ((adjacent? ids requirements node ≡ none)
          × ((r : Dependencies) → Member r requirements → r.id ≢ node))

  not_first :
      (node : String) (r : Dependencies) (rest : List Dependencies)
      → r.id ≢ node
      → ((s : Dependencies) → Member s rest → s.id ≢ node)
      → (s : Dependencies) → Member s (r ∷ rest)
      → s.id ≢ node
  not_first node r rest ne all s here = ne
  not_first node r rest ne all s (there m) = all s m

  adjacent?-Last : (requirements : List Dependencies) (node : String) → Last requirements node
  unfolding adjacent?
  adjacent?-Last [] node = inr (refl, (λ r m. elim m [ ]))
  adjacent?-Last (r ∷ rest) node =
      ⊎_elim {C = Last (r ∷ rest) node}
        (λ later. let (s, (m, same, e)) = later in inl (s, (there m, same, rw e)))
        (λ never. elim (Bool-cases (str_eq r.id node)) [
          | inl same ↦ inl (r, (here, (eq_iff r.id node).0 same, rw (never.0, same)))
          | inr other ↦ inr (
            rw (never.0, other),
            not_first node r rest (λ e. let h = (eq_iff r.id node).1 e in cc) never.1,
          )
        ])
        (adjacent?-Last rest node)

-- No two requirements share an id.
abbrev pub UniqueIds : List Dependencies → Type 0
UniqueIds requirements =
    (r s : Dependencies) → Member r requirements → Member s requirements → r.id ≡ s.id → r ≡ s

-- `a` names `b` in its dependencies.
abbrev pub Depends : List Dependencies → String → String → Type 0
Depends requirements a b =
    (r : Dependencies) × Member r requirements × (r.id ≡ a) × Member (string b) r.depends_on

pub data Chain (requirements : List Dependencies) : String → String → Type 0 where
  direct : {a b : String} → Depends requirements a b → Chain requirements a b
  further :
      {a b c : String} → Chain requirements a b → Depends requirements b c → Chain requirements a c

module _ (requirements : List Dependencies) where
  module _ (a b : String) where
    pub adjacent-Depends :
        Member b (adjacent (ids_of requirements) requirements a)
        → Depends requirements a b × Member b (ids_of requirements)
    unfolding adjacent
    adjacent-Depends m =
        ⊎_elim {C = Depends requirements a b × Member b (ids_of requirements)}
          (λ found.
            let (r, (n, same, e)) = found in
            let listed : Member b (resolved (ids_of requirements) r.depends_on) =
              subst (λ o. Member b (or_empty o)) e m in
            let (d, h) = Member-resolved (ids_of requirements) r.depends_on listed in
            ((r, n, same, d), h))
          (λ never.
            let nothing : Member b [] = subst (λ o. Member b (or_empty o)) never.0 m in
            elim nothing [ ])
          (adjacent?-Last (ids_of requirements) requirements a)

    pub Depends-adjacent :
        UniqueIds requirements
        → Member b (ids_of requirements)
        → Depends requirements a b
        → Member b (adjacent (ids_of requirements) requirements a)
    unfolding adjacent
    Depends-adjacent unique inside (s, m, same, d) =
        ⊎_elim {C = Member b (or_empty (adjacent? (ids_of requirements) requirements a))}
          (λ found.
            let (r, (n, same', e)) = found in
            let one : s ≡ r = unique s r m n (same ∙ sym same') in
            rw e (
              Member_of-resolved (ids_of requirements)
                (subst (λ (z : Dependencies). Member (string b) z.depends_on) one d) inside))
          (λ never. absurd (never.1 s m same)) (adjacent?-Last (ids_of requirements) requirements a)

  -- The edges the search follows are the dependencies, where each of them is a requirement.
  pub Leads-Chain :
      {a b : String}
      → Leads (adjacent (ids_of requirements) requirements) a b
      → Chain requirements a b
  Leads-Chain (edge {a} {b} m) = direct (adjacent-Depends a b m).0
  Leads-Chain (onward {b} {c} p m) = further (Leads-Chain p) (adjacent-Depends b c m).0

  present_at :
      (a b : String)
      → Present (ids_of requirements) requirements
      → Depends requirements a b
      → Member b (ids_of requirements)
  present_at a b present (r, m, same, d) =
      let (x, e, i) = present r m (string b) d in
      subst (λ z. Member z (ids_of requirements)) (sym (string_eq b x e)) i

  pub Chain-Leads :
      {a b : String}
      → UniqueIds requirements
      → Present (ids_of requirements) requirements
      → Chain requirements a b
      → Leads (adjacent (ids_of requirements) requirements) a b
  Chain-Leads unique present (direct {a} {b} d) =
      edge (Depends-adjacent a b unique (present_at a b present d) d)
  Chain-Leads unique present (further {b} {c} p d) =
      onward (Chain-Leads unique present p)
        (Depends-adjacent b c unique (present_at b c present d) d)

  pub Chain-start : {a b : String} → Chain requirements a b → Member a (ids_of requirements)
  Chain-start (direct (r, m, same, d)) =
      subst (λ z. Member z (ids_of requirements)) same (ids_of-Member m)
  Chain-start (further p d) = Chain-start p
