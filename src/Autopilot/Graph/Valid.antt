-- ===== src/Autopilot/Graph/Valid.antt =====
-- What the dependency check of a task file finds: each dependency that is no requirement, and cycles.
use mathlib.Core.Path.{subst}
use mathlib.Core.Logic.{⊎_elim}
use autopilot_console.Prelude.{
  ◌≤◌, ◌≡◌, ◌≢◌, none, Option-cases, inl, inr, sym, ◌∙◌, ap, ◌↔◌, Option, some, String, List, [],
  ◌∷◌, arith, Member, ◌⊎◌, length,
}
use autopilot_console.Autopilot.Json.{Json, string}
use autopilot_console.Autopilot.Graph.{
  Dependencies, GraphError, GraphCheck, found_errors, check_throws, ids_of, missing_in, adjacent,
  Dfs, search_all, unvisited, validate_dependency_graph,
}
use autopilot_console.Autopilot.Graph.Ids.{
  ids_of-Member, Named, ids_of-Named, Present, missing_in_iff,
}
use autopilot_console.Autopilot.Graph.Termination.{search_all-Returns, whites, HasErrors}
use autopilot_console.Autopilot.Graph.Cycles.{Cyclic, IsSafe, Finished, AllBlack}
use autopilot_console.Autopilot.Graph.Roots.{search_all-Searched}
use autopilot_console.Autopilot.Graph.Edges.{
  UniqueIds, Chain, adjacent-Depends, Leads-Chain, Chain-Leads, Chain-start,
}

fits : (ids : List String) (s : Dfs) → whites ids s ≤ length ids
fits [] s = ground arith
fits (x ∷ rest) s = let inner = fits rest s in ground arith

module _ (requirements : List Dependencies) (missing : List GraphError)
    (noted : missing_in (ids_of requirements) requirements ≡ some missing) where
  abbrev first_state : Dfs
  first_state = unvisited missing

  abbrev Ends : Dfs → Type 0
  Ends s =
      search_all (adjacent (ids_of requirements) requirements) (length (ids_of requirements))
        (ids_of requirements) first_state
      ≡ some s

  inside :
      (a x : String)
      → Member x (adjacent (ids_of requirements) requirements a)
      → Member x (ids_of requirements)
  inside a x m = (adjacent-Depends requirements a x m).1

  ends : (s : Dfs) × Ends s
  ends =
      let (s, e, g) =
        search_all-Returns (ids_of requirements) (adjacent (ids_of requirements) requirements)
          inside (length (ids_of requirements)) (ids_of requirements) first_state (λ x m. m)
          (fits (ids_of requirements) first_state) in
      (s, e)

  validated :
      (s : Dfs) → Ends s → validate_dependency_graph requirements ≡ some (found_errors s.errors)
  unfolding validate_dependency_graph
  validated s e = rw (noted, e, validate_dependency_graph)

graph_throws :
    (requirements : List Dependencies)
    → missing_in (ids_of requirements) requirements ≡ none
    → validate_dependency_graph requirements ≡ some check_throws
unfolding validate_dependency_graph
graph_throws requirements e = rw (e, validate_dependency_graph)

-- The check of the dependencies throws where a message does, and else ends with its list of errors:
-- calls nest no deeper than there are ids.
pub validate_dependency_graph-cases :
    (requirements : List Dependencies)
    → ((missing_in (ids_of requirements) requirements ≡ none)
        × (validate_dependency_graph requirements ≡ some check_throws))
      ⊎ ((missing : List GraphError) × (missing_in (ids_of requirements) requirements
            ≡ some missing)
          × (errors : List GraphError) × (validate_dependency_graph requirements
              ≡ some (found_errors errors)))
validate_dependency_graph-cases requirements =
    elim (Option-cases (missing_in (ids_of requirements) requirements)) [
      | inl e ↦ inl (e, graph_throws requirements e)
      | inr (missing, noted) ↦
          let (s, e) = ends requirements missing noted in
          inr (missing, noted, s.errors, validated requirements missing noted s e)
    ]

-- The graph is sound: every dependency is a requirement, and no chain of them comes back.
abbrev pub IsSound : List Dependencies → Type 0
IsSound requirements =
    ((r : Dependencies) (d : Json)
      → Member r requirements
      → Member d r.depends_on
      → (x : String) × (d ≡ string x) × Named requirements x)
    × ((a : String) → Chain requirements a a → ⊥)

Named-Present :
    (requirements : List Dependencies)
    → ((r : Dependencies) (d : Json)
        → Member r requirements
        → Member d r.depends_on
        → (x : String) × (d ≡ string x) × Named requirements x)
    → Present (ids_of requirements) requirements
Named-Present requirements named r m d n =
    let (x, is, (s, k, e)) = named r d m n in
    (x, is, subst (λ z. Member z (ids_of requirements)) e (ids_of-Member k))

errors_eq :
    (xs ys : List GraphError) → ◌≡◌ {A = Option (List GraphError)} (some xs) (some ys) → xs ≡ ys
errors_eq xs ys e = cc

reported_eq :
    (xs ys : List GraphError)
    → ◌≡◌ {A = Option GraphCheck} (some (found_errors xs)) (some (found_errors ys))
    → xs ≡ ys
reported_eq xs ys e = cc

throws_ne :
    (xs : List GraphError)
    → ◌≢◌ {A = Option GraphCheck} (some check_throws) (some (found_errors xs))
throws_ne xs e = cc

unvisited-IsSafe :
    (adj : String → List String) (errors : List GraphError) → IsSafe adj (unvisited errors)
unvisited-IsSafe adj errors = record { closed = λ a x h m. cc; acyclic = λ a h p. cc }

module _ (requirements : List Dependencies) (missing : List GraphError)
    (noted : missing_in (ids_of requirements) requirements ≡ some missing)
    (unique : UniqueIds requirements) (s : Dfs) (e : Ends requirements missing noted s) where
  abbrev edges : String → List String
  edges = adjacent (ids_of requirements) requirements

  outcome :
      (AllBlack edges (ids_of requirements) s
        × Finished edges (first_state requirements missing noted) s)
      ⊎ (Cyclic edges × HasErrors s)
  outcome =
      search_all-Searched edges (ids_of requirements) (inside requirements missing noted)
        (length (ids_of requirements)) (ids_of requirements)
        (first_state requirements missing noted) s (λ x m. m)
        (fits (ids_of requirements) (first_state requirements missing noted))
        (unvisited-IsSafe edges missing) (λ g h. cc) e

  errors-IsSound : s.errors ≡ [] → IsSound requirements
  errors-IsSound none_found =
      ⊎_elim {C = IsSound requirements}
        (λ found.
          let (all, f) = found in
          let present =
            (missing_in_iff (ids_of requirements) requirements).0
              (noted ∙ ap some (sym f.errors ∙ none_found)) in
          (
            (λ r d m n. let (x, is, i) = present r m d n in (x, is, ids_of-Named requirements x i)),
            (λ a p.
                f.safe.acyclic a (all a (Chain-start requirements p))
                  (Chain-Leads requirements unique present p)),
          ))
        (λ bad. absurd (bad.1 none_found)) outcome

  nothing_found : IsSound requirements → s.errors ≡ []
  nothing_found (named, acyclic) =
      let present = Named-Present requirements named in
      ⊎_elim {C = s.errors ≡ []}
        (λ found.
          found.1.errors
          ∙ errors_eq missing []
              (sym noted ∙ (missing_in_iff (ids_of requirements) requirements).1 present))
        (λ bad. let ((a, p), reported) = bad in absurd (acyclic a (Leads-Chain requirements p)))
        outcome

nothing_lost : ◌≢◌ {A = Option (List GraphError)} none (some [])
nothing_lost e = cc

-- Where no two requirements share an id, the check reports nothing exactly where every dependency is
-- the id of a requirement and no chain of dependencies leads back to its start.
pub validate_dependency_graph_iff :
    (requirements : List Dependencies)
    → UniqueIds requirements
    → (validate_dependency_graph requirements ≡ some (found_errors [])) ↔ IsSound requirements
validate_dependency_graph_iff requirements unique =
    elim (Option-cases (missing_in (ids_of requirements) requirements)) [
      | inl gone ↦ (
        (λ h. absurd (throws_ne [] (sym (graph_throws requirements gone) ∙ h))),
        (λ sound.
            let present = Named-Present requirements sound.0 in
            let none_missing = (missing_in_iff (ids_of requirements) requirements).1 present in
            absurd (nothing_lost (sym gone ∙ none_missing))),
      )
      | inr (missing, noted) ↦
          let (s, e) = ends requirements missing noted in
          let ran = validated requirements missing noted s e in
          (
            (λ h.
                errors-IsSound requirements missing noted unique s e
                  (reported_eq s.errors [] (sym ran ∙ h))),
            (λ sound.
                ran
                ∙ ap (λ errors. some (found_errors errors))
                    (nothing_found requirements missing noted unique s e sound)),
          )
    ]
