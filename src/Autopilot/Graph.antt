-- ===== src/Autopilot/Graph.antt =====
-- packages/autopilot/src/task/task-semantic-validator.ts, `validateDependencyGraph`: missing
-- dependencies, and cycles by a depth-first search in three colours. A Map from ids to colours is a
-- function, white where nothing is set. The search takes fuel, and `none` means that it ran out.
pub mod Termination
pub mod Colors
pub mod Cycles
pub mod Roots
pub mod Ids
pub mod Edges
pub mod Texts
pub mod Valid
use mathlib.Core.Option
use text.Mathlib.Text.{◌==◌ as str_eq}
use autopilot_console.Prelude.{
  ℕ, zero, suc, Option, some, none, Bool, true, false, not, String, List, [], ◌∷◌, ◌++◌,
  if◌then◌else◌, length, any, map,
}
use autopilot_console.Autopilot.Json.{Json, string, text_throws}

-- What the check reads of a requirement; an item of `dependsOn` can be any value.
pub record Dependencies : Type 0 where
  pub id : String
  pub depends_on : List Json

pub data GraphError : Type 0 where
  missing_dependency : String → Json → GraphError
  dependency_cycle : List String → GraphError

-- `ids.has`
abbrev pub has_id : String → List String → Bool
has_id id ids = any (str_eq id) ids

-- `new Set(…)`, in the order of insertion.
unfoldable pub add_id : List String → List String → List String
add_id seen [] = seen
add_id seen (id ∷ rest) = add_id (if has_id id seen then seen else seen ++ id ∷ []) rest

unfoldable pub ids_of : List Dependencies → List String
ids_of requirements = add_id [] (map (λ (r : Dependencies). r.id) requirements)

-- `ids.has(dep)`, which fails on what is no string.
abbrev pub has_dep : Json → List String → Bool
has_dep (string s) ids = has_id s ids
has_dep _ ids = false

-- What the first loop notes, in its order, or `none` where the text of a message throws.
unfoldable pub missing_of : List String → String → List Json → Option (List GraphError)
unfolding text_throws
missing_of ids id [] = some []
missing_of ids id (dep ∷ deps) =
    let rest = missing_of ids id deps in
    if has_dep dep ids
    then rest
    else if text_throws dep
    then none
    else Option.map (λ errors. missing_dependency id dep ∷ errors) rest

-- `resolved.push(dep)`
abbrev pub resolve : List String → Json → List String → List String
resolve ids (string s) rest = if has_id s ids then s ∷ rest else rest
resolve ids _ rest = rest

unfoldable pub resolved : List String → List Json → List String
resolved ids [] = []
resolved ids (dep ∷ deps) = resolve ids dep (resolved ids deps)

unfoldable pub missing_in : List String → List Dependencies → Option (List GraphError)
missing_in ids [] = some []
missing_in ids (r ∷ rest) = elim (missing_of ids r.id r.depends_on) [
  | none ↦ none
  | some errors ↦ Option.map (λ more. errors ++ more) (missing_in ids rest)
]

-- `adj.get(node) ?? []`: what was set last for the id.
unfoldable pub adjacent? : List String → List Dependencies → String → Option (List String)
adjacent? ids [] node = none
adjacent? ids (r ∷ rest) node = elim (adjacent? ids rest node) [
  | some deps ↦ some deps
  | none ↦ if str_eq r.id node then some (resolved ids r.depends_on) else none
]

-- `deps ?? []`
abbrev pub or_empty : Option (List String) → List String
or_empty none = []
or_empty (some deps) = deps

unfoldable pub adjacent : List String → List Dependencies → String → List String
adjacent ids requirements node = or_empty (adjacent? ids requirements node)

pub data Color : Type 0 where
  white gray black : Color

pub record Dfs : Type 0 where
  pub color : String → Color
  pub stack : List String
  pub errors : List GraphError

unfoldable pub paint : String → Color → Dfs → Dfs
paint node c s = record s { color = λ x. if str_eq node x then c else s.color x }

-- `stack.slice(stack.indexOf(node))`; an absent node has index -1, and the slice is the last item.
unfoldable pub from_node : String → List String → List String
from_node node [] = []
from_node node (x ∷ []) = x ∷ []
from_node node (x ∷ y ∷ rest) = if str_eq x node then x ∷ y ∷ rest else from_node node (y ∷ rest)

unfoldable pub report_cycle : String → Dfs → Dfs
report_cycle next s = record s {
  errors = s.errors ++ dependency_cycle (from_node next s.stack ++ next ∷ []) ∷ [];
}

-- `stack.pop()`
unfoldable pub pop : List String → List String
pop [] = []
pop (x ∷ []) = []
pop (x ∷ y ∷ rest) = x ∷ pop (y ∷ rest)

unfoldable pub enter : String → Dfs → Dfs
enter node s = record (paint node gray s) { stack = s.stack ++ node ∷ [] }

unfoldable pub leave : String → Dfs → Dfs
leave node s = paint node black (record s { stack = pop s.stack })

-- `true` ends the search from a root; it goes on after `false`.
unfoldable pub after_child : Option (Bool × Dfs) → (Dfs → Option (Bool × Dfs)) → Option (Bool × Dfs)
after_child none k = none
after_child (some (true, s)) k = some (true, s)
after_child (some (false, s)) k = k s

-- The loop over the successors, `call` being the recursive call.
unfoldable pub scan : (String → Dfs → Option (Bool × Dfs)) → List String → Dfs → Option (Bool × Dfs)
scan call [] s = some (false, s)
scan call (next ∷ rest) s = elim (s.color next) [
  | gray ↦ some (true, report_cycle next s)
  | white ↦ after_child (call next s) (scan call rest)
  | black ↦ scan call rest s
]

unfoldable pub dfs : (String → List String) → ℕ → String → Dfs → Option (Bool × Dfs)
dfs adj zero node s = none
dfs adj (suc fuel) node s =
    after_child (scan (dfs adj fuel) (adj node) (enter node s)) (λ s'. some (false, leave node s'))

-- The loop over the ids, whatever the searches answer.
unfoldable pub search_all : (String → List String) → ℕ → List String → Dfs → Option Dfs
search_all adj fuel [] s = some s
search_all adj fuel (id ∷ rest) s = elim (s.color id) [
  | white ↦ elim (dfs adj fuel id s) [
    | none ↦ none
    | some (found, s') ↦ search_all adj fuel rest s'
  ]
  | _ ↦ search_all adj fuel rest s
]

abbrev pub unvisited : List GraphError → Dfs
unvisited errors = record { color = λ x. white; stack = []; errors = errors }

-- The errors, or a TypeError.
pub data GraphCheck : Type 0 where
  found_errors : List GraphError → GraphCheck
  check_throws : GraphCheck

-- As many calls can be nested as there are ids.
unfoldable pub validate_dependency_graph : List Dependencies → Option GraphCheck
validate_dependency_graph requirements =
    let ids = ids_of requirements in
    elim (missing_in ids requirements) [
      | none ↦ some check_throws
      | some missing ↦
          elim (search_all (adjacent ids requirements) (length ids) ids (unvisited missing)) [
            | none ↦ none
            | some s ↦ some (found_errors s.errors)
          ]
    ]
