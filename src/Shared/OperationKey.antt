-- ===== src/Shared/OperationKey.antt =====
-- packages/shared/src/idempotency/operation-key.ts: `createOperationKey` and `parseOperationKey`. A
-- string is the list of its codes; an error that the parser throws is `none`.
pub mod RoundTrip
use Prim.Native.Char.{code}
use autopilot_console.Prelude.{
  ℕ, ◌==◌, Option, some, none, Bool, true, false, String, List, [], ◌∷◌, ◌++◌, if◌then◌else◌,
}

abbrev pub codes : String → List ℕ
codes String.[] = []
codes (String.◌∷◌ c s) = code c ∷ codes s

abbrev pub same_text : List ℕ → List ℕ → Bool
same_text [] [] = true
same_text (x ∷ xs) (y ∷ ys) = let rest = same_text xs ys in if x == y then rest else false
same_text _ _ = false

-- `OperationKeyParts` and `ParsedOperationKey`
pub record KeyParts : Type 0 where
  pub operation : List ℕ
  pub project_id : List ℕ
  pub feature_id : Option (List ℕ)
  pub job_attempt_id : Option (List ℕ)
  pub checksum : Option (List ℕ)
  pub subject : Option (List ℕ)

-- A segment of a key, before those that follow; one that is undefined is left out.
abbrev pub segment : String → Option (List ℕ) → List (List ℕ) → List (List ℕ)
segment name none rest = rest
segment name (some value) rest = (codes name ++ value) ∷ rest

unfoldable pub key_segments : KeyParts → List (List ℕ)
key_segments parts =
    parts.operation
    ∷ segment "project=" (some parts.project_id) (
        segment "feature=" parts.feature_id (
          segment "job=" parts.job_attempt_id
            (segment "checksum=" parts.checksum (segment "subject=" parts.subject []))))

-- `segments.join(":")`
abbrev pub join : List (List ℕ) → List ℕ
join [] = []
join (s ∷ []) = s
join (s ∷ t ∷ rest) = s ++ b':' ∷ join (t ∷ rest)

unfoldable pub create_operation_key : KeyParts → List ℕ
create_operation_key parts = join (key_segments parts)

abbrev pub before_first : ℕ → List (List ℕ) → List (List ℕ)
before_first c [] = (c ∷ []) ∷ []
before_first c (s ∷ rest) = (c ∷ s) ∷ rest

-- `key.split(":")`
abbrev pub split : List ℕ → List (List ℕ)
split [] = [] ∷ []
split (c ∷ s) = let rest = split s in if c == b':' then [] ∷ rest else before_first c rest

-- What stands before the first `=`, and after it.
abbrev pub cut : List ℕ → Option (List ℕ × List ℕ)
cut [] = none
cut (c ∷ s) =
    let rest = cut s in
    if c == b'='
    then some ([], s)
    else elim rest [ none ↦ none | some (name, value) ↦ some (c ∷ name, value) ]

-- The assignment for a name; a name that is none of these changes nothing.
unfoldable pub assign : List ℕ → List ℕ → KeyParts → KeyParts
assign name value parsed =
    if same_text name (codes "project")
    then record parsed { project_id = value }
    else if same_text name (codes "feature")
    then record parsed { feature_id = some value }
    else if same_text name (codes "job")
    then record parsed { job_attempt_id = some value }
    else if same_text name (codes "checksum")
    then record parsed { checksum = some value }
    else if same_text name (codes "subject")
    then record parsed { subject = some value }
    else parsed

-- The loop over the segments; it passes over those without a name.
unfoldable pub read_segments : List (List ℕ) → KeyParts → KeyParts
read_segments [] parsed = parsed
read_segments (s ∷ rest) parsed = elim (cut s) [
  | none ↦ read_segments rest parsed
  | some ([], value) ↦ read_segments rest parsed
  | some (c ∷ name, value) ↦ read_segments rest (assign (c ∷ name) value parsed)
]

abbrev pub with_project : KeyParts → Option KeyParts
with_project parsed = elim parsed.project_id [ [] ↦ none | c ∷ id ↦ some parsed ]

abbrev pub blank : List ℕ → KeyParts
blank operation = record {
  operation = operation;
  project_id = [];
  feature_id = none;
  job_attempt_id = none;
  checksum = none;
  subject = none;
}

unfoldable pub parse_segments : List (List ℕ) → Option KeyParts
parse_segments [] = none
parse_segments ([] ∷ rest) = none
parse_segments ((c ∷ operation) ∷ []) = none
parse_segments ((c ∷ operation) ∷ s ∷ rest) =
    with_project (read_segments (s ∷ rest) (blank (c ∷ operation)))

unfoldable pub parse_operation_key : List ℕ → Option KeyParts
parse_operation_key key = parse_segments (split key)
