-- ===== src/Shared/OperationKey/RoundTrip.antt =====
-- A key is read back as it was made, where no part has a `:`.
use autopilot_console.Prelude.{
  ℕ, ◌==◌, ◌≡◌, ◌≢◌, ◌⊎◌, inl, inr, refl, ◌∙◌, ap, Option, some, none, Bool, true, not, ◌&&◌,
  String, List, [], ◌∷◌, ◌++◌, arith,
}
use autopilot_console.Shared.OperationKey.{
  codes, KeyParts, segment, key_segments, join, create_operation_key, split, assign, read_segments,
  with_project, blank, parse_segments, parse_operation_key,
}

abbrev pub NoColon : List ℕ → Type 0
NoColon [] = Unit
NoColon (c ∷ s) = (c ≢ b':') × NoColon s

abbrev pub NoColonIn : Option (List ℕ) → Type 0
NoColonIn none = Unit
NoColonIn (some s) = NoColon s

abbrev AllNoColon : List (List ℕ) → Type 0
AllNoColon [] = Unit
AllNoColon (s ∷ rest) = NoColon s × AllNoColon rest

split_single : (s : List ℕ) → NoColon s → split s ≡ s ∷ []
split_single [] h = refl
split_single (c ∷ s) h = let rest = split_single s h.1 in ground (arith, h.0)

split_segment : (s t : List ℕ) → NoColon s → split (s ++ b':' ∷ t) ≡ s ∷ split t
split_segment [] t h = refl
split_segment (c ∷ s) t h = let rest = split_segment s t h.1 in ground (arith, h.0)

split-join :
    (s : List ℕ) (rest : List (List ℕ)) → AllNoColon (s ∷ rest) → split (join (s ∷ rest)) ≡ s ∷ rest
split-join s [] h = split_single s h.0
split-join s (t ∷ rest) h =
    split_segment s (join (t ∷ rest)) h.0
    ∙ ap (λ (r : List (List ℕ)). s ∷ r) (split-join t rest h.1)

-- The names of the segments have no `:`.
abbrev colon_free : List ℕ → Bool
colon_free [] = true
colon_free (c ∷ s) = not (c == b':') && colon_free s

pub NoColon-of : (s : List ℕ) → colon_free s ≡ true → NoColon s
NoColon-of [] h = tt
NoColon-of (c ∷ s) h = (ground arith, NoColon-of s (ground arith))

NoColon-append : (s t : List ℕ) → NoColon s → NoColon t → NoColon (s ++ t)
NoColon-append [] t h k = k
NoColon-append (c ∷ s) t h k = (h.0, NoColon-append s t h.1 k)

segment-AllNoColon :
    (name : String) (o : Option (List ℕ)) (rest : List (List ℕ))
    → NoColon (codes name)
    → NoColonIn o
    → AllNoColon rest
    → AllNoColon (segment name o rest)
segment-AllNoColon name none rest n h all = all
segment-AllNoColon name (some v) rest n h all = (NoColon-append (codes name) v n h, all)

-- No part has a `:`, and those that must be there are not empty.
pub record IsPlain (parts : KeyParts) : Type 0 where
  pub operation : NoColon parts.operation
  pub project_id : NoColon parts.project_id
  pub feature_id : NoColonIn parts.feature_id
  pub job_attempt_id : NoColonIn parts.job_attempt_id
  pub checksum : NoColonIn parts.checksum
  pub subject : NoColonIn parts.subject
  pub has_operation : parts.operation ≢ []
  pub has_project : parts.project_id ≢ []

key_segments-AllNoColon : (parts : KeyParts) → IsPlain parts → AllNoColon (key_segments parts)
unfolding key_segments
key_segments-AllNoColon parts p = (
  p.operation,
  segment-AllNoColon "project=" (some parts.project_id) _ (NoColon-of (codes "project=") refl)
      p.project_id
      (segment-AllNoColon "feature=" parts.feature_id _ (NoColon-of (codes "feature=") refl)
        p.feature_id
        (segment-AllNoColon "job=" parts.job_attempt_id _ (NoColon-of (codes "job=") refl)
          p.job_attempt_id
          (segment-AllNoColon "checksum=" parts.checksum _ (NoColon-of (codes "checksum=") refl)
            p.checksum
            (segment-AllNoColon "subject=" parts.subject [] (NoColon-of (codes "subject=") refl)
              p.subject tt)))),
)

-- Each segment sets its part, and an undefined one leaves it undefined.
module _ (parsed : KeyParts) (rest : List (List ℕ)) where
  read_project :
      (v : List ℕ)
      → read_segments ((codes "project=" ++ v) ∷ rest) parsed
        ≡ read_segments rest (record parsed { project_id = v })
  unfolding read_segments assign
  read_project v = refl

  read_feature :
      (o : Option (List ℕ))
      → read_segments (segment "feature=" o rest) (record parsed { feature_id = none })
        ≡ read_segments rest (record parsed { feature_id = o })
  unfolding read_segments assign
  read_feature none = refl
  read_feature (some v) = refl

  read_job :
      (o : Option (List ℕ))
      → read_segments (segment "job=" o rest) (record parsed { job_attempt_id = none })
        ≡ read_segments rest (record parsed { job_attempt_id = o })
  unfolding read_segments assign
  read_job none = refl
  read_job (some v) = refl

  read_checksum :
      (o : Option (List ℕ))
      → read_segments (segment "checksum=" o rest) (record parsed { checksum = none })
        ≡ read_segments rest (record parsed { checksum = o })
  unfolding read_segments assign
  read_checksum none = refl
  read_checksum (some v) = refl

  read_subject :
      (o : Option (List ℕ))
      → read_segments (segment "subject=" o rest) (record parsed { subject = none })
        ≡ read_segments rest (record parsed { subject = o })
  unfolding read_segments assign
  read_subject none = refl
  read_subject (some v) = refl

read_segments-end : (parsed : KeyParts) → read_segments [] parsed ≡ parsed
unfolding read_segments
read_segments-end parsed = refl

abbrev key_rest : KeyParts → List (List ℕ)
key_rest parts = segment "feature=" parts.feature_id (
    segment "job=" parts.job_attempt_id
      (segment "checksum=" parts.checksum (segment "subject=" parts.subject [])))

read_all :
    (operation project : List ℕ) (feature job checksum subject : Option (List ℕ))
    → read_segments
        ((codes "project=" ++ project)
          ∷ segment "feature=" feature
              (segment "job=" job (segment "checksum=" checksum (segment "subject=" subject []))))
        (blank operation)
      ≡ record {
        operation = operation;
        project_id = project;
        feature_id = feature;
        job_attempt_id = job;
        checksum = checksum;
        subject = subject;
      }
read_all operation project feature job checksum subject =
    read_project (blank operation) _ project
    ∙ read_feature (record (blank operation) { project_id = project }) _ feature
    ∙ read_job (record (blank operation) { project_id = project; feature_id = feature }) _ job
    ∙ read_checksum
        (record (blank operation) {
          project_id = project;
          feature_id = feature;
          job_attempt_id = job;
        })
        _ checksum
    ∙ read_subject
        (record (blank operation) {
          project_id = project;
          feature_id = feature;
          job_attempt_id = job;
          checksum = checksum;
        })
        [] subject
    ∙ read_segments-end _

parse_named :
    (operation s : List ℕ) (rest : List (List ℕ))
    → operation ≢ []
    → parse_segments (operation ∷ s ∷ rest)
      ≡ with_project (read_segments (s ∷ rest) (blank operation))
unfolding parse_segments
parse_named [] s rest h = absurd (h refl)
parse_named (c ∷ operation) s rest h = refl

nil-cases : (s : List ℕ) → (s ≡ []) ⊎ ((c : ℕ) × (t : List ℕ) × (s ≡ c ∷ t))
nil-cases [] = inl refl
nil-cases (c ∷ t) = inr (c, t, refl)

with_project-some : (parts : KeyParts) → parts.project_id ≢ [] → with_project parts ≡ some parts
with_project-some parts h = elim (nil-cases parts.project_id) [
  | inl e ↦ absurd (h e)
  | inr (c, s, e) ↦ rw e
]

-- A key that was made of parts without a `:`, the operation and the project not empty, is read back as
-- the same parts.
pub parse_operation_key-create :
    (parts : KeyParts)
    → IsPlain parts
    → parse_operation_key (create_operation_key parts) ≡ some parts
unfolding parse_operation_key create_operation_key key_segments
parse_operation_key-create parts p =
    ap parse_segments (
      split-join parts.operation ((codes "project=" ++ parts.project_id) ∷ key_rest parts)
        (key_segments-AllNoColon parts p))
    ∙ parse_named parts.operation (codes "project=" ++ parts.project_id) (key_rest parts)
        p.has_operation
    ∙ ap with_project (
        read_all parts.operation parts.project_id parts.feature_id parts.job_attempt_id
          parts.checksum parts.subject)
    ∙ with_project-some parts p.has_project
