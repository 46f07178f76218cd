-- ===== src/Github/Handoff/Created.antt =====
-- The creation of a pull request, after a search that found none.
use mathlib.Core.Path.{subst}
use autopilot_console.Prelude.{
  ◌==◌, ◌≡◌, refl, sym, some, none, Bool, ◌&&◌, [], ◌∷◌, ◌++◌, any, Bool-cases, Option-cases, inl,
  inr, ◌⊎◌,
}
use autopilot_console.Github.Handoff.Store.{
  PullRequestIdentity, PullRequestRow, creation_failed, absent, Hub, HandoffWorld, HandoffContext,
  persist_identity,
}
use autopilot_console.Github.Handoff.Worker.{create, look_up}
use autopilot_console.Github.Handoff.Steps.{
  Lookup-cases, Member_last, Same, Reaches, HasStored, Ends, throws, fails, finishes, Ends-after,
}

module _ {G : Type 0} (hub : Hub G) (ctx : HandoffContext) where
  abbrev row_of : PullRequestIdentity → PullRequestRow
  row_of identity = record {
    repository = hub.repository_of ctx.project.id;
    project_id = ctx.project.id;
    feature_id = ctx.feature.id;
    identity = identity;
  }

  abbrev with_row : PullRequestIdentity → HandoffWorld G → HandoffWorld G
  with_row identity w = record w { pull_requests = w.pull_requests ++ row_of identity ∷ [] }

  abbrev clashes : PullRequestIdentity → HandoffWorld G → Bool
  clashes identity w =
      any
        (λ (r : PullRequestRow).
          r.repository == hub.repository_of ctx.project.id && r.identity.number == identity.number)
        w.pull_requests

  persist-cases :
      (identity : PullRequestIdentity) (w : HandoffWorld G)
      → (persist_identity hub ctx identity w ≡ none)
        ⊎ (persist_identity hub ctx identity w ≡ some (with_row identity w))
  unfolding persist_identity
  persist-cases identity w = elim (Bool-cases (clashes identity w)) [
    | inl taken ↦ inl (rw (taken, persist_identity))
    | inr free ↦ inr (rw (free, persist_identity))
  ]

  has_row :
      (identity : PullRequestIdentity) (w : HandoffWorld G)
      → HasStored hub ctx identity (with_row identity w)
  has_row identity w = (row_of identity, Member_last w.pull_requests (row_of identity), refl, refl)

  -- The world after a call of a gateway.
  abbrev pub with_hub : G → HandoffWorld G → HandoffWorld G
  with_hub g w = record w { hub = g }

  pub called : (g : G) (w : HandoffWorld G) → Same hub ctx w (with_hub g w)
  called g w = record { results = refl; requested = refl; kept = λ id k h. h }

  abbrev asked_for : HandoffWorld G → HandoffWorld G
  asked_for w = record w {
    hub = (hub.create_pull_request ctx.feature.branch_name w.hub).1;
    requested = w.requested ++ ctx.feature.branch_name ∷ [];
  }

  asked-Reaches :
      (w : HandoffWorld G) (s : G)
      → (hub.find_existing ctx.feature.branch_name s).0 ≡ absent
      → Reaches hub ctx w (asked_for w)
  asked-Reaches w s gone = record { results = refl; asks = inr (refl, s, gone); kept = λ id k h. h }

  create-Ends :
      (w : HandoffWorld G) (s : G)
      → (hub.find_existing ctx.feature.branch_name s).0 ≡ absent
      → Ends hub ctx w (create hub ctx w)
  unfolding create
  create-Ends w s gone =
      elim (Option-cases (hub.create_pull_request ctx.feature.branch_name w.hub).0) [
        | inl e ↦ fails creation_failed (asked_for w) (asked-Reaches w s gone) (rw (e, create))
        | inr (identity, e) ↦ elim (persist-cases identity (asked_for w)) [
          | inl taken ↦
              fails creation_failed (asked_for w) (asked-Reaches w s gone) (rw (e, taken, create))
          | inr stored ↦
              finishes identity (with_row identity (asked_for w))
                (record { results = refl; asks = inr (refl, s, gone); kept = λ id k h. h })
                (has_row identity (asked_for w)) (rw (e, stored, create))
        ]
      ]

  abbrev searched : HandoffWorld G → HandoffWorld G
  searched w = with_hub (hub.find_existing ctx.feature.branch_name w.hub).1 w

  to_create :
      (w : HandoffWorld G)
      → (hub.find_existing ctx.feature.branch_name w.hub).0 ≡ absent
      → look_up hub ctx w ≡ create hub ctx (searched w)
  unfolding look_up
  to_create w e = rw (e, look_up)

  pub look_up-Ends : (w : HandoffWorld G) → Ends hub ctx w (look_up hub ctx w)
  unfolding look_up
  look_up-Ends w = elim (Lookup-cases (hub.find_existing ctx.feature.branch_name w.hub).0) [
    | inl e ↦
        throws (searched w) (record { results = refl; asks = inl refl; kept = λ id k h. h })
          (rw (e, look_up))
    | inr (inl e) ↦ subst (Ends hub ctx w) (sym (to_create w e)) (
        Ends-after hub ctx w (searched w) (create hub ctx (searched w)) (called _ w)
          (create-Ends (searched w) w.hub e))
    | inr (inr (identity, e)) ↦ elim (persist-cases identity (searched w)) [
      | inl taken ↦
          throws (searched w) (record { results = refl; asks = inl refl; kept = λ id k h. h })
            (rw (e, taken, look_up))
      | inr stored ↦
          finishes identity (with_row identity (searched w))
            (record { results = refl; asks = inl refl; kept = λ id k h. h })
            (has_row identity (searched w)) (rw (e, stored, look_up))
    ]
  ]
