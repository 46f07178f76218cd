-- ===== src/Feature/Machine/Journeys.antt =====
-- Walks through the lifecycle: which transitions every walk to a merge has to make.
use autopilot_console.Prelude.{
  ◌==◌, ◌≡◌, refl, ◌⊎◌, inl, inr, Option, some, none, Bool, true, false, ◌&&◌, ◌||◌, arith, List,
  [], ◌∷◌, Member, here, there, if◌then◌else◌, all, and_true, or_true,
}
use autopilot_console.Feature.State.{
  FeatureState, feature_states, planned, tasks_review, queued, developing, development_failed,
  development_interrupted, development_cancelled, development_complete, pr_creating,
  development_merged, blocked,
}
use autopilot_console.Feature.Transition.{
  TransitionOwner, human, worker, agent_result_and_verification, poller,
}
use autopilot_console.Feature.Names.{
  number, owners, owner_number, state_eq, owner_eq, on_every_transition,
}
use autopilot_console.Feature.Machine.{is_allowed}
use autopilot_console.Feature.Machine.Table.{Allowed, block, retry, merge, is_allowed_sound}
use mathlib.Core.Path.{subst}

-- Requests made one after the other, each from the state that the last one led to; `none` when the
-- service refuses one.
unfoldable pub walk : FeatureState → List (FeatureState × TransitionOwner) → Option FeatureState
walk s [] = some s
walk s ((to, owner) ∷ rest) =
    let later = walk to rest in if is_allowed s to owner then later else none

-- The one way out of a set of states.
abbrev Gate : Type 0
Gate = FeatureState × TransitionOwner

is_gate : Gate → FeatureState → TransitionOwner → Bool
is_gate g t o = number t == number g.0 && owner_number o == owner_number g.1

implies : Bool → Bool → Bool
implies true b = b
implies false b = true

-- From inside the set, an allowed transition stays inside or is the gate.
guarded_by : (FeatureState → Bool) → Gate → FeatureState → FeatureState → TransitionOwner → Bool
guarded_by inside g f t o = implies (inside f && is_allowed f t o) (inside t || is_gate g t o)

implies_mp : (a b : Bool) → implies a b ≡ true → a ≡ true → b ≡ true
unfolding implies
implies_mp a b h e = ground arith

gate_eq : (g : Gate) (t : FeatureState) (o : TransitionOwner) → is_gate g t o ≡ true → g ≡ (t, o)
unfolding is_gate
gate_eq (gt, go) t o h =
    let (same_to, same_owner) = and_true (number t == number gt) _ h in
    cc (state_eq t gt same_to, owner_eq o go same_owner)

module _ (inside : FeatureState → Bool) (g : Gate)
    (closed : (f t : FeatureState) (o : TransitionOwner) → guarded_by inside g f t o ≡ true) where
  stays_or_passes :
      (f t : FeatureState) (o : TransitionOwner)
      → inside f ≡ true
      → is_allowed f t o ≡ true
      → (inside t ≡ true) ⊎ (g ≡ (t, o))
  unfolding guarded_by
  stays_or_passes f t o i h =
      elim (or_true _ _ (implies_mp (inside f && is_allowed f t o) _ (closed f t o) (rw i h))) [
        | inl stay ↦ inl stay
        | inr gate ↦ inr (gate_eq g t o gate)
      ]

  -- A walk that starts inside and ends outside passes the gate.
  crosses :
      (s e : FeatureState) (steps : List Gate)
      → walk s steps ≡ some e
      → inside s ≡ true
      → inside e ≡ false
      → Member g steps
  unfolding walk
  crosses s e [] w i out = ground arith
  crosses s e ((to, owner) ∷ rest) w i out =
      let taken : is_allowed s to owner ≡ true = ground arith in
      let later : walk to rest ≡ some e = ground arith in
      elim (stays_or_passes s to owner i taken) [
        | inl stay ↦ there (crosses to e rest later stay out)
        | inr gate ↦ rw gate here
      ]

before_approval : FeatureState → Bool
before_approval planned = true
before_approval tasks_review = true
before_approval blocked = true
before_approval _ = false

before_verification : FeatureState → Bool
unfolding before_approval
before_verification queued = true
before_verification developing = true
before_verification development_failed = true
before_verification development_interrupted = true
before_verification development_cancelled = true
before_verification s = before_approval s

before_hand_off : FeatureState → Bool
unfolding before_verification
before_hand_off development_complete = true
before_hand_off s = before_verification s

before_merge : FeatureState → Bool
before_merge development_merged = false
before_merge _ = true

abbrev everywhere : (FeatureState → Bool) → Gate → Bool
everywhere inside g =
    all (λ f. all (λ t. all (guarded_by inside g f t) owners) feature_states) feature_states

closed_by :
    (inside : FeatureState → Bool) (g : Gate)
    → everywhere inside g ≡ true
    → (f t : FeatureState) (o : TransitionOwner) → guarded_by inside g f t o ≡ true
closed_by inside g h f t o = on_every_transition (guarded_by inside g) h f t o

approval_closed : everywhere before_approval (queued, human) ≡ true
unfolding guarded_by before_approval implies is_gate is_allowed number owner_number
approval_closed = refl

verification_closed :
    everywhere before_verification (development_complete, agent_result_and_verification) ≡ true
unfolding guarded_by before_verification implies is_gate is_allowed number owner_number
verification_closed = refl

hand_off_closed : everywhere before_hand_off (pr_creating, worker) ≡ true
unfolding guarded_by before_hand_off implies is_gate is_allowed number owner_number
hand_off_closed = refl

merge_closed : everywhere before_merge (development_merged, poller) ≡ true
unfolding guarded_by before_merge implies is_gate is_allowed number owner_number
merge_closed = refl

-- A new feature is merged only by a walk on which a human queued it, the verified agent result
-- completed it, the worker handed it off, and the poller saw the merge.
pub merged_needs :
    (steps : List (FeatureState × TransitionOwner))
    → walk planned steps ≡ some development_merged
    → Member (queued, human) steps
      × Member (development_complete, agent_result_and_verification) steps
      × Member (pr_creating, worker) steps
      × Member (development_merged, poller) steps
unfolding before_approval before_verification before_hand_off before_merge
merged_needs steps w = (
  crosses before_approval (queued, human) (closed_by _ _ approval_closed) _ _ steps w refl refl,
  crosses before_verification (development_complete, agent_result_and_verification)
      (closed_by _ _ verification_closed) _ _ steps w refl refl,
  crosses before_hand_off (pr_creating, worker) (closed_by _ _ hand_off_closed) _ _ steps w refl
      refl,
  crosses before_merge (development_merged, poller) (closed_by _ _ merge_closed) _ _ steps w refl
      refl,
)

leaves_merged : {t : FeatureState} {o : TransitionOwner} → Allowed development_merged t o → ⊥
leaves_merged (block h) = h refl
leaves_merged (retry s) = elim s [ ]
leaves_merged (merge s) = elim s [ ]

leaves_blocked : {t : FeatureState} {o : TransitionOwner} → Allowed blocked t o → t ≡ blocked
leaves_blocked (block h) = refl
leaves_blocked (retry s) = elim s [ ]
leaves_blocked (merge s) = elim s [ ]

-- A merged feature accepts no request at all, and a blocked one stays blocked for ever: no
-- transition leads out of either state.
pub dead_ends :
    (steps : List (FeatureState × TransitionOwner)) (e : FeatureState)
    → (walk development_merged steps ≡ some e → steps ≡ [])
      × (walk blocked steps ≡ some e → e ≡ blocked)
unfolding walk
dead_ends [] e = (λ w. refl, λ w. ground arith)
dead_ends ((to, owner) ∷ rest) e = (
  λ w.
      let taken : is_allowed development_merged to owner ≡ true = ground arith in
      absurd (leaves_merged (is_allowed_sound _ _ _ taken)),
  λ w.
      let taken : is_allowed blocked to owner ≡ true = ground arith in
      let later : walk to rest ≡ some e = ground arith in
      (dead_ends rest e).1
        (subst (λ s. walk s rest ≡ some e) (leaves_blocked (is_allowed_sound _ _ _ taken)) later),
)
