-- ===== src/Feature/Names.antt =====
-- The states and the owners by number: comparing the source's literals decides equality, and a test
-- that holds at every listed state or transition holds at all.
use autopilot_console.Prelude.{
  ℕ, ◌==◌, ◌≡◌, refl, sym, ap, ◌∙◌, ◌↔◌, some, none, Bool, true, false, not, List, [], ◌∷◌, all,
  get_elem?, ==_iff, Member, here, there, all-Member, arith,
}
use autopilot_console.Feature.State.{
  FeatureState, same_state, feature_states, planned, tasks_review, queued, developing,
  development_failed, development_interrupted, development_cancelled, development_complete,
  pr_creating, pr_creation_failed, ci_running, ci_failed, pr_review, pr_changes_requested,
  development_merged, blocked,
}
use autopilot_console.Feature.Transition.{
  TransitionOwner, human, human_and_validation, human_and_process_control, worker,
  agent_result_and_verification, reconciliation, github_adapter, poller, guard,
}

-- Every state is listed in FEATURE_planned, tasks_review, queued, developing, development_failed, development_interrupted, development_cancelled, development_complete, pr_creating, pr_creation_failed, ci_running, ci_failed, pr_review, pr_changes_requested, development_merged, blocked.
pub state_listed : (s : FeatureState) → Member s feature_states
state_listed planned = here
state_listed tasks_review = there here
state_listed queued = there (there here)
state_listed developing = there (there (there here))
state_listed development_failed = there (there (there (there here)))
state_listed development_interrupted = there (there (there (there (there here))))
state_listed development_cancelled = there (there (there (there (there (there here)))))
state_listed development_complete = there (there (there (there (there (there (there here))))))
state_listed pr_creating = there (there (there (there (there (there (there (there here)))))))
state_listed pr_creation_failed =
    there (there (there (there (there (there (there (there (there here))))))))
state_listed ci_running =
    there (there (there (there (there (there (there (there (there (there here)))))))))
state_listed ci_failed =
    there (there (there (there (there (there (there (there (there (there (there here))))))))))
state_listed pr_review =
    there
      (there (there (there (there (there (there (there (there (there (there (there here)))))))))))
state_listed pr_changes_requested = there (
    there
      (there (there (there (there (there (there (there (there (there (there (there here))))))))))))
state_listed development_merged = there (
    there (
      there (
        there
          (there (there (there (there (there (there (there (there (there (there here)))))))))))))
state_listed blocked = there (
    there (
      there (
        there (
          there
            (there (there (there (there (there (there (there (there (there (there here))))))))))))))

abbrev pub owners : List TransitionOwner
owners =
    human ∷ human_and_validation ∷ human_and_process_control ∷ worker
    ∷ agent_result_and_verification ∷ reconciliation ∷ github_adapter ∷ poller ∷ guard ∷ []

pub owner_listed : (o : TransitionOwner) → Member o owners
owner_listed human = here
owner_listed human_and_validation = there here
owner_listed human_and_process_control = there (there here)
owner_listed worker = there (there (there here))
owner_listed agent_result_and_verification = there (there (there (there here)))
owner_listed reconciliation = there (there (there (there (there here))))
owner_listed github_adapter = there (there (there (there (there (there here)))))
owner_listed poller = there (there (there (there (there (there (there here))))))
owner_listed guard = there (there (there (there (there (there (there (there here)))))))

unfoldable pub agree : Bool → Bool → Bool
agree true b = b
agree false b = not b

pub agree_sound : (a b : Bool) → agree a b ≡ true → a ≡ b
unfolding agree
agree_sound a b h = ground arith

-- The states and the owners by their place in the lists: equality on these places decides.
unfoldable pub number : FeatureState → ℕ
number planned = 0
number tasks_review = 1
number queued = 2
number developing = 3
number development_failed = 4
number development_interrupted = 5
number development_cancelled = 6
number development_complete = 7
number pr_creating = 8
number pr_creation_failed = 9
number ci_running = 10
number ci_failed = 11
number pr_review = 12
number pr_changes_requested = 13
number development_merged = 14
number blocked = 15

numbered : ℕ → FeatureState
numbered n = elim (get_elem? feature_states n) [ none ↦ blocked | some s ↦ s ]

numbered-number : (s : FeatureState) → numbered (number s) ≡ s
unfolding numbered number
numbered-number planned = refl
numbered-number _ = refl

unfoldable pub owner_number : TransitionOwner → ℕ
owner_number human = 0
owner_number human_and_validation = 1
owner_number human_and_process_control = 2
owner_number worker = 3
owner_number agent_result_and_verification = 4
owner_number reconciliation = 5
owner_number github_adapter = 6
owner_number poller = 7
owner_number guard = 8

owner_numbered : ℕ → TransitionOwner
owner_numbered n = elim (get_elem? owners n) [ none ↦ guard | some o ↦ o ]

owner_numbered-number : (o : TransitionOwner) → owner_numbered (owner_number o) ≡ o
unfolding owner_numbered owner_number
owner_numbered-number human = refl
owner_numbered-number _ = refl

pub state_eq : (a b : FeatureState) → (number a == number b) ≡ true → a ≡ b
state_eq a b h = sym (numbered-number a) ∙ ap numbered ((==_iff _ _).0 h) ∙ numbered-number b

pub owner_eq : (a b : TransitionOwner) → (owner_number a == owner_number b) ≡ true → a ≡ b
owner_eq a b h =
    sym (owner_numbered-number a) ∙ ap owner_numbered ((==_iff _ _).0 h) ∙ owner_numbered-number b

pub on_every_state :
    (p : FeatureState → Bool) → all p feature_states ≡ true → (s : FeatureState) → p s ≡ true
on_every_state p h s = all-Member p (state_listed s) h

-- A test on a transition that holds at every one.
pub on_every_transition :
    (p : FeatureState → FeatureState → TransitionOwner → Bool)
    → all (λ f. all (λ t. all (p f t) owners) feature_states) feature_states ≡ true
    → (f t : FeatureState) (o : TransitionOwner) → p f t o ≡ true
on_every_transition p h f t o =
    let from_f = on_every_state (λ x. all (λ y. all (p x y) owners) feature_states) h f in
    let to_t = on_every_state (λ y. all (p f y) owners) from_f t in
    all-Member (p f t) (owner_listed o) to_t

same_row : FeatureState → FeatureState → Bool
same_row a b = agree (same_state a b) (number a == number b)

same_state_table : all (λ a. all (same_row a) feature_states) feature_states ≡ true
unfolding same_state same_row agree number
same_state_table = refl

same_state-number : (a b : FeatureState) → same_state a b ≡ (number a == number b)
unfolding same_row
same_state-number a b = agree_sound _ _ (
    on_every_state (same_row a)
      (on_every_state (λ x. all (same_row x) feature_states) same_state_table a) b)

-- Comparing two literals decides the equality of the states.
pub same_state_iff : (a b : FeatureState) → (same_state a b ≡ true) ↔ (a ≡ b)
same_state_iff a b = (
  λ h. state_eq a b (sym (same_state-number a b) ∙ h),
  λ e. same_state-number a b ∙ (==_iff _ _).1 (ap number e),
)
