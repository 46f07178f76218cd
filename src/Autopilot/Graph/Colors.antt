-- ===== src/Autopilot/Graph/Colors.antt =====
-- The colours of the ids after the search enters an id, and after it leaves one.
use text.Mathlib.Text.{◌==◌ as str_eq}
use text.Mathlib.TextEquality.{eq_iff}
use autopilot_console.Prelude.{◌≡◌, ◌≢◌, sym, ◌∙◌, ap, String, Bool-cases, inl, inr, ◌⊎◌}
use autopilot_console.Autopilot.Graph.{Color, gray, black, Dfs, paint, pop, enter, leave}
use autopilot_console.Autopilot.Graph.Termination.{paint_self}

pub same-cases : (a b : String) → (a ≡ b) ⊎ (a ≢ b)
same-cases a b = elim (Bool-cases (str_eq a b)) [
  | inl e ↦ inl ((eq_iff a b).0 e)
  | inr e ↦ inr (λ p. let q = (eq_iff a b).1 p in cc)
]

pub paint_other :
    (node : String) (c : Color) (s : Dfs) (x : String)
    → node ≢ x
    → (paint node c s).color x ≡ s.color x
unfolding paint
paint_other node c s x ne = elim (Bool-cases (str_eq node x)) [
  | inl e ↦ absurd (ne ((eq_iff node x).0 e))
  | inr e ↦ rw e
]

pub entered_self : (node : String) (s : Dfs) → (enter node s).color node ≡ gray
unfolding enter
entered_self node s = paint_self node gray s

pub entered_other :
    (node : String) (s : Dfs) (x : String) → node ≢ x → (enter node s).color x ≡ s.color x
unfolding enter
entered_other node s x = paint_other node gray s x

pub left_self : (node : String) (s : Dfs) → (leave node s).color node ≡ black
unfolding leave
left_self node s = paint_self node black (record s { stack = pop s.stack })

pub left_other :
    (node : String) (s : Dfs) (x : String) → node ≢ x → (leave node s).color x ≡ s.color x
unfolding leave
left_other node s x = paint_other node black (record s { stack = pop s.stack }) x

-- The colours after entering an id that is not gray yet, and after leaving one.
module _ (node : String) (s : Dfs) (x : String) where
  pub entered-black : (enter node s).color x ≡ black → s.color x ≡ black
  entered-black h = elim (same-cases node x) [
    | inl e ↦ let now = entered_self node s in absurd (cc (ap (enter node s).color e, now, h))
    | inr ne ↦ sym (entered_other node s x ne) ∙ h
  ]

  pub entered-gray : (enter node s).color x ≡ gray → (x ≡ node) ⊎ (s.color x ≡ gray)
  entered-gray h = elim (same-cases node x) [
    | inl e ↦ inl (sym e)
    | inr ne ↦ inr (sym (entered_other node s x ne) ∙ h)
  ]

  pub left-black : s.color x ≡ black → (leave node s).color x ≡ black
  left-black h = elim (same-cases node x) [
    | inl e ↦ sym (ap (leave node s).color e) ∙ left_self node s
    | inr ne ↦ left_other node s x ne ∙ h
  ]

  pub black_of_left : (leave node s).color x ≡ black → (node ≡ x) ⊎ (s.color x ≡ black)
  black_of_left h = elim (same-cases node x) [
    | inl e ↦ inl e
    | inr ne ↦ inr (sym (left_other node s x ne) ∙ h)
  ]

  pub gray_of_left : (leave node s).color x ≡ gray → (node ≢ x) × (s.color x ≡ gray)
  gray_of_left h = elim (same-cases node x) [
    | inl e ↦ let now = left_self node s in absurd (cc (ap (leave node s).color e, now, h))
    | inr ne ↦ (ne, sym (left_other node s x ne) ∙ h)
  ]
