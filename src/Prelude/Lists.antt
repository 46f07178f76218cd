-- ===== src/Prelude/Lists.antt =====
-- Lists measured by native numbers, Boolean searches through them, and predicates on their items.
use Prim.Native.Nat.{ℕ, zero, suc, ◌+◌}
use mathlib.Core.Path.{◌≡◌, refl}
use mathlib.Core.Logic.{inl, inr}
use mathlib.Core.Bool.{Bool, true, false, ◌&&◌, ◌||◌}
use mathlib.Core.Option.{Option, none, some}
use mathlib.Core.List.{List, [], ◌∷◌, ◌++◌}
use native.Mathlib.Omega.{arith}
use autopilot_console.Prelude.Tests.{if◌then◌else◌, and_true, or_true, or_true_right}

module _ {ℓ} {A : Type ℓ} where
  abbrev pub length : List A → ℕ
  length [] = 0
  length (x ∷ xs) = suc (length xs)

  abbrev pub any : (A → Bool) → List A → Bool
  any p [] = false
  any p (x ∷ xs) = p x || any p xs

  abbrev pub all : (A → Bool) → List A → Bool
  all p [] = true
  all p (x ∷ xs) = p x && all p xs

  abbrev pub get_elem? : List A → ℕ → Option A
  get_elem? [] i = none
  get_elem? (x ∷ xs) zero = some x
  get_elem? (x ∷ xs) (suc i) = get_elem? xs i

  -- The first item that passes, as `rows[0]` of a query does.
  abbrev pub find : (A → Bool) → List A → Option A
  find p [] = none
  find p (x ∷ xs) = if p x then some x else find p xs

  abbrev pub count_where : (A → Bool) → List A → ℕ
  count_where p [] = 0
  count_where p (x ∷ xs) = (if p x then 1 else 0) + count_where p xs

  -- `Array.filter`
  abbrev pub filter_where : (A → Bool) → List A → List A
  filter_where p [] = []
  filter_where p (x ∷ xs) = let rest = filter_where p xs in if p x then x ∷ rest else rest

  -- Membership as a family that can be matched.
  pub data Member (a : A) : List A → Type ℓ where
    here : {xs : List A} → Member a (a ∷ xs)
    there : {x : A} {xs : List A} → Member a xs → Member a (x ∷ xs)

module _ {ℓ κ} {A : Type ℓ} (P : A → Type κ) where
  abbrev pub All : List A → Type κ
  All [] = Unit
  All (x ∷ xs) = P x × All xs

module _ {ℓ} {A : Type ℓ} where
  pub all-Member : (p : A → Bool) {a : A} {xs : List A} → Member a xs → all p xs ≡ true → p a ≡ true
  all-Member p (here {xs = xs}) h = (and_true _ _ h).0
  all-Member p (there m) h = all-Member p m (and_true _ _ h).1

  pub any-Member :
      (p : A → Bool) (xs : List A) → any p xs ≡ true → (a : A) × Member a xs × (p a ≡ true)
  any-Member p [] h = cc
  any-Member p (x ∷ xs) h = elim (or_true (p x) (any p xs) h) [
    | inl e ↦ (x, here, e)
    | inr e ↦ let (a, m, pa) = any-Member p xs e in (a, there m, pa)
  ]

  pub any_of_Member :
      (p : A → Bool) {a : A} {xs : List A} → Member a xs → p a ≡ true → any p xs ≡ true
  any_of_Member p here h = rw h
  any_of_Member p (there {x} {xs} m) h = rw (any_of_Member p m h) (or_true_right (p x))

  pub All-Member {κ} : (P : A → Type κ) {a : A} {xs : List A} → Member a xs → All P xs → P a
  All-Member P here h = h.0
  All-Member P (there m) h = All-Member P m h.1

module _ {ℓ} {A : Type ℓ} where
  -- `UPDATE … SET … WHERE …`: every row that passes the test is rewritten.
  abbrev pub update_where : (A → Bool) → (A → A) → List A → List A
  update_where t f [] = []
  update_where t f (x ∷ xs) = (if t x then f x else x) ∷ update_where t f xs

  pub find-update_where :
      (p t : A → Bool) (f : A → A) (xs : List A) {a : A}
      → ((x : A) → p (f x) ≡ p x)
      → find p xs ≡ some a
      → find p (update_where t f xs) ≡ some (if t a then f a else a)
  find-update_where p t f [] keep h = ground arith
  find-update_where p t f (x ∷ xs) {a} keep h =
      ground (arith, keep x, find-update_where p t f xs {a = a} keep)

  -- A row that an update leaves out is found as before.
  pub find-update_where-none :
      (p t : A → Bool) (f : A → A) (xs : List A)
      → ((x : A) → p (f x) ≡ p x)
      → find p xs ≡ none
      → find p (update_where t f xs) ≡ none
  find-update_where-none p t f [] keep h = refl
  find-update_where-none p t f (x ∷ xs) keep h =
      ground (arith, keep x, find-update_where-none p t f xs keep)

  pub find-append_left :
      (p : A → Bool) (xs ys : List A) {a : A} → find p xs ≡ some a → find p (xs ++ ys) ≡ some a
  find-append_left p [] ys h = ground arith
  find-append_left p (x ∷ xs) ys {a} h = ground (arith, find-append_left p xs ys {a = a})

  pub find-append_right :
      (p : A → Bool) (xs ys : List A) → find p xs ≡ none → find p (xs ++ ys) ≡ find p ys
  find-append_right p [] ys h = refl
  find-append_right p (x ∷ xs) ys h = ground (arith, find-append_right p xs ys)

  pub find_passes : (p : A → Bool) (xs : List A) {a : A} → find p xs ≡ some a → p a ≡ true
  find_passes p [] h = cc
  find_passes p (x ∷ xs) {a} h = ground (arith, find_passes p xs {a = a})
