-- ===== src/Prelude/Counts.antt =====
-- Counting the items of a list that pass a test.
use Prim.Native.Nat.{◌≤◌, ◌<◌}
use mathlib.Core.Path.{◌≡◌, refl}
use mathlib.Core.Logic.{inl, inr}
use mathlib.Core.Bool.{Bool, true, false}
use mathlib.Core.List.{List, [], ◌∷◌}
use native.Mathlib.Omega.{arith}
use autopilot_console.Prelude.Tests.{Bool-cases}
use autopilot_console.Prelude.Lists.{any, count_where, Member, here, there}

-- What every item passes, no item is counted less often.
pub count_where_le :
    {A : Type 0} (p q : A → Bool) (xs : List A)
    → ((x : A) → p x ≡ true → q x ≡ true)
    → count_where p xs ≤ count_where q xs
count_where_le p q [] h = ground arith
count_where_le p q (x ∷ xs) h = let rest = count_where_le p q xs h in let here = h x in ground arith

-- Counting none, and finding none, is each item failing.
pub count_where_zero :
    {A : Type 0} (p : A → Bool) {x : A} {xs : List A}
    → Member x xs
    → count_where p xs ≡ 0
    → p x ≡ false
count_where_zero p here h = ground arith
count_where_zero p (there m) h = count_where_zero p m (ground arith)

pub count_where_none :
    {A : Type 0} (p : A → Bool) (xs : List A)
    → ((x : A) → Member x xs → p x ≡ false)
    → count_where p xs ≡ 0
count_where_none p [] h = refl
count_where_none p (x ∷ xs) h =
    let rest = count_where_none p xs (λ y m. h y (there m)) in let first = h x here in ground arith

pub any_none :
    {A : Type 0} (p : A → Bool) (xs : List A)
    → ((x : A) → Member x xs → p x ≡ false)
    → any p xs ≡ false
any_none p [] h = refl
any_none p (x ∷ xs) h =
    let rest = any_none p xs (λ y m. h y (there m)) in let first = h x here in ground arith

-- Where as many items pass the stronger test, an item that passes the weaker passes both.
pub count_where_same :
    {A : Type 0} (p q : A → Bool) {x : A} {xs : List A}
    → Member x xs
    → ((y : A) → p y ≡ true → q y ≡ true)
    → count_where p xs ≡ count_where q xs
    → q x ≡ true
    → p x ≡ true
count_where_same p q (here {xs = xs}) h same passes =
    let rest = count_where_le p q xs h in ground arith
count_where_same p q (there {x = y} {xs = xs} m) h same passes =
    let rest = count_where_le p q xs h in
    let first = h y in count_where_same p q m h (ground arith) passes

pub count_where_all :
    {A : Type 0} (p q : A → Bool) (xs : List A)
    → ((x : A) → p x ≡ true → q x ≡ true)
    → ((x : A) → Member x xs → q x ≡ true → p x ≡ true)
    → count_where p xs ≡ count_where q xs
count_where_all p q [] h back = refl
count_where_all p q (x ∷ xs) h back =
    let rest = count_where_all p q xs h (λ y m. back y (there m)) in
    let first = h x in let first_back = back x here in ground arith

pub count_where_some :
    {A : Type 0} (p : A → Bool) (xs : List A)
    → 0 < count_where p xs
    → (x : A) × Member x xs × (p x ≡ true)
count_where_some p [] h = ground arith
count_where_some p (x ∷ xs) h = elim (Bool-cases (p x)) [
  | inl passes ↦ (x, here, passes)
  | inr fails ↦ let (y, m, passes) = count_where_some p xs (ground arith) in (y, there m, passes)
]

pub count_where_pos :
    {A : Type 0} (p : A → Bool) {x : A} {xs : List A}
    → Member x xs
    → p x ≡ true
    → 0 < count_where p xs
count_where_pos p here h = ground arith
count_where_pos p (there m) h = let rest = count_where_pos p m h in ground arith
