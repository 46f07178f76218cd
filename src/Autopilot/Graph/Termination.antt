-- ===== src/Autopilot/Graph/Termination.antt =====
-- The depth-first search ends: a call paints a white id, so calls nest at most as deep as there are
-- ids.
use text.Mathlib.TextEquality.{eq_iff}
use autopilot_console.Prelude.{
  ℕ, zero, suc, ◌≤◌, ◌<◌, ◌≡◌, ◌≢◌, refl, ◌∙◌, ap, Option, some, Bool, true, false, String, List,
  [], ◌∷◌, ◌++◌, arith, Member, here, there, count_where, count_where_le, Bool-cases, inl, inr, ◌⊎◌,
  count_where_pos,
}
use autopilot_console.Autopilot.Graph.{
  Color, white, gray, black, Dfs, paint, pop, enter, leave, report_cycle, after_child, scan, dfs,
  search_all,
}

abbrev pub is_white : Color → Bool
is_white white = true
is_white _ = false

pub white_of : (c : Color) → is_white c ≡ true → c ≡ white
white_of c h = ground arith

abbrev pub whites : List String → Dfs → ℕ
whites ids s = count_where (λ x. is_white (s.color x)) ids

-- An item that stops passing is counted no more.
count_where-lt :
    {A : Type 0} (p q : A → Bool) {x : A} {xs : List A}
    → Member x xs
    → ((y : A) → p y ≡ true → q y ≡ true)
    → p x ≡ false
    → q x ≡ true
    → count_where p xs < count_where q xs
count_where-lt p q (here {xs = xs}) h fails passes =
    let rest = count_where_le p q xs h in ground arith
count_where-lt p q (there {x = y} {xs = xs} m) h fails passes =
    let rest = count_where-lt p q m h fails passes in let first = h y in ground arith

-- The rounds of the two loops, by the colour of the id.
module _ (call : String → Dfs → Option (Bool × Dfs)) (next : String) (rest : List String)
    (s : Dfs) where
  pub scan-white :
      s.color next ≡ white → scan call (next ∷ rest) s ≡ after_child (call next s) (scan call rest)
  unfolding scan
  scan-white is = rw (is, scan)

  pub scan-gray : s.color next ≡ gray → scan call (next ∷ rest) s ≡ some (true, report_cycle next s)
  unfolding scan
  scan-gray is = rw (is, scan)

  pub scan-black : s.color next ≡ black → scan call (next ∷ rest) s ≡ scan call rest s
  unfolding scan
  scan-black is = rw (is, scan)

module _ (adj : String → List String) (fuel : ℕ) (id : String) (rest : List String) (s : Dfs) where
  pub search_all-white :
      (b : Bool) (t : Dfs)
      → s.color id ≡ white
      → dfs adj fuel id s ≡ some (b, t)
      → search_all adj fuel (id ∷ rest) s ≡ search_all adj fuel rest t
  unfolding search_all
  search_all-white b t is e = ground arith

  pub search_all_skip :
      is_white (s.color id) ≡ false → search_all adj fuel (id ∷ rest) s ≡ search_all adj fuel rest s
  unfolding search_all
  search_all_skip is = ground arith

-- Painting with another colour than white makes nothing white.
paint-white :
    (node : String) (c : Color) (s : Dfs) (x : String)
    → is_white c ≡ false
    → is_white ((paint node c s).color x) ≡ true
    → is_white (s.color x) ≡ true
unfolding paint
paint-white node c s x painted h = ground arith

pub paint_self : (node : String) (c : Color) (s : Dfs) → (paint node c s).color node ≡ c
unfolding paint
paint_self node c s = rw ((eq_iff node node).1 refl)

abbrev pub HasErrors : Dfs → Type 0
HasErrors s = s.errors ≢ []

append-ne-nil : {A : Type 0} (xs : List A) (x : A) → xs ++ x ∷ [] ≢ []
append-ne-nil [] x e = cc
append-ne-nil (y ∷ ys) x e = cc

-- What a part of the search leaves: nothing turns white, and errors stay.
pub record Goes (ids : List String) (s s' : Dfs) : Type 0 where
  pub fewer : (x : String) → is_white (s'.color x) ≡ true → is_white (s.color x) ≡ true
  pub kept : HasErrors s → HasErrors s'

Goes-refl : (ids : List String) (s : Dfs) → Goes ids s s
Goes-refl ids s = record { fewer = λ x h. h; kept = λ h. h }

Goes-trans : (ids : List String) (s t u : Dfs) → Goes ids s t → Goes ids t u → Goes ids s u
Goes-trans ids s t u g h = record {
  fewer = λ x w. g.fewer x (h.fewer x w);
  kept = λ e. h.kept (g.kept e);
}

pub Goes-whites : (ids : List String) (s s' : Dfs) → Goes ids s s' → whites ids s' ≤ whites ids s
Goes-whites ids s s' g =
    count_where_le (λ x. is_white (s'.color x)) (λ x. is_white (s.color x)) ids g.fewer

-- A call that returns, and where it leads.
abbrev pub Returns : List String → Dfs → Option (Bool × Dfs) → Type 0
Returns ids s r = (b : Bool) × (s' : Dfs) × (r ≡ some (b, s')) × Goes ids s s'

pub report_cycle-HasErrors : (node : String) (s : Dfs) → HasErrors (report_cycle node s)
unfolding report_cycle
report_cycle-HasErrors node s = append-ne-nil s.errors _

pub Color-cases : (c : Color) → (c ≡ white) ⊎ (c ≡ gray) ⊎ (c ≡ black)
Color-cases white = inl refl
Color-cases gray = inr (inl refl)
Color-cases black = inr (inr refl)

module _ (ids : List String) where
  enter-Goes : (node : String) (s : Dfs) → Goes ids s (enter node s)
  unfolding enter paint
  enter-Goes node s = record { fewer = λ x. paint-white node gray s x refl; kept = λ h. h }

  leave-Goes : (node : String) (s : Dfs) → Goes ids s (leave node s)
  unfolding leave paint
  leave-Goes node s = record {
    fewer = λ x. paint-white node black (record s { stack = pop s.stack }) x refl;
    kept = λ h. h;
  }

  report_cycle-Goes : (node : String) (s : Dfs) → Goes ids s (report_cycle node s)
  unfolding report_cycle
  report_cycle-Goes node s = record { fewer = λ x h. h; kept = λ h. append-ne-nil s.errors _ }

  after_child-Returns :
      (s : Dfs) (r : Option (Bool × Dfs)) (k : Dfs → Option (Bool × Dfs))
      → Returns ids s r
      → ((s' : Dfs) → Goes ids s s' → Returns ids s' (k s'))
      → Returns ids s (after_child r k)
  unfolding after_child
  after_child-Returns s r k (true, s', e, g) next = (true, s', rw e, g)
  after_child-Returns s r k (false, s', e, g) next =
      let (b, s'', e', g') = next s' g in (b, s'', rw e e', Goes-trans ids s s' s'' g g')

  -- A search from a white id returns where no more ids are white than `fuel`.
  abbrev pub Searches : ℕ → (String → Dfs → Option (Bool × Dfs)) → Type 0
  Searches fuel call =
      (node : String) (s : Dfs)
      → Member node ids
      → is_white (s.color node) ≡ true
      → whites ids s ≤ fuel
      → Returns ids s (call node s)

  scan-Returns :
      (fuel : ℕ) (call : String → Dfs → Option (Bool × Dfs)) (nexts : List String) (s : Dfs)
      → Searches fuel call
      → ((x : String) → Member x nexts → Member x ids)
      → whites ids s ≤ fuel
      → Returns ids s (scan call nexts s)
  unfolding scan
  scan-Returns fuel call [] s callee inside low = (false, s, refl, Goes-refl ids s)
  scan-Returns fuel call (next ∷ rest) s callee inside low =
      let later = λ (t : Dfs) (g : Goes ids s t).
        scan-Returns fuel call rest t callee (λ x m. inside x (there m))
          (omega (arith, Goes-whites ids s t g)) in
      elim (Color-cases (s.color next)) [
        | inl is ↦
            let (b, s', e, g) =
              after_child-Returns s (call next s) (scan call rest)
                (callee next s (inside next here) (ap is_white is) low) later in
            (b, s', scan-white call next rest s is ∙ e, g)
        | inr (inl is) ↦
            (true, report_cycle next s, scan-gray call next rest s is, report_cycle-Goes next s)
        | inr (inr is) ↦
            let (b, s', e, g) = later s (Goes-refl ids s) in
            (b, s', scan-black call next rest s is ∙ e, g)
      ]

module _ (ids : List String) (adj : String → List String)
    (inside : (a x : String) → Member x (adj a) → Member x ids) where
  painted : (node : String) (s : Dfs) → (enter node s).color node ≡ gray
  unfolding enter paint
  painted node s = paint_self node gray s

  -- Entering a white id leaves fewer white ids.
  enter-whites :
      (node : String) (s : Dfs)
      → Member node ids
      → is_white (s.color node) ≡ true
      → whites ids (enter node s) < whites ids s
  enter-whites node s m w =
      count_where-lt (λ x. is_white ((enter node s).color x)) (λ x. is_white (s.color x)) m
        (enter-Goes ids node s).fewer (ap is_white (painted node s)) w

  pub dfs-Returns : (fuel : ℕ) → Searches ids fuel (dfs adj fuel)
  unfolding dfs
  dfs-Returns zero node s m w low =
      absurd (omega (arith, count_where_pos (λ x. is_white (s.color x)) m w))
  dfs-Returns (suc fuel) node s m w low =
      let (b, s', e, g) =
        after_child-Returns ids (enter node s) (scan (dfs adj fuel) (adj node) (enter node s))
          (λ s'. some (false, leave node s'))
          (scan-Returns ids fuel (dfs adj fuel) (adj node) (enter node s) (dfs-Returns fuel)
            (inside node) (omega (arith, enter-whites node s m w)))
          (λ s' g. (false, leave node s', refl, leave-Goes ids node s')) in
      (b, s', e, Goes-trans ids s (enter node s) s' (enter-Goes ids node s) g)

  -- The loop over the ids ends with a state, for as much fuel as there are white ids.
  pub search_all-Returns :
      (fuel : ℕ) (nodes : List String) (s : Dfs)
      → ((x : String) → Member x nodes → Member x ids)
      → whites ids s ≤ fuel
      → (s' : Dfs) × (search_all adj fuel nodes s ≡ some s') × Goes ids s s'
  unfolding search_all
  search_all-Returns fuel [] s within low = (s, refl, Goes-refl ids s)
  search_all-Returns fuel (id ∷ rest) s within low = elim (Bool-cases (is_white (s.color id))) [
    | inl is ↦
        let (b, t, e, g) = dfs-Returns fuel id s (within id here) is low in
        let (s', e', g') =
          search_all-Returns fuel rest t (λ x m. within x (there m))
            (omega (arith, Goes-whites ids s t g)) in
        (
          s',
          search_all-white adj fuel id rest s b t (white_of (s.color id) is) e ∙ e',
          Goes-trans ids s t s' g g',
        )
    | inr is ↦
        let (s', e', g) = search_all-Returns fuel rest s (λ x m. within x (there m)) low in
        (s', search_all_skip adj fuel id rest s is ∙ e', g)
  ]
