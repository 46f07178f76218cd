-- ===== src/Autopilot/Graph/Roots.antt =====
-- The loop over all ids: it reports an error of its own exactly where the graph has a cycle.
use mathlib.Core.Path.{subst}
use mathlib.Core.Logic.{⊎_elim}
use autopilot_console.Prelude.{
  ℕ, ◌≤◌, ◌≡◌, ◌≢◌, refl, sym, ◌∙◌, Option, some, Bool, true, false, String, List, [], ◌∷◌, arith,
  Member, here, there, Bool-cases, inl, inr, ◌⊎◌,
}
use autopilot_console.Autopilot.Graph.{Color, white, gray, black, Dfs, dfs, search_all}
use autopilot_console.Autopilot.Graph.Termination.{
  dfs-Returns, Goes-whites, is_white, whites, white_of, HasErrors, search_all-white,
  search_all_skip, search_all-Returns,
}
use autopilot_console.Autopilot.Graph.Cycles.{
  Cyclic, IsSafe, Finished, Finished-refl, Finished-trans, AllBlack, black-cons, dfs-Correct,
}

black_of : (c : Color) → is_white c ≡ false → c ≢ gray → c ≡ black
black_of white h ne = cc
black_of gray h ne = absurd (ne refl)
black_of black h ne = refl

state_eq : (s t : Dfs) → ◌≡◌ {A = Option Dfs} (some s) (some t) → s ≡ t
state_eq s t e = cc

-- Without an error all ids are black, and an error comes with a cycle.
module _ (adj : String → List String) (ids : List String)
    (inside : (a x : String) → Member x (adj a) → Member x ids) where
  abbrev NoGray : Dfs → Type 0
  NoGray s = (g : String) → s.color g ≢ gray

  abbrev Searched : List String → Dfs → Dfs → Type 0
  Searched nodes s s' = (AllBlack adj nodes s' × Finished adj s s') ⊎ (Cyclic adj × HasErrors s')

  -- After the search from one root, given what holds of the rest if that search went through.
  after_root :
      (fuel : ℕ) (id : String) (rest : List String) (s s' : Dfs) (b : Bool) (t : Dfs)
      → s.color id ≡ white
      → dfs adj fuel id s ≡ some (b, t)
      → ((x : String) → Member x rest → Member x ids)
      → whites ids t ≤ fuel
      → IsSafe adj s
      → NoGray s
      → search_all adj fuel rest t ≡ some s'
      → (Finished adj s t → Searched rest t s')
      → Searched (id ∷ rest) s s'
  after_root fuel id rest s s' false t w ran within low safe none_gray e later =
      let (f, done) = (dfs-Correct adj fuel id s w safe (λ g h. absurd (none_gray g h))).0 t ran in
      ⊎_elim {C = Searched (id ∷ rest) s s'}
        (λ found.
          let (all, f') = found in
          inl (black-cons adj id rest s' (f'.grows id done) all, Finished-trans adj s t s' f f'))
        inr (later f)
  after_root fuel id rest s s' true t w ran within low safe none_gray e later =
      let (cycle, reported) =
        (dfs-Correct adj fuel id s w safe (λ g h. absurd (none_gray g h))).1 t ran in
      let (s'', e', g) = search_all-Returns ids adj inside fuel rest t within low in
      inr (cycle, subst HasErrors (state_eq s'' s' (sym e' ∙ e)) (g.kept reported))

  pub search_all-Searched :
      (fuel : ℕ) (nodes : List String) (s s' : Dfs)
      → ((x : String) → Member x nodes → Member x ids)
      → whites ids s ≤ fuel
      → IsSafe adj s
      → NoGray s
      → search_all adj fuel nodes s ≡ some s'
      → Searched nodes s s'
  unfolding search_all
  search_all-Searched fuel [] s s' within low safe none_gray e = inl (
      subst (λ t. AllBlack adj [] t × Finished adj s t) (cc e)
        ((λ x m. elim m [ ]), Finished-refl adj s safe))
  search_all-Searched fuel (id ∷ rest) s s' within low safe none_gray e =
      elim (Bool-cases (is_white (s.color id))) [
        | inr seen ↦
            let rest_found =
              search_all-Searched fuel rest s s' (λ x m. within x (there m)) low safe none_gray
                (sym (search_all_skip adj fuel id rest s seen) ∙ e) in
            let done : s.color id ≡ black = black_of (s.color id) seen (none_gray id) in
            ⊎_elim {C = Searched (id ∷ rest) s s'}
              (λ found.
                let (all, f) = found in inl (black-cons adj id rest s' (f.grows id done) all, f))
              inr rest_found
        | inl is ↦
            let (b, t, ran, g) = dfs-Returns ids adj inside fuel id s (within id here) is low in
            after_root fuel id rest s s' b t (white_of (s.color id) is) ran
              (λ x m. within x (there m)) (omega (arith, Goes-whites ids s t g)) safe none_gray
              (sym (search_all-white adj fuel id rest s b t (white_of (s.color id) is) ran) ∙ e)
              (λ f.
                search_all-Searched fuel rest t s' (λ x m. within x (there m))
                  (omega (arith, Goes-whites ids s t g)) f.safe
                  (λ x h. none_gray x (f.gray_before x h))
                  (sym (search_all-white adj fuel id rest s b t (white_of (s.color id) is) ran)
                    ∙ e))
      ]
