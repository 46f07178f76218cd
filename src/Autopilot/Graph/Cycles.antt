-- ===== src/Autopilot/Graph/Cycles.antt =====
-- The search answers `false` only where it has found no cycle, and `true` only where there is one.
use mathlib.Core.Path.{subst}
use mathlib.Core.Logic.{⊎_elim}
use autopilot_console.Prelude.{
  ℕ, zero, suc, ◌≡◌, ◌≢◌, refl, sym, ◌∙◌, ap, Option, some, none, Bool, true, false, String, List,
  [], ◌∷◌, Member, here, there, inl, inr, ◌⊎◌,
}
use autopilot_console.Autopilot.Graph.{
  Color, white, gray, black, Dfs, paint, enter, leave, report_cycle, after_child, scan, dfs,
}
use autopilot_console.Autopilot.Graph.Termination.{
  Color-cases, HasErrors, scan-white, scan-gray, scan-black, report_cycle-HasErrors,
}
use autopilot_console.Autopilot.Graph.Colors.{
  entered_self, entered_other, left_self, left_other, entered-black, entered-gray, left-black,
  black_of_left, gray_of_left,
}

-- A path of one edge or more.
pub data Leads (adj : String → List String) : String → String → Type 0 where
  edge : {a b : String} → Member b (adj a) → Leads adj a b
  onward : {a b c : String} → Leads adj a b → Member c (adj b) → Leads adj a c

abbrev pub Cyclic : (String → List String) → Type 0
Cyclic adj = (a : String) × Leads adj a a

pub answer_eq :
    {b b' : Bool} (s s' : Dfs)
    → ◌≡◌ {A = Option (Bool × Dfs)} (some (b, s)) (some (b', s'))
    → s ≡ s'
answer_eq s s' e = cc

module _ (adj : String → List String) where
  -- What is black leads to black ids only, and lies on no cycle.
  pub record IsSafe (s : Dfs) : Type 0 where
    pub closed : (a x : String) → s.color a ≡ black → Member x (adj a) → s.color x ≡ black
    pub acyclic : (a : String) → s.color a ≡ black → Leads adj a a → ⊥

  -- A search that went through: black ids stay so, the gray ones are the same, nothing is reported.
  pub record Finished (s s' : Dfs) : Type 0 where
    pub safe : IsSafe s'
    pub grows : (x : String) → s.color x ≡ black → s'.color x ≡ black
    pub gray_before : (x : String) → s'.color x ≡ gray → s.color x ≡ gray
    pub gray_after : (x : String) → s.color x ≡ gray → s'.color x ≡ gray
    pub errors : s'.errors ≡ s.errors

  pub Finished-refl : (s : Dfs) → IsSafe s → Finished s s
  Finished-refl s safe = record {
    safe = safe;
    grows = λ x h. h;
    gray_before = λ x h. h;
    gray_after = λ x h. h;
    errors = refl;
  }

  pub Finished-trans : (s t u : Dfs) → Finished s t → Finished t u → Finished s u
  Finished-trans s t u f g = record {
    safe = g.safe;
    grows = λ x h. g.grows x (f.grows x h);
    gray_before = λ x h. f.gray_before x (g.gray_before x h);
    gray_after = λ x h. g.gray_after x (f.gray_after x h);
    errors = g.errors ∙ f.errors;
  }

  -- What each answer of a search says.
  abbrev pub Verdict : (Dfs → Type 0) → Dfs → Option (Bool × Dfs) → Type 0
  Verdict P s r =
      ((s' : Dfs) → r ≡ some (false, s') → Finished s s' × P s')
      × ((s' : Dfs) → r ≡ some (true, s') → Cyclic adj × HasErrors s')

  after_child-Verdict :
      (P Q : Dfs → Type 0) (s : Dfs) (r : Option (Bool × Dfs)) (k : Dfs → Option (Bool × Dfs))
      → Verdict P s r
      → ((t : Dfs) → Finished s t → P t → Verdict Q t (k t))
      → Verdict Q s (after_child r k)
  unfolding after_child
  after_child-Verdict P Q s none k v next = ((λ s' e. cc), (λ s' e. cc))
  after_child-Verdict P Q s (some (true, t)) k v next = ((λ s' e. cc), (λ s' e. v.1 s' e))
  after_child-Verdict P Q s (some (false, t)) k v next =
      let (f, p) = v.0 t refl in
      let (on_false, on_true) = next t f p in
      ((λ s' e. let (g, q) = on_false s' e in (Finished-trans s t s' f g, q)), on_true)

  abbrev pub IsBlack : String → Dfs → Type 0
  IsBlack x s = s.color x ≡ black

  abbrev pub AllBlack : List String → Dfs → Type 0
  AllBlack xs s = (x : String) → Member x xs → s.color x ≡ black

  -- What holds of the recursive call.
  abbrev pub Correct : (String → Dfs → Option (Bool × Dfs)) → Type 0
  Correct call =
      (node : String) (s : Dfs)
      → s.color node ≡ white
      → IsSafe s
      → ((g : String) → s.color g ≡ gray → Leads adj g node)
      → Verdict (IsBlack node) s (call node s)

  pub black-cons :
      (next : String) (rest : List String) (s : Dfs)
      → s.color next ≡ black
      → AllBlack rest s
      → AllBlack (next ∷ rest) s
  black-cons next rest s h all x here = h
  black-cons next rest s h all x (there m) = all x m

  self_loop : (a b : String) → a ≡ b → Member a (adj b) → Leads adj a a
  self_loop a b same m = edge (subst (λ (z : String). Member a (adj z)) (sym same) m)

  scan-Verdict :
      (call : String → Dfs → Option (Bool × Dfs)) (node : String) (nexts : List String) (s : Dfs)
      → Correct call
      → ((x : String) → Member x nexts → Member x (adj node))
      → IsSafe s
      → ((g : String) → s.color g ≡ gray → (g ≡ node) ⊎ Leads adj g node)
      → Verdict (AllBlack nexts) s (scan call nexts s)
  unfolding scan
  scan-Verdict call node [] s callee succ safe grays = (
    (λ s' e.
        subst (λ t. Finished s t × AllBlack [] t) (answer_eq s s' e)
          (Finished-refl s safe, (λ x m. elim m [ ]))),
    (λ s' e. cc),
  )
  scan-Verdict call node (next ∷ rest) s callee succ safe grays =
      let here_edge = succ next here in
      let later = λ (t : Dfs) (f : Finished s t) (done : IsBlack next t).
        let inner =
          scan-Verdict call node rest t callee (λ x m. succ x (there m)) f.safe
            (λ g h. grays g (f.gray_before g h)) in
        let result : Verdict (AllBlack (next ∷ rest)) t (scan call rest t) = (
          (λ s' e.
              let (g, all) = inner.0 s' e in (g, black-cons next rest s' (g.grows next done) all)),
          inner.1,
        ) in
        result in
      elim (Color-cases (s.color next)) [
        | inl is ↦
            let reach = λ (g : String) (h : s.color g ≡ gray).
              ⊎_elim {C = Leads adj g next}
                (λ same. subst (λ z. Leads adj z next) (sym same) (edge here_edge))
                (λ p. onward p here_edge) (grays g h) in
            subst (λ r. Verdict (AllBlack (next ∷ rest)) s r) (sym (scan-white call next rest s is))
              (after_child-Verdict (IsBlack next) (AllBlack (next ∷ rest)) s (call next s)
                (scan call rest) (callee next s is safe reach) later)
        | inr (inl is) ↦
            let loop =
              ⊎_elim {C = Leads adj next next} (λ same. self_loop next node same here_edge)
                (λ p. onward p here_edge) (grays next is) in
            subst (λ r. Verdict (AllBlack (next ∷ rest)) s r) (sym (scan-gray call next rest s is))
              (
                (λ s' e. cc),
                (λ s' e. (
                  (next, loop),
                  subst HasErrors (answer_eq (report_cycle next s) s' e)
                      (report_cycle-HasErrors next s),
                )),
              )
        | inr (inr is) ↦
            subst (λ r. Verdict (AllBlack (next ∷ rest)) s r) (sym (scan-black call next rest s is))
              (later s (Finished-refl s safe) is)
      ]

  -- From an id whose successors are black, paths lead to black ids only.
  reached-black :
      (s : Dfs) {node x : String}
      → IsSafe s
      → AllBlack (adj node) s
      → Leads adj node x
      → s.color x ≡ black
  reached-black s safe all (edge m) = all _ m
  reached-black s safe all (onward p m) = safe.closed _ _ (reached-black s safe all p) m

  ne_of_colors :
      (s : Dfs) (a x : String) (c : Color) → s.color a ≡ white → s.color x ≡ c → c ≢ white → a ≢ x
  ne_of_colors s a x c w h ne e = ne (sym h ∙ ap s.color (sym e) ∙ w)

  enter-IsSafe : (node : String) (s : Dfs) → s.color node ≡ white → IsSafe s → IsSafe (enter node s)
  enter-IsSafe node s w safe = record {
    closed = λ a x h m.
        let was = safe.closed a x (entered-black node s a h) m in
        entered_other node s x (ne_of_colors s node x black w was (λ e. cc)) ∙ was;
    acyclic = λ a h. safe.acyclic a (entered-black node s a h);
  }

  leave-IsSafe :
      (node : String) (s : Dfs)
      → s.color node ≡ gray
      → AllBlack (adj node) s
      → IsSafe s
      → IsSafe (leave node s)
  leave-IsSafe node s is all safe = record {
    closed = λ a x h m. left-black node s x (
        ⊎_elim {C = IsBlack x s} (λ e. all x (subst (λ z. Member x (adj z)) (sym e) m))
          (λ was. safe.closed a x was m) (black_of_left node s a h));
    acyclic = λ a h p.
        ⊎_elim {C = ⊥}
          (λ e.
            let back = reached-black s safe all (subst (λ z. Leads adj z z) (sym e) p) in
            cc (is, back))
          (λ was. safe.acyclic a was p) (black_of_left node s a h);
  }

  -- Entering an id, going through its successors and leaving it again.
  around-Finished :
      (node : String) (s t : Dfs)
      → s.color node ≡ white
      → Finished (enter node s) t
      → AllBlack (adj node) t
      → Finished s (leave node t)
  around-Finished node s t w f all =
      let still = f.gray_after node (entered_self node s) in
      record {
        safe = leave-IsSafe node t still all f.safe;
        grows = λ x h.
            left-black node t x
              (f.grows x (entered_other node s x (ne_of_colors s node x black w h (λ e. cc)) ∙ h));
        gray_before = λ x h.
            let (ne, was) = gray_of_left node t x h in
            ⊎_elim {C = s.color x ≡ gray} (λ e. absurd (ne (sym e))) (λ g. g)
              (entered-gray node s x (f.gray_before x was));
        gray_after = λ x h.
            let ne = ne_of_colors s node x gray w h (λ e. cc) in
            left_other node t x ne ∙ f.gray_after x (entered_other node s x ne ∙ h);
        errors = left_errors t ∙ f.errors ∙ entered_errors s;
      }
    where
      left_errors : (u : Dfs) → (leave node u).errors ≡ u.errors
      left_errors u = unfold leave paint in refl

      entered_errors : (u : Dfs) → (enter node u).errors ≡ u.errors
      entered_errors u = unfold enter paint in refl

  dfs_answer :
      (node : String) (s : Dfs)
      → s.color node ≡ white
      → (r : Option (Bool × Dfs))
      → ((t : Dfs) → r ≡ some (false, t) → Finished (enter node s) t × AllBlack (adj node) t)
      → ((t : Dfs) → r ≡ some (true, t) → Cyclic adj × HasErrors t)
      → Verdict (IsBlack node) s (after_child r (λ t. some (false, leave node t)))
  unfolding after_child
  dfs_answer node s w none on_false on_true = ((λ s' e. cc), (λ s' e. cc))
  dfs_answer node s w (some (true, t)) on_false on_true = ((λ s' e. cc), (λ s' e. on_true s' e))
  dfs_answer node s w (some (false, t)) on_false on_true =
      let (f, all) = on_false t refl in
      (
        (λ s' e.
            subst (λ u. Finished s u × IsBlack node u) (answer_eq (leave node t) s' e)
              (around-Finished node s t w f all, left_self node t)),
        (λ s' e. cc),
      )

  pub dfs-Correct : (fuel : ℕ) → Correct (dfs adj fuel)
  unfolding dfs
  dfs-Correct zero node s w safe grays = ((λ s' e. cc), (λ s' e. cc))
  dfs-Correct (suc fuel) node s w safe grays =
      let grays_in = λ (g : String) (h : (enter node s).color g ≡ gray).
        ⊎_elim {C = (g ≡ node) ⊎ Leads adj g node} (λ e. inl e) (λ was. inr (grays g was))
          (entered-gray node s g h) in
      let (on_false, on_true) =
        scan-Verdict (dfs adj fuel) node (adj node) (enter node s) (dfs-Correct fuel) (λ x m. m)
          (enter-IsSafe node s w safe) grays_in in
      dfs_answer node s w (scan (dfs adj fuel) (adj node) (enter node s)) on_false on_true
