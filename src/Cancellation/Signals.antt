-- ===== src/Cancellation/Signals.antt =====
-- The signals that a cancellation sends, in their order.
use mathlib.Core.Logic.{⊎_elim}
use mathlib.Core.List.{append-nil, append_assoc}
use autopilot_console.Prelude.{
  ℕ, ◌≡◌, refl, sym, ◌∙◌, ap, some, none, Bool, true, false, List, [], ◌∷◌, ◌++◌, map, Bool-cases,
  Option-cases, inl, inr, ◌⊎◌,
}
use autopilot_console.Cancellation.World.{
  SignalKind, Os, World, verify_identity, get_descendants, signal,
}
use autopilot_console.Cancellation.Controller.{signal_all, signal_tree, while_alive}

-- The descendants, then the wrapper.
abbrev pub tree : SignalKind → ℕ → List ℕ → List (ℕ × SignalKind)
tree kind pid pids = map (λ p. (p, kind)) pids ++ (pid, kind) ∷ []

module _ {W : Type 0} (os : Os W) where
  signal_all_sent :
      (kind : SignalKind) (pids : List ℕ) (w : World W)
      → (signal_all os kind pids w).sent ≡ w.sent ++ map (λ p. (p, kind)) pids
  unfolding signal_all signal
  signal_all_sent kind [] w = sym (append-nil w.sent)
  signal_all_sent kind (pid ∷ pids) w =
      signal_all_sent kind pids (signal os pid kind w).1
      ∙ append_assoc w.sent ((pid, kind) ∷ []) (map (λ p. (p, kind)) pids)

  -- The state that signals leave.
  abbrev pub signalled : List (ℕ × SignalKind) → W → W
  signalled [] s = s
  signalled (x ∷ xs) s = signalled xs (os.signal x.0 x.1 s).1

  signalled-append :
      (xs ys : List (ℕ × SignalKind)) (s : W)
      → signalled (xs ++ ys) s ≡ signalled ys (signalled xs s)
  signalled-append [] ys s = refl
  signalled-append (x ∷ xs) ys s = signalled-append xs ys (os.signal x.0 x.1 s).1

  signal_all_os :
      (kind : SignalKind) (pids : List ℕ) (w : World W)
      → (signal_all os kind pids w).os ≡ signalled (map (λ p. (p, kind)) pids) w.os
  unfolding signal_all signal
  signal_all_os kind [] w = refl
  signal_all_os kind (pid ∷ pids) w = signal_all_os kind pids (signal os pid kind w).1

  -- The descendants cannot be read and nothing is sent, or each of the tree gets a signal.
  abbrev pub Tree : SignalKind → ℕ → World W → Bool × World W → Type 0
  Tree kind pid w r =
      (((os.get_descendants pid w.os).0 ≡ none) × (r.0 ≡ false) × (r.1.sent ≡ w.sent))
      ⊎ ((pids : List ℕ) × ((os.get_descendants pid w.os).0 ≡ some pids)
          × (r.0 ≡ true)
          × (r.1.sent ≡ w.sent ++ tree kind pid pids)
          × (r.1.os ≡ signalled (tree kind pid pids) (os.get_descendants pid w.os).1))

  pub signal_tree-Tree :
      (kind : SignalKind) (pid : ℕ) (w : World W) → Tree kind pid w (signal_tree os kind pid w)
  unfolding signal_tree get_descendants signal
  signal_tree-Tree kind pid w = elim (Option-cases (os.get_descendants pid w.os).0) [
    | inl e ↦ inl (e, rw (e, signal_tree), rw (e, signal_tree))
    | inr (pids, e) ↦
        let w' = record w { os = (os.get_descendants pid w.os).1 } in
        inr (
          pids,
          e,
          rw (e, signal_tree),
          rw (e, signal_tree)
              (ap (λ (xs : List (ℕ × SignalKind)). xs ++ (pid, kind) ∷ [])
                  (signal_all_sent kind pids w')
                ∙ append_assoc w.sent (map (λ p. (p, kind)) pids) ((pid, kind) ∷ [])),
          rw (e, signal_tree)
              (ap (λ (s : W). (os.signal pid kind s).1) (signal_all_os kind pids w')
                ∙ sym (signalled-append (map (λ p. (p, kind)) pids) ((pid, kind) ∷ []) w'.os)),
        )
  ]

  -- What a look at the process, in a state, leads to: no signal, where it is gone or its descendants
  -- cannot be read, or a signal to each of the descendants read then and to the process.
  abbrev pub Round : SignalKind → ℕ → ℕ → W → List (ℕ × SignalKind) → Type 0
  Round kind pid start s xs =
      ((xs ≡ [])
        × (((os.verify_identity pid start s).0 ≡ false)
            ⊎ (((os.verify_identity pid start s).0 ≡ true)
                × ((os.get_descendants pid (os.verify_identity pid start s).1).0 ≡ none))))
      ⊎ ((pids : List ℕ) × (xs ≡ tree kind pid pids)
          × ((os.verify_identity pid start s).0 ≡ true)
          × ((os.get_descendants pid (os.verify_identity pid start s).1).0 ≡ some pids))

  pub while_dead :
      (pid start : ℕ) (run : World W → Bool × World W) (w : World W)
      → (os.verify_identity pid start w.os).0 ≡ false
      → (while_alive os pid start run w).1.sent ≡ w.sent
  unfolding while_alive verify_identity
  while_dead pid start run w e = rw (e, while_alive)

  pub while_seen :
      (pid start : ℕ) (run : World W → Bool × World W) (w : World W)
      → (os.verify_identity pid start w.os).0 ≡ true
      → while_alive os pid start run w
        ≡ run (record w { os = (os.verify_identity pid start w.os).1 })
  unfolding while_alive verify_identity
  while_seen pid start run w e = rw (e, while_alive)

  -- The last round.
  pub while_tree :
      (kind : SignalKind) (pid start : ℕ) (w : World W)
      → (xs : List (ℕ × SignalKind)) × ((while_alive os pid start
            (signal_tree os kind pid)
            w).1.sent
          ≡ w.sent ++ xs)
        × Round kind pid start w.os xs
  while_tree kind pid start w = elim (Bool-cases (os.verify_identity pid start w.os).0) [
    | inr dead ↦ (
      [],
      while_dead pid start (signal_tree os kind pid) w dead ∙ sym (append-nil w.sent),
      inl (refl, inl dead),
    )
    | inl alive ↦
        let w' = record w { os = (os.verify_identity pid start w.os).1 } in
        let ran =
          ap (λ (r : Bool × World W). r.1.sent)
            (while_seen pid start (signal_tree os kind pid) w alive) in
        ⊎_elim
          {C = (xs : List (ℕ × SignalKind)) × ((while_alive os pid start (signal_tree os kind pid)
                w).1.sent
              ≡ w.sent ++ xs)
            × Round kind pid start w.os xs}
          (λ none_sent.
            let (unread, failed, same) = none_sent in
            ([], ran ∙ same ∙ sym (append-nil w.sent), inl (refl, inr (alive, unread))))
          (λ sent.
            let (pids, read, went, e, left) = sent in
            (tree kind pid pids, ran ∙ e, inr (pids, refl, alive, read)))
          (signal_tree-Tree kind pid w')
  ]
