-- ===== src/Cancellation/Stopping.antt =====
-- What stopping a process sends, from the polite signal to the final one.
use mathlib.Core.Path.{subst}
use mathlib.Core.Logic.{⊎_elim}
use mathlib.Core.List.{append-nil, append_assoc}
use autopilot_console.Prelude.{
  ℕ, ◌≡◌, refl, sym, ◌∙◌, ap, some, none, Bool, true, false, List, [], ◌∷◌, ◌++◌, Bool-cases, inl,
  inr, ◌⊎◌,
}
use autopilot_console.Cancellation.World.{
  SignalKind, graceful, term, kill, Os, World, signal, sleep,
}
use autopilot_console.Cancellation.Controller.{
  signal_tree, while_alive, and_then, escalate, stop_process,
}
use autopilot_console.Cancellation.Signals.{
  tree, Round, signalled, signal_tree-Tree, while_dead, while_seen, while_tree,
}

module _ {W : Type 0} (os : Os W) where
  -- The state after a round and the pause that follows it.
  abbrev pub after_round : ℕ → ℕ → ℕ → List (ℕ × SignalKind) → W → W
  after_round kill_grace pid start xs s =
      os.sleep kill_grace
        (signalled os xs (os.get_descendants pid (os.verify_identity pid start s).1).1)

  -- The rounds after the polite signal: none is final but after one before it, and the process is
  -- looked at anew for that.
  abbrev pub Rounds : ℕ → ℕ → ℕ → W → List (ℕ × SignalKind) → Type 0
  Rounds kill_grace pid start s xs =
      (terms : List (ℕ × SignalKind)) × (kills : List (ℕ × SignalKind)) × (xs ≡ terms ++ kills)
      × Round os term pid start s terms
      × (((terms ≡ []) × (kills ≡ []))
          ⊎ Round os kill pid start (after_round kill_grace pid start terms s) kills)

  -- The polite signal throws, or is followed, after the pause, by the rounds.
  abbrev pub Stopping : ℕ → ℕ → ℕ → ℕ → W → List (ℕ × SignalKind) → Type 0
  Stopping grace kill_grace pid start s xs =
      (((os.signal pid graceful s).0 ≡ false) × (xs ≡ []))
      ⊎ (((os.signal pid graceful s).0 ≡ true)
          × Rounds kill_grace pid start (os.sleep grace (os.signal pid graceful s).1) xs)

  pub then_false :
      (r : Bool × World W) (k : World W → Bool × World W) → r.0 ≡ false → and_then os r k ≡ r
  unfolding and_then
  then_false (false, w) k h = refl
  then_false (true, w) k h = cc

  pub then_true :
      (r : Bool × World W) (k : World W → Bool × World W) → r.0 ≡ true → and_then os r k ≡ k r.1
  unfolding and_then
  then_true (true, w) k h = refl
  then_true (false, w) k h = cc

  module _ (pid start : ℕ) where
    abbrev Escalates : ℕ → W → World W → World W → Type 0
    Escalates kill_grace s w w' =
        (xs : List (ℕ × SignalKind)) × (w'.sent ≡ w.sent ++ xs) × Rounds kill_grace pid start s xs

    quiet :
        (kill_grace : ℕ) (s : W) (w w' : World W)
        → w'.sent ≡ w.sent
        → Round os term pid start s []
        → Escalates kill_grace s w w'
    quiet kill_grace s w w' e round =
        ([], e ∙ sym (append-nil w.sent), ([], [], refl, round, inl (refl, refl)))

    slept : (ms : ℕ) (w : World W) → (sleep os ms w).sent ≡ w.sent
    unfolding sleep
    slept ms w = refl

    slept_os : (ms : ℕ) (w : World W) → (sleep os ms w).os ≡ os.sleep ms w.os
    unfolding sleep
    slept_os ms w = refl

    polite : (w : World W) → (signal os pid graceful w).1.sent ≡ w.sent ++ (pid, graceful) ∷ []
    unfolding signal
    polite w = refl

    -- The round of `SIGTERM`, in the state after the look, and what follows it.
    terminate-Escalates :
        (kill_grace : ℕ) (s : W) (w : World W)
        → (os.verify_identity pid start s).0 ≡ true
        → w.os ≡ (os.verify_identity pid start s).1
        → Escalates kill_grace s w
            (and_then os
              (signal_tree os term pid w)
              (λ w2. while_alive os pid start (signal_tree os kill pid) (sleep os kill_grace w2))).1
    terminate-Escalates kill_grace s w alive here =
        let r = signal_tree os term pid w in
        let last = λ (w2 : World W).
          while_alive os pid start (signal_tree os kill pid) (sleep os kill_grace w2) in
        ⊎_elim {C = Escalates kill_grace s w (and_then os r last).1}
          (λ none_sent.
            let (unread, failed, same) = none_sent in
            quiet kill_grace s w (and_then os r last).1
              (ap (λ (q : Bool × World W). q.1.sent) (then_false r last failed) ∙ same)
              (inl (
                refl,
                inr (alive, subst (λ (t : W). (os.get_descendants pid t).0 ≡ none) here unread),
              )))
          (λ went.
            let (pids, read, ok, e, left) = went in
            let (kills, e', round) = while_tree os kill pid start (sleep os kill_grace r.1) in
            let state : (sleep os kill_grace r.1).os
                ≡ after_round kill_grace pid start (tree term pid pids) s =
              slept_os kill_grace r.1
              ∙ ap (os.sleep kill_grace) (
                  left
                  ∙ ap (λ (t : W). signalled os (tree term pid pids) (os.get_descendants pid t).1)
                      here) in
            (
              tree term pid pids ++ kills,
              ap (λ (q : Bool × World W). q.1.sent) (then_true r last ok)
                  ∙ e'
                  ∙ ap (λ (xs : List (ℕ × SignalKind)). xs ++ kills) (slept kill_grace r.1 ∙ e)
                  ∙ append_assoc w.sent (tree term pid pids) kills,
              (
                tree term pid pids,
                kills,
                refl,
                inr (
                  pids,
                  refl,
                  alive,
                  subst (λ (t : W). (os.get_descendants pid t).0 ≡ some pids) here read,
                ),
                inr (subst (λ (t : W). Round os kill pid start t kills) state round),
              ),
            ))
          (signal_tree-Tree os term pid w)

    escalate-Escalates :
        (kill_grace : ℕ) (w : World W)
        → Escalates kill_grace w.os w (escalate os kill_grace pid start w).1
    unfolding escalate
    escalate-Escalates kill_grace w =
        let run = λ (w1 : World W).
          and_then os (signal_tree os term pid w1)
            (λ w2. while_alive os pid start (signal_tree os kill pid) (sleep os kill_grace w2)) in
        elim (Bool-cases (os.verify_identity pid start w.os).0) [
          | inr dead ↦
              quiet kill_grace w.os w (while_alive os pid start run w).1
                (while_dead os pid start run w dead) (inl (refl, inl dead))
          | inl alive ↦
              subst (λ (q : Bool × World W). Escalates kill_grace w.os w q.1)
                (sym (while_seen os pid start run w alive))
                (terminate-Escalates kill_grace w.os
                  (record w { os = (os.verify_identity pid start w.os).1 }) alive refl)
        ]

    polite_os : (w : World W) → (signal os pid graceful w).1.os ≡ (os.signal pid graceful w.os).1
    unfolding signal
    polite_os w = refl

    polite_went : (w : World W) → (signal os pid graceful w).0 ≡ (os.signal pid graceful w.os).0
    unfolding signal
    polite_went w = refl

    -- All signals of a stop: the polite one to the wrapper, then the rounds.
    pub stop_process-Stopping :
        (grace kill_grace : ℕ) (w : World W)
        → (xs : List (ℕ × SignalKind)) × ((stop_process os grace kill_grace pid start w).1.sent
            ≡ w.sent ++ (pid, graceful) ∷ xs)
          × Stopping grace kill_grace pid start w.os xs
    unfolding stop_process
    stop_process-Stopping grace kill_grace w =
        let r = signal os pid graceful w in
        let k = λ (w' : World W). escalate os kill_grace pid start (sleep os grace w') in
        let first : r.1.sent ≡ w.sent ++ (pid, graceful) ∷ [] = polite w in
        elim (Bool-cases r.0) [
          | inr failed ↦ (
            [],
            ap (λ (q : Bool × World W). q.1.sent) (then_false r k failed) ∙ first,
            inl (sym (polite_went w) ∙ failed, refl),
          )
          | inl went ↦
              let (xs, e, rounds) = escalate-Escalates kill_grace (sleep os grace r.1) in
              let state : (sleep os grace r.1).os ≡ os.sleep grace (os.signal pid graceful w.os).1 =
                slept_os grace r.1 ∙ ap (os.sleep grace) (polite_os w) in
              (
                xs,
                ap (λ (q : Bool × World W). q.1.sent) (then_true r k went)
                    ∙ e
                    ∙ ap (λ (ys : List (ℕ × SignalKind)). ys ++ xs) (slept grace r.1 ∙ first)
                    ∙ append_assoc w.sent ((pid, graceful) ∷ []) xs,
                inr (
                  sym (polite_went w) ∙ went,
                  subst (λ (t : W). Rounds kill_grace pid start t xs) state rounds,
                ),
              )
        ]
