-- ===== src/VmFaults/Children.antt =====
-- That `cpu_worker` of scripts/vm/faults.py leaves no child behind, unless stopping one fails.
use sre_agent_workshop.Prelude.{
  ℕ, zero, suc, ◌*◌, ◌≡◌, refl, ap, ◌∙◌, sym, ◌⊎◌, inl, inr, Bool, true, false, List, [], ◌∷◌, ◌++◌,
}
use mathlib.Core.List.{append_assoc, append-nil}
use sre_agent_workshop.Exec.{Result-cases, continue, Exec, Error, Result, ok, err, do_if, ◌>>◌}
use sre_agent_workshop.Exec.Triple.{Ends, Triple, Triple-pure, Triple-bind, Triple-error}
use sre_agent_workshop.VmFaults.Host.{Host, second}
use sre_agent_workshop.VmFaults.Cli.{Console, stop_children, run_children, run_cpu_worker}

-- How the children of a process are observed: those started and those waited for. Only starting a
-- child and waiting for one change them, and only where they return; every operation may raise, as
-- `wait` does when its ten seconds are over.
pub record IsObserved (h : Host) (c : Console h) : Type 0 where
  pub started : h.World → List h.Child
  pub reaped : h.World → List h.Child
  pub popen_ok :
      (w : h.World) (child : h.Child)
      → (c.popen w).0 ≡ ok child
      → (started (c.popen w).1 ≡ started w ++ child ∷ []) × (reaped (c.popen w).1 ≡ reaped w)
  pub popen_err :
      (w : h.World) (e : Error)
      → (c.popen w).0 ≡ err e
      → (started (c.popen w).1 ≡ started w) × (reaped (c.popen w).1 ≡ reaped w)
  pub signal_same :
      (w : h.World)
      → (started (c.catch_sigterm w).1 ≡ started w) × (reaped (c.catch_sigterm w).1 ≡ reaped w)
  pub sleep_same :
      (d : ℕ) (w : h.World)
      → (started (h.sleep d w).1 ≡ started w) × (reaped (h.sleep d w).1 ≡ reaped w)
  pub is_running_same :
      (child : h.Child) (w : h.World)
      → (started (c.is_running child w).1 ≡ started w)
        × (reaped (c.is_running child w).1 ≡ reaped w)
  pub terminate_same :
      (child : h.Child) (w : h.World)
      → (started (c.terminate child w).1 ≡ started w) × (reaped (c.terminate child w).1 ≡ reaped w)
  pub wait_ok :
      (child : h.Child) (w : h.World)
      → (c.wait child w).0 ≡ ok tt
      → (started (c.wait child w).1 ≡ started w)
        × (reaped (c.wait child w).1 ≡ reaped w ++ child ∷ [])

module _ (h : Host) (c : Console h) where
  open h use {World, Child}

  -- Stopping a child has raised this: asking whether it runs, ending it, or waiting for it.
  pub data StopFailed (e : Error) : Type 0 where
    unasked : (child : Child) (w : World) → (c.is_running child w).0 ≡ err e → StopFailed e
    unended : (child : Child) (w : World) → (c.terminate child w).0 ≡ err e → StopFailed e
    unreaped : (child : Child) (w : World) → (c.wait child w).0 ≡ err e → StopFailed e

module _ (h : Host) (c : Console h) (o : IsObserved h c) where
  open h use {World, Child}
  open o use {started, reaped}

  -- all that have been started have been waited for
  abbrev AllReaped : World → Type 0
  AllReaped w = started w ≡ reaped w

  -- all but these, which are the last that were started
  abbrev AllBut : List Child → World → Type 0
  AllBut children w = started w ≡ reaped w ++ children

  -- an action that neither starts a child nor waits for one
  looked :
      {A : Type 0} (children : List Child) (a : Exec World A)
      → ((w : World) → (started (a w).1 ≡ started w) × (reaped (a w).1 ≡ reaped w))
      → ((e : Error) (w : World) → (a w).0 ≡ err e → StopFailed h c e)
      → Triple (AllBut children) a (λ _. AllBut children) (λ e _. StopFailed h c e)
  looked {A} children a same k = record { at = λ w p. ended w p (a w).0 refl }
    where
      ended :
          (w : World)
          → AllBut children w
          → (r : Result A) → (a w).0 ≡ r
          → Ends (λ _. AllBut children) (λ e _. StopFailed h c e) (r, (a w).1)
      ended w p (ok x) e = (same w).0 ∙ p ∙ ap (λ l. l ++ children) (sym (same w).1)
      ended w p (err x) e = k x w e

  ended_if_running :
      (children : List Child) (b : Bool) (child : Child)
      → Triple
          (AllBut children)
          (do_if b (c.terminate child))
          (λ _. AllBut children)
          (λ e _. StopFailed h c e)
  ended_if_running children true child =
      looked children (c.terminate child) (o.terminate_same child) (λ e w p. unended child w p)
  ended_if_running children false child = record { at = λ w p. p }

  wait-Ends :
      (child : Child) (children : List Child)
      → Triple
          (AllBut (child ∷ children))
          (c.wait child)
          (λ _. AllBut children)
          (λ e _. StopFailed h c e)
  wait-Ends child children = record { at = λ w p. ended w p (c.wait child w).0 refl }
    where
      ended :
          (w : World)
          → AllBut (child ∷ children) w
          → (r : Result (Unit {0})) → (c.wait child w).0 ≡ r
          → Ends (λ _. AllBut children) (λ e _. StopFailed h c e) (r, (c.wait child w).1)
      ended w p (ok _) e =
          let (s, q) = o.wait_ok child w e in
          s
          ∙ p
          ∙ sym (append_assoc (reaped w) (child ∷ []) children)
          ∙ ap (λ l. l ++ children) (sym q)
      ended w p (err x) e = unreaped child w e

  stop_children-Ends :
      (children : List Child)
      → Triple
          (AllBut children)
          (stop_children h c children)
          (λ _. AllReaped)
          (λ e _. StopFailed h c e)
  unfolding stop_children
  stop_children-Ends [] = Triple-pure tt λ w p. p ∙ append-nil (reaped w)
  stop_children-Ends (child ∷ children) =
      Triple-bind (λ _. AllBut (child ∷ children)) _ _
        (looked (child ∷ children) (c.is_running child) (o.is_running_same child)
          (λ e w p. unasked child w p))
        λ running.
          Triple-bind (λ _. AllBut (child ∷ children)) _ _
            (ended_if_running (child ∷ children) running child)
            λ _.
              Triple-bind (λ _. AllBut children) _ _ (wait-Ends child children)
                λ _. stop_children-Ends children

  abbrev Stopped : Error → World → Type 0
  Stopped e w = AllReaped w ⊎ StopFailed h c e

  -- the `finally`, behind a body that has ended so
  finally-Ends :
      (r : Result (Unit {0})) (children : List Child)
      → Triple
          (AllBut children)
          (stop_children h c children >> λ v. (r, v))
          (λ _. AllReaped)
          Stopped
  finally-Ends r children =
      Triple-bind (λ _. AllReaped) _ _ (Triple-error (stop_children-Ends children) λ e w p. inr p)
        λ _. record { at = again r }
    where
      again :
          (r : Result (Unit {0})) (w : World) → AllReaped w → Ends (λ _. AllReaped) Stopped (r, w)
      again (ok x) w p = p
      again (err e) w p = inl p

  run_children-Ends :
      (workers seconds : ℕ) (children : List Child) (w : World)
      → AllBut children w
      → Ends (λ _. AllReaped) Stopped (run_children h c workers seconds children w)
  unfolding run_children
  run_children-Ends zero seconds children w p =
      let (s, q) = o.sleep_same (seconds * second) w in
      (finally-Ends _ children).at _ (s ∙ p ∙ ap (λ l. l ++ children) (sym q))
  run_children-Ends (suc workers) seconds children w p = elim (Result-cases (c.popen w).0) [
    | inl (child, e) ↦
        let (s, q) = o.popen_ok w child e in
        rw (e, run_children)
          (run_children-Ends workers seconds (children ++ child ∷ []) _ (
            s
            ∙ ap (λ l. l ++ child ∷ []) (p ∙ ap (λ l. l ++ children) (sym q))
            ∙ append_assoc _ children (child ∷ [])))
    | inr (x, e) ↦
        let (s, q) = o.popen_err w x e in
        rw (e, run_children)
          ((finally-Ends (err x) children).at _ (s ∙ p ∙ ap (λ l. l ++ children) (sym q)))
  ]

  -- A worker that returns has waited for every child that it has started. One that raises, in its
  -- sleep, by a signal or as a child could not be started, has done so too, unless stopping a child
  -- has raised: then it raises that error, and the children behind this one are left.
  pub cpu_worker_reaps :
      (seconds workers : ℕ) (w : World)
      → AllReaped w
      → Ends (λ _. AllReaped) Stopped (run_cpu_worker h c seconds workers w)
  unfolding run_cpu_worker
  cpu_worker_reaps seconds workers w p = caught (c.catch_sigterm w).0
    where
      same : AllReaped (c.catch_sigterm w).1
      same = (o.signal_same w).0 ∙ p ∙ sym (o.signal_same w).1

      caught :
          (r : Result (Unit {0}))
          → Ends
              (λ _. AllReaped)
              Stopped
              (continue r (λ _. run_children h c workers seconds []) (c.catch_sigterm w).1)
      caught (ok x) = run_children-Ends workers seconds [] _ (same ∙ sym (append-nil (reaped _)))
      caught (err e) = inl same
