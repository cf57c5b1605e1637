-- ===== src/VmFaults/Guards.antt =====
-- What `main` of scripts/vm/faults.py refuses, and that `cpu_worker` leaves no child behind.
use sre_agent_workshop.Prelude.{◌⊎◌, ◌≤◌, ◌≡◌, refl, none, List, [], ◌∷◌, arith}
use sre_agent_workshop.Prelude.Int.{ℤ, pos, negsuc}
use sre_agent_workshop.Exec.{Error, ok, err, value_error}
use sre_agent_workshop.VmFaults.Host.{Host}
use sre_agent_workshop.VmFaults.Cli.{cpu, cpu_worker, Arguments, Console, cpu_numbers, main}

-- The numbers that a CPU fault takes: 10 to 1800 seconds and 1 to 8 workers.
abbrev pub IsBounded : List ℤ → Type 0
IsBounded (pos seconds ∷ pos workers ∷ []) =
    (10 ≤ seconds) × (seconds ≤ 1800) × (1 ≤ workers) × (workers ≤ 8)
IsBounded _ = ⊥

cpu_numbers-none : (numbers : List ℤ) → ¬ IsBounded numbers → cpu_numbers numbers ≡ none
unfolding cpu_numbers
cpu_numbers-none [] out = refl
cpu_numbers-none (pos s ∷ []) out = refl
cpu_numbers-none (negsuc s ∷ []) out = refl
cpu_numbers-none (pos s ∷ pos n ∷ []) out = ground arith
cpu_numbers-none (pos s ∷ negsuc n ∷ []) out = refl
cpu_numbers-none (negsuc s ∷ _ ∷ []) out = refl
cpu_numbers-none (pos s ∷ pos n ∷ x ∷ l) out = refl
cpu_numbers-none (pos s ∷ negsuc n ∷ x ∷ l) out = refl
cpu_numbers-none (negsuc s ∷ _ ∷ x ∷ l) out = refl

module _ (h : Host) (c : Console h) where
  open h use {World}

  abbrev numbers_error : Error
  numbers_error = value_error "CPU fault requires seconds 10..1800 and workers 1..8."

  -- Without two numbers in range a CPU fault and its worker are refused before anything is done:
  -- only the effective user has been read.
  pub main_bounds_cpu :
      (args : Arguments) (w : World)
      → (args.action ≡ cpu) ⊎ (args.action ≡ cpu_worker)
      → (c.geteuid w).0 ≡ ok 0
      → ¬ IsBounded args.numbers
      → main h c args w ≡ (
        err (value_error "CPU fault requires seconds 10..1800 and workers 1..8."),
        (c.geteuid w).1,
      )
  unfolding main
  main_bounds_cpu args w a root out = ground (arith, cpu_numbers-none args.numbers out)
