-- ===== src/Tools/Steady.antt =====
-- A machine whose clock runs: on it the loops that wait for a deadline end.
use sre_agent_workshop.Prelude.{
  ap, ℕ, zero, suc, ◌+◌, ◌≤◌, ◌≢◌, Bool, true, false, Option, none, some, List, String,
}
use sre_agent_workshop.Prelude.Text.{str_eq, strip}
use sre_agent_workshop.Prelude.Int.{pos, negsuc}
use sre_agent_workshop.Exec.{
  Exec, Error, Result, ok, err, diverged, pure, raise, or_raise, lift, ◌>>=◌,
}
use sre_agent_workshop.Exec.Triple.{Triple, Triple-pure, Triple-raise, Triple-if, Triple-bind}
use sre_agent_workshop.Tools.Machine.{Machine, Ran, finished, timed_out}
use sre_agent_workshop.Tools.Cli.{cli, cli_timeout, az, command_of, az_command, output_of, json_of}

abbrev pub Sane : {W : Type 0} → Error → W → Type 0
Sane e w = e ≢ diverged

module _ {W : Type 0} (now : W → ℕ) where
  -- The clock is at least there.
  abbrev pub Since : ℕ → W → Type 0
  Since k w = k ≤ now w

  -- It takes no time back, and does not diverge.
  abbrev pub Steady : {A : Type 0} → ℕ → Exec W A → Type 0
  Steady k a = Triple (Since k) a (λ _. Since k) Sane

  module _ (k : ℕ) where
    pub pure-Steady : {A : Type 0} (a : A) → Steady k (pure a)
    pure-Steady a = Triple-pure a λ w h. h

    pub raise-Steady : {A : Type 0} (e : Error) → e ≢ diverged → Steady {A = A} k (raise e)
    raise-Steady e sane = Triple-raise e λ w h. sane

    pub bind-Steady :
        {A B : Type 0} (a : Exec W A) (f : A → Exec W B)
        → Steady k a
        → ((x : A) → Steady k (f x))
        → Steady k (a >>= f)
    bind-Steady a f sa sf = Triple-bind (λ _. Since k) a f sa sf

    pub or_raise-Steady :
        {A : Type 0} (o : Option A) (e : Error) → e ≢ diverged → Steady k (or_raise o e)
    or_raise-Steady none e sane = raise-Steady e sane
    or_raise-Steady (some a) e sane = pure-Steady a

    pub lift-Steady : {A : Type 0} (r : Result A) → r ≢ err diverged → Steady k (lift r)
    lift-Steady (ok a) sane = pure-Steady a
    lift-Steady (err e) sane = raise-Steady e λ p. sane (ap err p)

-- What the loops rely on: no operation turns the clock back, a sleep that returns lasts at least as
-- long as it was asked to, and `monotonic` reads the clock at some time during its call. `diverged`
-- is no exception, so no operation raises it.
pub record IsSteady (m : Machine) : Type 0 where
  pub now : m.World → ℕ
  pub which_on : (k : ℕ) (tool : String) → Steady now k (m.which tool)
  pub launcher_on : (k : ℕ) (executable : String) → Steady now k (m.launcher executable)
  pub run_on : (k : ℕ) (command : List String) (timeout : ℕ) → Steady now k (m.run command timeout)
  pub clock_on : (k : ℕ) → Triple (Since now k) (m.monotonic) (λ t w. (k ≤ t) × (t ≤ now w)) Sane
  pub sleep_on : (k d : ℕ) → Triple (Since now k) (m.sleep d) (λ _. Since now (k + d)) Sane

module _ (m : Machine) (steady : IsSteady m) (k : ℕ) where
  open m use {World}
  open steady use {now}

  az_command-Steady :
      (executable : String) (args : List String) (o : Option (String × Bool))
      → Steady now k (az_command m executable args o)
  az_command-Steady executable args none = pure-Steady now k _
  az_command-Steady executable args (some (runtime, true)) = pure-Steady now k _
  az_command-Steady executable args (some (runtime, false)) = raise-Steady now k _ λ e. cc

  command_of-Steady :
      (executable : String) (args : List String) → Steady now k (command_of m "az" executable args)
  unfolding command_of
  command_of-Steady executable args =
      bind-Steady now k _ _ (steady.launcher_on k executable)
        λ o. bind-Steady now k _ _ (az_command-Steady executable args o) λ c. pure-Steady now k _

  output_of-Steady :
      (tool : String) (args : List String) (timeout : ℕ) (sensitive : Bool) (r : Ran)
      → Steady now k (output_of m tool args timeout sensitive r)
  unfolding output_of
  output_of-Steady tool args timeout sensitive timed_out = raise-Steady now k _ λ e. cc
  output_of-Steady tool args timeout sensitive (finished (pos zero) stdout stderr) =
      pure-Steady now k stdout
  output_of-Steady tool args timeout sensitive (finished (pos (suc n)) stdout stderr) =
      raise-Steady now k _ λ e. cc
  output_of-Steady tool args timeout sensitive (finished (negsuc n) stdout stderr) =
      raise-Steady now k _ λ e. cc

  json_of-Steady : (args : List String) (output : String) → Steady now k (json_of m args output)
  unfolding json_of
  json_of-Steady args output =
      Triple-if (str_eq (strip output) "") _ _ (λ _. pure-Steady now k _)
        λ _. or_raise-Steady now k _ _ λ e. cc

  pub az-Steady : (args : List String) → Steady now k (az m args)
  unfolding az cli
  az-Steady args =
      bind-Steady now k _ _
        (bind-Steady now k _ _ (steady.which_on k "az") λ found.
          bind-Steady now k _ _ (or_raise-Steady now k found _ λ e. cc) λ executable.
            bind-Steady now k _ _ (command_of-Steady executable args) λ command.
              bind-Steady now k _ _ (steady.run_on k command cli_timeout)
                λ ran. output_of-Steady "az" args cli_timeout false ran)
        λ output. json_of-Steady args output
