-- ===== src/Tools/RetryBound.antt =====
-- How often `retry_sre_agent` of scripts/workshop.py tries, and what it returns.
use native.Mathlib.Nat.{le_refl}
use sre_agent_workshop.Prelude.{
  ℕ, zero, suc, ◌+◌, ◌*◌, ◌≤◌, ◌==◌, ◌≡◌, refl, Bool, true, false, not, ◌||◌, Option, none, some,
  String, arith,
}
use sre_agent_workshop.Exec.{continue, Exec, Result, ok, err, pure}
use sre_agent_workshop.Exec.Triple.{
  Ends, Triple, Triple-raise, Triple-if, Triple-bind, Triple-try, Triple-result, Triple-error,
}
use sre_agent_workshop.Tools.Machine.{Machine}
use sre_agent_workshop.Tools.Retry.{is_request, is_retryable, relabelled, returned, retry_sre_agent}

module _ (m : Machine) {A : Type 0} (label : String) (action : Exec m.World A)
    (retry_seconds : ℕ) where
  open m use {World, sleep}

  -- What was returned is what the action has returned last.
  abbrev pub Answered : Option A → World → Type 0
  Answered none w = ⊥
  Answered (some a) w = (before : World) × (action before ≡ (ok a, w))

  -- A count of the runs of the action: each adds at most one, and a sleep adds none.
  pub record IsCount (count : World → ℕ) : Type 0 where
    pub run_adds : (w : World) → count (action w).1 ≤ count w + 1
    pub sleep_adds : (d : ℕ) (w : World) → count (sleep d w).1 ≤ count w

  module _ (count : World → ℕ) (counts : IsCount count) where
    abbrev UpTo : ℕ → World → Type 0
    UpTo n w = count w ≤ n

    step_up : (a b n : ℕ) → a ≤ b + 1 → b ≤ n → a ≤ n + 1
    step_up a b n h k = omega arith

    abbrev Tried : ℕ → Option A → World → Type 0
    Tried n o w = Answered o w × UpTo n w

    returned-Tried :
        (n : ℕ)
        → Triple
            (UpTo n)
            (returned m label action retry_seconds)
            (Tried (n + 1))
            (λ _. UpTo (n + 1))
    returned-Tried n = record {
      at = λ w h.
          ran w (action w).0 (action w).1 refl
            (step_up (count (action w).1) (count w) n (counts.run_adds w) h);
    }
      where
        ran :
            (before : World) (r : Result A) (w : World)
            → action before ≡ (r, w)
            → UpTo (n + 1) w
            → Ends (Tried (n + 1)) (λ _. UpTo (n + 1)) (continue r (λ a. pure (some a)) w)
        ran before (ok a) w e h = ((before, e), h)
        ran before (err x) w e h = h

    sleep-UpTo : (n d : ℕ) → Triple (UpTo n) (sleep d) (λ _. UpTo n) (λ _. UpTo n)
    sleep-UpTo n d = record {
      at = λ w h.
          slept (sleep d w).0 (sleep d w).1
            (lower (count (sleep d w).1) (count w) n (counts.sleep_adds d w) h);
    }
      where
        lower : (a b n : ℕ) → a ≤ b → b ≤ n → a ≤ n
        lower a b n h k = omega arith

        slept :
            (r : Result (Unit {0})) (w : World) → UpTo n w → Ends (λ _. UpTo n) (λ _. UpTo n) (r, w)
        slept (ok a) w h = h
        slept (err x) w h = h

    up : (a n left : ℕ) → a ≤ n + 1 → a ≤ n + suc left
    up a n left h = omega arith

    up_again : (a n left : ℕ) → a ≤ (n + 1) + suc left → a ≤ n + suc (suc left)
    up_again a n left h = omega arith

    no_more_left : (b : Bool) → b || (0 == 0) ≡ false → ⊥
    no_more_left true e = cc
    no_more_left false e = cc

    tries :
        (n left : ℕ)
        → Triple
            (UpTo n)
            (retry_sre_agent m label action retry_seconds (suc left))
            (Tried (n + suc left))
            (λ _. UpTo (n + suc left))
    unfolding retry_sre_agent
    tries n zero =
        Triple-try (UpTo (n + 1)) _ is_request _ (returned-Tried n)
          (λ e c.
            Triple-if (not (is_retryable e) || (0 == 0)) _ _
              (λ _. Triple-raise (relabelled label e) λ w h. h)
              λ f. absurd (no_more_left (not (is_retryable e)) f))
          λ e c w h. h
    tries n (suc left) =
        Triple-try (UpTo (n + 1)) _ is_request _
          (Triple-result (returned-Tried n) λ o w (a, h). (a, up (count w) n (suc left) h))
          (λ e c.
            Triple-if (not (is_retryable e) || (suc left == 0)) _ _
              (λ _. Triple-raise (relabelled label e) λ w h. up (count w) n (suc left) h)
              λ _.
                Triple-bind (λ _. UpTo (n + 1)) _ _
                  (Triple-error (sleep-UpTo (n + 1) (retry_seconds * 1_000_000_000))
                    λ e w h. up (count w) n (suc left) h)
                  λ _.
                    Triple-error
                      (Triple-result (tries (n + 1) left)
                        λ o w (a, h). (a, up_again (count w) n left h))
                      λ e w h. up_again (count w) n left h)
          λ e c w h. up (count w) n (suc left) h

    -- With at least one attempt, `retry_sre_agent` returns only what the action has returned, and
    -- that was the last thing it did; however it ends, by any count of the action's runs it has run
    -- the action at most as often as it has attempts.
    pub retry_sre_agent-Ends :
        (left : ℕ) (w : World)
        → Ends
            (λ o w'. Answered o w' × (count w' ≤ count w + suc left))
            (λ _ w'. count w' ≤ count w + suc left)
            (retry_sre_agent m label action retry_seconds (suc left) w)
    retry_sre_agent-Ends left w = (tries (count w) left).at w (le_refl (count w))
