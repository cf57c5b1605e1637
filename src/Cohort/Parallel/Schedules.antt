-- ===== src/Cohort/Parallel/Schedules.antt =====
-- All schedules of the threads of `deploy_parallel` in scripts/cohort.py.
use sre_agent_workshop.Prelude.{
  ℕ, zero, suc, ◌+◌, ◌≤◌, ◌==◌, ◌≡◌, ◌≢◌, ◌∙◌, refl, ap, Bool, true, false, Bool-cases, inl, inr,
  Option, none, some, List, [], ◌∷◌, get_elem?, if◌then◌else◌, arith,
}
use sre_agent_workshop.Exec.{Result, ok}
use sre_agent_workshop.Tools.Machine.{Machine}
use sre_agent_workshop.Cohort.Model.{Item}
use sre_agent_workshop.Cohort.Store.{Store, item_at}
use sre_agent_workshop.Cohort.Track.{state-update_item, get_elem?-modify_self, get_elem?-modify_ne}
use sre_agent_workshop.Cohort.Parallel.{
  Task, done, update, call, deploy_task, advance, Threads, step_of, step, interleave, is_pending,
  tasks_from, turns, deploy_parallel,
}
use sre_agent_workshop.Cohort.Parallel.Safety.{Safe, Left, deploy_task-Safe}
use sre_agent_workshop.Cohort.Parallel.Progress.{
  Within, one_less, Within-zero, advance-Within, deploy_task-Within,
}

-- `==` on equal and on different numbers
same_number : (i j : ℕ) → i == j ≡ true → i ≡ j
same_number i j e = ground arith

other_number : (i j : ℕ) → i == j ≡ false → i ≢ j
other_number i j e = ground arith

-- what is left of a number of steps when a schedule is over
abbrev left_over : ℕ → ℕ → List ℕ → ℕ
left_over i n [] = n
left_over i n (j ∷ schedule) = left_over i (if j == i then one_less n else n) schedule

one_less-le : (n k : ℕ) → n ≤ suc k → one_less n ≤ k
one_less-le zero k h = omega arith
one_less-le (suc n) k h = omega arith

left_over_zero : (i n : ℕ) (schedule : List ℕ) → n ≤ turns i schedule → left_over i n schedule ≡ 0
left_over_zero i n [] h = omega arith
left_over_zero i n (j ∷ schedule) h = elim (Bool-cases (j == i)) [
  | inl c ↦
      rw c (left_over_zero i (one_less n) schedule (one_less-le n (turns i schedule) (rw c at h)))
  | inr c ↦ rw c (left_over_zero i n schedule (rw c at h))
]

module _ (m : Machine) (i : ℕ) (P : Result (Unit {0}) → Item → Type 0) where
  open m use {World}

  -- The thread at this position, which takes at most so many steps more.
  record Thread (n : ℕ) (tasks : List (Task World)) (s : Store World) : Type 1 where
    task : Task World
    item : Item
    here : get_elem? tasks i ≡ some task
    own : item_at i s ≡ some item
    safe : Safe P task item
    within : Within n task

  abbrev AtItem : Task World → Store World → Type 0
  AtItem task s = (item : Item) × (item_at i s ≡ some item) × Safe P task item

  advance_own :
      (task : Task World) (s : Store World) (item : Item)
      → item_at i s ≡ some item
      → Safe P task item
      → AtItem (advance m i task s).0 (advance m i task s).1
  unfolding Safe
  advance_own (done r) s item e p = (item, e, p)
  advance_own (update f k) s item e p = (
    f item,
    rw (state-update_item m i f s) (get_elem?-modify_self s.state.participants i f item e),
    p _,
  )
  advance_own (call a k) s item e p = (item, e, p _)

  advance_other :
      (j : ℕ) (task : Task World) (s : Store World)
      → j ≢ i
      → item_at i (advance m j task s).1 ≡ item_at i s
  advance_other j (done r) s ne = refl
  advance_other j (update f k) s ne =
      rw (state-update_item m j f s) (get_elem?-modify_ne s.state.participants j i f ne)
  advance_other j (call a k) s ne = refl

  step_own :
      (n : ℕ) (tasks : List (Task World)) (s : Store World)
      → Thread n tasks s
      → Thread (one_less n) (step m i (tasks, s)).0 (step m i (tasks, s)).1
  step_own n tasks s t = rw (t.here) (
      let q = advance_own t.task s t.item t.own t.safe in
      record {
        task = (advance m i t.task s).0;
        item = q.0;
        here = get_elem?-modify_self tasks i (λ _. (advance m i t.task s).0) t.task t.here;
        own = q.1;
        safe = q.2;
        within = advance-Within m i n t.task s t.within;
      })

  step_of_other :
      (j n : ℕ) (o : Option (Task World)) (tasks : List (Task World)) (s : Store World)
      → j ≢ i
      → Thread n tasks s
      → Thread n (step_of m j o (tasks, s)).0 (step_of m j o (tasks, s)).1
  step_of_other j n none tasks s ne t = t
  step_of_other j n (some task) tasks s ne t = record {
    task = t.task;
    item = t.item;
    here = get_elem?-modify_ne tasks j i (λ _. (advance m j task s).0) ne ∙ t.here;
    own = advance_other j task s ne ∙ t.own;
    safe = t.safe;
    within = t.within;
  }

  interleave-Thread :
      (schedule : List ℕ) (n : ℕ) (tasks : List (Task World)) (s : Store World)
      → Thread n tasks s
      → Thread
          (left_over i n schedule)
          (interleave m schedule (tasks, s)).0
          (interleave m schedule (tasks, s)).1
  unfolding interleave
  interleave-Thread [] n tasks s t = t
  interleave-Thread (j ∷ schedule) n tasks s t = elim (Bool-cases (j == i)) [
    | inl c ↦ rw c (
        interleave-Thread schedule (one_less n) (step m j (tasks, s)).0 (step m j (tasks, s)).1
          (rw (same_number j i c) (step_own n tasks s t)))
    | inr c ↦ rw c (
        interleave-Thread schedule n (step m j (tasks, s)).0 (step m j (tasks, s)).1
          (step_of_other j n (get_elem? tasks j) tasks s (other_number j i c) t))
  ]

module _ (m : Machine) where
  open m use {World}

  -- what a participant's thread is at first
  abbrev pub first_task : Bool → Item → Task World
  first_task pending item = if pending then deploy_task m item else done (ok tt)

  get_elem?-tasks_from :
      (pending : List ℕ) (i k j : ℕ) (items : List Item) (item : Item)
      → j ≡ i + k
      → get_elem? items k ≡ some item
      → get_elem? (tasks_from m pending i items) k ≡ some (first_task (is_pending j pending) item)
  get_elem?-tasks_from pending i k j [] item h e = cc
  get_elem?-tasks_from pending i zero j (x ∷ items) item h e =
      let same : j ≡ i = omega arith in let first : x ≡ item = cc in rw same (rw first refl)
  get_elem?-tasks_from pending i (suc k) j (x ∷ items) item h e =
      get_elem?-tasks_from pending (suc i) k j items item (omega arith) e

  module _ (schedule pending : List ℕ) (s : Store World) (i : ℕ) (before : Item)
      (at : item_at i s ≡ some before) where
    deploy_parallel-Thread :
        is_pending i pending ≡ true
        → Thread m i
            (Left m before)
            (left_over i 17 schedule)
            (deploy_parallel m schedule pending s).0
            (deploy_parallel m schedule pending s).1
    unfolding deploy_parallel
    deploy_parallel-Thread p =
        interleave-Thread m i (Left m before) schedule 17
          (tasks_from m pending 0 s.state.participants) s
          (record {
            task = deploy_task m before;
            item = before;
            here =
                get_elem?-tasks_from pending 0 i i s.state.participants before (omega arith) at
                ∙ ap (λ b. some (first_task b before)) p;
            own = at;
            safe = deploy_task-Safe m i before;
            within = deploy_task-Within m before;
          })

    after_the_last_step :
        (n : ℕ) (threads : Threads m) (r : Result (Unit {0}))
        → Thread m i (Left m before) n threads.0 threads.1
        → get_elem? threads.0 i ≡ some (done r)
        → (item : Item) × (item_at i threads.1 ≡ some item) × Left m before r item
    unfolding Safe
    after_the_last_step n threads r t e =
        let same : t.task ≡ done r = cc in (t.item, t.own, (rw same at t.safe))

    -- Whatever the schedule: where the thread of a pending participant has ended, its participant is
    -- settled if it has returned, and has at most one attempt more counted if it has raised.
    pub deploy_parallel-Left :
        is_pending i pending ≡ true
        → (r : Result (Unit {0}))
        → get_elem? (deploy_parallel m schedule pending s).0 i ≡ some (done r)
        → (item : Item) × (item_at i (deploy_parallel m schedule pending s).1 ≡ some item)
          × Left m before r item
    deploy_parallel-Left p r e =
        after_the_last_step (left_over i 17 schedule) (deploy_parallel m schedule pending s) r
          (deploy_parallel-Thread p) e

    -- A thread takes at most 17 steps of the model, in which every call of the outside returns.
    deploy_parallel-ends :
        is_pending i pending ≡ true
        → 17 ≤ turns i schedule
        → (r : Result (Unit {0})) × (get_elem? (deploy_parallel m schedule pending s).0 i
            ≡ some (done r))
    deploy_parallel-ends p h =
        let t = deploy_parallel-Thread p in
        let over = Within-zero t.task (rw (left_over_zero i 17 schedule h) at t.within) in
        (over.0, t.here ∙ ap some over.1)

    abbrev Same : Result (Unit {0}) → Item → Type 0
    Same r item = item ≡ before

    idle-Thread :
        is_pending i pending ≡ false
        → Thread m i Same
            (left_over i 0 schedule)
            (deploy_parallel m schedule pending s).0
            (deploy_parallel m schedule pending s).1
    unfolding deploy_parallel Safe Within
    idle-Thread p =
        interleave-Thread m i Same schedule 0 (tasks_from m pending 0 s.state.participants) s
          (record {
            task = done (ok tt);
            item = before;
            here =
                get_elem?-tasks_from pending 0 i i s.state.participants before (omega arith) at
                ∙ ap (λ b. some (first_task b before)) p;
            own = at;
            safe = refl;
            within = tt;
          })

    -- Whatever the schedule, a participant that is not pending stays as it was.
    pub deploy_parallel-others :
        is_pending i pending ≡ false
        → item_at i (deploy_parallel m schedule pending s).1 ≡ some before
    unfolding Safe
    deploy_parallel-others p =
        let t = idle-Thread p in
        let over =
          Within-zero t.task (rw (left_over_zero i 0 schedule (omega arith)) at t.within) in
        let same : t.item ≡ before = rw over.1 at t.safe in t.own ∙ ap some same
