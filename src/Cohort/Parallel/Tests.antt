-- ===== src/Cohort/Parallel/Tests.antt =====
-- Two participants in two threads, on which the theorems about the schedules are applied.
use sre_agent_workshop.Prelude.{ℕ, zero, suc, ◌≡◌, refl, some, List, [], ◌∷◌, get_elem?}
use sre_agent_workshop.Exec.{ok}
use sre_agent_workshop.Cohort.Model.{Item}
use sre_agent_workshop.Cohort.Store.{
  write_roster_file, write_state_file, save_state, item_at, update_item,
}
use sre_agent_workshop.Cohort.Deploy.{run_validation, run_logged, azd_up}
use sre_agent_workshop.Cohort.Tests.{azure, store, item_eight}
use sre_agent_workshop.Cohort.Parallel.{update_item, done, deploy_task, deploy_parallel, interleave}
use sre_agent_workshop.Cohort.Access.{
  ensure_participant_access, dicts, iterate, is_assignment, role_assignments,
  ensure_role_assignment, sre_agent_scope, is_child_of,
}
use sre_agent_workshop.Tools.Cli.{cli, az, command_of, output_of, json_of}
use sre_agent_workshop.Json.{get}
use sre_agent_workshop.Prelude.Text.{ends_with, strip}
use sre_agent_workshop.Cohort.Parallel.Safety.{Left}
use sre_agent_workshop.Cohort.Parallel.Schedules.{deploy_parallel-Left, deploy_parallel-others}

abbrev both : List ℕ
both = 0 ∷ 1 ∷ []

abbrev rounds : ℕ → List ℕ
rounds zero = []
rounds (suc n) = 0 ∷ 1 ∷ rounds n

deploy_parallel-others_example :
    item_at 1 (deploy_parallel azure (rounds 17) (0 ∷ []) store).1 ≡ some item_eight
deploy_parallel-others_example =
    deploy_parallel-others azure (rounds 17) (0 ∷ []) store 1 item_eight refl refl

returned : get_elem? (deploy_parallel azure (rounds 17) both store).0 1 ≡ some (done (ok tt))
unfolding deploy_parallel interleave deploy_task update_item save_state write_state_file
    write_roster_file azd_up run_logged run_validation ensure_participant_access sre_agent_scope
    is_child_of ensure_role_assignment role_assignments is_assignment iterate dicts az cli
    command_of output_of json_of ends_with strip get
returned = refl

deploy_parallel-Left_example :
    (item : Item) × (item_at 1 (deploy_parallel azure (rounds 17) both store).1 ≡ some item)
    × Left azure item_eight (ok tt) item
deploy_parallel-Left_example =
    deploy_parallel-Left azure (rounds 17) both store 1 item_eight refl refl (ok tt) returned
