-- ===== src/Cohort/SubscriptionTests.antt =====
-- Two subscriptions of one tenant, on which the theorem about them is applied.
use sre_agent_workshop.Prelude.{◌+◌, ◌≡◌, refl, some, List, [], ◌∷◌, String, if◌then◌else◌}
use sre_agent_workshop.Prelude.Int.{pos}
use sre_agent_workshop.Prelude.Text.{one_of, strip, decimal}
use sre_agent_workshop.Exec.{ok}
use sre_agent_workshop.Json.{Value, object, field, end, text, get}
use sre_agent_workshop.Tools.Lab.{lab}
use sre_agent_workshop.Tools.Machine.{Machine, finished}
use sre_agent_workshop.Tools.Cli.{cli, az, command_of, output_of, json_of}
use sre_agent_workshop.Cohort.Model.{Subscription}
use sre_agent_workshop.Cohort.Resolve.{labelled, has_tenant, resolve_from, resolve_subscriptions}
use sre_agent_workshop.Cohort.Subscriptions.{IsResolved, resolve_subscriptions-IsResolved}

abbrev account : String → Value
account s =
    object (field "id" (text s) (field "tenantId" (text "t-1") (field "name" (text "Lab") end)))

abbrev azure : Machine
azure = record lab {
  run = λ command timeout w.
      (ok (finished (pos 0) (if one_of "first" command then "s-1" else "s-2") ""), w + 1);
  json_loads = λ s. some (account s);
}

abbrev pair : List Subscription
pair = labelled 1 "s-1" "t-1" (text "Lab") ∷ labelled 2 "s-2" "t-1" (text "Lab") ∷ []

resolves : (resolve_subscriptions azure ("first" ∷ "second" ∷ []) 0).0 ≡ ok pair
unfolding resolve_subscriptions resolve_from has_tenant az cli command_of output_of json_of strip
    get decimal
resolves = refl

resolve_subscriptions-IsResolved_example : IsResolved ("first" ∷ "second" ∷ []) pair
resolve_subscriptions-IsResolved_example =
    resolve_subscriptions-IsResolved azure ("first" ∷ "second" ∷ []) 0 pair resolves
