-- ===== src/Cohort/Store.antt =====
-- `safe_roster`, `write_state`, `save_state` and `update_item` of scripts/cohort.py.
-- An item is named by its position in `state["participants"]`; `update_item` changes it in place
-- and writes both files, each of them replaced as a whole or not at all.
use sre_agent_workshop.Prelude.{ℕ, Option, some, List, map, get_elem?, modify}
use sre_agent_workshop.Exec.{Exec, Result, ok, err, ◌>>◌}
use sre_agent_workshop.Tools.Machine.{Machine}
use sre_agent_workshop.Cohort.Model.{Item, Cohort, RosterEntry}

abbrev pub roster_entry : Item → RosterEntry
roster_entry item = record {
  participant = item.participant;
  subscription = item.subscription_label;
  environment = item.environment;
  resource_group = item.resource_group;
  status = item.status;
}

unfoldable pub safe_roster : Cohort → List RosterEntry
safe_roster state = map roster_entry state.participants

-- The state in memory, the files `state.json` and `roster.json`, and the world around.
pub record Store (W : Type 0) : Type 0 where
  pub state : Cohort
  pub state_file : Option Cohort
  pub roster_file : Option (List RosterEntry)
  pub world : W

module _ {W : Type 0} where
  -- an action of the world outside
  abbrev pub outside : {A : Type 0} → Exec W A → Exec (Store W) A
  outside m s = let (r, w) = m s.world in (r, record s { world = w })

  abbrev pub item_at : ℕ → Store W → Option Item
  item_at i s = get_elem? s.state.participants i

module _ (m : Machine) where
  open m use {World, replace_file}

  abbrev written_state : Result (Unit {0}) → World → Store World → Store World
  written_state (ok _) w s = record s { state_file = some s.state; world = w }
  written_state (err _) w s = record s { world = w }

  abbrev written_roster : Result (Unit {0}) → World → Store World → Store World
  written_roster (ok _) w s = record s { roster_file = some (safe_roster s.state); world = w }
  written_roster (err _) w s = record s { world = w }

  -- `atomic_json(STATE_PATH, state)`
  unfoldable pub write_state_file : Exec (Store World) (Unit {0})
  write_state_file s = let (r, w) = replace_file s.world in (r, written_state r w s)

  -- `atomic_json(ROSTER_PATH, safe_roster(state))`
  unfoldable pub write_roster_file : Exec (Store World) (Unit {0})
  write_roster_file s = let (r, w) = replace_file s.world in (r, written_roster r w s)

  -- `write_state`, and `save_state` around it: the lock orders the calls of several threads
  unfoldable pub save_state : Exec (Store World) (Unit {0})
  save_state = write_state_file >> write_roster_file

  abbrev pub change : ℕ → (Item → Item) → Store World → Store World
  change i f s = record s {
    state = record (s.state) { participants = modify s.state.participants i f };
  }

  unfoldable pub update_item : ℕ → (Item → Item) → Exec (Store World) (Unit {0})
  update_item i f s = save_state (change i f s)
