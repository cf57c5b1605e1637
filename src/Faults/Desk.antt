-- ===== src/Faults/Desk.antt =====
-- The reports that scripts/workshop.py writes below `.workshop/`, and the world around them.
use sre_agent_workshop.Prelude.{String, if◌then◌else◌}
use sre_agent_workshop.Prelude.Text.{str_eq}
use sre_agent_workshop.Exec.{Exec, Result, ok, err, ◌>>=◌, ◌>>◌}
use sre_agent_workshop.Json.{Fields}
use sre_agent_workshop.Tools.Machine.{Machine}
use sre_agent_workshop.Tools.Monitoring.{Values, required}

-- `broken` is what a write that raised has left.
pub data File : Type 0 where
  absent broken : File
  holds : Fields → File

pub record Desk (W : Type 0) : Type 0 where
  pub files : String → File
  pub world : W

abbrev pub stored : String → File → (String → File) → String → File
stored name file files other = if str_eq other name then file else files other

module _ {W : Type 0} where
  -- an action of the world outside
  abbrev pub away : {A : Type 0} → Exec W A → Exec (Desk W) A
  away a d = let (r, w) = a d.world in (r, record d { world = w })

  abbrev pub store : String → File → W → Desk W → Desk W
  store name file w d = record d { files = stored name file d.files; world = w }

module _ (m : Machine) where
  open m use {World, make_directory, replace_file, remove_file}

  -- `state_directory`: the directory is there when it returns
  unfoldable pub state_directory : Values → Exec World (Unit {0})
  state_directory values = do name ← required m values "AZURE_ENV_NAME"; make_directory name

  abbrev pub after_write : String → Fields → Result (Unit {0}) → World → Desk World → Desk World
  after_write name content (ok _) w d = store name (holds content) w d
  after_write name content (err _) w d = store name broken w d

  -- `path.write_text` replaces the content in place
  unfoldable pub write_json : String → Fields → Exec (Desk World) (Unit {0})
  write_json name content d =
      let (r, w) = replace_file d.world in (r, after_write name content r w d)

  abbrev pub after_unlink : String → Result (Unit {0}) → World → Desk World → Desk World
  after_unlink name (ok _) w d = store name absent w d
  after_unlink name (err _) w d = record d { world = w }

  unfoldable pub unlink : String → Exec (Desk World) (Unit {0})
  unlink name d = let (r, w) = remove_file d.world in (r, after_unlink name r w d)

  -- `write_json(state_directory(values) / name, content)`
  unfoldable pub write_report : Values → String → Fields → Exec (Desk World) (Unit {0})
  write_report values name content = away (state_directory values) >> write_json name content

  unfoldable pub remove_report : Values → String → Exec (Desk World) (Unit {0})
  remove_report values name = away (state_directory values) >> unlink name
