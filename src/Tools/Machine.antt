-- ===== src/Tools/Machine.antt =====
-- What the tools take from the operator's machine and from Python's standard library.
use sre_agent_workshop.Prelude.{ℕ, Bool, Option, List, String}
use sre_agent_workshop.Prelude.Int.{ℤ}
use sre_agent_workshop.Exec.{Exec}
use sre_agent_workshop.Json.{Value, text}

-- how `subprocess.run` ends
pub data Ran : Type 0 where
  finished : ℤ → String → String → Ran
  timed_out : Ran

-- `World` is the state of the machine, of its files but those that the model names, and of Azure.
-- Each operation may change it, and may raise what Python raises there.
pub record Machine : Type 1 where
  pub World : Type 0
  -- `shutil.which`, and the bundled runtime of a Windows launcher of the Azure CLI: nothing where
  -- the executable is no such launcher, and then whether the runtime is a file
  pub which : String → Exec World (Option String)
  pub launcher : String → Exec World (Option (String × Bool))
  pub run : List String → ℕ → Exec World Ran
  -- `subprocess.Popen` with its output copied to a log: the exit code, and the last thirty lines
  pub run_process : List String → String → Exec World (ℤ × String)
  -- `atomic_json`: a directory, a temporary file and `replace`; it raises before the replacement
  pub replace_file : Exec World (Unit {0})
  -- `Path.unlink(missing_ok=True)`, and `Path.mkdir(parents=True, exist_ok=True)`
  pub remove_file : Exec World (Unit {0})
  pub make_directory : String → Exec World (Unit {0})
  -- `uuid.uuid4().hex`
  pub fresh_id : Exec World String
  -- a temporary file with this text: its path
  pub temporary_file : String → Exec World String
  -- in nanoseconds, and `round(seconds, 1)` in tenths of a second
  pub monotonic : Exec World ℕ
  pub round_tenths : ℕ → ℕ
  pub sleep : ℕ → Exec World (Unit {0})
  pub utc_now : Exec World String
  pub json_loads : String → Option Value
  -- `json.dumps(value)`
  -- `repr` of a text
  pub repr : String → String
  pub json_dumps : Value → String
  pub casefold : String → String
  pub lower : String → String
  -- `str(value)` of what is no text
  pub str : Value → String
  -- `urllib.parse.quote(text, safe="")`
  pub quote : String → String
  -- `str(uuid.UUID(text))`, where the text is a UUID
  pub uuid : String → Option String
  pub executable : String
  pub workshop_script : String
  -- the path of `infra/fault.bicep`
  pub fault_template : String

module _ (m : Machine) where
  -- `str(value)`
  abbrev pub str_of : Value → String
  str_of (text s) = s
  str_of v = m.str v
