-- ===== src/CloudHypervisor/Clone.antt =====
-- pkg/driver/cloudhypervisor/driver.go, prepareCloneSnapshot: a clone's own view of a template's
-- snapshot. A directory is a table of its entries by name; encoding/json is an argument.
pub mod Sharing
mod Scenarios
use vessel.Prelude.{
  String, Bool, true, false, Option, none, some, List, [], ◌∷◌, str_eq, is_none, ◌&&◌,
  if◌then◌else◌,
}
use vessel.Dict
use vessel.Dict.{Dict, Rows}

pub data Entry : Type 0 where
  subdirectory : Entry
  file : String → Entry

-- a field of a decoded JSON object: an object, or any other value by its text
pub data Field : Type 0 where
  object : Dict String → Field
  value : String → Field

-- what the system refuses, by name, and json.Unmarshal and Marshal of the configuration
pub record Host : Type 0 where
  pub mkdir_fails : Bool
  pub readable : String → Bool
  pub links : String → Bool
  pub writable : String → Bool
  pub decode : String → Option (Dict Field)
  pub encode : Dict Field → Option String

-- os.Link needs the name to be free; else the file is read and written
unfoldable pub take_file : Host → String → String → Dict String → Dict String × Bool
take_file h name text overlay =
    let copied = Dict.put overlay name text in
    if h.links name && is_none (Dict.get overlay name)
    then (copied, true)
    else if h.readable name
    then if h.writable name then (copied, true) else (overlay, false)
    else (overlay, false)

unfoldable pub take_entry : Host → String → Entry → Dict String → Dict String × Bool
unfolding take_file
take_entry h name subdirectory overlay = (overlay, true)
take_entry h name (file text) overlay =
    let taken = take_file h name text overlay in
    if str_eq name "config.json" then (overlay, true) else taken

-- the loop over the entries of the template's snapshot
unfoldable pub take_all : Host → Rows Entry → Dict String → Dict String × Bool
unfolding take_entry
take_all h [] overlay = (overlay, true)
take_all h ((name, e) ∷ rows) overlay =
    let (next, done) = take_entry h name e overlay in
    let rest = take_all h rows next in if done then rest else (next, false)

-- vs["socket"] = vsockPath, where vsock is an object
unfoldable pub set_socket : String → Dict Field → Dict Field
set_socket path cfg = elim (Dict.get cfg "vsock") [
  | none ↦ cfg
  | some f ↦ elim f [
    | object vs ↦ Dict.put cfg "vsock" (object (Dict.put vs "socket" path))
    | value text ↦ cfg
  ]
]

-- os.ReadFile of config.json: none for a missing or unreadable one
unfoldable pub read_config : Host → Dict Entry → Option String
read_config h template = elim (Dict.get template "config.json") [
  | none ↦ none
  | some e ↦ elim e [
    | subdirectory ↦ none
    | file text ↦ if h.readable "config.json" then some text else none
  ]
]

-- the text of the clone's configuration
unfoldable pub rewrite_config : Host → String → Option String → Option String
unfolding set_socket
rewrite_config h path none = none
rewrite_config h path (some text) = elim (h.decode text) [
  | none ↦ none
  | some cfg ↦ h.encode (set_socket path cfg)
]

unfoldable pub write_config : Host → Option String → Dict String → Dict String × Bool
write_config h none overlay = (overlay, false)
write_config h (some text) overlay =
    if h.writable "config.json"
    then (Dict.put overlay "config.json" text, true)
    else (overlay, false)

-- the overlay that a call leaves, with true for a nil error
unfoldable pub prepare_clone_snapshot :
    Host → Dict Entry → String → Dict String → Dict String × Bool
unfolding take_all read_config rewrite_config write_config
prepare_clone_snapshot h template path overlay =
    let (taken, done) = take_all h template.rows_of overlay in
    let finished = write_config h (rewrite_config h path (read_config h template)) taken in
    if h.mkdir_fails then (overlay, false) else if done then finished else (taken, false)
