-- ===== src/Agent.antt =====
-- pkg/agent/proto.go and pkg/agent/server.go: the guest agent. `G` is the guest, and `Guest` what
-- the agent uses of it through os and os/exec; the text of an error stands for the error.
pub mod Net
pub mod Client
pub mod Loop
pub mod Files
mod Scenarios
use vessel.Prelude.{ℕ, ◌==◌, String, str_eq, Option, none, some, List, [], ◌∷◌, if◌then◌else◌}
use Prim.Native.String.{◌++◌ as append}
use vessel.Prelude.Int.{ℤ}
use vessel.FilePath.{dir}
use vessel.Agent.Net.{NetConfig, Run, succeeded, exited, failed, Exec, configure_net}

abbrev pub Bytes : Type 0
Bytes = List ℕ

pub record Request : Type 0 where
  pub id : String
  pub op : String
  pub cmd : List String
  pub env : List String
  pub path : String
  pub content : Bytes
  pub mode : ℕ
  pub net : Option NetConfig

-- an empty `err` is success
pub record Response : Type 0 where
  pub id : String
  pub err : String
  pub exit_code : ℤ
  pub stdout : Bytes
  pub stderr : Bytes
  pub content : Bytes

pub data Reading : Type 0 where
  contents : Bytes → Reading
  unreadable : String → Reading

-- what the agent uses of os, os/exec and fmt; the text of an error is never empty, which the
-- theorems take as a hypothesis where they need it
pub record Guest (G : Type 0) : Type 0 where
  pub run : Exec G
  pub report : List String → Run → String
  pub mkdir_all : String → G → G × Option String
  pub write_file : String → Bytes → ℕ → G → G × Option String
  pub read_file : String → G → Reading

unfoldable pub reply : Request → Response
reply req = record {
  id = req.id;
  err = "";
  exit_code = ℤ.pos 0;
  stdout = [];
  stderr = [];
  content = [];
}

-- the end of `execCmd`: the output, and the exit code or the error
unfoldable pub finish_exec : Run → Response → Response
finish_exec r resp =
    let written = record resp { stdout = r.stdout; stderr = r.stderr } in
    elim r.ending [
      | succeeded ↦ record written { exit_code = ℤ.pos 0 }
      | exited code ↦ record written { exit_code = code }
      | failed e ↦ record written { err = e }
    ]

-- resp.Err = err.Error() where there is an error
unfoldable pub with_error : Option String → Response → Response
with_error none resp = resp
with_error (some e) resp = record resp { err = e }

module _ {G : Type 0} (os : Guest G) where
  unfoldable pub exec_cmd : Request → G → G × Response
  unfolding finish_exec
  exec_cmd req g = elim req.cmd [
    | [] ↦ (g, record (reply req) { err = "empty cmd" })
    | _ ∷ _ ↦ let (g', r) = os.run req.cmd req.env g in (g', finish_exec r (reply req))
  ]

  -- permission 0 is 0o644
  unfoldable pub write_file : Request → G → G × Response
  unfolding with_error
  write_file req g =
      let mode = if req.mode == 0 then 420 else req.mode in
      let (g', made) = os.mkdir_all (dir req.path) g in
      elim made [
        | some e ↦ (g', with_error (some e) (reply req))
        | none ↦
            let (g'', written) = os.write_file req.path req.content mode g' in
            (g'', with_error written (reply req))
      ]

  unfoldable pub read_file : Request → G → G × Response
  read_file req g = elim (os.read_file req.path g) [
    | contents bytes ↦ (g, record (reply req) { content = bytes })
    | unreadable e ↦ (g, record (reply req) { err = e })
  ]

  unfoldable pub configure : Request → G → G × Response
  unfolding with_error configure_net
  configure req g =
      let (g', e) = configure_net os.run os.report req.net g in (g', with_error e (reply req))

  -- the switch; only the log line on stderr is left out
  unfoldable pub handle : Request → G → G × Response
  unfolding reply exec_cmd write_file read_file configure
  handle req g =
      if str_eq req.op "ping"
      then (g, reply req)
      else if str_eq req.op "exec"
      then exec_cmd req g
      else if str_eq req.op "write_file"
      then write_file req g
      else if str_eq req.op "read_file"
      then read_file req g
      else if str_eq req.op "configure_net"
      then configure req g
      else (g, record (reply req) { err = append "unknown op: " req.op })
