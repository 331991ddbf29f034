-- ===== src/Api.antt =====
-- pkg/api/server.go: the REST API for agents. A request carries its decoded JSON body, `none` where
-- decoding fails. A handler that panics is aborted by net/http with no response, which is `none`.
pub mod Errors
pub mod Clients
mod Scenarios
use vessel.Prelude.{ℕ, String, str_eq, Option, none, some, List, [], map, if◌then◌else◌, is_empty}
use vessel.Sandbox.{State, Error, Result, ok, err, panic, Spec, ExecOutput, Instance}
use vessel.Sandbox.Manager.{
  Daemon, create as manager_create, find, list as manager_list, delete as manager_delete,
  snapshot as manager_snapshot, fork as manager_fork, restore_from,
}

pub record Item : Type 0 where
  pub id : String
  pub state : State

-- What a response carries: nothing, an error's text (a decoding error's, a handler's own, or that of
-- the manager), or a JSON value.
pub data Body : Type 0 where
  blank : Body
  undecoded : Body
  text : String → Body
  failure : Error → Body
  sandbox : Item → Body
  sandboxes : List Item → Body
  outcome : ExecOutput → Body
  saved : String → Body

pub record Response : Type 0 where
  pub status : ℕ
  pub body : Body

pub record CreateReq : Type 0 where
  pub driver : String
  pub spec : Option Spec

pub record RestoreReq : Type 0 where
  pub driver : String
  pub path : String
  pub netns : String

-- the routes of the mux, with what each handler reads from the request
pub data Request : Type 0 where
  checks_health : Request
  lists : Request
  creates : Option CreateReq → Request
  execs : String → Option (List String) → Request
  deletes : String → Request
  snapshots : String → Option String → Request
  forks : String → Option String → Request
  restores : Option RestoreReq → Request

abbrev pub answer : ℕ → Body → Option Response
answer status body = some (record { status = status; body = body })

module _ {W : Type 0} where
  unfoldable pub describe : W → Instance W → Item
  describe w i = record { id = i.id; state = i.state w }

  -- writeJSON(w, {"id": inst.ID(), "state": inst.State()}), or the error as a 500
  unfoldable pub announce : Daemon W × Result (Instance W) → Daemon W × Option Response
  unfolding describe
  announce (s, ok i) = (s, answer 200 (sandbox (describe s.world i)))
  announce (s, err e) = (s, answer 500 (failure e))
  announce (s, panic) = (s, none)

  -- a call with no result: `good` on success, and the error under the status that a handler gives it
  unfoldable pub settle :
      Option Response → ℕ → Daemon W × Result (Unit {0}) → Daemon W × Option Response
  settle good bad (s, ok _) = (s, good)
  settle good bad (s, err e) = (s, answer bad (failure e))
  settle good bad (s, panic) = (s, none)

  unfoldable pub healthz : Daemon W → Daemon W × Option Response
  healthz s = (s, answer 200 (text "ok"))

  unfoldable pub create : Option CreateReq → Daemon W → Daemon W × Option Response
  unfolding announce manager_create
  create none s = (s, answer 400 undecoded)
  create (some req) s =
      let driver = if str_eq req.driver "" then "process" else req.driver in
      announce (manager_create driver req.spec s)

  unfoldable pub list : Daemon W → Daemon W × Option Response
  unfolding manager_list describe
  list s = (s, answer 200 (sandboxes (map (describe s.world) (manager_list s))))

  unfoldable pub delete : String → Daemon W → Daemon W × Option Response
  unfolding settle manager_delete
  delete id s = settle (answer 204 blank) 404 (manager_delete id s)

  unfoldable pub finish_exec : Daemon W → W × Result ExecOutput → Daemon W × Option Response
  finish_exec s (w, ok out) = (record s { world = w }, answer 200 (outcome out))
  finish_exec s (w, err e) = (record s { world = w }, answer 500 (failure e))
  finish_exec s (w, panic) = (record s { world = w }, none)

  unfoldable pub exec : String → Option (List String) → Daemon W → Daemon W × Option Response
  unfolding find finish_exec
  exec id req s = elim (find id s) [
    | none ↦ (s, answer 404 (text "sandbox not found"))
    | some i ↦ elim req [
      | none ↦ (s, answer 400 (text "bad exec request"))
      | some cmd ↦
          if is_empty cmd
          then (s, answer 400 (text "bad exec request"))
          else finish_exec s (i.exec cmd s.world)
    ]
  ]

  unfoldable pub snapshot : String → Option String → Daemon W → Daemon W × Option Response
  unfolding settle manager_snapshot
  snapshot id none s = (s, answer 400 (text "bad snapshot request: path required"))
  snapshot id (some path) s =
      if str_eq path ""
      then (s, answer 400 (text "bad snapshot request: path required"))
      else settle (answer 200 (saved path)) 500 (manager_snapshot id path s)

  unfoldable pub fork : String → Option String → Daemon W → Daemon W × Option Response
  unfolding announce manager_fork
  fork id none s = (s, answer 400 (text "bad fork request: path required"))
  fork id (some path) s =
      if str_eq path ""
      then (s, answer 400 (text "bad fork request: path required"))
      else announce (manager_fork id path s)

  unfoldable pub restore : Option RestoreReq → Daemon W → Daemon W × Option Response
  unfolding announce restore_from
  restore none s = (s, answer 400 (text "bad restore request: path required"))
  restore (some req) s =
      if str_eq req.path ""
      then (s, answer 400 (text "bad restore request: path required"))
      else let driver = if str_eq req.driver "" then "cloudhypervisor" else req.driver in
        announce (restore_from driver req.path (record { netns = req.netns }) s)

  unfoldable pub serve : Request → Daemon W → Daemon W × Option Response
  unfolding healthz create list delete exec snapshot fork restore
  serve checks_health s = healthz s
  serve lists s = list s
  serve (creates req) s = create req s
  serve (execs id req) s = exec id req s
  serve (deletes id) s = delete id s
  serve (snapshots id req) s = snapshot id req s
  serve (forks id req) s = fork id req s
  serve (restores req) s = restore req s
