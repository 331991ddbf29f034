-- ===== src/CloudHypervisor/Driver/Exec.antt =====
-- pkg/driver/cloudhypervisor/driver.go: Exec of an instance, and what it runs in the guest.
mod Scenarios
use vessel.Prelude.{
  ℕ, String, ◌≡◌, ◌≢◌, refl, ap, ◌∙◌, subst, sym, Bool, Option, none, some, List, [], ◌∷◌,
  if◌then◌else◌,
}
use vessel.Prelude.Int.{ℤ}
use vessel.Agent.{Bytes, Guest}
use vessel.Agent.Net.{Run, Ending, succeeded, exited, failed}
use vessel.Agent.Client.{Client, Outcome, done, failure, served_by, exec as agent_exec}
use vessel.Agent.Files.{outcome_of, exec_lem}
use vessel.CloudHypervisor.Driver.{Vm, Host, Machine}

-- -1 with an error, or an exit code with what was written to stdout and stderr
pub data Executed : Type 0 where
  not_executed : String → Executed
  executed : ℤ → Bytes → Bytes → Executed

-- a nil writer gets nothing
unfoldable pub write_out : Bool → Bool → Outcome (ℤ × Bytes × Bytes) → Executed
write_out to_stdout to_stderr (done (code, out, err_out)) =
    executed code (if to_stdout then out else []) (if to_stderr then err_out else [])
write_out to_stdout to_stderr (failure _) = not_executed "agent"

-- `to_stdout` and `to_stderr` are whether there is a writer
unfoldable pub exec :
    {H : Type 0} → Host H → List String → Bool → Bool → Machine H → Machine H × Executed
unfolding agent_exec write_out
exec os cmd to_stdout to_stderr s = elim s.vm.agent [
  | none ↦ (s, not_executed "agent not connected")
  | some n ↦
      let (c, r) = agent_exec (os.deliver s.vm.id) cmd [] (record { seq = n; peer = s.host }) in
      (
        record s { host = c.peer; vm = record s.vm { agent = some c.seq } },
        write_out to_stdout to_stderr r,
      )
]

-- what the caller of a program that ran in the guest gets
abbrev pub told_of : Bool → Bool → Run → Executed
told_of to_stdout to_stderr r =
    let out = if to_stdout then r.stdout else [] in
    let err_out = if to_stderr then r.stderr else [] in
    elim r.ending [
      | succeeded ↦ executed (ℤ.pos 0) out err_out
      | exited code ↦ executed code out err_out
      | failed e ↦ not_executed "agent"
    ]

write_out-outcome_of :
    (to_stdout to_stderr : Bool) (ending : Ending) (out err_out : Bytes)
    → let r : Run = record { ending = ending; stdout = out; stderr = err_out } in
      write_out to_stdout to_stderr (outcome_of r) ≡ told_of to_stdout to_stderr r
unfolding write_out
write_out-outcome_of a b succeeded out err_out = refl
write_out-outcome_of a b (exited code) out err_out = refl
write_out-outcome_of a b (failed e) out err_out = refl

-- Exec of an instance whose agent is connected, where the agent of the repository serves the
-- connection and the errors of os/exec have a text: the program runs once in the guest, without an
-- environment of its own, and the caller gets its exit code and, at the writers that there are, its
-- output. A program that could not be run is an error.
pub exec-runs :
    {G : Type 0} (guest : Guest G) (os : Host G) (s : Machine G) (n : ℕ) (name : String)
    (args : List String) (to_stdout to_stderr : Bool)
    → os.deliver s.vm.id ≡ served_by guest
    → s.vm.agent ≡ some n
    → ((e : String) → (guest.run (name ∷ args) [] s.host).1.ending ≡ failed e → e ≢ "")
    → let (g, r) = guest.run (name ∷ args) [] s.host in
      let (after, told) = exec os (name ∷ args) to_stdout to_stderr s in
      (after.host ≡ g) × (told ≡ told_of to_stdout to_stderr r)
unfolding exec
exec-runs guest os s n name args to_stdout to_stderr served connected nonempty =
    let ran = exec_lem guest name args [] (record { seq = n; peer = s.host }) nonempty in
    let r = (guest.run (name ∷ args) [] s.host).1 in
    rw (connected, served, exec)
      (
        ran.0,
        ap (λ told. write_out to_stdout to_stderr told) ran.1
            ∙ write_out-outcome_of to_stdout to_stderr r.ending r.stdout r.stderr,
      )
