-- ===== src/Command/Running.antt =====
-- cmd/vessel/main.go: what `vessel run` does to the sandbox that it made, and its exit code.
use vessel.Prelude.{◌≡◌, ◌≢◌, refl, ap, sym, subst, some, is_empty, false}
use vessel.Sandbox.{stopped, Result, ok, err, panic, Instance, Driver, ExecOutput}
use vessel.Prelude.Int.{pos}
use vessel.Sandbox.Manager.{Daemon, create}
use vessel.Sandbox.Manager.Reaping.{Reaps}
use vessel.Command.{
  Exit, crashes, RunFlags, exits, exit_of, run_spec, stop_after, exec_and_stop, run_created,
  cmd_run,
}

-- how the command ends for what Exec returned: with the program's exit code, with 1 after an
-- error, or by the panic
abbrev pub EndsWith : Result ExecOutput → Exit → Type 0
EndsWith (ok out) exit = exit ≡ exits out.code
EndsWith (err e) exit = exit ≡ exits (pos 1)
EndsWith panic exit = exit ≡ crashes

exit_of-EndsWith : (r : Result ExecOutput) → EndsWith r (exit_of r)
unfolding exit_of
exit_of-EndsWith (ok out) = refl
exit_of-EndsWith (err e) = refl
exit_of-EndsWith panic = refl

module _ {W : Type 0} {Managed : Instance W → Type 0} {Closes : Driver W → Type 0}
    (reaps : Reaps Managed Closes) where
  stop_exit : Exit → Result (Unit {0}) → Exit
  stop_exit exit r = elim r [ ok _ ↦ exit | err _ ↦ exit | panic ↦ crashes ]

  stop_exit-same : (exit : Exit) (r : Result (Unit {0})) → r ≢ panic → stop_exit exit r ≡ exit
  unfolding stop_exit
  stop_exit-same exit (ok _) h = refl
  stop_exit-same exit (err _) h = refl
  stop_exit-same exit panic h = absurd (h refl)

  -- Where the driver made a sandbox that keeps the promise of `Reaps`, `vessel run` runs the command
  -- once and leaves the sandbox stopped, however Exec ends, a panic included; its exit code is the
  -- program's, or 1 after an error of Exec, and a panic of Exec crashes it.
  pub cmd_run-stops :
      (flags : RunFlags) (s t : Daemon W) (i : Instance W)
      → is_empty flags.rest ≡ false
      → create flags.driver (some (run_spec flags.rootfs flags.rest)) s ≡ (t, ok i)
      → Managed i
      → let (after, exit) = cmd_run flags s in
        (i.state after.world ≡ stopped)
        × (after.world ≡ (i.stop (i.exec flags.rest t.world).0).0)
        × EndsWith (i.exec flags.rest t.world).1 exit
  unfolding cmd_run run_created exec_and_stop stop_after stop_exit
  cmd_run-stops flags s t i some_command made managed =
      let w = (i.exec flags.rest t.world).0 in
      let ran : cmd_run flags s ≡ run_created flags.rest (t, ok i) =
        rw (some_command, cmd_run) (ap (λ r. run_created flags.rest r) made) in
      rw ran (
        reaps.stops i managed w,
        refl,
        subst (λ x. EndsWith (i.exec flags.rest t.world).1 x)
            (sym (
              stop_exit-same (exit_of (i.exec flags.rest t.world).1) (i.stop w).1
                (reaps.no_panic i managed w)))
            (exit_of-EndsWith (i.exec flags.rest t.world).1),
      )
