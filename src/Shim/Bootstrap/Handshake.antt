-- ===== src/Shim/Bootstrap/Handshake.antt =====
-- pkg/shim/bootstrap.go: whom `delete` kills, also after a start.
use vessel.Prelude.{
  ℕ, zero, suc, ◌<◌, ◌^◌, String, ◌≡◌, refl, ap, ◌∙◌, inl, inr, true, false, Option, none, some,
  ◌∷◌, arith, All, Bool-cases, Option-cases, ◌||◌, not, is_none, if◌then◌else◌,
}
use vessel.Prelude.Int.{ℤ, pos, negsuc, ◌-ℤ◌, leb_ℤ}
use vessel.Prelude.Digits.{itoa}
use vessel.Prelude.Decimal.{atoi, trim_space}
use vessel.Dict
use vessel.Dict.{Dict, get-put, get-remove}
use vessel.Files.{remove}
use vessel.FilePath.{join, dir}
use vessel.Shim.Bootstrap.Cleanup.{write_file_atomic-whole}
use vessel.Prelude.Decimal.{atoi-itoa}
use vessel.Shim.Bootstrap.{
  Node, Host, Started, started, failed, write_file_atomic, as_pid, signed, deliver, kill, opened,
  closed, record_pid, record_daemon, spawn_daemon, with_log, with_listener, listen, start_in,
  run_start, kill_pid, kill_recorded, delete_in, run_delete, socket_path, socket_address,
}

-- a signal that reaches processes above 1 only: not every process, which -1 means, nor init
abbrev pub Aimed : ℤ → Type 0
Aimed (pos p) = 1 < p
Aimed (negsuc p) = 1 < suc p

deliver-signals : (p : ℤ) (n : Node) → (deliver p n).signals ≡ p ∷ n.signals
unfolding deliver
deliver-signals (pos p) n = refl
deliver-signals (negsuc zero) n = refl
deliver-signals (negsuc (suc p)) n = refl

as_pid-pos : (p : ℕ) → p < 2 ^ 31 → as_pid (pos p) ≡ pos p
unfolding as_pid signed
as_pid-pos p small = ground (arith, small)

as_pid-negsuc : (p : ℕ) → p < 2 ^ 31 → as_pid (negsuc p) ≡ negsuc p
unfolding as_pid signed
as_pid-negsuc p small = ground (arith, small)

-- a process above 1: its group first, then the process
kill_pid-group :
    (p : ℕ) (n : Node)
    → 0 < p
    → suc p < 2 ^ 31
    → kill_pid (some (pos (suc p))) n ≡ deliver (pos (suc p)) (deliver (negsuc p) n)
unfolding kill_pid kill
kill_pid-group p n large small =
    let leads : leb_ℤ (pos (suc p)) (pos 1) ≡ false = ground (arith, large) in
    let group : pos 0 -ℤ pos (suc p) ≡ negsuc p = ground arith in
    rw (leads, group, kill_pid, kill, as_pid-pos (suc p) small, as_pid-negsuc p (omega arith)) refl

kill_pid-Aimed :
    (p : Option ℤ) (n : Node)
    → ((q : ℕ) → p ≡ some (pos q) → q < 2 ^ 31)
    → All Aimed n.signals
    → All Aimed (kill_pid p n).signals
unfolding kill_pid deliver
kill_pid-Aimed none n fits h = h
kill_pid-Aimed (some (pos zero)) n fits h = h
kill_pid-Aimed (some (pos (suc zero))) n fits h = h
kill_pid-Aimed (some (pos (suc (suc p)))) n fits h =
    rw (kill_pid-group (suc p) n (omega arith) (fits (suc (suc p)) refl))
      (omega arith, (omega arith, h))
kill_pid-Aimed (some (negsuc p)) n fits h =
    let low : leb_ℤ (negsuc p) (pos 1) ≡ true = ground arith in rw (low, kill_pid) h

kill_recorded-Aimed :
    (text : Option String) (n : Node)
    → ((s : String) (q : ℕ) → text ≡ some s → atoi (trim_space s) ≡ some (pos q) → q < 2 ^ 31)
    → All Aimed n.signals
    → All Aimed (kill_recorded text n).signals
unfolding kill_recorded
kill_recorded-Aimed none n fits h = h
kill_recorded-Aimed (some text) n fits h =
    kill_pid-Aimed (atoi (trim_space text)) n (λ q e. fits text q refl e) h

-- a number in shim.pid of the working directory that is positive fits a pid_t
abbrev pub FitsPid : Host → Node → Type 0
FitsPid h n =
    (bundle text : String) (p : ℕ)
    → h.cwd ≡ some bundle
    → Dict.get n.files (join bundle "shim.pid") ≡ some text
    → atoi (trim_space text) ≡ some (pos p)
    → p < 2 ^ 31

-- Whatever else stands in shim.pid than a number from 2 ^ 31 on, or if there is no such file,
-- `delete` sends signals only to a process above 1 and its group: with the signals sent before aimed
-- so, all are.
pub run_delete-Aimed :
    (h : Host) (namespace id containerd_address : String) (n : Node)
    → FitsPid h n
    → All Aimed n.signals
    → All Aimed (run_delete h namespace id containerd_address n).0.signals
unfolding run_delete delete_in kill_recorded
run_delete-Aimed h namespace id containerd_address n fits a = elim (Option-cases h.cwd) [
  | inl lost ↦ rw (lost, run_delete) a
  | inr (bundle, at) ↦
      rw (at, run_delete)
        (kill_recorded-Aimed (Dict.get n.files (join bundle "shim.pid")) n
          (λ s q e number. fits bundle s q at e number) a)
]

module _ (h : Host) (bundle address : String) where
  -- what a start that succeeded has written of the daemon
  abbrev Recorded : ℕ → Node → Node × Started → Type 0
  Recorded pid n (m, failed e) = Unit
  Recorded pid n (m, started a) =
      (Dict.get m.files (join bundle "shim.pid") ≡ some (itoa pid)) × (m.signals ≡ n.signals)

  record_pid-Recorded : (pid : ℕ) (n : Node) → Recorded pid n (record_pid h bundle address pid n)
  unfolding record_pid
  record_pid-Recorded pid n =
      let path = join bundle "shim.pid" in
      let wrote = write_file_atomic h.faults path (itoa pid) n.files in
      elim (Bool-cases wrote.1) [
        | inl whole ↦
            rw (whole, record_pid)
              (
                write_file_atomic-whole h.faults path (itoa pid) n.files
                    ∙ ap (λ b. if b then some (itoa pid) else Dict.get n.files path) whole,
                refl,
              )
        | inr part ↦ rw (part, record_pid) tt
      ]

  record_daemon-Recorded :
      (pid : ℕ) (n : Node) → Recorded pid n (record_daemon h bundle address pid n)
  unfolding record_daemon
  record_daemon-Recorded pid n =
      let wrote = write_file_atomic h.faults (join bundle "address") address n.files in
      elim (Bool-cases wrote.1) [
        | inl whole ↦
            rw (whole, record_daemon) (record_pid-Recorded pid (record n { files = wrote.0 }))
        | inr part ↦ rw (part, record_daemon) tt
      ]

  spawn_daemon-Recorded :
      (pid : ℕ) (n : Node) → h.spawn ≡ some pid → Recorded pid n (spawn_daemon h bundle address n)
  unfolding spawn_daemon
  spawn_daemon-Recorded pid n runs =
      rw (runs, spawn_daemon) (record_daemon-Recorded pid (record n { running = pid ∷ n.running }))

  Recorded-closed :
      (pid k : ℕ) (n : Node) (r : Node × Started)
      → Recorded pid n r
      → Recorded pid n (closed k r.0, r.1)
  unfolding closed
  Recorded-closed pid k n (m, started a) e = e
  Recorded-closed pid k n (m, failed a) e = e

  with_log-Recorded :
      (pid : ℕ) (n : Node) → h.spawn ≡ some pid → Recorded pid n (with_log h bundle address n)
  unfolding with_log opened
  with_log-Recorded pid n runs = elim (Bool-cases h.log_fails) [
    | inl fails ↦ rw (fails, with_log) tt
    | inr opens ↦
        rw (opens, with_log)
          (Recorded-closed pid 1 n (spawn_daemon h bundle address (opened n))
            (spawn_daemon-Recorded pid (opened n) runs))
  ]

  with_listener-Recorded :
      (pid : ℕ) (n : Node) → h.spawn ≡ some pid → Recorded pid n (with_listener h bundle address n)
  unfolding with_listener opened
  with_listener-Recorded pid n runs = elim (Bool-cases h.dup_fails) [
    | inl fails ↦ rw (fails, with_listener) tt
    | inr duplicates ↦
        rw (duplicates, with_listener)
          (Recorded-closed pid 2 n (with_log h bundle address (opened n))
            (with_log-Recorded pid (opened n) runs))
  ]

  listen-Recorded :
      (pid : ℕ) (path : String) (n : Node)
      → h.spawn ≡ some pid
      → Recorded pid n (listen h bundle address path n)
  unfolding listen opened
  listen-Recorded pid path n runs =
      elim (Bool-cases (h.listen_fails path || not (is_none (Dict.get n.files path)))) [
        | inl fails ↦ rw (fails, listen) tt
        | inr bound ↦
            rw (bound, listen)
              (with_listener-Recorded pid (opened (record n { files = Dict.put n.files path "" }))
                runs)
      ]

  start_in-Recorded :
      (pid : ℕ) (n : Node) → h.spawn ≡ some pid → Recorded pid n (start_in h bundle address n)
  unfolding start_in
  start_in-Recorded pid n runs =
      let path = socket_path address in
      elim (Bool-cases (h.mkdir_fails (dir path))) [
        | inl fails ↦ rw (fails, start_in) tt
        | inr made ↦
            rw (made, start_in)
              (listen-Recorded pid path
                (record n { dirs = dir path ∷ n.dirs; files = remove h.faults path n.files }) runs)
      ]

  kill_recorded_lem :
      (pid : ℕ) (n : Node) (r : Node × Started) (a : String)
      → Recorded (suc pid) n r
      → r.1 ≡ started a
      → 0 < pid
      → suc pid < 2 ^ 31
      → (delete_in h bundle address r.0).signals ≡ pos (suc pid) ∷ negsuc pid ∷ n.signals
  unfolding delete_in kill_recorded
  kill_recorded_lem pid n (m, failed e) a rec done large small = absurd (ground (arith, done))
  kill_recorded_lem pid n (m, started b) a rec done large small =
      rw
        (
          rec.0,
          delete_in,
          kill_recorded,
          atoi-itoa (suc pid) (omega arith),
          kill_pid-group pid m large small,
        )
        (deliver-signals (pos (suc pid)) (deliver (negsuc pid) m)
          ∙ ap (λ sent. pos (suc pid) ∷ sent) (deliver-signals (negsuc pid) m)
          ∙ ap (λ sent. pos (suc pid) ∷ negsuc pid ∷ sent) rec.1)

run_delete-deletes :
    (h : Host) (namespace id containerd_address : String) (n : Node) {bundle : String}
    → h.cwd ≡ some bundle
    → (run_delete h namespace id containerd_address n).0
      ≡ delete_in h bundle (socket_address h containerd_address namespace id) n
unfolding run_delete
run_delete-deletes h namespace id containerd_address n at = rw (at, run_delete) refl

run_start-starts :
    (h : Host) (namespace id containerd_address : String) (n : Node) {self bundle : String}
    → h.executable ≡ some self
    → h.cwd ≡ some bundle
    → run_start h namespace id containerd_address n
      ≡ start_in h bundle (socket_address h containerd_address namespace id) n
unfolding run_start
run_start-starts h namespace id containerd_address n found at = rw (found, at, run_start) refl

-- Where RunStart returned an address, for a daemon whose id is above 1 and below 2 ^ 31, a delete in
-- the same directory kills its process group and then the process, and signals nothing else.
pub run_delete-run_start :
    (h : Host) (namespace id containerd_address : String) (n : Node) (bundle address : String)
    (pid : ℕ)
    → h.cwd ≡ some bundle
    → h.spawn ≡ some (suc pid)
    → (run_start h namespace id containerd_address n).1 ≡ started address
    → 0 < pid
    → suc pid < 2 ^ 31
    → let running = (run_start h namespace id containerd_address n).0 in
      (run_delete h namespace id containerd_address running).0.signals
      ≡ pos (suc pid) ∷ negsuc pid ∷ n.signals
unfolding run_start
run_delete-run_start h namespace id containerd_address n bundle address pid at runs done large
      small =
    elim (Option-cases h.executable) [
      | inl lost ↦ absurd (ground (arith, rw (lost, run_start) at done))
      | inr (self, found) ↦
          let own = socket_address h containerd_address namespace id in
          let starts = run_start-starts h namespace id containerd_address n found at in
          rw
            (
              run_delete-deletes h namespace id containerd_address
                  (run_start h namespace id containerd_address n).0 at,
              starts,
            )
            (kill_recorded_lem h bundle own pid n (start_in h bundle own n) address
              (start_in-Recorded h bundle own (suc pid) n runs) (rw starts at done) large small)
    ]
