-- ===== src/Shim/Bootstrap/Cleanup.antt =====
-- pkg/shim/bootstrap.go: what a start that fails, an atomic write and a delete leave behind.
use Prim.Native.String.{◌++◌ as append}
use vessel.Prelude.{
  ℕ, ◌+◌, String, ◌≡◌, refl, ap, subst, ◌∙◌, inl, inr, false, some, List, [], ◌∷◌, arith, has,
  Bool-cases, Option-cases, ◌||◌, not, is_none, eq_refl, if◌then◌else◌,
}
use vessel.Prelude.Digits.{itoa}
use vessel.Dict
use vessel.Dict.{Dict, get-put, get-remove}
use vessel.Files.{
  Faults, write_file, rename, remove, get-write_file, tmp-differs, write_file-written, get-rename,
}
use vessel.FilePath.{join, dir}
use vessel.Shim.Bootstrap.{
  Node, Host, Started, started, failed, write_file_atomic, without, kill_process, opened, closed,
  record_pid, record_daemon, spawn_daemon, with_log, with_listener, listen, start_in, run_start,
  socket_path, socket_address,
}

-- Whatever fails, the file at the path holds its earlier text, and the result is an error, or the
-- whole new text, and the result is nil: a part of the text is never found there.
pub write_file_atomic-whole :
    (faults : Faults) (path content : String) (files : Dict String)
    → let (after, done) = write_file_atomic faults path content files in
      Dict.get after path ≡ (if done then some content else Dict.get files path)
unfolding write_file_atomic
write_file_atomic-whole faults path content files =
    let tmp = append path ".tmp" in
    let wrote = write_file faults tmp content files in
    elim (Bool-cases wrote.1) [
      | inl whole ↦
          rw (whole, write_file_atomic)
            (get-rename faults tmp path content wrote.0 (
                ap (λ m. Dict.get m tmp) (write_file-written faults tmp content files whole)
                ∙ ground (arith, get-put files tmp tmp content, eq_refl tmp))
              ∙ ap (λ earlier. if (rename faults tmp path wrote.0).1 then some content else earlier)
                  (get-write_file faults tmp content path files (tmp-differs path)))
      | inr part ↦
          rw (part, write_file_atomic)
            (get-write_file faults tmp content path files (tmp-differs path))
    ]

without-fresh : (p : ℕ) (qs : List ℕ) → has p qs ≡ false → without p qs ≡ qs
unfolding without
without-fresh p [] h = refl
without-fresh p (q ∷ qs) h = ground (arith, h, without-fresh p qs)

without-new : (p : ℕ) (qs : List ℕ) → has p qs ≡ false → without p (p ∷ qs) ≡ qs
unfolding without
without-new p qs h = ground (arith, without-fresh p qs h)

-- a call ends with k open descriptors and, where it fails, with the processes of `base`
abbrev pub Ends : ℕ → List ℕ → Node × Started → Type 0
Ends k base (n, started a) = n.handles ≡ k
Ends k base (n, failed e) = (n.handles ≡ k) × (n.running ≡ base)

-- the system gives a new process an id that no running one has
abbrev pub FreshPid : Host → Node → Type 0
FreshPid h n = (pid : ℕ) → h.spawn ≡ some pid → has pid n.running ≡ false

module _ (h : Host) (bundle address : String) where
  record_pid-Ends :
      (pid : ℕ) (n : Node) (base : List ℕ)
      → n.running ≡ pid ∷ base
      → has pid base ≡ false
      → Ends n.handles base (record_pid h bundle address pid n)
  unfolding record_pid kill_process
  record_pid-Ends pid n base here fresh =
      let wrote = write_file_atomic h.faults (join bundle "shim.pid") (itoa pid) n.files in
      elim (Bool-cases wrote.1) [
        | inl whole ↦ rw (whole, record_pid) refl
        | inr part ↦
            rw (part, record_pid)
              (refl, ap (λ ps. without pid ps) here ∙ without-new pid base fresh)
      ]

  record_daemon-Ends :
      (pid : ℕ) (n : Node) (base : List ℕ)
      → n.running ≡ pid ∷ base
      → has pid base ≡ false
      → Ends n.handles base (record_daemon h bundle address pid n)
  unfolding record_daemon kill_process
  record_daemon-Ends pid n base here fresh =
      let wrote = write_file_atomic h.faults (join bundle "address") address n.files in
      elim (Bool-cases wrote.1) [
        | inl whole ↦
            rw (whole, record_daemon)
              (record_pid-Ends pid (record n { files = wrote.0 }) base here fresh)
        | inr part ↦
            rw (part, record_daemon)
              (refl, ap (λ ps. without pid ps) here ∙ without-new pid base fresh)
      ]

  spawn_daemon-Ends :
      (n : Node) → FreshPid h n → Ends n.handles n.running (spawn_daemon h bundle address n)
  unfolding spawn_daemon
  spawn_daemon-Ends n fresh = elim (Option-cases h.spawn) [
    | inl fails ↦ rw (fails, spawn_daemon) (refl, refl)
    | inr (pid, runs) ↦
        rw (runs, spawn_daemon)
          (record_daemon-Ends pid (record n { running = pid ∷ n.running }) n.running refl
            (fresh pid runs))
  ]

  Ends-closed :
      (j k : ℕ) (base : List ℕ) (r : Node × Started)
      → Ends (j + k) base r
      → Ends j base (closed k r.0, r.1)
  unfolding closed
  Ends-closed j k base (n, started a) e = omega (arith, e)
  Ends-closed j k base (n, failed a) e = (omega (arith, e.0), e.1)

  with_log-Ends : (n : Node) → FreshPid h n → Ends n.handles n.running (with_log h bundle address n)
  unfolding with_log opened
  with_log-Ends n fresh = elim (Bool-cases h.log_fails) [
    | inl fails ↦ rw (fails, with_log) (refl, refl)
    | inr opens ↦
        rw (opens, with_log)
          (Ends-closed n.handles 1 n.running (spawn_daemon h bundle address (opened n))
            (spawn_daemon-Ends (opened n) fresh))
  ]

  with_listener-Ends :
      (k : ℕ) (n : Node)
      → n.handles ≡ k + 1
      → FreshPid h n
      → Ends k n.running (with_listener h bundle address n)
  unfolding with_listener opened closed
  with_listener-Ends k n open_now fresh = elim (Bool-cases h.dup_fails) [
    | inl fails ↦ rw (fails, with_listener) (omega (arith, open_now), refl)
    | inr duplicates ↦
        rw (duplicates, with_listener)
          (Ends-closed k 2 n.running (with_log h bundle address (opened n)) (
            subst (λ m. Ends m n.running (with_log h bundle address (opened n)))
              (omega (arith, open_now)) (with_log-Ends (opened n) fresh)))
  ]

  listen-Ends :
      (path : String) (n : Node)
      → FreshPid h n
      → Ends n.handles n.running (listen h bundle address path n)
  unfolding listen opened
  listen-Ends path n fresh =
      elim (Bool-cases (h.listen_fails path || not (is_none (Dict.get n.files path)))) [
        | inl fails ↦ rw (fails, listen) (refl, refl)
        | inr bound ↦
            rw (bound, listen)
              (with_listener-Ends n.handles (opened (record n { files = Dict.put n.files path "" }))
                refl fresh)
      ]

  start_in-Ends : (n : Node) → FreshPid h n → Ends n.handles n.running (start_in h bundle address n)
  unfolding start_in
  start_in-Ends n fresh =
      let path = socket_path address in
      elim (Bool-cases (h.mkdir_fails (dir path))) [
        | inl fails ↦ rw (fails, start_in) (refl, refl)
        | inr made ↦
            rw (made, start_in)
              (listen-Ends path
                (record n { dirs = dir path ∷ n.dirs; files = remove h.faults path n.files }) fresh)
      ]

-- Whichever step of RunStart fails, no daemon is left behind and every descriptor that it opened is
-- closed: the processes are those from before the call, where the system gives a new process an id
-- that no running one has. A start that succeeds leaves as many descriptors open as before, too.
pub run_start-Ends :
    (h : Host) (namespace id containerd_address : String) (n : Node)
    → FreshPid h n
    → Ends n.handles n.running (run_start h namespace id containerd_address n)
unfolding run_start
run_start-Ends h namespace id containerd_address n fresh = elim (Option-cases h.executable) [
  | inl fails ↦ rw (fails, run_start) (refl, refl)
  | inr (self, found) ↦ elim (Option-cases h.cwd) [
    | inl fails ↦ rw (found, fails, run_start) (refl, refl)
    | inr (bundle, at) ↦
        rw (found, at, run_start)
          (start_in-Ends h bundle (socket_address h containerd_address namespace id) n fresh)
  ]
]
