-- ===== src/Agent/Files.antt =====
-- The host's client and the guest's agent together, over a connection that loses nothing.
use vessel.Prelude.{
  ℕ, String, ◌≡◌, refl, str_eq, eq_refl, eq_iff, arith, none, some, List, ◌∷◌, ◌≢◌, ◌==◌, inl, inr,
  Option-cases, if◌then◌else◌,
}
use vessel.FilePath.{dir}
use vessel.Prelude.Int.{ℤ}
use vessel.Agent.{
  Bytes, Request, Response, Guest, contents, handle, exec_cmd, finish_exec, reply,
  write_file as agent_write, read_file as agent_read, with_error,
}
use vessel.Agent.Net.{Run, Ending, succeeded, exited, failed}
use vessel.Agent.Client.{
  received, Client, remote, Outcome, done, failure, next_id, receive, then_done, request,
  round_trip, exec, write_file, read_file, served_by,
}
use vessel.Agent.Loop.{handle-id}

-- what the host is told of a program that ran: an exit status is no error
abbrev pub outcome_of : Run → Outcome (ℤ × Bytes × Bytes)
outcome_of r = elim r.ending [
  | succeeded ↦ done (ℤ.pos 0, r.stdout, r.stderr)
  | exited code ↦ done (code, r.stdout, r.stderr)
  | failed e ↦ failure (remote e)
]

module _ {G : Type 0} (os : Guest G) where
  -- Every request that the agent serves comes back under its own id: a round trip yields the
  -- agent's response, or its error as a remote one, and never reports a mismatch of ids.
  pub round_trip-handle :
      (req : Request) (c : Client G)
      → let sent = record req { id = next_id c.seq } in
        let resp = (handle os sent c.peer).1 in
        (round_trip (served_by os) req c).1
        ≡ (if str_eq resp.err "" then done resp else failure (remote resp.err))
  unfolding round_trip served_by receive
  round_trip-handle req c =
      let sent : Request = record req { id = next_id c.seq } in
      ground (arith, handle-id os sent c.peer, eq_iff (handle os sent c.peer).1.id (next_id c.seq))

  receive_exec :
      (id : String) (ending : Ending) (out err_out : Bytes) (req : Request)
      → req.id ≡ id
      → ((e : String) → ending ≡ failed e → e ≢ "")
      → let r : Run = record { ending = ending; stdout = out; stderr = err_out } in
        then_done
          (λ resp. (resp.exit_code, resp.stdout, resp.stderr))
          (receive id (received (finish_exec r (reply req))))
        ≡ outcome_of r
  unfolding then_done receive finish_exec reply
  receive_exec id succeeded out err_out req same text = ground (arith, eq_iff req.id id)
  receive_exec id (exited code) out err_out req same text = ground (arith, eq_iff req.id id)
  receive_exec id (failed e) out err_out req same text =
      ground (arith, eq_iff req.id id, eq_iff e "", text e refl)

  -- Exec of a command in the guest, where the errors of os/exec have a text: the program runs once,
  -- with that command and environment, and the host gets its exit code, zero or not, with its
  -- output; only a failure that is no exit status is an error.
  pub exec_lem :
      (name : String) (args env : List String) (c : Client G)
      → ((e : String) → (os.run (name ∷ args) env c.peer).1.ending ≡ failed e → e ≢ "")
      → let (g, r) = os.run (name ∷ args) env c.peer in
        let (c', told) = exec (served_by os) (name ∷ args) env c in
        (c'.peer ≡ g) × (told ≡ outcome_of r)
  unfolding exec round_trip served_by handle exec_cmd
  exec_lem name args env c nonempty =
      let (g, r) = os.run (name ∷ args) env c.peer in
      (
        refl,
        receive_exec (next_id c.seq) r.ending r.stdout r.stderr
            (record (request "exec") { cmd = name ∷ args; env = env; id = next_id c.seq }) refl
            nonempty,
      )

  -- What the agent relies on of os: a file that was written reads back, and errors have a text.
  pub record KeepsFiles : Type 0 where
    pub reads_back :
        (path : String) (bytes : Bytes) (mode : ℕ) (g : G)
        → (os.write_file path bytes mode g).1 ≡ none
        → os.read_file path (os.write_file path bytes mode g).0 ≡ contents bytes
    pub mkdir_text : (path e : String) (g : G) → (os.mkdir_all path g).1 ≡ some e → e ≢ ""
    pub write_text :
        (path e : String) (bytes : Bytes) (mode : ℕ) (g : G)
        → (os.write_file path bytes mode g).1 ≡ some e
        → e ≢ ""

  agent_write-reads :
      KeepsFiles
      → (req : Request) (g : G) → (agent_write os req g).1.err ≡ ""
      → os.read_file req.path (agent_write os req g).0 ≡ contents req.content
  unfolding agent_write with_error reply
  agent_write-reads laws req g ok =
      let mode = if req.mode == 0 then 420 else req.mode in
      let made = os.mkdir_all (dir req.path) g in
      elim (Option-cases made.1) [
        | inr (e, n) ↦
            absurd
              (laws.mkdir_text (dir req.path) e g n (ground (arith, rw (n, agent_write) at ok)))
        | inl n ↦ elim (Option-cases (os.write_file req.path req.content mode made.0).1) [
          | inr (e, m) ↦ absurd (
              laws.write_text req.path e req.content mode made.0 m
                (ground (arith, rw (m, agent_write) at (rw (n, agent_write) at ok))))
          | inl m ↦ rw (n, agent_write) (laws.reads_back req.path req.content mode made.0 m)
        ]
      ]

  accepted-err :
      (id : String) (resp : Response)
      → then_done (λ _. tt {0}) (receive id (received resp)) ≡ done tt
      → resp.err ≡ ""
  unfolding then_done receive
  accepted-err id resp ok = ground (arith, ok, eq_iff resp.err "")

  agent_read-contents :
      (req : Request) (bytes : Bytes) (g : G)
      → os.read_file req.path g ≡ contents bytes
      → agent_read os req g ≡ (g, record (reply req) { content = bytes })
  unfolding agent_read
  agent_read-contents req bytes g n = rw (n, agent_read) refl

  read_file-contents :
      (path : String) (bytes : Bytes) (c : Client G)
      → os.read_file path c.peer ≡ contents bytes
      → (read_file (served_by os) path c).1 ≡ done bytes
  unfolding read_file round_trip served_by handle then_done receive reply
  read_file-contents path bytes c n =
      let sent : Request = record (request "read_file") { path = path; id = next_id c.seq } in
      rw (agent_read-contents sent bytes c.peer n) (ground (arith, eq_refl (next_id c.seq)))

  -- Where a file that os.WriteFile wrote reads back and os errors have a text, a file that the host
  -- wrote into the guest without an error reads back as it was written.
  pub write_file-read_file :
      KeepsFiles
      → (path : String) (bytes : Bytes) (mode : ℕ) (c : Client G)
      → (write_file (served_by os) path bytes mode c).1 ≡ done tt
      → (read_file (served_by os) path (write_file (served_by os) path bytes mode c).0).1
        ≡ done bytes
  unfolding write_file round_trip served_by handle
  write_file-read_file laws path bytes mode c ok =
      let sent : Request = record (request "write_file") {
        path = path;
        content = bytes;
        mode = mode;
        id = next_id c.seq;
      } in
      read_file-contents path bytes (write_file (served_by os) path bytes mode c).0 (
        agent_write-reads laws sent c.peer
          (accepted-err (next_id c.seq) (agent_write os sent c.peer).1 ok))
