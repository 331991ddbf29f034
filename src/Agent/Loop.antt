-- ===== src/Agent/Loop.antt =====
-- pkg/agent/server.go, `handleConn`: the loop over the frames of a connection, and what it answers.
use vessel.Prelude.{
  Option, none, some, String, ◌≡◌, refl, Bool, true, false, List, [], ◌∷◌, ◌++◌, map, arith,
}
use vessel.Agent.Net.{configure_net}
use vessel.Agent.{
  reply, finish_exec, with_error, Request, Response, Guest, handle, exec_cmd, write_file, read_file,
  configure,
}

-- what Decode yields, and whether Encode of the response that follows succeeds
pub data Frame : Type 0 where
  undecoded : Frame
  decoded : Request → Bool → Frame

-- requests that decode, and whose responses can be written
abbrev pub answered : List Request → List Frame
answered = map (λ req. decoded req true)

module _ {G : Type 0} (os : Guest G) where
  -- the guest afterwards, and the responses that went out
  unfoldable pub handle_conn : List Frame → G → G × List Response
  unfolding handle
  handle_conn [] g = (g, [])
  handle_conn (undecoded ∷ frames) g = (g, [])
  handle_conn (decoded req false ∷ frames) g = ((handle os req g).0, [])
  handle_conn (decoded req true ∷ frames) g =
      let (g', resp) = handle os req g in
      let (g'', sent) = handle_conn frames g' in (g'', resp ∷ sent)

  with_error-id : (e : Option String) (resp : Response) → (with_error e resp).id ≡ resp.id
  unfolding with_error
  with_error-id none resp = refl
  with_error-id (some e) resp = refl

  exec_cmd-id : (req : Request) (g : G) → (exec_cmd os req g).1.id ≡ req.id
  unfolding exec_cmd finish_exec reply
  exec_cmd-id req g = ground arith

  write_file-id : (req : Request) (g : G) → (write_file os req g).1.id ≡ req.id
  unfolding write_file with_error reply
  write_file-id req g = ground arith

  read_file-id : (req : Request) (g : G) → (read_file os req g).1.id ≡ req.id
  unfolding read_file reply
  read_file-id req g = ground arith

  configure-id : (req : Request) (g : G) → (configure os req g).1.id ≡ req.id
  unfolding configure reply
  configure-id req g = with_error-id (configure_net os.run os.report req.net g).1 (reply req)

  pub handle-id : (req : Request) (g : G) → (handle os req g).1.id ≡ req.id
  unfolding handle reply
  handle-id req g =
      ground (arith, exec_cmd-id req g, write_file-id req g, read_file-id req g, configure-id req g)

  -- The responses to requests that decode and whose responses can be written are one per request,
  -- in their order and under their ids; a frame that does not decode ends the loop, so whatever
  -- follows it neither runs nor is answered.
  pub handle_conn-ids :
      (reqs : List Request) (rest : List Frame) (g : G)
      → (map (λ resp. resp.id) (handle_conn (answered reqs ++ undecoded ∷ rest) g).1
          ≡ map (λ req. req.id) reqs)
        × (handle_conn (answered reqs ++ undecoded ∷ rest) g ≡ handle_conn (answered reqs) g)
  unfolding handle_conn
  handle_conn-ids [] rest g = (refl, refl)
  handle_conn-ids (req ∷ reqs) rest g =
      let (ids, ended) = handle_conn-ids reqs rest (handle os req g).0 in
      (rw (handle-id req g, ids) refl, rw ended refl)
