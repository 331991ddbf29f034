-- ===== src/Agent/Client.antt =====
-- pkg/agent/client.go: the host's side of the protocol. The peer is what answers on the connection.
use Prim.Native.String.{◌++◌ as append}
use vessel.Prelude.{ℕ, ◌+◌, ◌%◌, ◌^◌, String, str_eq, none, some, List, [], if◌then◌else◌}
use vessel.Prelude.Int.{ℤ}
use vessel.Prelude.Digits.{itoa}
use vessel.Agent.{Bytes, Request, Response, Guest, handle}
use vessel.Agent.Net.{NetConfig}

-- what Encode of a request and Decode of its response lead to
pub data Delivery : Type 0 where
  unsent : String → Delivery
  unreceived : String → Delivery
  received : Response → Delivery

-- the errors of the client
pub data Failure : Type 0 where
  send_failed : String → Failure
  recv_failed : String → Failure
  mismatched : String → String → Failure
  remote : String → Failure

pub data Outcome {ℓ} (A : Type ℓ) : Type ℓ where
  done : A → Outcome A
  failure : Failure → Outcome A

-- the client's counter, which wraps at 64 bits, and the peer at the other end
pub record Client (P : Type 0) : Type 0 where
  pub seq : ℕ
  pub peer : P

unfoldable pub next_id : ℕ → String
unfolding itoa
next_id seq = append "r" (itoa ((seq + 1) % 2 ^ 64))

unfoldable pub receive : String → Delivery → Outcome Response
receive id (unsent e) = failure (send_failed e)
receive id (unreceived e) = failure (recv_failed e)
receive id (received resp) =
    if str_eq resp.id id
    then if str_eq resp.err "" then done resp else failure (remote resp.err)
    else failure (mismatched resp.id id)

unfoldable pub then_done {ℓ} : {A : Type ℓ} → (Response → A) → Outcome Response → Outcome A
then_done f (done resp) = done (f resp)
then_done f (failure e) = failure e

-- a request with no field set but its op
unfoldable pub request : String → Request
request op = record {
  id = "";
  op = op;
  cmd = [];
  env = [];
  path = "";
  content = [];
  mode = 0;
  net = none;
}

module _ {P : Type 0} (deliver : Request → P → P × Delivery) where
  unfoldable pub round_trip : Request → Client P → Client P × Outcome Response
  unfolding receive next_id
  round_trip req c =
      let (p, d) = deliver (record req { id = next_id c.seq }) c.peer in
      (record { seq = (c.seq + 1) % 2 ^ 64; peer = p }, receive (next_id c.seq) d)

  unfoldable pub ping : Client P → Client P × Outcome (Unit {0})
  unfolding round_trip request then_done
  ping c = let (c', r) = round_trip (request "ping") c in (c', then_done (λ _. tt) r)

  unfoldable pub exec :
      List String → List String → Client P → Client P × Outcome (ℤ × Bytes × Bytes)
  unfolding round_trip request then_done
  exec cmd env c =
      let (c', r) = round_trip (record (request "exec") { cmd = cmd; env = env }) c in
      (c', then_done (λ resp. (resp.exit_code, resp.stdout, resp.stderr)) r)

  unfoldable pub write_file : String → Bytes → ℕ → Client P → Client P × Outcome (Unit {0})
  unfolding round_trip request then_done
  write_file path bytes mode c =
      let req = record (request "write_file") { path = path; content = bytes; mode = mode } in
      let (c', r) = round_trip req c in (c', then_done (λ _. tt) r)

  unfoldable pub read_file : String → Client P → Client P × Outcome Bytes
  unfolding round_trip request then_done
  read_file path c =
      let (c', r) = round_trip (record (request "read_file") { path = path }) c in
      (c', then_done (λ resp. resp.content) r)

  unfoldable pub configure_net : NetConfig → Client P → Client P × Outcome (Unit {0})
  unfolding round_trip request then_done
  configure_net cfg c =
      let (c', r) = round_trip (record (request "configure_net") { net = some cfg }) c in
      (c', then_done (λ _. tt) r)

-- a connection that loses nothing, with the agent behind it
unfoldable pub served_by : {G : Type 0} → Guest G → Request → G → G × Delivery
unfolding handle
served_by os req g = let (g', resp) = handle os req g in (g', received resp)
