-- ===== src/CloudHypervisor/Transport/Scenarios.antt =====
-- The two transports of the Cloud Hypervisor driver on concrete answers.
use text.Mathlib.Text.{starts_with}
use vessel.Prelude.{String, ◌≡◌, refl, some, [], ◌∷◌, true, false, if◌then◌else◌}
use vessel.Prelude.Digits.{itoa}
use vessel.CloudHypervisor.Transport.{
  Wire, VsockPeer, ApiPeer, connect_line, dial_hybrid_vsock, api_call_with_fds, read_http_status,
}
use vessel.CloudHypervisor.Transport.Status.{SaysSuccess}
use vessel.CloudHypervisor.Transport.Sockets.{dial_hybrid_vsock-agrees, api_call_with_fds-agrees}

abbrev quiet : Wire
quiet = record { open_conns = 2; sent = [] }

abbrev guest : VsockPeer
guest = record {
  dials = true;
  sets_deadline = true;
  takes = true;
  line = some "OK 1073741824\n";
  clears_deadline = true;
}

abbrev api : ApiPeer
api = record {
  dials = true;
  takes_line = true;
  takes_body = true;
  answer = some "HTTP/1.1 204 No Content\r\n\r\n";
}

evaluated : Unit {0}
unfolding read_http_status dial_hybrid_vsock connect_line itoa
evaluated = tt

statuses :
    (read_http_status (some "HTTP/1.1 204 No Content\r\nA: b\r\n\r\n") ≡ true)
    × (read_http_status (some "HTTP/1.1 200") ≡ true)
    × (read_http_status (some "HTTP/1.1 500 Oops\r\n") ≡ false)
    × (read_http_status (some "204") ≡ false)
unfolding evaluated
statuses = (refl, refl, refl, refl)

dialled :
    dial_hybrid_vsock guest 5000 quiet
    ≡ (record { open_conns = 3; sent = ("CONNECT 5000\n", []) ∷ [] }, true)
unfolding evaluated
dialled = refl

dial_hybrid_vsock-agrees_example :
    let (after, done) = dial_hybrid_vsock guest 5000 quiet in
    (after.open_conns ≡ (if done then 3 else 2))
    × (done ≡ true
        → (after.sent ≡ (connect_line 5000, []) ∷ [])
          × ((line : String) × (guest.line ≡ some line) × (starts_with line "OK " ≡ true)))
dial_hybrid_vsock-agrees_example = dial_hybrid_vsock-agrees guest 5000 quiet

api_call_with_fds-agrees_example :
    let (after, done) = api_call_with_fds api "vm.add-net" "{}" (9 ∷ []) quiet in
    (after.open_conns ≡ 2)
    × (done ≡ true
        → (after.sent
            ≡ ("Content-Length: 2\r\n\r\n{}", [])
              ∷ ("PUT /api/v1/vm.add-net HTTP/1.1\r\nHost: localhost\r\nAccept: */*\r\n", 9 ∷ [])
              ∷ [])
          × ((text : String) × (api.answer ≡ some text) × SaysSuccess text))
unfolding itoa
api_call_with_fds-agrees_example = api_call_with_fds-agrees api "vm.add-net" "{}" (9 ∷ []) quiet
