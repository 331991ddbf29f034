-- ===== src/CloudHypervisor/Transport/Sockets.antt =====
-- pkg/driver/cloudhypervisor/hvsock.go and restore_fds.go: connections, messages and answers.
use Prim.Native.String.{◌++◌ as append, len}
use text.Mathlib.Text.{starts_with}
use vessel.Prelude.Digits.{itoa}
use vessel.CloudHypervisor.Transport.Status.{SaysSuccess, read_http_status-says}
use vessel.Prelude.{
  ℕ, ◌+◌, String, ◌≡◌, refl, true, Option, none, some, List, [], ◌∷◌, arith, Option-cases, inl, inr,
  if◌then◌else◌,
}
use vessel.CloudHypervisor.Transport.{
  Wire, opened, closed, send, VsockPeer, connect_line, finish_handshake, handshake,
  dial_hybrid_vsock, ApiPeer, request_line, request_rest, exchange, api_call_with_fds,
  read_http_status,
}

-- The handshake of hybrid vsock leaves a connection open where it succeeds and none otherwise, and it
-- succeeds only after the request for the port was sent and a line that begins with "OK " was read.
pub dial_hybrid_vsock-agrees :
    (p : VsockPeer) (port : ℕ) (w : Wire)
    → let (after, done) = dial_hybrid_vsock p port w in
      (after.open_conns ≡ (if done then w.open_conns + 1 else w.open_conns))
      × (done ≡ true
          → (after.sent ≡ (connect_line port, []) ∷ w.sent)
            × ((line : String) × (p.line ≡ some line) × (starts_with line "OK " ≡ true)))
unfolding dial_hybrid_vsock handshake finish_handshake opened closed send
dial_hybrid_vsock-agrees p port w = elim (Option-cases p.line) [
  | inl silent ↦ (ground (arith, silent), λ done. absurd (ground (arith, silent, done)))
  | inr (line, said) ↦ (
    ground (arith, said),
    λ done. (ground (arith, said, done), (line, said, ground (arith, said, done))),
  )
]

read_http_status-answers :
    (answer : Option String)
    → read_http_status answer ≡ true
    → (text : String) × (answer ≡ some text) × SaysSuccess text
unfolding read_http_status
read_http_status-answers none h = absurd (ground (arith, h))
read_http_status-answers (some text) h = (text, refl, read_http_status-says text h)

-- A request with descriptors closes its connection on every path. Where it succeeds, the descriptors
-- went with the request line and the first headers, the length in bytes and the body followed
-- without any, and the first line of the answer has 200, 201 or 204 as its second word.
pub api_call_with_fds-agrees :
    (p : ApiPeer) (endpoint body : String) (fds : List ℕ) (w : Wire)
    → let (after, done) = api_call_with_fds p endpoint body fds w in
      let headers = append endpoint " HTTP/1.1\r\nHost: localhost\r\nAccept: */*\r\n" in
      let framed = append (itoa (len body)) (append "\r\n\r\n" body) in
      (after.open_conns ≡ w.open_conns)
      × (done ≡ true
          → (after.sent
              ≡ (append "Content-Length: " framed, [])
                ∷ (append "PUT /api/v1/" headers, fds)
                ∷ w.sent)
            × ((text : String) × (p.answer ≡ some text) × SaysSuccess text))
unfolding api_call_with_fds exchange opened closed send request_line request_rest
api_call_with_fds-agrees p endpoint body fds w = (
  ground arith,
  λ done. (ground (arith, done), read_http_status-answers p.answer (ground (arith, done))),
)
