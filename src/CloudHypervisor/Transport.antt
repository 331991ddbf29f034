-- ===== src/CloudHypervisor/Transport.antt =====
-- pkg/driver/cloudhypervisor/hvsock.go and restore_fds.go: the handshake of hybrid vsock, and an API
-- request that carries file descriptors. What a peer answers is an argument. The
-- characters of a text are its bytes.
pub mod Sockets
pub mod Status
mod Scenarios
use Prim.Native.Char.{code}
use Prim.Native.String.{◌++◌ as append, len}
use text.Mathlib.Text.{starts_with}
use vessel.Prelude.{
  ℕ, ◌+◌, ◌-◌, String, Bool, true, false, Option, none, some, List, [], ◌∷◌, ◌==◌, ◌&&◌, ◌||◌,
  str_eq, if◌then◌else◌,
}
use vessel.Prelude.Digits.{itoa}

-- `open_conns` counts this side's open connections; `sent` are the messages, newest first, each with
-- the descriptors that ride on it
pub record Wire : Type 0 where
  pub open_conns : ℕ
  pub sent : List (String × List ℕ)

unfoldable pub opened : Wire → Wire
opened w = record w { open_conns = w.open_conns + 1 }

unfoldable pub closed : Wire → Wire
closed w = record w { open_conns = w.open_conns - 1 }

unfoldable pub send : String → List ℕ → Wire → Wire
send text fds w = record w { sent = (text, fds) ∷ w.sent }

-- whether the dial, the two deadlines and the write work, and the line that is read
pub record VsockPeer : Type 0 where
  pub dials : Bool
  pub sets_deadline : Bool
  pub takes : Bool
  pub line : Option String
  pub clears_deadline : Bool

unfoldable pub connect_line : ℕ → String
connect_line port = append "CONNECT " (append (itoa port) "\n")

unfoldable pub finish_handshake : VsockPeer → String → Wire → Wire × Bool
unfolding closed
finish_handshake p line w =
    if starts_with line "OK "
    then if p.clears_deadline then (w, true) else (closed w, false)
    else (closed w, false)

unfoldable pub handshake : VsockPeer → ℕ → Wire → Wire × Bool
unfolding closed send finish_handshake connect_line
handshake p port w =
    let asked = send (connect_line port) [] w in
    if p.sets_deadline
    then if p.takes
      then elim p.line [ none ↦ (closed asked, false) | some l ↦ finish_handshake p l asked ]
      else (closed w, false)
    else (closed w, false)

-- true for a connection, which is then open
unfoldable pub dial_hybrid_vsock : VsockPeer → ℕ → Wire → Wire × Bool
unfolding opened handshake
dial_hybrid_vsock p port w =
    let done = handshake p port (opened w) in if p.dials then done else (w, false)

-- strings.Cut at the first "\r\n", what is before it
unfoldable pub before_crlf : String → String
before_crlf String.[] = ""
before_crlf (String.◌∷◌ c String.[]) = String.◌∷◌ c ""
before_crlf (String.◌∷◌ c (String.◌∷◌ d s)) =
    let rest = before_crlf (String.◌∷◌ d s) in
    if code c == 13 && code d == 10 then "" else String.◌∷◌ c rest

-- what is before the first space, and what is behind it
unfoldable pub before_space : String → String
before_space String.[] = ""
before_space (String.◌∷◌ c s) =
    let rest = before_space s in if code c == 32 then "" else String.◌∷◌ c rest

unfoldable pub after_space : String → Option String
after_space String.[] = none
after_space (String.◌∷◌ c s) = let rest = after_space s in if code c == 32 then some s else rest

unfoldable pub is_success : String → Bool
is_success field = str_eq field "200" || str_eq field "201" || str_eq field "204"

-- what was read, or an error with nothing read
unfoldable pub read_http_status : Option String → Bool
unfolding before_crlf before_space after_space is_success
read_http_status none = false
read_http_status (some text) = elim (after_space (before_crlf text)) [
  | none ↦ false
  | some rest ↦ is_success (before_space rest)
]

pub record ApiPeer : Type 0 where
  pub dials : Bool
  pub takes_line : Bool
  pub takes_body : Bool
  pub answer : Option String

unfoldable pub request_line : String → String
request_line endpoint =
    append "PUT /api/v1/" (append endpoint " HTTP/1.1\r\nHost: localhost\r\nAccept: */*\r\n")

unfoldable pub request_rest : String → String
request_rest body = append "Content-Length: " (append (itoa (len body)) (append "\r\n\r\n" body))

unfoldable pub exchange : ApiPeer → String → String → List ℕ → Wire → Wire × Bool
unfolding send request_line request_rest read_http_status
exchange p endpoint body fds w =
    let asked = send (request_line endpoint) fds w in
    let told = send (request_rest body) [] asked in
    if p.takes_line
    then if p.takes_body then (told, read_http_status p.answer) else (asked, false)
    else (w, false)

-- the connection is closed on every path
unfoldable pub api_call_with_fds : ApiPeer → String → String → List ℕ → Wire → Wire × Bool
unfolding opened closed exchange
api_call_with_fds p endpoint body fds w =
    let (after, done) = exchange p endpoint body fds (opened w) in
    if p.dials then (closed after, done) else (w, false)

-- with the encoded configuration
unfoldable pub restore_vm_with_fds : ApiPeer → Option String → List ℕ → Wire → Wire × Bool
unfolding api_call_with_fds
restore_vm_with_fds p none fds w = (w, false)
restore_vm_with_fds p (some body) fds w = api_call_with_fds p "vm.restore" body fds w

unfoldable pub add_net_with_fds : ApiPeer → Option String → List ℕ → Wire → Wire × Bool
unfolding api_call_with_fds
add_net_with_fds p none fds w = (w, false)
add_net_with_fds p (some body) fds w = api_call_with_fds p "vm.add-net" body fds w
