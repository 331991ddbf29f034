-- ===== src/Vsock/Scenarios.antt =====
-- pkg/vsock on a kernel that interrupts, and one that refuses.
use vessel.Prelude.{
  ℕ, ◌≡◌, ◌≢◌, Option, none, some, List, [], ◌∷◌, arith, true, false, ltb, if◌then◌else◌, ap, Bool,
}
use vessel.Vsock.{
  Conn, Listener, Kernel, Accepted, interrupted, refused, accepted, accept_one, accept, no_addr,
}
use vessel.Vsock.Interrupts.{accept-accept_one}

-- connecting fails after the socket is there
abbrev kernel : Kernel
kernel = record {
  socket = some 7;
  connects = λ _. false;
  binds = λ _. true;
  listens = true;
  set_nonblock = λ _. true;
  sockname = λ _. none;
}

abbrev listener : Listener
listener = record { fd = 4; addr = no_addr }

-- two interrupts, then a connection
abbrev answers : ℕ → Accepted
answers i = if ltb i 2 then interrupted else accepted 9 none

is_interrupted : Accepted → Bool
is_interrupted interrupted = true
is_interrupted refused = false
is_interrupted (accepted fd peer) = false

connects_third : answers 2 ≢ interrupted
unfolding is_interrupted
connects_third h = absurd (ground (arith, ap is_interrupted h))

accept-accept_one_example :
    (r : List ℕ × Option Conn) × (accept kernel listener answers 3 0 (4 ∷ []) ≡ some r)
    × (accept_one kernel listener (answers 2) (4 ∷ []) ≡ some r)
accept-accept_one_example =
    accept-accept_one kernel listener answers (4 ∷ []) 2 3 (λ i lt. ground (arith, lt))
      connects_third (omega arith)
