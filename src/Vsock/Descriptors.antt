-- ===== src/Vsock/Descriptors.antt =====
-- pkg/vsock/vsock_linux.go: the descriptors that Dial and Listen leave open.
use vessel.Prelude.{
  ℕ, ◌≡◌, refl, Option, none, some, List, ◌∷◌, has, Bool-cases, Option-cases, inl, inr, false,
}
use vessel.OpenFds.{close-new}
use vessel.Vsock.{Addr, Conn, Listener, Kernel, new_conn, connect, dial, bind, listen, local_addr}

-- an error leaves the descriptors that were there; a connection is the one that it adds
abbrev pub Holds : List ℕ → List ℕ × Option Conn → Type 0
Holds before (after, none) = after ≡ before
Holds before (after, some c) = after ≡ c.fd ∷ before

abbrev pub HoldsListener : List ℕ → List ℕ × Option Listener → Type 0
HoldsListener before (after, none) = after ≡ before
HoldsListener before (after, some l) = after ≡ l.fd ∷ before

module _ (k : Kernel) (open_fds : List ℕ) where
  -- the kernel gives a descriptor that is not open
  abbrev pub FreshSocket : Type 0
  FreshSocket = (fd : ℕ) → k.socket ≡ some fd → has fd open_fds ≡ false

  pub new_conn-Holds :
      (fd : ℕ) (local remote : Addr)
      → has fd open_fds ≡ false
      → Holds open_fds (new_conn k fd local remote (fd ∷ open_fds))
  unfolding new_conn
  new_conn-Holds fd local remote fresh = elim (Bool-cases (k.set_nonblock fd)) [
    | inl ready ↦ rw (ready, new_conn) refl
    | inr blocked ↦ rw (blocked, new_conn) (close-new fd open_fds fresh)
  ]

  connect-Holds :
      (to : Addr) (fd : ℕ)
      → has fd open_fds ≡ false
      → Holds open_fds (connect k to fd (fd ∷ open_fds))
  unfolding connect
  connect-Holds to fd fresh = elim (Bool-cases (k.connects to)) [
    | inl connected ↦ rw (connected, connect) (new_conn-Holds fd (local_addr k fd) to fresh)
    | inr refused ↦ rw (refused, connect) (close-new fd open_fds fresh)
  ]

  bind-HoldsListener :
      (port fd : ℕ)
      → has fd open_fds ≡ false
      → HoldsListener open_fds (bind k port fd (fd ∷ open_fds))
  unfolding bind
  bind-HoldsListener port fd fresh = elim (Bool-cases (k.binds port)) [
    | inr refused ↦ rw (refused, bind) (close-new fd open_fds fresh)
    | inl bound ↦ elim (Bool-cases k.listens) [
      | inr deaf ↦ rw (bound, deaf, bind) (close-new fd open_fds fresh)
      | inl listens ↦ rw (bound, listens, bind) refl
    ]
  ]

  -- Dial and Listen close the socket on every error path: afterwards the open descriptors are those
  -- from before, and the new one where they succeed, and nothing else. The kernel gives a descriptor
  -- that is not open.
  pub dial-Holds :
      (to : Addr) (port : ℕ)
      → FreshSocket
      → Holds open_fds (dial k to open_fds) × HoldsListener open_fds (listen k port open_fds)
  unfolding dial listen
  dial-Holds to port fresh = elim (Option-cases k.socket) [
    | inl none_left ↦ rw (none_left, dial, listen) (refl, refl)
    | inr (fd, given) ↦
        rw (given, dial, listen)
          (connect-Holds to fd (fresh fd given), bind-HoldsListener port fd (fresh fd given))
  ]
