-- ===== src/Vsock.antt =====
-- pkg/vsock/vsock_linux.go: vsock sockets and the descriptors that they hold. What the kernel answers
-- to each call is an argument; the runtime's poller, behind Read, Write and the deadlines, is not.
pub mod Descriptors
pub mod Interrupts
mod Scenarios
use vessel.Prelude.{
  ℕ, zero, suc, ◌+◌, String, Bool, true, false, Option, none, some, List, [], ◌∷◌, if◌then◌else◌,
}
use vessel.OpenFds.{close}

pub record Addr : Type 0 where
  pub cid : ℕ
  pub port : ℕ

abbrev pub no_addr : Addr
no_addr = record { cid = 0; port = 0 }

pub record Conn : Type 0 where
  pub fd : ℕ
  pub local : Addr
  pub remote : Addr

pub record Listener : Type 0 where
  pub fd : ℕ
  pub addr : Addr

-- what the kernel answers: unix.Socket, with the new descriptor; the calls on one; and the address
-- of Getsockname, where it is a vsock one
pub record Kernel : Type 0 where
  pub socket : Option ℕ
  pub connects : Addr → Bool
  pub binds : ℕ → Bool
  pub listens : Bool
  pub set_nonblock : ℕ → Bool
  pub sockname : ℕ → Option Addr

unfoldable pub local_addr : Kernel → ℕ → Addr
local_addr k fd = elim (k.sockname fd) [ none ↦ no_addr | some a ↦ a ]

unfoldable pub new_conn : Kernel → ℕ → Addr → Addr → List ℕ → List ℕ × Option Conn
unfolding close
new_conn k fd local remote open_fds =
    if k.set_nonblock fd
    then (open_fds, some (record { fd = fd; local = local; remote = remote }))
    else (close fd open_fds, none)

unfoldable pub connect : Kernel → Addr → ℕ → List ℕ → List ℕ × Option Conn
unfolding close new_conn local_addr
connect k to fd open_fds =
    if k.connects to then new_conn k fd (local_addr k fd) to open_fds else (close fd open_fds, none)

unfoldable pub dial : Kernel → Addr → List ℕ → List ℕ × Option Conn
unfolding connect
dial k to open_fds = elim k.socket [
  | none ↦ (open_fds, none)
  | some fd ↦ connect k to fd (fd ∷ open_fds)
]

unfoldable pub bind : Kernel → ℕ → ℕ → List ℕ → List ℕ × Option Listener
unfolding close local_addr
bind k port fd open_fds =
    if k.binds port
    then if k.listens
      then (open_fds, some (record { fd = fd; addr = local_addr k fd }))
      else (close fd open_fds, none)
    else (close fd open_fds, none)

unfoldable pub listen : Kernel → ℕ → List ℕ → List ℕ × Option Listener
unfolding bind
listen k port open_fds = elim k.socket [
  | none ↦ (open_fds, none)
  | some fd ↦ bind k port fd (fd ∷ open_fds)
]

-- unix.Accept4: interrupted, another error, or a descriptor with its peer, if that is a vsock one
pub data Accepted : Type 0 where
  interrupted : Accepted
  refused : Accepted
  accepted : ℕ → Option Addr → Accepted

-- what Accept returns: an error of the kernel's, or what newConn made
unfoldable pub accept_one : Kernel → Listener → Accepted → List ℕ → Option (List ℕ × Option Conn)
unfolding new_conn
accept_one k l interrupted open_fds = none
accept_one k l refused open_fds = some (open_fds, none)
accept_one k l (accepted fd none) open_fds = some (new_conn k fd l.addr no_addr (fd ∷ open_fds))
accept_one k l (accepted fd (some peer)) open_fds = some (new_conn k fd l.addr peer (fd ∷ open_fds))

-- the loop of Accept, which goes on after an interrupt, on fuel: `answers` are the kernel's, by the
-- number of the round
unfoldable pub accept :
    Kernel → Listener → (ℕ → Accepted) → ℕ → ℕ → List ℕ → Option (List ℕ × Option Conn)
unfolding accept_one
accept k l answers zero round open_fds = none
accept k l answers (suc fuel) round open_fds = elim (accept_one k l (answers round) open_fds) [
  | some result ↦ some result
  | none ↦ accept k l answers fuel (round + 1) open_fds
]
