-- ===== src/Vmnet/TapFd.antt =====
-- pkg/vmnet/tapfd_linux.go: a descriptor of a TAP that lives in another network namespace. The thread
-- that enters the namespace is never used again, so its namespace is an argument and no state; a
-- process is taken once that thread has ended, with its deferred closes.
pub mod Ownership
mod Scenarios
use vessel.Prelude.{
  ℕ, String, Bool, true, false, ◌||◌, Option, none, some, List, [], ◌∷◌, if◌then◌else◌,
}
use vessel.OpenFds.{close}

-- `attached` are the descriptors of TAPs, each with the namespace and the name, newest first
pub record Process : Type 0 where
  pub open_fds : List ℕ
  pub attached : List (ℕ × String × String)

-- what the kernel answers: the new descriptor where these are open; whether the two paths of the own
-- namespace, a namespace's path and /dev/net/tun open; setns; whether a name fits an Ifreq; and
-- TUNSETIFF in a namespace
pub record Kernel : Type 0 where
  pub new_fd : List ℕ → ℕ
  pub opens_thread_self : Bool
  pub opens_task : Bool
  pub opens_netns : String → Bool
  pub opens_tun : Bool
  pub setns : String → Bool
  pub fits_ifreq : String → Bool
  pub tunsetiff : String → String → Bool

unfoldable pub open_fd : Kernel → Process → Process
open_fd k p = record p { open_fds = k.new_fd p.open_fds ∷ p.open_fds }

unfoldable pub close_fd : ℕ → Process → Process
unfolding close
close_fd fd p = record p { open_fds = close fd p.open_fds }

unfoldable pub attach : Kernel → String → String → ℕ → Process → Process × Option ℕ
unfolding close_fd
attach k netns tap fd p =
    let bound = record p { attached = (fd, netns, tap) ∷ p.attached } in
    if k.fits_ifreq tap
    then if k.tunsetiff netns tap then (bound, some fd) else (close_fd fd p, none)
    else (close_fd fd p, none)

-- in the namespace that the thread is in
unfoldable pub open_tap_in_current_ns : Kernel → String → String → Process → Process × Option ℕ
unfolding attach open_fd
open_tap_in_current_ns k netns tap p =
    if k.opens_tun then attach k netns tap (k.new_fd p.open_fds) (open_fd k p) else (p, none)

-- true where a descriptor of the own namespace was opened
unfoldable pub current_netns_fd : Kernel → Process → Process × Bool
unfolding open_fd
current_netns_fd k p =
    if k.opens_thread_self
    then (open_fd k p, true)
    else if k.opens_task
    then (open_fd k p, true)
    else (p, false)

-- with the target's descriptor open, which is closed at the end
unfoldable pub enter : Kernel → String → String → ℕ → Process → Process × Option ℕ
unfolding open_tap_in_current_ns close_fd
enter k netns_path tap target p =
    let (after, r) = open_tap_in_current_ns k netns_path tap p in
    if k.setns netns_path then (close_fd target after, r) else (close_fd target p, none)

unfoldable pub open_target : Kernel → String → String → Process → Process × Option ℕ
unfolding enter open_fd
open_target k netns_path tap p =
    let entered = enter k netns_path tap (k.new_fd p.open_fds) (open_fd k p) in
    if k.opens_netns netns_path then entered else (p, none)

-- with the own namespace's descriptor open, which is closed last
unfoldable pub enter_from : Kernel → String → String → ℕ → Process → Process × Option ℕ
unfolding open_target close_fd
enter_from k netns_path tap own p =
    let (after, r) = open_target k netns_path tap p in (close_fd own after, r)

unfoldable pub enter_if_found : Kernel → String → String → ℕ → Process × Bool → Process × Option ℕ
unfolding enter_from
enter_if_found k netns_path tap own (p, true) = enter_from k netns_path tap own p
enter_if_found k netns_path tap own (p, false) = (p, none)

unfoldable pub open_tap_fd : Kernel → String → String → Process → Process × Option ℕ
unfolding current_netns_fd enter_if_found
open_tap_fd k netns_path tap p =
    enter_if_found k netns_path tap (k.new_fd p.open_fds) (current_netns_fd k p)
