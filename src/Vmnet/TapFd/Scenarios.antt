-- ===== src/Vmnet/TapFd/Scenarios.antt =====
-- A TAP of a pod, with descriptors numbered one above the largest.
use vessel.Prelude.{ℕ, ◌+◌, ◌≤◌, ◌≡◌, refl, List, [], ◌∷◌, has, some, true, false, arith}
use vessel.Vmnet.TapFd.{Process, Kernel, open_tap_fd}
use vessel.Vmnet.TapFd.Ownership.{Owns, open_tap_fd-Owns}

-- above every open descriptor
abbrev above : List ℕ → ℕ
above [] = 0
above (fd ∷ fds) = fd + above fds + 1

above-has : (fds : List ℕ) (d : ℕ) → above fds ≤ d → has d fds ≡ false
above-has [] d h = refl
above-has (fd ∷ fds) d h = ground (arith, h, above-has fds d (ground (arith, h)))

abbrev kernel : Kernel
kernel = record {
  new_fd = above;
  opens_thread_self = false;
  opens_task = true;
  opens_netns = λ _. true;
  opens_tun = true;
  setns = λ _. true;
  fits_ifreq = λ _. true;
  tunsetiff = λ _ _. true;
}

abbrev process : Process
process = record { open_fds = 2 ∷ 1 ∷ []; attached = [] }

opened : (open_tap_fd kernel "/run/netns/pod" "tap0" process).1 ≡ some 23
unfolding open_tap_fd
opened = refl

open_tap_fd-Owns_example :
    Owns "/run/netns/pod" "tap0" process (open_tap_fd kernel "/run/netns/pod" "tap0" process)
open_tap_fd-Owns_example =
    open_tap_fd-Owns kernel (λ fds. above-has fds (above fds) (ground arith)) "/run/netns/pod"
      "tap0" process
