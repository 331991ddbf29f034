-- ===== src/Vmnet/TapFd/Ownership.antt =====
-- pkg/vmnet/tapfd_linux.go: the descriptors that OpenTapFD leaves open.
use vessel.Prelude.{
  ℕ, String, ◌≡◌, refl, sym, subst, ap, ◌∙◌, true, false, Option, none, some, List, ◌∷◌, has, ◌⊎◌,
  Bool-cases, inl, inr, arith,
}
use vessel.OpenFds.{close-new, close-second}
use vessel.Vmnet.TapFd.{
  Process, Kernel, open_fd, close_fd, attach, open_tap_in_current_ns, current_netns_fd, enter,
  open_target, enter_from, enter_if_found, open_tap_fd,
}

-- an error leaves the process as it was; a descriptor is a new one, the one more that is open, and
-- bound to the TAP in that namespace
abbrev pub Owns : String → String → Process → Process × Option ℕ → Type 0
Owns netns tap before (after, none) = after ≡ before
Owns netns tap before (after, some fd) =
    (has fd before.open_fds ≡ false)
    × (after
        ≡ record { open_fds = fd ∷ before.open_fds; attached = (fd, netns, tap) ∷ before.attached })

module _ (k : Kernel) (fresh : (fds : List ℕ) → has (k.new_fd fds) fds ≡ false)
    (netns tap : String) where
  close_fd-new : (p : Process) → close_fd (k.new_fd p.open_fds) (open_fd k p) ≡ p
  unfolding close_fd open_fd
  close_fd-new p =
      ap (λ fds. record p { open_fds = fds }) (close-new _ p.open_fds (fresh p.open_fds))

  open_tap_in_current_ns-Owns :
      (p : Process) → Owns netns tap p (open_tap_in_current_ns k netns tap p)
  unfolding open_tap_in_current_ns attach
  open_tap_in_current_ns-Owns p = elim (Bool-cases k.opens_tun) [
    | inr lost ↦ rw (lost, open_tap_in_current_ns) refl
    | inl opens ↦ elim (Bool-cases (k.fits_ifreq tap)) [
      | inr long ↦ rw (opens, long, open_tap_in_current_ns, attach) (close_fd-new p)
      | inl fits ↦ elim (Bool-cases (k.tunsetiff netns tap)) [
        | inr busy ↦ rw (opens, fits, busy, open_tap_in_current_ns, attach) (close_fd-new p)
        | inl bound ↦
            rw (opens, fits, bound, open_tap_in_current_ns, attach)
              (fresh p.open_fds, unfold open_fd in refl)
      ]
    ]
  ]

  -- a call with one more descriptor open, which is closed behind it
  Owns-close_fd :
      (p : Process) (r : Process × Option ℕ)
      → Owns netns tap (open_fd k p) r
      → Owns netns tap p (close_fd (k.new_fd p.open_fds) r.0, r.1)
  unfolding close_fd open_fd
  Owns-close_fd p (after, none) h = ap (λ q. close_fd (k.new_fd p.open_fds) q) h ∙ close_fd-new p
  Owns-close_fd p (after, some fd) (new, h) = (
    ground (arith, new),
    ap (λ q. close_fd (k.new_fd p.open_fds) q) h
        ∙ ap (λ fds. record { open_fds = fds; attached = (fd, netns, tap) ∷ p.attached })
            (close-second _ fd p.open_fds (fresh p.open_fds) new),
  )

  enter-Owns :
      (p : Process) → Owns netns tap p (enter k netns tap (k.new_fd p.open_fds) (open_fd k p))
  unfolding enter
  enter-Owns p = elim (Bool-cases (k.setns netns)) [
    | inr refused ↦ rw (refused, enter) (close_fd-new p)
    | inl entered ↦
        rw (entered, enter)
          (Owns-close_fd p (open_tap_in_current_ns k netns tap (open_fd k p))
            (open_tap_in_current_ns-Owns (open_fd k p)))
  ]

  open_target-Owns : (p : Process) → Owns netns tap p (open_target k netns tap p)
  unfolding open_target
  open_target-Owns p = elim (Bool-cases (k.opens_netns netns)) [
    | inr missing ↦ rw (missing, open_target) refl
    | inl opens ↦ rw (opens, open_target) (enter-Owns p)
  ]

  current_netns_fd-cases :
      (p : Process)
      → (current_netns_fd k p ≡ (p, false)) ⊎ (current_netns_fd k p ≡ (open_fd k p, true))
  unfolding current_netns_fd
  current_netns_fd-cases p = elim (Bool-cases k.opens_thread_self) [
    | inl opens ↦ inr (rw (opens, current_netns_fd) refl)
    | inr old ↦ elim (Bool-cases k.opens_task) [
      | inl opens ↦ inr (rw (old, opens, current_netns_fd) refl)
      | inr lost ↦ inl (rw (old, lost, current_netns_fd) refl)
    ]
  ]

  -- Once the thread of OpenTapFD has ended, an error, at whichever of its system calls, has left the
  -- process with the descriptors and bindings that it had, and a success has added one descriptor
  -- alone, a new one that is bound to the named TAP in the named namespace. The kernel gives
  -- descriptors that are not open.
  pub open_tap_fd-Owns : (p : Process) → Owns netns tap p (open_tap_fd k netns tap p)
  unfolding open_tap_fd
  open_tap_fd-Owns p = elim (current_netns_fd-cases p) [
    | inl lost ↦
        subst (λ r. Owns netns tap p (enter_if_found k netns tap (k.new_fd p.open_fds) r))
          (sym lost) (unfold enter_if_found in refl)
    | inr found ↦
        subst (λ r. Owns netns tap p (enter_if_found k netns tap (k.new_fd p.open_fds) r))
          (sym found)
          (unfold enter_if_found in
            unfold enter_from in
            Owns-close_fd p (open_target k netns tap (open_fd k p))
              (open_target-Owns (open_fd k p)))
  ]
