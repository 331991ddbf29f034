-- ===== src/Vsock/Interrupts.antt =====
-- pkg/vsock/vsock_linux.go: the rounds of Accept.
use vessel.Prelude.{
  ℕ, zero, suc, ◌+◌, ◌<◌, ◌≡◌, ◌≢◌, refl, subst, Option, none, some, List, ◌∷◌, arith,
}
use vessel.Vsock.{
  Conn, Listener, Kernel, Accepted, interrupted, refused, accepted, no_addr, new_conn, accept_one,
  accept,
}

module _ (k : Kernel) (l : Listener) (answers : ℕ → Accepted) (open_fds : List ℕ) where
  accept-after :
      (n round fuel : ℕ)
      → ((i : ℕ) → i < n → answers (round + i) ≡ interrupted)
      → n < fuel
      → {r : List ℕ × Option Conn} → accept_one k l (answers (round + n)) open_fds ≡ some r
      → accept k l answers fuel round open_fds ≡ some r
  unfolding accept
  accept-after n round zero before enough {r} made = absurd (ground (arith, enough))
  accept-after zero round (suc fuel) before enough {r} made =
      let now : accept_one k l (answers round) open_fds ≡ some r =
        subst (λ m. accept_one k l (answers m) open_fds ≡ some r) (omega arith) made in
      rw (now, accept) refl
  accept-after (suc n) round (suc fuel) before enough {r} made =
      let here : answers round ≡ interrupted =
        subst (λ m. answers m ≡ interrupted) (omega arith) (before 0 (omega arith)) in
      let shift : round + suc n ≡ round + 1 + n = omega arith in
      rw (here, accept, accept_one)
        (accept-after n (round + 1) fuel
          (λ i lt.
            subst (λ m. answers m ≡ interrupted) (omega arith) (before (suc i) (omega (arith, lt))))
          (omega (arith, enough))
          (subst (λ m. accept_one k l (answers m) open_fds ≡ some r) shift made))

  answered :
      (a : Accepted)
      → a ≢ interrupted
      → (r : List ℕ × Option Conn) × (accept_one k l a open_fds ≡ some r)
  unfolding accept_one
  answered interrupted h = absurd (h refl)
  answered refused h = ((open_fds, none), refl)
  answered (accepted fd none) h = (new_conn k fd l.addr no_addr (fd ∷ open_fds), refl)
  answered (accepted fd (some peer)) h = (new_conn k fd l.addr peer (fd ∷ open_fds), refl)

  -- Where the kernel interrupts n rounds and then answers otherwise, Accept ends within n + 1 rounds,
  -- with what it makes of that answer on the descriptors that were open when it was called.
  pub accept-accept_one :
      (n fuel : ℕ)
      → ((i : ℕ) → i < n → answers i ≡ interrupted)
      → answers n ≢ interrupted
      → n < fuel
      → (r : List ℕ × Option Conn) × (accept k l answers fuel 0 open_fds ≡ some r)
        × (accept_one k l (answers n) open_fds ≡ some r)
  accept-accept_one n fuel before last enough =
      let (r, made) = answered (answers n) last in
      let at : n ≡ 0 + n = omega arith in
      (
        r,
        accept-after n 0 fuel
            (λ i lt. subst (λ m. answers m ≡ interrupted) (omega arith) (before i lt)) enough
            (subst (λ m. accept_one k l (answers m) open_fds ≡ some r) at made),
        made,
      )
