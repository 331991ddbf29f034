-- ===== src/Sandbox/Manager/Reaping.antt =====
-- `Shutdown` of pkg/sandbox/sandbox.go stops every tracked sandbox, for any backend whose `Stop`
-- and `Close` keep the promise that the daemon relies on.
use mathlib.Core.List.{Memᴰ}
use vessel.Prelude.{
  String, ◌≡◌, ◌≢◌, refl, none, some, List, [], ◌∷◌, arith, Option-cases, inl, inr,
}
use vessel.Dict
use vessel.Dict.{get-empty}
use vessel.Sandbox.{stopped, Result, ok, err, panic, Instance, Driver}
use vessel.Sandbox.Manager.{Daemon, Entry, find, list, stop_all, close_all, shutdown}
use vessel.Sandbox.Manager.Listing.{list_of_find}

-- The promise of a backend about the instances that it manages: `Stop` does not panic and leaves
-- the instance stopped, and neither `Stop` of another instance nor `Close` revives a stopped one.
pub record Reaps {W : Type 0} (Managed : Instance W → Type 0) (Closes : Driver W → Type 0)
    : Type 0 where
  pub stops : (i : Instance W) → Managed i → (w : W) → i.state (i.stop w).0 ≡ stopped
  pub keeps :
      (i j : Instance W)
      → Managed i
      → Managed j
      → (w : W) → j.state w ≡ stopped
      → j.state (i.stop w).0 ≡ stopped
  pub no_panic : (i : Instance W) → Managed i → (w : W) → (i.stop w).1 ≢ panic
  pub close_keeps :
      (d : Driver W) {close : W → W} (j : Instance W)
      → Closes d
      → d.close ≡ some close
      → Managed j
      → (w : W) → j.state w ≡ stopped
      → j.state (close w) ≡ stopped

module _ {W : Type 0} {Managed : Instance W → Type 0} {Closes : Driver W → Type 0}
    (reaps : Reaps Managed Closes) where
  stop_next : W × Result (Unit {0}) → List (Instance W) → W × Result (Unit {0})
  stop_next (w, r) rest = elim r [ panic ↦ (w, panic) | _ ↦ stop_all rest w ]

  stop_next-eq :
      (p : W × Result (Unit {0})) (rest : List (Instance W))
      → p.1 ≢ panic
      → stop_next p rest ≡ stop_all rest p.0
  unfolding stop_next
  stop_next-eq (w, ok _) rest h = refl
  stop_next-eq (w, err e) rest h = refl
  stop_next-eq (w, panic) rest h = absurd (h refl)

  stop_all-cons :
      (i : Instance W) (rest : List (Instance W)) (w : W)
      → Managed i
      → stop_all (i ∷ rest) w ≡ stop_all rest (i.stop w).0
  unfolding stop_all stop_next
  stop_all-cons i rest w m = stop_next-eq (i.stop w) rest (reaps.no_panic i m w)

  stop_all-no_panic :
      (l : List (Instance W)) (w : W)
      → ((i : Instance W) → Memᴰ i l → Managed i)
      → (stop_all l w).1 ≡ ok tt
  stop_all-no_panic [] w m = unfold stop_all in refl
  stop_all-no_panic (i ∷ rest) w m =
      rw (stop_all-cons i rest w (m i (Memᴰ.head refl)))
        (stop_all-no_panic rest (i.stop w).0 (λ j n. m j (Memᴰ.tail n)))

  stop_all-keeps :
      (l : List (Instance W)) (w : W)
      → ((i : Instance W) → Memᴰ i l → Managed i)
      → (j : Instance W) → Managed j
      → j.state w ≡ stopped
      → j.state (stop_all l w).0 ≡ stopped
  stop_all-keeps [] w m j mj h = unfold stop_all in h
  stop_all-keeps (i ∷ rest) w m j mj h =
      let mi = m i (Memᴰ.head refl) in
      rw (stop_all-cons i rest w mi) (
        stop_all-keeps rest (i.stop w).0 (λ k n. m k (Memᴰ.tail n)) j mj
          (reaps.keeps i j mi mj w h))

  stop_all-stops :
      (l : List (Instance W)) (w : W)
      → ((i : Instance W) → Memᴰ i l → Managed i)
      → (j : Instance W) → Memᴰ j l
      → j.state (stop_all l w).0 ≡ stopped
  stop_all-stops [] w m j n = elim n [ ]
  stop_all-stops (i ∷ rest) w m j (Memᴰ.head e) =
      let mi = m i (Memᴰ.head refl) in
      rw (stop_all-cons i rest w mi) (
        rw e
          (stop_all-keeps rest (i.stop w).0 (λ k n. m k (Memᴰ.tail n)) i mi (reaps.stops i mi w)))
  stop_all-stops (i ∷ rest) w m j (Memᴰ.tail n) =
      rw (stop_all-cons i rest w (m i (Memᴰ.head refl)))
        (stop_all-stops rest (i.stop w).0 (λ k n'. m k (Memᴰ.tail n')) j n)

  close_all-keeps :
      (l : List (Driver W)) (w : W)
      → ((d : Driver W) → Memᴰ d l → Closes d)
      → (j : Instance W) → Managed j
      → j.state w ≡ stopped
      → j.state (close_all l w) ≡ stopped
  unfolding close_all
  close_all-keeps [] w c j mj h = h
  close_all-keeps (d ∷ rest) w c j mj h = elim (Option-cases d.close) [
    | inl e ↦ rw (e, close_all) (close_all-keeps rest w (λ x n. c x (Memᴰ.tail n)) j mj h)
    | inr (close, e) ↦
        rw (e, close_all)
          (close_all-keeps rest (close w) (λ x n. c x (Memᴰ.tail n)) j mj
            (reaps.close_keeps d j (c d (Memᴰ.head refl)) e mj w h))
  ]

  -- Where the tracked instances and the registered drivers keep the promise, `Shutdown` returns
  -- without a panic, every sandbox that was tracked is stopped afterwards, and none is tracked.
  pub shutdown-stops :
      (s : Daemon W)
      → ((i : Instance W) → Memᴰ i (list s) → Managed i)
      → ((d : Driver W) → Memᴰ d (Dict.values s.drivers) → Closes d)
      → ((shutdown s).1 ≡ ok tt)
        × ((id : String) (i : Instance W)
            → find id s ≡ some i
            → i.state (shutdown s).0.world ≡ stopped)
        × ((id : String) → find id (shutdown s).0 ≡ none)
  unfolding shutdown find
  shutdown-stops s m c =
      let done = stop_all-no_panic (list s) s.world m in
      (
        rw (done, shutdown) refl,
        λ id i f.
            let n = list_of_find id s f in
            rw (done, shutdown)
              (close_all-keeps (Dict.values s.drivers) (stop_all (list s) s.world).0 c i (m i n)
                (stop_all-stops (list s) s.world m i n)),
        λ id. rw (done, shutdown) (ground (arith, get-empty {V = Entry W} id)),
      )
