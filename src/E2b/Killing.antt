-- ===== src/E2b/Killing.antt =====
-- What DELETE /sandboxes/{id} of pkg/e2b/e2b.go does to the sandbox, the manager and the handler.
use mathlib.Core.List.{Memᴰ}
use vessel.Prelude.{
  String, ◌≡◌, refl, arith, eq_refl, Option, none, some, List, inl, inr, Option-cases, subst, ap,
  mem-map, map, ◌∙◌,
}
use vessel.Dict.{get-remove}
use vessel.Sandbox.{Result, ok, err, panic, Instance}
use vessel.Sandbox.Manager.{Daemon, find, list as manager_list}
use vessel.Sandbox.Manager.Listing.{list_of_find}
use vessel.E2b.{
  Handler, SandboxResp, Response, answer, blank, failure, message, sandboxes, sandbox_resp,
  template_of, finish_kill, kill, list,
}

module _ {W : Type 0} where
  finish_kill-manager :
      (id : String) (h : Handler W) (r : W × Result (Unit {0}))
      → (finish_kill id h r).0.daemon.manager ≡ h.daemon.manager
  unfolding finish_kill
  finish_kill-manager id h (w, ok _) = refl
  finish_kill-manager id h (w, err e) = refl
  finish_kill-manager id h (w, panic) = refl

  kill-manager : (id : String) (h : Handler W) → (kill id h).0.daemon.manager ≡ h.daemon.manager
  unfolding kill
  kill-manager id h = elim (Option-cases (find id h.daemon)) [
    | inl n ↦ rw (n, kill) refl
    | inr (i, n) ↦ rw (n, kill) (finish_kill-manager id h (i.stop h.daemon.world))
  ]

  finish_kill-forgets :
      (id : String) (h : Handler W) (r : W × Result (Unit {0}))
      → (finish_kill id h r).1 ≡ answer 204 blank
      → template_of (finish_kill id h r).0.meta id ≡ ""
  unfolding finish_kill template_of
  finish_kill-forgets id h (w, ok _) e = ground (arith, get-remove h.meta id id, eq_refl id)
  finish_kill-forgets id h (w, err x) e = ground (arith, e)
  finish_kill-forgets id h (w, panic) e = ground (arith, e)

  kill-forgets :
      (id : String) (h : Handler W) (i : Instance W)
      → find id h.daemon ≡ some i
      → (kill id h).1 ≡ answer 204 blank
      → template_of (kill id h).0.meta id ≡ ""
  unfolding kill
  kill-forgets id h i n e =
      rw (n, kill) (finish_kill-forgets id h (i.stop h.daemon.world) (rw (n, kill) at e))

  find-manager : (id : String) (s t : Daemon W) → s.manager ≡ t.manager → find id s ≡ find id t
  unfolding find
  find-manager id s t e = ground (arith, e)

  -- what a kill of a known id leaves and answers, from what its Stop returned: 204 where that was no
  -- error, and then the template id is forgotten; 500 with the error; or an aborted response
  abbrev pub Killed :
      String → Handler W → W × Result (Unit {0}) → Handler W × Option Response → Type 0
  Killed id h (w, ok _) (after, answered) =
      (answered ≡ answer 204 blank) × (after.daemon.world ≡ w) × (template_of after.meta id ≡ "")
  Killed id h (w, err e) (after, answered) =
      (answered ≡ answer 500 (failure e)) × (after.daemon.world ≡ w) × (after.meta ≡ h.meta)
  Killed id h (w, panic) (after, answered) =
      (answered ≡ none) × (after.daemon.world ≡ w) × (after.meta ≡ h.meta)

  finish_kill-Killed :
      (id : String) (h : Handler W) (r : W × Result (Unit {0})) → Killed id h r (finish_kill id h r)
  unfolding finish_kill
  finish_kill-Killed id h (w, ok x) = (refl, refl, finish_kill-forgets id h (w, ok x) refl)
  finish_kill-Killed id h (w, err e) = (refl, refl, refl)
  finish_kill-Killed id h (w, panic) = (refl, refl, refl)

  -- A kill never untracks: the manager is as it was on every path. For an unknown id it answers 404
  -- and changes nothing. A known id stays known, so a second kill stops its sandbox again; its
  -- sandbox is stopped once, and the answer is 204 without an error of Stop, with the template id
  -- forgotten, 500 with one, and none after a panic.
  pub kill-keeps :
      (id : String) (h : Handler W)
      → ((kill id h).0.daemon.manager ≡ h.daemon.manager)
        × (find id h.daemon ≡ none → kill id h ≡ (h, answer 404 (message "sandbox not found")))
        × ((i : Instance W)
            → find id h.daemon ≡ some i
            → (find id (kill id h).0.daemon ≡ some i)
              × Killed id h (i.stop h.daemon.world) (kill id h))
  unfolding kill
  kill-keeps id h = (
    kill-manager id h,
    λ n. rw (n, kill) refl,
    λ i n. (
      find-manager id (kill id h).0.daemon h.daemon (kill-manager id h) ∙ n,
      rw (n, kill) (finish_kill-Killed id h (i.stop h.daemon.world)),
    ),
  )

  -- Where a kill answers 204, the stopped sandbox stays in the listing, with an empty template id.
  pub kill-lists_stopped :
      (id : String) (h : Handler W) (i : Instance W) (all : List SandboxResp)
      → find id h.daemon ≡ some i
      → i.id ≡ id
      → (kill id h).1 ≡ answer 204 blank
      → (list (kill id h).0).1 ≡ answer 200 (sandboxes all)
      → Memᴰ (sandbox_resp "" id) all
  unfolding list
  kill-lists_stopped id h i all n keyed e l =
      let t = (kill id h).0 in
      let found = find-manager id t.daemon h.daemon (kill-manager id h) ∙ n in
      let gone : template_of t.meta id ≡ "" = kill-forgets id h i n e in
      let member =
        mem-map (λ (x : Instance W). sandbox_resp (template_of t.meta x.id) x.id)
          (list_of_find id t.daemon found) in
      let named : sandbox_resp (template_of t.meta i.id) i.id ≡ sandbox_resp "" id =
        ap (λ x. sandbox_resp (template_of t.meta x) x) keyed ∙ ap (λ x. sandbox_resp x id) gone in
      let rows =
        map (λ (x : Instance W). sandbox_resp (template_of t.meta x.id) x.id)
          (manager_list t.daemon) in
      let same : rows ≡ all = ground (arith, l) in
      subst (λ x. Memᴰ (sandbox_resp "" id) x) same (subst (λ x. Memᴰ x rows) named member)
