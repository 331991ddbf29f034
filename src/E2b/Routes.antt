-- ===== src/E2b/Routes.antt =====
-- What creating a sandbox through pkg/e2b/e2b.go does: which path serves it, and what is recorded.
use mathlib.Core.List.{Memᴰ}
use vessel.Prelude.{
  String, ◌≡◌, some, List, arith, str_eq, eq_refl, subst, if◌then◌else◌, mem-map, inl, inr,
  Option-cases, Bool-cases, ap, map, ◌∙◌,
}
use vessel.Prelude.Int.{ℤ}
use vessel.Dict
use vessel.Dict.{Dict, dict_laws, get-put}
use vessel.Sandbox.{Result, ok, err, panic, Instance}
use vessel.Sandbox.Manager.{Daemon, find, list as manager_list}
use vessel.Sandbox.Manager.Listing.{list_of_find}
use vessel.Sandbox.Manager.Tracking.{Tracks, create-Tracks, restore_from-Tracks}
use vessel.E2b.{
  SandboxMeta, fresh_spec, Template, NewSandbox, SandboxResp, Handler, answer, sandbox, sandboxes,
  sandbox_resp, template_of, register_template, create_fresh, restore_template, resolve_and_create,
  record_created, create, list,
}

template_of-put :
    (meta : Dict SandboxMeta) (id template : String) (now : ℤ)
    → template_of (Dict.put meta id (record { template_id = template; created_at = now })) id
      ≡ template
unfolding template_of
template_of-put meta id template now =
    let entry : SandboxMeta = record { template_id = template; created_at = now } in
    ground (arith, get-put meta id id entry, eq_refl id)

module _ {W : Type 0} where
  -- A registration takes effect on the next creation of its template id alone: with a snapshot path
  -- that creation restores it, with an empty path it makes a fresh sandbox, and every other template
  -- id is served as before.
  pub register_template-resolve_and_create :
      (id : String) (t : Template) (req : NewSandbox) (h : Handler W)
      → resolve_and_create req (register_template id t h) ≡ (
          if str_eq id req.template_id
          then if str_eq t.snapshot_path "" then create_fresh req h else restore_template t h
          else resolve_and_create req h)
  unfolding resolve_and_create register_template create_fresh restore_template
  register_template-resolve_and_create id t req h =
      ground (arith, get-put h.templates id req.template_id t)

  listed : Handler W → List SandboxResp
  listed h = map (λ i. sandbox_resp (template_of h.meta i.id) i.id) (manager_list h.daemon)

  resolve_and_create-Tracks :
      (req : NewSandbox) (h : Handler W) → Tracks h.daemon (resolve_and_create req h)
  unfolding resolve_and_create create_fresh restore_template
  resolve_and_create-Tracks req h = elim (Option-cases (Dict.get h.templates req.template_id)) [
    | inl n ↦
        rw (n, resolve_and_create) (create-Tracks h.default_driver (some (fresh_spec req)) h.daemon)
    | inr (t, n) ↦
        rw (n, resolve_and_create)
          (elim (Bool-cases (str_eq t.snapshot_path "")) [
            | inl p ↦ rw p (create-Tracks h.default_driver (some (fresh_spec req)) h.daemon)
            | inr p ↦ rw p (
                restore_from-Tracks (if str_eq t.driver "" then h.default_driver else t.driver)
                  t.snapshot_path (record { netns = "" }) h.daemon)
          ])
  ]

  record_created-lists :
      (now : ℤ) (template : String) (h : Handler W) (r : Daemon W × Result (Instance W))
      (resp : SandboxResp)
      → Tracks h.daemon r
      → (record_created now template h r).1 ≡ answer 201 (sandbox resp)
      → (resp.template_id ≡ template) × Memᴰ resp (listed (record_created now template h r).0)
  unfolding record_created sandbox_resp listed
  record_created-lists now template h (s, ok i) resp tracked e =
      let same : sandbox_resp template i.id ≡ resp = ground (arith, e) in
      let meta = Dict.put h.meta i.id (record { template_id = template; created_at = now }) in
      let kept : template_of meta i.id ≡ template = template_of-put h.meta i.id template now in
      let found : find i.id s ≡ some i = ground (arith, tracked.0 i.id, eq_refl i.id) in
      let member =
        mem-map (λ (x : Instance W). sandbox_resp (template_of meta x.id) x.id)
          (list_of_find i.id s found) in
      (
        ground (arith, same),
        subst (λ x. Memᴰ x (listed (record h { daemon = s; meta = meta })))
            (ap (λ n. sandbox_resp n i.id) kept ∙ same) member,
      )
  record_created-lists now template h (s, err x) resp tracked e = absurd (ground (arith, e))
  record_created-lists now template h (s, panic) resp tracked e = absurd (ground (arith, e))

  -- A creation that answers 201 names the template that was asked for, and the sandbox that it
  -- answers with stands in the next listing, as it was answered, template id included.
  pub create-lists :
      (now : ℤ) (req : NewSandbox) (h : Handler W) (resp : SandboxResp) (all : List SandboxResp)
      → (create now (some req) h).1 ≡ answer 201 (sandbox resp)
      → (list (create now (some req) h).0).1 ≡ answer 200 (sandboxes all)
      → (resp.template_id ≡ req.template_id) × Memᴰ resp all
  unfolding create list listed
  create-lists now req h resp all e l = elim (Bool-cases (str_eq req.template_id "")) [
    | inl p ↦ absurd (ground (arith, e, p))
    | inr p ↦
        let done = record_created now req.template_id h (resolve_and_create req h) in
        let (named, member) =
          record_created-lists now req.template_id h (resolve_and_create req h) resp
            (resolve_and_create-Tracks req h) (rw p at e) in
        let same : listed done.0 ≡ all = ground (arith, rw p at l) in
        (named, subst (λ x. Memᴰ resp x) same member)
  ]
