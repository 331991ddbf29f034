-- ===== src/Bootstrap/Twice.antt =====
-- pkg/bootstrap/bootstrap.go: a second Up after one that succeeded.
use Prim.Native.String.{◌++◌ as append}
use vessel.Prelude.{
  String, ◌≡◌, ◌≢◌, refl, ap, sym, ◌∙◌, Bool, true, false, none, some, arith, str_eq, is_none, inl,
  inr, Bool-cases, Option-cases, [], ◌∷◌,
}
use vessel.Dict
use vessel.Dict.{Dict}
use vessel.Files.{Has}
use vessel.FilePath.{join, split}
use vessel.FilePath.Ending.{last_code, last_code-differs, last_code-append, join-last}
use vessel.Bootstrap.{
  Node, Host, Assets, got, failed, no_directory, wrong_os, no_home, ensure_download, ensure_rootfs,
  ensure_kernel, ensure_assets, up_in, up, assets_in, arch_assets, ch_base, kernel_base,
}
use vessel.Bootstrap.Cached.{
  AllHere, Builds, ensure_download-Has, ensure_download-done, ensure_assets-cached, proceed-got,
}

-- the files that are written beside the assets are none of the assets
abbrev Apart : Assets → Type 0
Apart a =
    (str_eq (append a.kernel_path ".tmp") a.ch_binary ≡ false)
    × (str_eq (append a.rootfs_path ".tmp") a.ch_binary ≡ false)
    × (str_eq (append a.rootfs_path ".tmp") a.kernel_path ≡ false)

module _ (build : String → String → Node → Node × Bool) (builds : Builds build) where
  ensure_rootfs-done :
      (a b : Assets) (arch : String) (n : Node)
      → (ensure_rootfs build a arch n).1 ≡ got b
      → (a ≡ b) × Has a.rootfs_path (ensure_rootfs build a arch n).0.files
  unfolding ensure_rootfs
  ensure_rootfs-done a b arch n h = elim (Bool-cases (is_none (Dict.get n.files a.rootfs_path))) [
    | inr cached ↦
        rw (cached, ensure_rootfs) (ground (arith, rw (cached, ensure_rootfs) at h), cached)
    | inl missing ↦ elim (Bool-cases (build a.rootfs_path arch n).1) [
      | inl built ↦
          rw (missing, ensure_rootfs)
            (
              ground (arith, rw (missing, built, ensure_rootfs) at h),
              builds.makes a.rootfs_path arch n built,
            )
      | inr broken ↦ absurd (ground (arith, rw (missing, broken, ensure_rootfs) at h))
    ]
  ]

  ensure_rootfs-Has :
      (a : Assets) (arch path : String) (n : Node)
      → str_eq (append a.rootfs_path ".tmp") path ≡ false
      → Has path n.files
      → Has path (ensure_rootfs build a arch n).0.files
  unfolding ensure_rootfs
  ensure_rootfs-Has a arch path n other here =
      elim (Bool-cases (is_none (Dict.get n.files a.rootfs_path))) [
        | inr cached ↦ rw (cached, ensure_rootfs) here
        | inl missing ↦
            rw (missing, ensure_rootfs) (builds.keeps a.rootfs_path arch path n other here)
      ]

  ensure_kernel-done :
      (h : Host) (a b : Assets) (kernel arch : String) (n : Node)
      → Apart a
      → Has a.ch_binary n.files
      → (ensure_kernel h build a kernel arch n).1 ≡ got b
      → (a ≡ b) × AllHere a (ensure_kernel h build a kernel arch n).0.files
  unfolding ensure_kernel
  ensure_kernel-done h a b kernel arch n apart ch e =
      let url = append kernel_base kernel in
      let label : String = "guest kernel (CH official)" in
      let loaded = ensure_download h a.kernel_path url label n in
      let (done, next) = proceed-got loaded (λ m. ensure_rootfs build a arch m) b e in
      let (same, rootfs) = ensure_rootfs-done a b arch loaded.0 (sym (ap (λ r. r.1) next) ∙ e) in
      let kept = ensure_download-Has h a.kernel_path url label a.ch_binary n apart.0 ch in
      let here = ensure_download-done h a.kernel_path url label n done in
      (
        same,
        rw next (
          ensure_rootfs-Has a arch a.ch_binary loaded.0 apart.1 kept,
          ensure_rootfs-Has a arch a.kernel_path loaded.0 apart.2 here,
          rootfs,
        ),
      )

  ensure_assets-done :
      (h : Host) (a b : Assets) (n : Node)
      → Apart a
      → (ensure_assets h build a n).1 ≡ got b
      → (a ≡ b)
        × AllHere a (ensure_assets h build a n).0.files
        × (str_eq (arch_assets h.goarch).0 "" ≡ false)
  unfolding ensure_assets
  ensure_assets-done h a b n apart e =
      let (ch, kernel, arch) = arch_assets h.goarch in
      let url = append ch_base ch in
      let loaded = ensure_download h a.ch_binary url "cloud-hypervisor v52.0" n in
      elim (Bool-cases (str_eq (arch_assets h.goarch).0 "")) [
        | inl unknown ↦ absurd (ground (arith, rw (unknown, ensure_assets) at e))
        | inr known ↦
            let e = rw (known, ensure_assets) at e in
            let (done, next) =
              proceed-got loaded (λ m. ensure_kernel h build a kernel arch m) b e in
            let here = ensure_download-done h a.ch_binary url "cloud-hypervisor v52.0" n done in
            let (same, all) =
              ensure_kernel-done h a b kernel arch loaded.0 apart here
                (sym (ap (λ r. r.1) next) ∙ e) in
            (same, rw (known, ensure_assets, next) all, known)
      ]

-- a name that does not end in "p" is not one that ends in ".tmp"
tmp-elsewhere : (s path : String) → last_code path ≢ 112 → str_eq (append s ".tmp") path ≡ false
tmp-elsewhere s path h =
    let tmp = last_code-append s ".tmp" (λ e. absurd (ground (arith, ap (λ x. str_eq x "") e))) in
    last_code-differs (append s ".tmp") path (λ e. h (sym e ∙ tmp))

-- the assets of a home directory lie apart
assets_in-Apart : (home : String) (kvm : Bool) → Apart (assets_in home kvm)
unfolding assets_in split
assets_in-Apart home kvm =
    let dir = join home ".vessel" in
    let ch =
      join-last dir "bin/cloud-hypervisor" "cloud-hypervisor" ("bin" ∷ []) refl
        (refl, refl, refl) in
    let kernel = join-last dir "vmlinux" "vmlinux" [] refl (refl, refl, refl) in
    let not_ch : last_code (join dir "bin/cloud-hypervisor") ≢ 112 =
      λ e. absurd (omega (arith, e, ch)) in
    let not_kernel : last_code (join dir "vmlinux") ≢ 112 =
      λ e. absurd (omega (arith, e, kernel)) in
    (
      tmp-elsewhere (join dir "vmlinux") (join dir "bin/cloud-hypervisor") not_ch,
      tmp-elsewhere (join dir "rootfs.img") (join dir "bin/cloud-hypervisor") not_ch,
      tmp-elsewhere (join dir "rootfs.img") (join dir "vmlinux") not_kernel,
    )

-- the same machine, whatever its network and its faults are now
pub record SameMachine (h g : Host) : Type 0 where
  pub same_os : g.goos ≡ h.goos
  pub same_arch : g.goarch ≡ h.goarch
  pub same_home : g.home ≡ h.home
  pub same_kvm : g.kvm ≡ h.kvm
  pub makes_dir : g.mkdir_fails ≡ false

up_in-kvm :
    (h : Host) (build : String → String → Node → Node × Bool) (home : String) (n : Node)
    → h.mkdir_fails ≡ false
    → h.kvm ≡ true
    → up_in h build home n ≡ ensure_assets h build (assets_in home true) n
unfolding up_in
up_in-kvm h build home n makes kvm = rw (makes, kvm, up_in) refl

up_in-no_kvm :
    (h : Host) (build : String → String → Node → Node × Bool) (home : String) (n : Node)
    → h.mkdir_fails ≡ false
    → h.kvm ≡ false
    → up_in h build home n ≡ (n, got (assets_in home false))
unfolding up_in
up_in-no_kvm h build home n makes kvm = rw (makes, kvm, up_in) refl

up_in-no_dir :
    (h : Host) (build : String → String → Node → Node × Bool) (home : String) (n : Node)
    → h.mkdir_fails ≡ true
    → up_in h build home n ≡ (n, failed no_directory)
unfolding up_in
up_in-no_dir h build home n fails = rw (fails, up_in) refl

up-linux :
    (h : Host) (build : String → String → Node → Node × Bool) (n : Node) {home : String}
    → str_eq h.goos "linux" ≡ true
    → h.home ≡ some home
    → up h build n ≡ up_in h build home n
unfolding up
up-linux h build n linux lives = rw (linux, lives, up) refl

up-elsewhere :
    (h : Host) (build : String → String → Node → Node × Bool) (n : Node)
    → str_eq h.goos "linux" ≡ false
    → (up h build n).1 ≡ failed (wrong_os h.goos)
unfolding up
up-elsewhere h build n other = rw (other, up) refl

up-homeless :
    (h : Host) (build : String → String → Node → Node × Bool) (n : Node)
    → str_eq h.goos "linux" ≡ true
    → h.home ≡ none
    → (up h build n).1 ≡ failed no_home
unfolding up
up-homeless h build n linux homeless = rw (linux, homeless, up) refl

up_in-up_in :
    (h g : Host) (build again : String → String → Node → Node × Bool) (home : String) (n : Node)
    (a : Assets)
    → Builds build
    → SameMachine h g
    → (up_in h build home n).1 ≡ got a
    → up_in g again home (up_in h build home n).0 ≡ ((up_in h build home n).0, got a)
up_in-up_in h g build again home n a builds same done = elim (Bool-cases h.mkdir_fails) [
  | inl fails ↦ absurd (ground (arith, up_in-no_dir h build home n fails, done))
  | inr makes ↦ elim (Bool-cases h.kvm) [
    | inr no_kvm ↦
        let first = up_in-no_kvm h build home n makes no_kvm in
        let second = up_in-no_kvm g again home n same.makes_dir (same.same_kvm ∙ no_kvm) in
        rw (first, second) (ap (λ r. (n, r)) (sym (ap (λ r. r.1) first) ∙ done))
    | inl kvm ↦
        let first = up_in-kvm h build home n makes kvm in
        let assets = assets_in home true in
        let after = (ensure_assets h build assets n).0 in
        let second = up_in-kvm g again home after same.makes_dir (same.same_kvm ∙ kvm) in
        let (found, all, known) =
          ensure_assets-done build builds h assets a n (assets_in-Apart home true)
            (sym (ap (λ r. r.1) first) ∙ done) in
        rw first (
          second
          ∙ ensure_assets-cached g again assets after all (rw same.same_arch known)
          ∙ ap (λ x. (after, got x)) found)
  ]
]

-- Where Up succeeded, a second Up on the same machine returns the same assets, fetches nothing, builds
-- nothing and changes no file, whatever the network, the faults and the builder are by then. The
-- builder of the first run is one that keeps the promise `Builds`.
pub up-up :
    (h g : Host) (build again : String → String → Node → Node × Bool) (n : Node) (a : Assets)
    → Builds build
    → SameMachine h g
    → (up h build n).1 ≡ got a
    → up g again (up h build n).0 ≡ ((up h build n).0, got a)
up-up h g build again n a builds same done = elim (Bool-cases (str_eq h.goos "linux")) [
  | inr other ↦ absurd (ground (arith, up-elsewhere h build n other, done))
  | inl linux ↦ elim (Option-cases h.home) [
    | inl homeless ↦ absurd (ground (arith, up-homeless h build n linux homeless, done))
    | inr (home, lives) ↦
        let first = up-linux h build n linux lives in
        let after = (up_in h build home n).0 in
        let second = up-linux g again after (rw same.same_os linux) (same.same_home ∙ lives) in
        rw first (
          second
          ∙ up_in-up_in h g build again home n a builds same (sym (ap (λ r. r.1) first) ∙ done))
  ]
]
