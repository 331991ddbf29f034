-- ===== src/Bootstrap/Cached.antt =====
-- pkg/bootstrap/bootstrap.go: which files are there after a download, and Up on a full cache.
use Prim.Native.String.{◌++◌ as append}
use vessel.Prelude.{
  String, ◌≡◌, refl, ap, ◌∙◌, Bool, true, false, Option, none, some, arith, str_eq, is_none, inl,
  inr, Bool-cases, ◌==◌,
}
use vessel.Dict
use vessel.Dict.{Dict}
use vessel.Files.{Faults, rename, get-write_file, Has, rename-Has, rename-Has_new}
use vessel.Bootstrap.{
  Node, Host, Assets, Failure, Fallible, got, Fetched, unreachable, response, save, keep_if_whole,
  download, ensure_download, proceed, ensure_rootfs, ensure_kernel, ensure_assets, arch_assets,
  ch_base, kernel_base,
}

save-keeps :
    (f : Fetched) (faults : Faults) (dst path : String) (files : Dict String)
    → str_eq dst path ≡ false
    → Dict.get (save f faults dst files).0 path ≡ Dict.get files path
unfolding save keep_if_whole
save-keeps unreachable faults dst path files h = refl
save-keeps (response status text whole) faults dst path files h =
    elim (Bool-cases (status == 200)) [
      | inl fine ↦ rw (fine, save) (get-write_file faults dst text path files h)
      | inr other ↦ rw (other, save) refl
    ]

-- a file that is there, other than the one beside the destination, is there afterwards
pub ensure_download-Has :
    (h : Host) (dst url label path : String) (n : Node)
    → str_eq (append dst ".tmp") path ≡ false
    → Has path n.files
    → Has path (ensure_download h dst url label n).0.files
unfolding ensure_download download
ensure_download-Has h dst url label path n other here =
    let tmp = append dst ".tmp" in
    let loaded = download h url tmp n in
    let kept : Has path loaded.0.files =
      ap is_none (save-keeps (h.web url) h.faults tmp path n.files other) ∙ here in
    elim (Bool-cases (is_none (Dict.get n.files dst))) [
      | inr cached ↦ rw (cached, ensure_download) here
      | inl missing ↦ elim (Bool-cases loaded.1) [
        | inl whole ↦
            rw (missing, whole, ensure_download)
              (rename-Has h.faults tmp dst path loaded.0.files other kept)
        | inr broken ↦ rw (missing, broken, ensure_download) kept
      ]
    ]

-- a success means that the file is there
pub ensure_download-done :
    (h : Host) (dst url label : String) (n : Node)
    → (ensure_download h dst url label n).1 ≡ none
    → Has dst (ensure_download h dst url label n).0.files
unfolding ensure_download
ensure_download-done h dst url label n done =
    let tmp = append dst ".tmp" in
    let loaded = download h url tmp n in
    let renamed = rename h.faults tmp dst loaded.0.files in
    elim (Bool-cases (is_none (Dict.get n.files dst))) [
      | inr cached ↦ rw (cached, ensure_download) cached
      | inl missing ↦ elim (Bool-cases loaded.1) [
        | inl whole ↦
            rw (missing, whole, ensure_download)
              (rename-Has_new h.faults tmp dst loaded.0.files
                (ground (arith, rw (missing, whole, ensure_download) at done)))
        | inr broken ↦ absurd (ground (arith, rw (missing, broken, ensure_download) at done))
      ]
    ]

-- and then nothing is fetched
ensure_download-cached :
    (h : Host) (dst url label : String) (n : Node)
    → Has dst n.files
    → ensure_download h dst url label n ≡ (n, none)
unfolding ensure_download
ensure_download-cached h dst url label n here = rw (here, ensure_download) refl

-- what a builder of the root image must do about files: keep the others, and leave the image where
-- it succeeds
pub record Builds (build : String → String → Node → Node × Bool) : Type 0 where
  pub keeps :
      (dst arch path : String) (n : Node)
      → str_eq (append dst ".tmp") path ≡ false
      → Has path n.files
      → Has path (build dst arch n).0.files
  pub makes :
      (dst arch : String) (n : Node)
      → (build dst arch n).1 ≡ true
      → Has dst (build dst arch n).0.files

abbrev pub AllHere : Assets → Dict String → Type 0
AllHere a files = Has a.ch_binary files × Has a.kernel_path files × Has a.rootfs_path files

-- with everything there, nothing is fetched or built
pub ensure_assets-cached :
    (h : Host) (build : String → String → Node → Node × Bool) (a : Assets) (n : Node)
    → AllHere a n.files
    → str_eq (arch_assets h.goarch).0 "" ≡ false
    → ensure_assets h build a n ≡ (n, got a)
unfolding ensure_assets ensure_kernel ensure_rootfs proceed
ensure_assets-cached h build a n (ch, kernel, rootfs) known =
    let ch_url = append ch_base (arch_assets h.goarch).0 in
    let kernel_url = append kernel_base (arch_assets h.goarch).1 in
    rw
      (
        known,
        ensure_assets,
        ensure_download-cached h a.ch_binary ch_url "cloud-hypervisor v52.0" n ch,
        ensure_download-cached h a.kernel_path kernel_url "guest kernel (CH official)" n kernel,
        rootfs,
      )
      refl

pub proceed-got :
    (r : Node × Option Failure) (next : Node → Node × Fallible Assets) (a : Assets)
    → (proceed r next).1 ≡ got a
    → (r.1 ≡ none) × (proceed r next ≡ next r.0)
unfolding proceed
proceed-got (n, none) next a h = (refl, refl)
proceed-got (n, some e) next a h = absurd (ground (arith, h))
