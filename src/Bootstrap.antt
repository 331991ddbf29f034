-- ===== src/Bootstrap.antt =====
-- pkg/bootstrap/bootstrap.go: the assets of `vessel up`. A node is its files with the log of what
-- was fetched; the network, the KVM device and the building of the root image are arguments.
pub mod Rootfs
pub mod Cached
pub mod Twice
mod Scenarios
use Prim.Native.String.{◌++◌ as append}
use vessel.Prelude.{
  ℕ, String, str_eq, Option, none, some, List, [], ◌∷◌, if◌then◌else◌, Bool, true, false, is_none,
  ◌==◌,
}
use vessel.Dict
use vessel.Dict.{Dict}
use vessel.Files.{Faults, write_file, rename}
use vessel.FilePath.{join}

-- `fetched` are the addresses that were asked for, newest first
pub record Node : Type 0 where
  pub files : Dict String
  pub fetched : List String

pub record Assets : Type 0 where
  pub dir : String
  pub ch_binary : String
  pub kernel_path : String
  pub rootfs_path : String
  pub kvm : Bool

-- what an error is about; the text of a download's error is its label's
pub data Failure : Type 0 where
  wrong_os : String → Failure
  no_home no_directory : Failure
  wrong_arch : String → Failure
  download_failed : String → Failure
  rename_failed build_failed : Failure

pub data Fallible {ℓ} (A : Type ℓ) : Type ℓ where
  got : A → Fallible A
  failed : Failure → Fallible A

-- http.Client.Get: no response, or a status and a body, of which io.Copy reads all (`whole`) or an
-- error ends the reading early
pub data Fetched : Type 0 where
  unreachable : Fetched
  response : ℕ → String → Bool → Fetched

pub record Host : Type 0 where
  pub goos : String
  pub goarch : String
  pub home : Option String
  pub mkdir_fails : Bool
  pub kvm : Bool
  pub web : String → Fetched
  pub faults : Faults

-- after an early end of the body, what was read stands in the file
keep_if_whole : Bool → Dict String × Bool → Dict String × Bool
keep_if_whole whole (files, wrote) = (files, if whole then wrote else false)

-- download, with true for a nil error: only a status of 200 touches the file
save : Fetched → Faults → String → Dict String → Dict String × Bool
unfolding write_file keep_if_whole
save unreachable faults dst files = (files, false)
save (response status text whole) faults dst files =
    let saved = keep_if_whole whole (write_file faults dst text files) in
    if status == 200 then saved else (files, false)

unfoldable pub download : Host → String → String → Node → Node × Bool
unfolding save
download h url dst n =
    let (files, done) = save (h.web url) h.faults dst n.files in
    (record n { files = files; fetched = url ∷ n.fetched }, done)

-- a file that is there is kept; else it is fetched beside it and moved over
unfoldable pub ensure_download : Host → String → String → String → Node → Node × Option Failure
unfolding download rename
ensure_download h dst url label n =
    let tmp = append dst ".tmp" in
    let (loaded, done) = download h url tmp n in
    let (files, moved) = rename h.faults tmp dst loaded.files in
    if is_none (Dict.get n.files dst)
    then if done
      then (record loaded { files = files }, if moved then none else some rename_failed)
      else (loaded, some (download_failed label))
    else (n, none)

-- archAssets: the names of the cloud-hypervisor binary, the kernel and Alpine's architecture
unfoldable pub arch_assets : String → String × String × String
arch_assets arch =
    if str_eq arch "amd64"
    then ("cloud-hypervisor-static", "vmlinux-x86_64", "x86_64")
    else if str_eq arch "arm64"
    then ("cloud-hypervisor-static-aarch64", "Image-arm64", "aarch64")
    else ("", "", "")

abbrev pub ch_base : String
ch_base = "https://github.com/cloud-hypervisor/cloud-hypervisor/releases/download/v52.0/"

abbrev pub kernel_base : String
kernel_base =
    "https://github.com/cloud-hypervisor/linux/releases/download/ch-release-v6.12.8-20250613/"

-- BuildRootfs, with the path and Alpine's architecture
abbrev pub Builder : Type 0
Builder = String → String → Node → Node × Bool

unfoldable pub assets_in : String → Bool → Assets
unfolding join
assets_in home kvm =
    let dir = join home ".vessel" in
    record {
      dir = dir;
      ch_binary = join dir "bin/cloud-hypervisor";
      kernel_path = join dir "vmlinux";
      rootfs_path = join dir "rootfs.img";
      kvm = kvm;
    }

-- the next step, unless this one failed
unfoldable pub proceed :
    Node × Option Failure → (Node → Node × Fallible Assets) → Node × Fallible Assets
proceed (n, none) next = next n
proceed (n, some e) next = (n, failed e)

unfoldable pub ensure_rootfs : Builder → Assets → String → Node → Node × Fallible Assets
ensure_rootfs build a arch n =
    let (built, done) = build a.rootfs_path arch n in
    if is_none (Dict.get n.files a.rootfs_path)
    then (built, if done then got a else failed build_failed)
    else (n, got a)

unfoldable pub ensure_kernel :
    Host → Builder → Assets → String → String → Node → Node × Fallible Assets
unfolding proceed ensure_download ensure_rootfs
ensure_kernel h build a kernel arch n =
    let url = append kernel_base kernel in
    proceed (ensure_download h a.kernel_path url "guest kernel (CH official)" n)
      (λ m. ensure_rootfs build a arch m)

-- the three assets, in the source's order, each after the one before it succeeded
unfoldable pub ensure_assets : Host → Builder → Assets → Node → Node × Fallible Assets
unfolding proceed ensure_download ensure_kernel arch_assets
ensure_assets h build a n =
    let (ch, kernel, arch) = arch_assets h.goarch in
    let url = append ch_base ch in
    let ensured =
      proceed (ensure_download h a.ch_binary url "cloud-hypervisor v52.0" n)
        (λ m. ensure_kernel h build a kernel arch m) in
    if str_eq ch "" then (n, failed (wrong_arch h.goarch)) else ensured

-- without KVM nothing is fetched: the process driver needs no assets
unfoldable pub up_in : Host → Builder → String → Node → Node × Fallible Assets
unfolding ensure_assets assets_in
up_in h build home n =
    let ensured = ensure_assets h build (assets_in home true) n in
    if h.mkdir_fails
    then (n, failed no_directory)
    else if h.kvm
    then ensured
    else (n, got (assets_in home false))

unfoldable pub up : Host → Builder → Node → Node × Fallible Assets
unfolding up_in
up h build n =
    if str_eq h.goos "linux"
    then elim h.home [ none ↦ (n, failed no_home) | some home ↦ up_in h build home n ]
    else (n, failed (wrong_os h.goos))
