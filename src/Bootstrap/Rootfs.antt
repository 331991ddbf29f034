-- ===== src/Bootstrap/Rootfs.antt =====
-- pkg/bootstrap/rootfs.go: the guest's root image. The working directory is fresh, so its tree is
-- a table of its own; gzip, tar, mkfs.ext4 and the system's refusals are arguments.
pub mod Tarball
pub mod Building
use Prim.Native.String.{◌++◌ as append}
use text.Mathlib.Text.{starts_with}
use vessel.Prelude.{
  String, Option, none, some, List, [], ◌∷◌, if◌then◌else◌, Bool, true, false, ◌||◌,
}
use vessel.Dict
use vessel.Dict.{Dict}
use vessel.Files.{Faults, write_file, rename, remove}
use vessel.FilePath.{join, dir, clean}
use vessel.Bootstrap.{Node, Host, download}

pub data Kind : Type 0 where
  directory regular symlink hardlink special : Kind

-- a header with what io.Copy reads of its content: the text, and whether it came whole
pub record Header : Type 0 where
  pub name : String
  pub kind : Kind
  pub link_name : String
  pub content : String
  pub is_whole : Bool

-- what tr.Next returns before io.EOF
pub data Item : Type 0 where
  entry : Header → Item
  corrupt : Item

pub data Entry : Type 0 where
  file : String → Entry
  link_to : String → Entry
  same_as : String → Entry

-- `dirs` were given to MkdirAll, newest first; an entry stands at the path that the call reached, and
-- a hard link names the path at which its file was when the link was made
pub record Tree : Type 0 where
  pub dirs : List String
  pub entries : Dict Entry

abbrev pub empty_tree : Tree
empty_tree = record { dirs = []; entries = Dict.empty }

-- which calls the system refuses, by path, and where it goes through the links that are there: to
-- open a path, and to remove or to link a name, which follows the parents alone
pub record Refusals : Type 0 where
  pub reaches : Dict Entry → String → String
  pub names : Dict Entry → String → String
  pub mkdir : String → Bool
  pub open_file : String → Bool
  pub linking : String → Bool

unfoldable pub mkdir_all : Refusals → String → Tree → Tree × Bool
mkdir_all r path t = if r.mkdir path then (t, false) else (record t { dirs = path ∷ t.dirs }, true)

unfoldable pub put_entry : String → Entry → Tree → Tree
put_entry path e t = record t { entries = Dict.put t.entries path e }

unfoldable pub drop_entry : String → Tree → Tree
drop_entry path t = record t { entries = Dict.remove t.entries path }

-- the parent, then the file; a copy that ends early leaves what it wrote
unfoldable pub put_file : Refusals → String → String → Bool → Tree → Tree × Bool
unfolding mkdir_all dir put_entry
put_file r target text whole t =
    let (made, done) = mkdir_all r (dir target) t in
    if done
    then if r.open_file target
      then (made, false)
      else (put_entry (r.reaches made.entries target) (file text) made, whole)
    else (made, false)

-- the error of MkdirAll is dropped, and the old entry goes even where the link is refused
unfoldable pub put_link : Refusals → String → Entry → Tree → Tree × Bool
unfolding mkdir_all dir put_entry drop_entry
put_link r target link t =
    let made = (mkdir_all r (dir target) t).0 in
    let cleared = drop_entry (r.names made.entries target) made in
    if r.linking target
    then (cleared, false)
    else (put_entry (r.names cleared.entries target) link cleared, true)

-- the switch on the type flag
unfoldable pub place : Refusals → String → String → Header → Kind → Tree → Tree × Bool
unfolding mkdir_all put_file put_link join clean
place r dst target h directory t = mkdir_all r target t
place r dst target h regular t = put_file r target h.content h.is_whole t
place r dst target h symlink t = put_link r target (link_to h.link_name) t
place r dst target h hardlink t = put_link r target (same_as (join dst (clean h.link_name))) t
place r dst target h special t = (t, true)

unfoldable pub extract_entry : Refusals → String → Header → Tree → Tree × Bool
unfolding place join clean
extract_entry r dst h t =
    let placed = place r dst (join dst (clean h.name)) h h.kind t in
    if starts_with (clean h.name) ".." then (t, true) else placed

-- the loop of extractTarGz, which ends at the first error
unfoldable pub extract : Refusals → String → List Item → Tree → Tree × Bool
unfolding extract_entry
extract r dst [] t = (t, true)
extract r dst (corrupt ∷ items) t = (t, false)
extract r dst (entry h ∷ items) t =
    let (next, done) = extract_entry r dst h t in
    let rest = extract r dst items next in if done then rest else (next, false)

unfoldable pub init_script : String
init_script =
    "#!/bin/sh\nexport PATH=/usr/local/sbin:/usr/local/bin:/usr/sbin:/usr/bin:/sbin:/bin\nmount -t proc     proc     /proc  2>/dev/null\nmount -t sysfs    sysfs    /sys   2>/dev/null\nmount -t devtmpfs devtmpfs /dev   2>/dev/null\nmount -t tmpfs    tmpfs    /tmp   2>/dev/null\nhostname vessel-guest 2>/dev/null\nexec /usr/bin/vessel agent\n"

-- what BuildRootfs asks the system: the path and the text of this program, the fresh directory, the
-- reading of a tarball, and the image that mkfs.ext4 makes of a tree
pub record Builder : Type 0 where
  pub has_mkfs : Bool
  pub self : Option String
  pub work : Option String
  pub untar : String → Option (List Item)
  pub refusals : Refusals
  pub refuses_init : Bool
  pub refuses_truncate : Bool
  pub mkfs : Tree → Option String

alpine_url : String → String
alpine_url arch =
    append "https://dl-cdn.alpinelinux.org/alpine/v3.20/releases/"
      (append arch (append "/alpine-minirootfs-3.20.3-" (append arch ".tar.gz")))

-- this program as the agent, and the script as init
install : Builder → String → String → Tree × Bool → Tree × Bool
unfolding put_file put_entry join init_script
install b root self (t, extracted) =
    let (copied, done) = put_file b.refusals (join root "usr/bin/vessel") self true t in
    let init = join root "sbin/init" in
    let cleared = drop_entry (b.refusals.names copied.entries init) copied in
    let written = put_entry (b.refusals.reaches cleared.entries init) (file init_script) cleared in
    if extracted
    then if done
      then if b.refuses_init then (cleared, false) else (written, true)
      else (copied, false)
    else (t, false)

-- the tree of the image, from the text of the tarball
unfoldable pub assemble : Builder → String → String → Option String → Tree × Bool
unfolding extract install
assemble b work self none = (empty_tree, false)
assemble b work self (some tarball) = elim (b.untar tarball) [
  | none ↦ (empty_tree, false)
  | some items ↦
      let root = join work "root" in install b root self (extract b.refusals root items empty_tree)
]

-- an empty image beside dst, mkfs.ext4 into it, and the move over dst
unfoldable pub pack : Builder → Faults → String → Tree → Dict String → Dict String × Bool
unfolding remove write_file rename
pack b faults dst tree files =
    let tmp = append dst ".tmp" in
    let (created, opened) = write_file faults tmp "" (remove faults tmp files) in
    let packed : Dict String × Bool = elim (b.mkfs tree) [
      | none ↦ (created, false)
      | some image ↦ rename faults tmp dst (Dict.put created tmp image)
    ] in
    if opened then if b.refuses_truncate then (created, false) else packed else (created, false)

unfoldable pub with_tarball :
    Builder → Faults → String → String → String → Node → Node × Bool → Node × Bool
unfolding assemble pack
with_tarball b faults dst work self n (loaded, whole) =
    let kept = record n { fetched = loaded.fetched } in
    let tarball = Dict.get loaded.files (join work "alpine.tar.gz") in
    let (tree, assembled) = assemble b work self tarball in
    let (files, packed) = pack b faults dst tree n.files in
    if whole
    then if assembled then (record kept { files = files }, packed) else (kept, false)
    else (kept, false)

-- the working directory goes on every path
unfoldable pub build_in : Builder → Host → String → String → String → String → Node → Node × Bool
unfolding download with_tarball alpine_url join
build_in b h dst arch work self n =
    let empty_work = record n { files = Dict.empty } in
    with_tarball b h.faults dst work self n
      (download h (alpine_url arch) (join work "alpine.tar.gz") empty_work)

unfoldable pub build_rootfs : Builder → Host → String → String → Node → Node × Bool
unfolding build_in
build_rootfs b h dst arch n =
    if b.has_mkfs
    then elim b.self [
      | none ↦ (n, false)
      | some self ↦ elim b.work [
        | none ↦ (n, false)
        | some work ↦ build_in b h dst arch work self n
      ]
    ]
    else (n, false)
