-- ===== src/Bootstrap/Rootfs/Building.antt =====
-- pkg/bootstrap/rootfs.go: the files that BuildRootfs leaves, and Up with it as its builder.
use Prim.Native.String.{◌++◌ as append}
use vessel.Prelude.{
  String, ◌≡◌, Bool, true, false, arith, str_eq, inl, inr, Bool-cases, Option-cases,
}
use vessel.Dict
use vessel.Dict.{Dict, get-put}
use vessel.Files.{
  Faults, write_file, remove, Has, rename-Has, rename-Has_new, remove-Has, write_file-Has,
}
use vessel.FilePath.{join}
use vessel.Bootstrap.{Node, Host, Assets, got, download, up}
use vessel.Bootstrap.Cached.{Builds}
use vessel.Bootstrap.Twice.{SameMachine, up-up}
use vessel.Bootstrap.Rootfs.{
  Builder, Tree, assemble, pack, alpine_url, with_tarball, build_in, build_rootfs,
}

put-Has :
    (at path text : String) (files : Dict String)
    → str_eq at path ≡ false
    → Has path files
    → Has path (Dict.put files at text)
put-Has at path text files other h = ground (arith, get-put files at path text, other, h)

module _ (b : Builder) (faults : Faults) (dst : String) (tree : Tree) (files : Dict String) where
  abbrev created : Dict String × Bool
  created = write_file faults (append dst ".tmp") "" (remove faults (append dst ".tmp") files)

  pack-Has :
      (path : String)
      → str_eq (append dst ".tmp") path ≡ false
      → Has path files
      → Has path (pack b faults dst tree files).0
  unfolding pack
  pack-Has path other here =
      let tmp = append dst ".tmp" in
      let kept =
        write_file-Has faults tmp "" path (remove faults tmp files) other
          (remove-Has faults tmp path files other here) in
      elim (Bool-cases created.1) [
        | inr refused ↦ rw (refused, pack) kept
        | inl opened ↦ elim (Bool-cases b.refuses_truncate) [
          | inl refused ↦ rw (opened, refused, pack) kept
          | inr sized ↦ elim (Option-cases (b.mkfs tree)) [
            | inl fails ↦ rw (opened, sized, fails, pack) kept
            | inr (image, made) ↦
                rw (opened, sized, made, pack)
                  (rename-Has faults tmp dst path (Dict.put created.0 tmp image) other
                    (put-Has tmp path image created.0 other kept))
          ]
        ]
      ]

  pack-done : (pack b faults dst tree files).1 ≡ true → Has dst (pack b faults dst tree files).0
  unfolding pack
  pack-done done =
      let tmp = append dst ".tmp" in
      elim (Bool-cases created.1) [
        | inr refused ↦ absurd (ground (arith, rw (refused, pack) at done))
        | inl opened ↦ elim (Bool-cases b.refuses_truncate) [
          | inl refused ↦ absurd (ground (arith, rw (opened, refused, pack) at done))
          | inr sized ↦ elim (Option-cases (b.mkfs tree)) [
            | inl fails ↦ absurd (ground (arith, rw (opened, sized, fails, pack) at done))
            | inr (image, made) ↦
                rw (opened, sized, made, pack)
                  (rename-Has_new faults tmp dst (Dict.put created.0 tmp image)
                    (rw (opened, sized, made, pack) at done))
          ]
        ]
      ]

-- the two promises about one call
abbrev Kept : String → Node → Node × Bool → Type 0
Kept dst n (after, done) =
    ((path : String)
      → str_eq (append dst ".tmp") path ≡ false
      → Has path n.files
      → Has path after.files)
    × (done ≡ true → Has dst after.files)

unchanged : (dst : String) (n : Node) → Kept dst n (n, false)
unchanged dst n = (λ path other here. here, λ done. absurd (ground (arith, done)))

module _ (b : Builder) (dst : String) where
  with_tarball-Kept :
      (faults : Faults) (work self : String) (n : Node) (loaded : Node × Bool)
      → Kept dst n (with_tarball b faults dst work self n loaded)
  unfolding with_tarball
  with_tarball-Kept faults work self n loaded =
      let tarball = Dict.get loaded.0.files (join work "alpine.tar.gz") in
      let assembled = assemble b work self tarball in
      elim (Bool-cases loaded.1) [
        | inr broken ↦
            rw (broken, with_tarball) (unchanged dst (record n { fetched = loaded.0.fetched }))
        | inl whole ↦ elim (Bool-cases assembled.1) [
          | inr stopped ↦
              rw (whole, stopped, with_tarball)
                (unchanged dst (record n { fetched = loaded.0.fetched }))
          | inl complete ↦
              rw (whole, complete, with_tarball)
                (
                  λ path other here. pack-Has b faults dst assembled.0 n.files path other here,
                  λ done. pack-done b faults dst assembled.0 n.files done,
                )
        ]
      ]

  build_in-Kept :
      (h : Host) (arch work self : String) (n : Node)
      → Kept dst n (build_in b h dst arch work self n)
  unfolding build_in
  build_in-Kept h arch work self n =
      let empty_work : Node = record n { files = Dict.empty } in
      with_tarball-Kept h.faults work self n
        (download h (alpine_url arch) (join work "alpine.tar.gz") empty_work)

  build_rootfs-Kept :
      (h : Host) (arch : String) (n : Node) → Kept dst n (build_rootfs b h dst arch n)
  unfolding build_rootfs
  build_rootfs-Kept h arch n = elim (Bool-cases b.has_mkfs) [
    | inr missing ↦ rw (missing, build_rootfs) (unchanged dst n)
    | inl found ↦ elim (Option-cases b.self) [
      | inl lost ↦ rw (found, lost, build_rootfs) (unchanged dst n)
      | inr (self, known) ↦ elim (Option-cases b.work) [
        | inl refused ↦ rw (found, known, refused, build_rootfs) (unchanged dst n)
        | inr (work, fresh) ↦
            rw (found, known, fresh, build_rootfs) (build_in-Kept h arch work self n)
      ]
    ]
  ]

build_rootfs-Builds : (b : Builder) (h : Host) → Builds (build_rootfs b h)
build_rootfs-Builds b h = record {
  keeps = λ dst arch path n other here. (build_rootfs-Kept b dst h arch n).0 path other here;
  makes = λ dst arch n done. (build_rootfs-Kept b dst h arch n).1 done;
}

-- Where Up succeeded, a second Up on the same machine returns the same assets, fetches nothing, builds
-- nothing and changes no file, whatever the network, the failing calls and the tools for the root
-- image are by then. The same machine has the system, the architecture, the home directory and the
-- KVM device of the first run, and its asset directory can be made.
pub up-build_rootfs :
    (h g : Host) (b c : Builder) (n : Node) (a : Assets)
    → SameMachine h g
    → (up h (build_rootfs b h) n).1 ≡ got a
    → let after = (up h (build_rootfs b h) n).0 in up g (build_rootfs c g) after ≡ (after, got a)
up-build_rootfs h g b c n a same done =
    up-up h g (build_rootfs b h) (build_rootfs c g) n a (build_rootfs-Builds b h) same done
