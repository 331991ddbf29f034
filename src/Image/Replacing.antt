-- ===== src/Image/Replacing.antt =====
-- pkg/image/image.go: what happens to the image that was there.
use Prim.Native.String.{◌++◌ as append}
use vessel.Prelude.{
  String, ◌≡◌, refl, ap, ◌∙◌, Bool, false, Option, none, some, arith, str_eq, inl, inr, Bool-cases,
  Option-cases,
}
use vessel.Prelude.Int.{ℤ}
use vessel.Dict
use vessel.Dict.{Dict, get-put, get-remove}
use vessel.Files.{rename, remove, tmp-differs, Has, rename-kept, rename-Has_new, remove-same}
use vessel.Image.{
  Format, unset, erofs, ext4, unknown, Options, Packed, Tools, Source, missing, not_directory,
  directory, is_negative, dir_size_bytes, ext4_bytes, pack_erofs, pack_ext4, choose_format, pack_as,
  stat_size, finish, pack_directory, pack_dir,
}

module _ (t : Tools) (path at : String) (other : str_eq at path ≡ false) where
  put-same :
      (text : String) (files : Dict String)
      → Dict.get (Dict.put files at text) path ≡ Dict.get files path
  put-same text files = ground (arith, get-put files at path text, other)

  pack_ext4-same :
      (extra : ℤ) (files : Dict String)
      → Dict.get (pack_ext4 t at extra files).0 path ≡ Dict.get files path
  unfolding pack_ext4
  pack_ext4-same extra files = elim (Option-cases (dir_size_bytes t.walk)) [
    | inl unreadable ↦ rw (unreadable, pack_ext4) refl
    | inr (used, walked) ↦ elim (Bool-cases t.create_fails) [
      | inl refused ↦ rw (walked, refused, pack_ext4) refl
      | inr created ↦ elim (Bool-cases (is_negative (ext4_bytes used extra))) [
        | inl negative ↦ rw (walked, created, negative, pack_ext4) (put-same "" files)
        | inr fine ↦
            rw (walked, created, fine, pack_ext4)
              (put-same (t.mkfs_ext4 (ext4_bytes used extra)).left files)
      ]
    ]
  ]

  pack_as-same :
      (format : Format) (extra : ℤ) (files : Dict String)
      → Dict.get (pack_as t format at extra files).0 path ≡ Dict.get files path
  unfolding pack_as pack_erofs
  pack_as-same unset extra files = refl
  pack_as-same erofs extra files = put-same t.mkfs_erofs.left files
  pack_as-same ext4 extra files = pack_ext4-same extra files
  pack_as-same (unknown name) extra files = refl

text_of :
    (path : String) (files : Dict String)
    → Has path files
    → (text : String) × (Dict.get files path ≡ some text)
text_of path files h = elim (Option-cases (Dict.get files path)) [
  | inl nothing ↦ absurd (ground (arith, h, nothing))
  | inr found ↦ found
]

-- the image that a call leaves: a new one of the size that it reports, or the one that was there
abbrev pub Replaced : Tools → String → Dict String → Dict String × Option Packed → Type 0
Replaced t dst before (after, none) = Dict.get after dst ≡ Dict.get before dst
Replaced t dst before (after, some p) =
    (text : String) × (Dict.get after dst ≡ some text) × (p.bytes ≡ t.size text) × (p.path ≡ dst)

module _ (t : Tools) (dst : String) where
  finish-Replaced :
      (format : Format) (before files : Dict String) (packed : Bool)
      → Dict.get files dst ≡ Dict.get before dst
      → Replaced t dst before (finish t format dst (files, packed))
  unfolding finish stat_size
  finish-Replaced format before files packed same =
      let tmp = append dst ".tmp" in
      let renamed = rename t.faults tmp dst files in
      elim (Bool-cases packed) [
        | inr failed ↦ rw (failed, finish) same
        | inl made ↦ elim (Bool-cases renamed.1) [
          | inr refused ↦
              rw (made, refused, finish)
                (remove-same t.faults tmp dst renamed.0 (tmp-differs dst)
                  ∙ rename-kept t.faults tmp dst files refused
                  ∙ same)
          | inl moved ↦
              let (text, here) =
                text_of dst renamed.0 (rename-Has_new t.faults tmp dst files moved) in
              rw (made, moved, finish) (text, here, ap (λ x. stat_size t x) here, refl)
        ]
      ]

  pack_directory-Replaced :
      (opts : Options) (files : Dict String)
      → Replaced t dst files (pack_directory t dst opts files)
  unfolding pack_directory
  pack_directory-Replaced opts files =
      let tmp = append dst ".tmp" in
      let cleared = remove t.faults tmp files in
      let format = choose_format t opts.format in
      let packed = pack_as t format tmp opts.extra_mib cleared in
      elim (Bool-cases t.mkdir_fails) [
        | inl fails ↦ rw (fails, pack_directory) refl
        | inr works ↦
            rw (works, pack_directory)
              (finish-Replaced format files packed.0 packed.1 (
                pack_as-same t dst tmp (tmp-differs dst) format opts.extra_mib cleared
                ∙ remove-same t.faults tmp dst files (tmp-differs dst)))
      ]

  pack_source-Replaced :
      (source : Source) (opts : Options) (files : Dict String)
      → t.source ≡ source
      → Replaced t dst files (pack_dir t dst opts files)
  unfolding pack_dir
  pack_source-Replaced missing opts files e = rw (e, pack_dir) refl
  pack_source-Replaced not_directory opts files e = rw (e, pack_dir) refl
  pack_source-Replaced directory opts files e =
      rw (e, pack_dir) (pack_directory-Replaced opts files)

  -- Whichever step of PackDir fails, the image that stood at the destination, if any, is as it was;
  -- where it succeeds, the destination holds an image whose size is the one that it reports.
  pub pack_dir-Replaced :
      (opts : Options) (files : Dict String) → Replaced t dst files (pack_dir t dst opts files)
  pack_dir-Replaced opts files = pack_source-Replaced t.source opts files refl
