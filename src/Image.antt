-- ===== src/Image.antt =====
-- pkg/image/image.go: a root file system packed into a block image. The walk over the source and the
-- two mkfs programs are arguments. An int64 is a number below 2 ^ 64, negative from 2 ^ 63 on.
pub mod Sizes
pub mod Replacing
mod Scenarios
use Prim.Native.String.{◌++◌ as append}
use vessel.Prelude.{
  ℕ, ◌+◌, ◌-◌, ◌*◌, ◌/◌, ◌%◌, ◌^◌, String, Bool, true, false, Option, none, some, List, [], ◌∷◌,
  ltb, ◌||◌, if◌then◌else◌, str_eq,
}
use vessel.Prelude.Int.{ℤ, pos, negsuc, pos_part}
use vessel.Dict
use vessel.Dict.{Dict}
use vessel.Files.{Faults, remove, rename}
use vessel.FilePath.{dir}

pub data Format : Type 0 where
  unset erofs ext4 : Format
  unknown : String → Format

pub record Options : Type 0 where
  pub format : Format
  pub extra_mib : ℤ

pub record Packed : Type 0 where
  pub path : String
  pub format : Format
  pub bytes : ℕ

-- os.Stat of the source
pub data Source : Type 0 where
  missing not_directory directory : Source

-- what a run of mkfs leaves at the path that it was given, and whether it succeeded
pub record Made : Type 0 where
  pub left : String
  pub succeeded : Bool

pub record Tools : Type 0 where
  pub source : Source
  pub has_erofs : Bool
  pub mkdir_fails : Bool
  -- the sizes of the regular files below the source, or an error of the walk
  pub walk : Option (List ℕ)
  pub mkfs_erofs : Made
  -- os.Create of the image file; and mkfs.ext4 on an image of that many bytes
  pub create_fails : Bool
  pub mkfs_ext4 : ℕ → Made
  pub size : String → ℕ
  pub faults : Faults

unfoldable pub sum_sizes : ℕ → List ℕ → ℕ
sum_sizes total [] = total
sum_sizes total (n ∷ ns) = sum_sizes ((total + n) % 2 ^ 64) ns

unfoldable pub dir_size_bytes : Option (List ℕ) → Option ℕ
unfolding sum_sizes
dir_size_bytes none = none
dir_size_bytes (some sizes) = some (sum_sizes 0 sizes)

unfoldable pub is_negative : ℕ → Bool
is_negative n = if ltb n (2 ^ 63) then false else true

-- used/(1<<20), which Go truncates towards zero
unfoldable pub in_mib : ℕ → ℕ
unfolding is_negative
in_mib used =
    if is_negative used then (2 ^ 64 - (2 ^ 64 - used) / 2 ^ 20) % 2 ^ 64 else used / 2 ^ 20

unfoldable pub extra_or_default : ℤ → ℕ
extra_or_default (pos n) = if ltb 0 n then n else 32
extra_or_default (negsuc n) = 32

-- sizeMiB<<20, floored at 32 MiB
unfoldable pub ext4_bytes : ℕ → ℤ → ℕ
unfolding in_mib extra_or_default is_negative
ext4_bytes used extra =
    let size = (in_mib used + extra_or_default extra + 16) % 2 ^ 64 in
    let floored = if is_negative size || ltb size 32 then 32 else size in
    (floored * 2 ^ 20) % 2 ^ 64

-- what a step leaves in the files, with true for a nil error
unfoldable pub pack_erofs : Tools → String → Dict String → Dict String × Bool
pack_erofs t dst files = (Dict.put files dst t.mkfs_erofs.left, t.mkfs_erofs.succeeded)

-- Truncate refuses a negative size, and leaves the empty file that was created
unfoldable pub pack_ext4 : Tools → String → ℤ → Dict String → Dict String × Bool
unfolding dir_size_bytes ext4_bytes is_negative
pack_ext4 t dst extra files = elim (dir_size_bytes t.walk) [
  | none ↦ (files, false)
  | some used ↦
      let bytes = ext4_bytes used extra in
      let made = t.mkfs_ext4 bytes in
      if t.create_fails
      then (files, false)
      else if is_negative bytes
      then (Dict.put files dst "", false)
      else (Dict.put files dst made.left, made.succeeded)
]

unfoldable pub choose_format : Tools → Format → Format
choose_format t unset = if t.has_erofs then erofs else ext4
choose_format t erofs = erofs
choose_format t ext4 = ext4
choose_format t (unknown name) = unknown name

unfoldable pub pack_as : Tools → Format → String → ℤ → Dict String → Dict String × Bool
unfolding pack_erofs pack_ext4
pack_as t unset dst extra files = (files, false)
pack_as t erofs dst extra files = pack_erofs t dst files
pack_as t ext4 dst extra files = pack_ext4 t dst extra files
pack_as t (unknown name) dst extra files = (files, false)

stat_size : Tools → Option String → ℕ
stat_size t none = 0
stat_size t (some text) = t.size text

-- the move over dst, after the packing; where it fails the packed image goes
unfoldable pub finish : Tools → Format → String → Dict String × Bool → Dict String × Option Packed
unfolding rename remove stat_size
finish t format dst (files, packed) =
    let tmp = append dst ".tmp" in
    let (renamed, done) = rename t.faults tmp dst files in
    let result : Packed = record {
      path = dst;
      format = format;
      bytes = stat_size t (Dict.get renamed dst);
    } in
    if packed
    then if done then (renamed, some result) else (remove t.faults tmp renamed, none)
    else (files, none)

unfoldable pub pack_directory : Tools → String → Options → Dict String → Dict String × Option Packed
unfolding choose_format pack_as finish remove
pack_directory t dst opts files =
    let format = choose_format t opts.format in
    let tmp = append dst ".tmp" in
    let packed = pack_as t format tmp opts.extra_mib (remove t.faults tmp files) in
    if t.mkdir_fails then (files, none) else finish t format dst packed

unfoldable pub pack_dir : Tools → String → Options → Dict String → Dict String × Option Packed
unfolding pack_directory
pack_dir t dst opts files = elim t.source [
  | missing ↦ (files, none)
  | not_directory ↦ (files, none)
  | directory ↦ pack_directory t dst opts files
]
